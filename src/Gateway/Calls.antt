-- ===== src/Gateway/Calls.antt =====
-- The filters together: how a request ends at a filter, given how it ends at those that the filter calls.
use pullcord.Base.{
  ℕ, ◌+◌, ◌<◌, ◌≤◌, Bool, true, false, ◌≡◌, refl, ap, ◌∙◌, ◌⊎◌, inl, inr, Option, none, some,
  String, Error, length, arith,
}
use pullcord.Trigger.Handler.Store.{length-set}
use pullcord.Monitor.Service
use pullcord.Monitor.Service.{Service, Passthru, status}
use pullcord.Monitor.Service.Outcome.{filter_request-IsJustified}
use pullcord.Monitor.Service.Persists.{filter_request-Persists}
use pullcord.Authentication.Login
use pullcord.Authentication.Login.{got, session, auth_key, xsrf_key}
use pullcord.Authentication.Login.Keys.{min_session}
use pullcord.Authentication.Login.Panic.{IsCalm, filter_request-IsCalm}
use pullcord.Gateway.{
  service, login, Request, State, Env, Reply, set_handler, after_login, login_request,
  conditional_request, dispatch,
}
use pullcord.Gateway.Replies.{
  IsAnswered, service-IsAnswered, login-tokens, login-Compiles, has_text_token,
}
use pullcord.Gateway.Sound.{Points, IsSound, set_handler-IsSound, counted-IsSound, set-IsSound}

module _ (env : Env) where
  pub record Answers (s : State) (x : Reply × State) : Type 0 where
    pub answered : IsAnswered x.0
    pub sound : IsSound env x.1
    pub same_length : length x.1.filters ≡ length s.filters

  -- The same from a state with the same filters.
  pub Answers-from :
      (s s' : State) (x : Reply × State) → s'.filters ≡ s.filters → Answers s' x → Answers s x
  Answers-from s s' x e h = record {
    answered = h.answered;
    sound = h.sound;
    same_length = h.same_length ∙ ap length e;
  }

  -- Filters below `a` answer: the hypothesis of the induction.
  abbrev pub NextAnswers : ℕ → (ℕ → Request → State → Reply × State) → Type 0
  NextAnswers a next =
      (b : ℕ) (req : Request) (s : State)
      → b < a
      → IsSound env s
      → a ≤ length s.filters
      → Answers s (next b req s)

  after_login-Answers :
      (next : ℕ → Request → State → Reply × State) (a : ℕ) (i : String) (d : ℕ) (req : Request)
      (r : Login.Reply) (s : State)
      → NextAnswers a next
      → IsCalm r
      → d < a
      → IsSound env s
      → a ≤ length s.filters
      → Answers s (after_login env next i d req r s)
  after_login-Answers next a i d req Login.Reply.downstream s ih c lt w l = ih d req s lt w l
  after_login-Answers next a i d req Login.Reply.internal_server_error s ih c lt w l = record {
    answered = tt;
    sound = w;
    same_length = refl;
  }
  after_login-Answers next a i d req (Login.Reply.login_page x y z) s ih c lt w l = record {
    answered = tt;
    sound = w;
    same_length = refl;
  }
  after_login-Answers next a i d req Login.Reply.panicked s ih c lt w l = absurd c

  session-Answers :
      (next : ℕ → Request → State → Reply × State) (a : ℕ) (i : String) (c d : ℕ) (req : Request)
      (h b : ℕ) (s : State)
      → NextAnswers a next
      → d < a
      → IsSound env s
      → a ≤ length s.filters
      → Answers s (login_request env next i c d req (h, b) s)
  unfolding login_request
  session-Answers next a i c d req h b s ih lt w l =
      let lreq : Login.Request = record { context = session; form = req.form; path = req.path } in
      let rand = env.lib.read s.reads 64 in
      let (r, h') =
        Login.filter_request (min_session b) (env.check_password c) i rand lreq (s.handlers h) in
      let t = login-tokens (env.check_password c) i b rand lreq (s.handlers h) (w.tokens h) in
      let s' = record (set_handler h h' s) { reads = s.reads + 1 } in
      let w' = counted-IsSound env (s.reads + 1) s.tests (set_handler h h' s) (
        set_handler-IsSound env h h' s w t (
          login-Compiles env.lib (env.check_password c) i b rand lreq (s.handlers h)
            (w.compiles h))) in
      let calm =
        filter_request-IsCalm (min_session b) (env.check_password c) i (s.handlers h) rand req.form
          req.path (has_text_token i b (s.handlers h) (w.tokens h)) in
      Answers-from s s' (after_login env next i d req r s') refl
        (after_login-Answers next a i d req r s' ih calm lt w' l)

  pub login-Answers :
      (next : ℕ → Request → State → Reply × State) (a : ℕ) (i : String) (c d : ℕ) (req : Request)
      (s : State)
      → NextAnswers a next
      → d < a
      → IsSound env s
      → a ≤ length s.filters
      → Answers s (dispatch env next a (some (login i c d)) req s)
  unfolding dispatch
  login-Answers next a i c d req s ih lt w l = by_context req.context refl
    where
      by_context :
          (o : Option (ℕ × ℕ))
          → req.context ≡ o
          → Answers s (dispatch env next a (some (login i c d)) req s)
      by_context none q = rw (dispatch, q) (record { answered = tt; sound = w; same_length = refl })
      by_context (some (h, b)) q =
          rw (dispatch, q) (session-Answers next a i c d req h b s ih lt w l)

  pub conditional-Answers :
      (next : ℕ → Request → State → Reply × State) (a test x y z : ℕ) (req : Request) (s : State)
      → NextAnswers a next
      → (x < a) × (y < a) × (z < a)
      → IsSound env s
      → a ≤ length s.filters
      → Answers s (conditional_request env next test x y z req s)
  unfolding conditional_request
  conditional-Answers next a test x y z req s ih (lx, ly, lz) w l =
      by_test (env.test test s.tests req) refl
    where
      s' : State
      s' = record s { tests = s.tests + 1 }

      w' : IsSound env s'
      w' = counted-IsSound env s.reads (s.tests + 1) s w

      by_test :
          (o : Bool ⊎ Error)
          → env.test test s.tests req ≡ o
          → Answers s (conditional_request env next test x y z req s)
      by_test (inl true) q =
          rw (conditional_request, q) (Answers-from s s' (next x req s') refl (ih x req s' lx w' l))
      by_test (inl false) q =
          rw (conditional_request, q) (Answers-from s s' (next y req s') refl (ih y req s' ly w' l))
      by_test (inr e) q =
          rw (conditional_request, q) (Answers-from s s' (next z req s') refl (ih z req s' lz w' l))

  pub service-Answers :
      (next : ℕ → Request → State → Reply × State) (a : ℕ) (svc : Service) (req : Request)
      (s : State)
      → Points a (length s.net.world.objects) (service svc)
      → IsSound env s
      → Answers s (dispatch env next a (some (service svc)) req s)
  unfolding dispatch
  service-Answers next a svc req s (p, ready) w =
      let k =
        filter_request-Persists env.net env.trigger_fuel svc p s.net w.ordered w.fuelled ready in
      let x = Service.filter_request env.net env.trigger_fuel svc s.net in
      record {
        answered = service-IsAnswered (status env.net svc s.net).0 p x.0 (
            filter_request-IsJustified env.net env.trigger_fuel svc p s.net w.ordered w.fuelled
              ready);
        sound = record {
          points = λ b f e.
              rw k.0.same_length ((set-IsSound env a (service x.1) s w (p, k.1)).points b f e);
          ordered = k.0.ordered;
          fuelled = omega (arith, k.0.same_length, w.fuelled);
          tokens = w.tokens;
          compiles = w.compiles;
        };
        same_length = length-set s.filters a (service x.1);
      }
