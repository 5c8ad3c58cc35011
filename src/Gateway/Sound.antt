-- ===== src/Gateway/Sound.antt =====
-- The filters together: stores in which a request ends, and what keeps them so.
use pullcord.Base.{
  ℕ, ◌<◌, ◌≤◌, ◌≡◌, ◌≢◌, Bool-cases, ◌==◌, inl, inr, some, String, length, get_elem?, set,
}
use mathlib.Core.Path.{subst₂}
use pullcord.Trigger.Handler.Store.{IsOrdered, get_elem?-set_cases}
use pullcord.Monitor.Service.{Passthru}
use pullcord.Monitor.Service.Outcome.{IsReady}
use pullcord.Authentication.Session.{Value, string, Handler, Masked, get_session}
use pullcord.Authentication.Session.Return.{IsReadable}
use pullcord.Authentication.Session.Calm.{Compiles, cookie_mask-Compiles, cookie_mask-calm}
use pullcord.Authentication.Session.Values.{Each}
use pullcord.Authentication.Login.{xsrf_key}
use pullcord.Gateway.Mask.{
  EachOf, set_handler-EachOf, after_open, masking, after_mask, after_mask-EachOf,
}
use pullcord.Gateway.{
  Request, Filter, standard_response, landing, passthru, service, login, cookiemask, conditional,
  State, Env, set_handler,
}

-- The filter at `a` points to earlier filters, as where a constructor is given the filters that it
-- keeps; a service has its triggers in a store of `objects` and its proxy.
abbrev pub Points : ℕ → ℕ → Filter → Type 0
Points a objects (standard_response t) = Unit
Points a objects landing = Unit
Points a objects (passthru p) = Unit
Points a objects (service svc) = (p : Passthru) × IsReady objects svc p
Points a objects (login identifier checker downstream) = downstream < a
Points a objects (cookiemask handler target) = target < a
Points a objects (conditional test on_true on_false on_error) =
    (on_true < a) × (on_false < a) × (on_error < a)

-- An entry that has the key of a token is a text.
abbrev pub IsToken : String → Value → Type 0
IsToken j x = (i : String) → j ≡ xsrf_key i → (t : String) × (x ≡ string t)

-- Filters and triggers point to earlier ones, there is fuel for the triggers, and what the sessions have
-- for tokens are texts, and the patterns of the handlers' names compile.
pub record IsSound (env : Env) (s : State) : Type 0 where
  pub points :
      (a : ℕ) (f : Filter)
      → get_elem? s.filters a ≡ some f
      → Points a (length s.net.world.objects) f
  pub ordered : IsOrdered s.net.world.objects
  pub fuelled : length s.net.world.objects ≤ env.trigger_fuel
  pub tokens : EachOf IsToken s
  pub compiles : (h : ℕ) → Compiles env.lib (s.handlers h)

module _ (env : Env) where
  set_handler-Compiles :
      (a : ℕ) (h : Handler) (s : State)
      → ((b : ℕ) → Compiles env.lib (s.handlers b))
      → Compiles env.lib h
      → (b : ℕ) → Compiles env.lib ((set_handler a h s).handlers b)
  set_handler-Compiles a h s w d b = elim (Bool-cases (a == b)) [
    | inl here ↦ rw here d
    | inr other ↦ rw other (w b)
  ]

  -- What becomes of one session handler.
  pub set_handler-IsSound :
      (a : ℕ) (h : Handler) (s : State)
      → IsSound env s
      → Each IsToken h
      → Compiles env.lib h
      → IsSound env (set_handler a h s)
  set_handler-IsSound a h s w t d = record {
    points = w.points;
    ordered = w.ordered;
    fuelled = w.fuelled;
    tokens = set_handler-EachOf IsToken a h s w.tokens t;
    compiles = set_handler-Compiles a h s w.compiles d;
  }

  -- Numbers that no filter looks at.
  pub counted-IsSound :
      (reads tests : ℕ) (s : State)
      → IsSound env s
      → IsSound env (record s { reads = reads; tests = tests })
  counted-IsSound reads tests s w = record {
    points = w.points;
    ordered = w.ordered;
    fuelled = w.fuelled;
    tokens = w.tokens;
    compiles = w.compiles;
  }

  -- A write of a filter.
  pub set-IsSound :
      (a : ℕ) (f : Filter) (s : State)
      → IsSound env s
      → Points a (length s.net.world.objects) f
      → IsSound env (record s { filters = set s.filters a f })
  set-IsSound a f s w p = record {
    points = λ b x e. elim (get_elem?-set_cases s.filters a b f x e) [
      | inl (q, r) ↦ subst₂ (λ c y. Points c (length s.net.world.objects) y) q r p
      | inr k ↦ w.points b x k
    ];
    ordered = w.ordered;
    fuelled = w.fuelled;
    tokens = w.tokens;
    compiles = w.compiles;
  }

  -- The patterns, once a session is open.
  opened-Compiles :
      (h : ℕ) (req : Request) (s : State)
      → IsSound env s
      → (b : ℕ) → Compiles env.lib ((after_open env h req s).handlers b)
  opened-Compiles h req s w =
      set_handler-Compiles h (get_session (s.handlers h)).1 s w.compiles
        (unfold get_session in w.compiles h)

  -- `CookieMask`, however it ends, leaves such a store.
  pub after_mask-IsSound :
      (h : ℕ) (req : Request) (s : State) → IsSound env s → IsSound env (after_mask env h req s)
  after_mask-IsSound h req s w = record {
    points = w.points;
    ordered = w.ordered;
    fuelled = w.fuelled;
    tokens = after_mask-EachOf env h req s IsToken w.tokens;
    compiles =
        set_handler-Compiles h (masking env h req s).1 (after_open env h req s)
          (opened-Compiles h req s w)
          (cookie_mask-Compiles env.lib env.name_fuel (get_session (s.handlers h)).0 req.cookies
            ((after_open env h req s).handlers h) s.reads (opened-Compiles h req s w h));
  }

  -- And it does not panic, if every read succeeds.
  pub masking-calm :
      (h : ℕ) (req : Request) (s : State)
      → IsReadable env.lib
      → IsSound env s
      → (masking env h req s).0 ≢ Masked.panicked
  masking-calm h req s reads w =
      cookie_mask-calm env.lib env.name_fuel (get_session (s.handlers h)).0 req.cookies
        ((after_open env h req s).handlers h) s.reads (opened-Compiles h req s w h) reads
