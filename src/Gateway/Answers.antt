-- ===== src/Gateway/Answers.antt =====
-- The filters together: every request is answered.
use pullcord.Base.{ℕ, zero, suc, ◌<◌, ◌≤◌, ◌≡◌, refl, some, length, arith}
use pullcord.Trigger.Handler.Store.{get_elem?_lt, length-set}
use pullcord.Authentication.Session.{Masked, masked}
use pullcord.Authentication.Session.Return.{IsReadable}
use pullcord.Util.Passthru
use pullcord.Gateway.{
  Filter, standard_response, landing, passthru, service, login, cookiemask, conditional, Request,
  State, Env, Reply, dispatch, filter_request,
}
use pullcord.Gateway.Sound.{after_mask-IsSound, masking-calm, Points, IsSound, set-IsSound}
use pullcord.Gateway.Mask.{masking, after_mask, masked_request, dispatch-mask_end}
use pullcord.Gateway.Replies.{masked-IsAnswered}
use pullcord.Gateway.Calls.{
  Answers, NextAnswers, login-Answers, conditional-Answers, service-Answers,
}

module _ (env : Env) (readable : IsReadable env.lib) where
  cookiemask-Answers :
      (next : ℕ → Request → State → Reply × State) (a h m : ℕ) (req : Request) (s : State)
      → NextAnswers env a next
      → m < a
      → IsSound env s
      → a ≤ length s.filters
      → Answers env s (dispatch env next a (some (cookiemask h m)) req s)
  cookiemask-Answers next a h m req s ih lt w l =
      let w' = after_mask-IsSound env h req s w in by_mask w' (masking env h req s).0 refl
    where
      by_mask :
          IsSound env (after_mask env h req s)
          → (o : Masked) → (masking env h req s).0 ≡ o
          → Answers env s (dispatch env next a (some (cookiemask h m)) req s)
      by_mask w' Masked.panicked q = absurd (masking-calm env h req s readable w q)
      by_mask w' Masked.out_of_fuel q =
          rw (dispatch-mask_end env h req s next a m Masked.out_of_fuel q)
            (record { answered = tt; sound = w'; same_length = refl })
      by_mask w' (masked f set) q =
          let next_req = masked_request env h req s f in
          let below = ih m next_req (after_mask env h req s) lt w' l in
          rw (dispatch-mask_end env h req s next a m (masked f set) q) (record {
            answered =
                masked-IsAnswered (next m next_req (after_mask env h req s)).0 set below.answered;
            sound = below.sound;
            same_length = below.same_length;
          })

  dispatch-Answers :
      (next : ℕ → Request → State → Reply × State) (a : ℕ) (f : Filter) (req : Request) (s : State)
      → NextAnswers env a next
      → Points a (length s.net.world.objects) f
      → IsSound env s
      → a ≤ length s.filters
      → Answers env s (dispatch env next a (some f) req s)
  unfolding dispatch
  dispatch-Answers next a (standard_response t) req s ih p w l = record {
    answered = tt;
    sound = w;
    same_length = refl;
  }
  dispatch-Answers next a landing req s ih p w l = record {
    answered = tt;
    sound = w;
    same_length = refl;
  }
  dispatch-Answers next a (passthru f) req s ih p w l =
      let (u, f') = Passthru.filter_request f in
      record {
        answered = tt;
        sound = set-IsSound env a (passthru f') s w tt;
        same_length = length-set s.filters a (passthru f');
      }
  dispatch-Answers next a (service svc) req s ih p w l = service-Answers env next a svc req s p w
  dispatch-Answers next a (login i c d) req s ih p w l =
      login-Answers env next a i c d req s ih p w l
  dispatch-Answers next a (cookiemask h m) req s ih p w l =
      cookiemask-Answers next a h m req s ih p w l
  dispatch-Answers next a (conditional t x y z) req s ih p w l =
      conditional-Answers env next a t x y z req s ih p w l

  -- A request to a filter gets a response, and leaves such a store.
  pub filter_request-Answers :
      (fuel a : ℕ) (req : Request) (s : State)
      → IsSound env s
      → a < length s.filters
      → a < fuel
      → Answers env s (filter_request env fuel a req s)
  unfolding filter_request
  filter_request-Answers zero a req s w l h = elim h [ ]
  filter_request-Answers (suc fuel) a req s w l h =
      let (f, found) = get_elem?_lt s.filters a l in
      rw (filter_request, found)
        (dispatch-Answers (filter_request env fuel) a f req s
          (λ b req' s' lt w' l'.
            filter_request-Answers fuel b req' s' w' (omega arith) (omega arith))
          (w.points a f found) w (omega arith))
