-- ===== src/Gateway/Behind.antt =====
-- The filters together: without good credentials no request gets behind a login.
use pullcord.Base.{
  Any, ℕ, zero, suc, ◌+◌, Bool, true, false, ◌≡◌, refl, ◌∙◌, ◌⊎◌, inl, inr, Option, none, some,
  List, [], ◌∷◌, String, Error, get_elem?, All, Option-cases,
}
use mathlib.Core.Path.{subst}
use pullcord.Authentication.Session.{Masked, masked}
use pullcord.Authentication.CookieFilter.Flags.{IsUnset}
use pullcord.Gateway.{
  Filter, standard_response, landing, passthru, service, login, cookiemask, conditional, Request,
  State, Env, Reply, standard_page, landing_page, login_request, conditional_request, dispatch,
  filter_request, filter_all,
}
use pullcord.Gateway.Mask.{
  EachOf, masking, after_mask, masked_request, after_mask-EachOf, dispatch-mask_end,
}
use pullcord.Gateway.Guard.{
  IsOwn, masked-IsOwn, Guarded, IsGuard, Good, Held, Held-from, still, NextHolds, guard-Held,
  other-Held,
}

module _ (env : Env) (i : String) (C P : ℕ → Type 0) where
  login-Held :
      (next : ℕ → Request → State → Reply × State) (a : ℕ) (j : String) (k d : ℕ) (req : Request)
      (s : State)
      → NextHolds env i C P next
      → Guarded i C P (login j k d)
      → IsGuard i C P s.filters
      → EachOf (IsUnset i) s
      → Held env i C req s (dispatch env next a (some (login j k d)) req s)
  unfolding dispatch standard_page
  login-Held next a j k d req s ih p g w = by_context req.context refl p
    where
      by_context :
          (o : Option (ℕ × ℕ))
          → req.context ≡ o
          → Guarded i C P (login j k d)
          → Held env i C req s (dispatch env next a (some (login j k d)) req s)
      by_context none q p = rw (dispatch, q) (still env i C req s _ tt w)
      by_context (some (h, b)) q (inl (si, sc)) =
          rw (dispatch, q)
            (subst (λ j'. Held env i C req s (login_request env next j' k d req (h, b) s)) si
              (guard-Held env i C P next k d req h b s sc w))
      by_context (some (h, b)) q (inr (ne, pd)) =
          rw (dispatch, q) (other-Held env i C P next j k d req h b s ih ne pd g w)

  conditional-Held :
      (next : ℕ → Request → State → Reply × State) (test x y z : ℕ) (req : Request) (s : State)
      → NextHolds env i C P next
      → P x × P y × P z
      → IsGuard i C P s.filters
      → EachOf (IsUnset i) s
      → Held env i C req s (conditional_request env next test x y z req s)
  unfolding conditional_request
  conditional-Held next test x y z req s ih (px, py, pz) g w =
      by_test (env.test test s.tests req) refl
    where
      s' : State
      s' = record s { tests = s.tests + 1 }

      goes_on : (b : ℕ) → P b → Held env i C req s (next b req s')
      goes_on b p = Held-from env i C req s s' (next b req s') refl refl (ih b req s' p g w)

      by_test :
          (o : Bool ⊎ Error)
          → env.test test s.tests req ≡ o
          → Held env i C req s (conditional_request env next test x y z req s)
      by_test (inl true) q = rw (conditional_request, q) (goes_on x px)
      by_test (inl false) q = rw (conditional_request, q) (goes_on y py)
      by_test (inr e) q = rw (conditional_request, q) (goes_on z pz)

  cookiemask-Held :
      (next : ℕ → Request → State → Reply × State) (a h m : ℕ) (req : Request) (s : State)
      → NextHolds env i C P next
      → P m
      → IsGuard i C P s.filters
      → EachOf (IsUnset i) s
      → Held env i C req s (dispatch env next a (some (cookiemask h m)) req s)
  cookiemask-Held next a h m req s ih p g w = by_mask (masking env h req s).0 refl
    where
      after : State
      after = after_mask env h req s

      w' : EachOf (IsUnset i) after
      w' = after_mask-EachOf env h req s (IsUnset i) w

      end_of : (r : Reply) → IsOwn r → Held env i C req s (r, after)
      end_of r own =
          Held-from env i C req s after (r, after) refl refl (still env i C req after r own w')

      by_mask :
          (o : Masked)
          → (masking env h req s).0 ≡ o
          → Held env i C req s (dispatch env next a (some (cookiemask h m)) req s)
      by_mask Masked.panicked q =
          rw (dispatch-mask_end env h req s next a m Masked.panicked q)
            (end_of Reply.masking_panicked tt)
      by_mask Masked.out_of_fuel q =
          rw (dispatch-mask_end env h req s next a m Masked.out_of_fuel q)
            (end_of Reply.masking_out_of_fuel tt)
      by_mask (masked f set) q =
          rw (dispatch-mask_end env h req s next a m (masked f set) q)
            (elim (ih m (masked_request env h req s f) after p g w') [
              | inr good ↦ inr good
              | inl u ↦ inl (record {
                unset = u.unset;
                filters = u.filters;
                net = u.net;
                own = masked-IsOwn (next m (masked_request env h req s f) after).0 set u.own;
              })
            ])

  dispatch-Held :
      (next : ℕ → Request → State → Reply × State) (a : ℕ) (f : Filter) (req : Request) (s : State)
      → NextHolds env i C P next
      → Guarded i C P f
      → IsGuard i C P s.filters
      → EachOf (IsUnset i) s
      → Held env i C req s (dispatch env next a (some f) req s)
  unfolding dispatch standard_page landing_page
  dispatch-Held next a (standard_response t) req s ih p g w = still env i C req s _ tt w
  dispatch-Held next a landing req s ih p g w = still env i C req s _ tt w
  dispatch-Held next a (passthru f) req s ih p g w = absurd p
  dispatch-Held next a (service svc) req s ih p g w = absurd p
  dispatch-Held next a (login j k d) req s ih p g w = login-Held next a j k d req s ih p g w
  dispatch-Held next a (cookiemask h m) req s ih p g w = cookiemask-Held next a h m req s ih p g w
  dispatch-Held next a (conditional t x y z) req s ih p g w =
      conditional-Held next t x y z req s ih p g w

  filter_request-Held :
      (fuel a : ℕ) (req : Request) (s : State)
      → P a
      → IsGuard i C P s.filters
      → EachOf (IsUnset i) s
      → Held env i C req s (filter_request env fuel a req s)
  unfolding filter_request dispatch
  filter_request-Held zero a req s p g w = still env i C req s Reply.out_of_fuel tt w
  filter_request-Held (suc fuel) a req s p g w = elim (Option-cases (get_elem? s.filters a)) [
    | inl missing ↦ rw (filter_request, missing) (still env i C req s Reply.panicked tt w)
    | inr (f, found) ↦
        rw (filter_request, found)
          (dispatch-Held (filter_request env fuel) a f req s (filter_request-Held fuel)
            (g.guarded a f p found) g w)
  ]

  -- From sessions without the flag of a login identifier on, requests to a filter that reaches proxies
  -- and services only through login handlers with this identifier and certain password checkers,
  -- whatever they bring, get replies of the program's own, and leave every service and all that
  -- services see as they were: nothing is dialled, triggered or forwarded, unless one of the requests
  -- carries a user name and password, once each, that one of these password checkers accepts.
  pub filter_all_needs_password :
      (fuel a : ℕ) (reqs : List Request) (s : State)
      → P a
      → IsGuard i C P s.filters
      → EachOf (IsUnset i) s
      → ((filter_all env fuel a reqs s).1.net ≡ s.net
          × (filter_all env fuel a reqs s).1.filters ≡ s.filters
          × All IsOwn (filter_all env fuel a reqs s).0)
        ⊎ Any (Good env i C) reqs
  unfolding filter_all
  filter_all_needs_password fuel a [] s p g w = inl (refl, refl, tt)
  filter_all_needs_password fuel a (req ∷ reqs) s p g w =
      elim (filter_request-Held fuel a req s p g w) [
        | inr good ↦ inr (inl good)
        | inl u ↦
            elim (filter_all_needs_password fuel a reqs (filter_request env fuel a req s).1 p
              (rw u.filters g) u.unset) [
                | inr good ↦ inr (inr good)
                | inl (net, filters, own) ↦ inl (net ∙ u.net, filters ∙ u.filters, (u.own, own))
              ]
      ]
