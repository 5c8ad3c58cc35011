-- ===== src/Gateway/Mask.antt =====
-- The filters together: the states of a request to a cookie masking filter, and its end by the end of
-- `CookieMask`.
use pullcord.Base.{ℕ, ◌≡◌, refl, some, List, String, Bool-cases, inl, inr, ◌==◌}
use pullcord.Authentication.Session
use pullcord.Authentication.Session.{Value, Handler, Masked, masked}
use pullcord.Authentication.Session.Values.{Each, get_session-Each, cookie_mask-Each}
use pullcord.Authentication.CookieFilter
use pullcord.Authentication.CookieFilter.{add_cookies}
use pullcord.Gateway.{
  cookiemask, Request, State, Env, Reply, as_served, of_masked, set_handler, dispatch,
}

-- A property of every value of every session of every handler.
abbrev pub EachOf : (String → Value → Type 0) → State → Type 0
EachOf P s = (a : ℕ) → Each P (s.handlers a)

pub set_handler-EachOf :
    (P : String → Value → Type 0) (a : ℕ) (h : Handler) (s : State)
    → EachOf P s
    → Each P h
    → EachOf P (set_handler a h s)
set_handler-EachOf P a h s w v b = elim (Bool-cases (a == b)) [
  | inl here ↦ rw here v
  | inr other ↦ rw other (w b)
]

module _ (env : Env) (h : ℕ) (req : Request) (s : State) where
  -- `GetSession`: the session, and the state after it.
  abbrev opened : ℕ × Handler
  opened = Session.get_session (s.handlers h)

  abbrev pub after_open : State
  after_open = set_handler h opened.1 s

  -- `CookieMask`
  abbrev pub masking : Masked × Handler × ℕ
  masking =
      Session.cookie_mask env.lib env.name_fuel opened.0 req.cookies (after_open.handlers h)
        after_open.reads

  abbrev pub after_mask : State
  after_mask = record (set_handler h masking.1 after_open) { reads = masking.2 }

  -- The request as the masked filter gets it.
  abbrev pub masked_request : List Session.Cookie → Request
  masked_request forwarded = record req { cookies = forwarded; context = some (h, opened.0) }

  pub after_mask-EachOf : (P : String → Value → Type 0) → EachOf P s → EachOf P after_mask
  after_mask-EachOf P w =
      let w' = set_handler-EachOf P h opened.1 s w (get_session-Each P (s.handlers h) (w h)) in
      set_handler-EachOf P h masking.1 after_open w' (
        cookie_mask-Each P env.lib env.name_fuel opened.0 req.cookies (after_open.handlers h)
          after_open.reads (w' h))

  -- How the filter ends when `CookieMask` ends so.
  abbrev pub mask_end : (ℕ → Request → State → Reply × State) → ℕ → Masked → Reply × State
  mask_end next m Masked.panicked = (Reply.masking_panicked, after_mask)
  mask_end next m Masked.out_of_fuel = (Reply.masking_out_of_fuel, after_mask)
  mask_end next m (masked f set) =
      let (r, s') = next m (masked_request f) after_mask in
      (of_masked (add_cookies (as_served r) set), s')

  pub dispatch-mask_end :
      (next : ℕ → Request → State → Reply × State) (a m : ℕ) (o : Masked)
      → masking.0 ≡ o
      → dispatch env next a (some (cookiemask h m)) req s ≡ mask_end next m o
  unfolding dispatch CookieFilter.filter_request
  dispatch-mask_end next a m Masked.panicked q = rw (dispatch, CookieFilter.filter_request, q) refl
  dispatch-mask_end next a m Masked.out_of_fuel q =
      rw (dispatch, CookieFilter.filter_request, q) refl
  dispatch-mask_end next a m (masked f set) q = rw (dispatch, CookieFilter.filter_request, q) refl
