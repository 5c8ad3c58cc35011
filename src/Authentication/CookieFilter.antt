-- ===== src/Authentication/CookieFilter.antt =====
-- authentication/cookiemask.go: `CookiemaskFilter.FilterRequest`, over any session handler and any
-- masked filter.
pub mod Sharing
pub mod Lasting
pub mod Flags
pub mod Visitors
pub mod FirstLogin
mod Tests
use pullcord.Base.{ℕ, ◌⊎◌, inl, inr, Option, none, some, List, [], ◌∷◌, String, Error}
use pullcord.Authentication.Session
use pullcord.Authentication.Session.{Cookie, Handler, Library, Rand, Masked, masked}
use pullcord.Authentication.Login
use pullcord.Authentication.Login.{Form, session}
use pullcord.Authentication.Login.Keys.{min_session}

-- What `CookieMask` returns: the cookies to forward, those to set, and an error.
pub data Outcome : Type 0 where
  outcome : List Cookie → List Cookie → Option Error → Outcome
  panicked out_of_fuel : Outcome

-- The interface `SessionHandler` and the `CookieMask` of its sessions, over the state that they have.
pub record HandlerOps (H S : Type 0) : Type 0 where
  pub get_session : H → (S ⊎ Error) × H
  pub cookie_mask : S → List Cookie → H → Outcome × H

-- How the filter ends: with a response, its own error page or that of the masked filter, and the
-- cookies that it adds; without one, if the masked filter gives none and no cookie is to be added;
-- or, by fault of `CookieMask` or of the masked filter, not at all.
pub data Reply (R : Type 0) : Type 0 where
  internal_server_error : List Cookie → Reply R
  response : R → List Cookie → Reply R
  no_response : Reply R
  masking_panicked masking_out_of_fuel : Reply R
  panicked out_of_fuel : Reply R

-- What the masked filter gives: a response, none, or no end.
pub data Served (R : Type 0) : Type 0 where
  served : R → Served R
  nothing masking_panicked masking_out_of_fuel panicked out_of_fuel : Served R

-- `resp.Header.Add` for each of the cookies: without a response, the first of them panics.
unfoldable pub add_cookies : {R : Type 0} → Served R → List Cookie → Reply R
add_cookies (served r) cookies = response r cookies
add_cookies nothing [] = no_response
add_cookies nothing (c ∷ cs) = panicked
add_cookies masking_panicked cookies = masking_panicked
add_cookies masking_out_of_fuel cookies = masking_out_of_fuel
add_cookies panicked cookies = panicked
add_cookies out_of_fuel cookies = out_of_fuel

module _ {H S R : Type 0} (ops : HandlerOps H S)
    (downstream : S → List Cookie → H → Served R × H) where
  -- `FilterRequest`: the masked filter is called with the session in the request's context, and with
  -- the forwarded cookies in place of the request's.
  unfoldable pub filter_request : List Cookie → H → Reply R × H
  unfolding add_cookies
  filter_request cookies h =
      let (g, h') = ops.get_session h in
      elim g [
        | inr e ↦ (internal_server_error [], h')
        | inl s ↦
            let (o, h'') = ops.cookie_mask s cookies h' in
            elim o [
              | panicked ↦ (masking_panicked, h'')
              | out_of_fuel ↦ (masking_out_of_fuel, h'')
              | outcome f set err ↦ elim err [
                | some e ↦ (internal_server_error set, h'')
                | none ↦ let (r, h''') = downstream s f h'' in (add_cookies r set, h''')
              ]
            ]
      ]

-- What `CookieMask` of a `MinSession` returns.
abbrev pub as_outcome : Masked → Outcome
as_outcome (masked f s) = outcome f s none
as_outcome Masked.panicked = panicked
as_outcome Masked.out_of_fuel = out_of_fuel

-- `MinSessionHandler`, with how often `crypto/rand` was read.
pub min_handler : Library → ℕ → HandlerOps (Handler × ℕ) ℕ
min_handler lib fuel = record {
  get_session = λ s. let (a, h) = Session.get_session s.0 in (inl a, (h, s.1));
  cookie_mask = λ a cookies s.
      let (m, h, k) = Session.cookie_mask lib fuel a cookies s.0 s.1 in (as_outcome m, (h, k));
}

-- A login handler as the masked filter, for a request with this form and path, and this read of
-- random bytes.
abbrev pub as_served : Login.Reply → Served Login.Reply
as_served Login.Reply.panicked = panicked
as_served r = served r

abbrev pub masked_login :
    (String → String → Option Error)
    → String
    → Rand
    → Form
    → String
    → ℕ
    → List Cookie
    → Handler × ℕ
    → Served Login.Reply × (Handler × ℕ)
masked_login checker identifier rand form path a cookies s =
    let (r, h) =
      Login.filter_request (min_session a) checker identifier rand
        (record { context = session; form = form; path = path }) s.0 in
    (as_served r, (h, s.1))
