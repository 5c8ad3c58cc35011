-- ===== src/Authentication/CookieFilter/Visitors.antt =====
-- authentication/cookiemask.go, minsession.go and login_handler.go together: requests of any visitors,
-- with any cookies.
use pullcord.Base.{Any, ℕ, ◌≡◌, ◌⊎◌, refl, inl, inr, Option, List, [], ◌∷◌, String, Error}
use pullcord.Authentication.Session.{
  Cookie, Handler, Library, Rand, Masked, masked, new_min_session_handler, get_session, cookie_mask,
}
use pullcord.Authentication.Login
use pullcord.Authentication.Login.{
  Got, got, missing, Form, Request, downstream, session, auth_key, xsrf_key,
}
use pullcord.Authentication.Login.Keys.{min_session}
use pullcord.Authentication.Login.State.{Admissible}
use pullcord.Authentication.CookieFilter.Flags.{NoFlag, IsUnset, login-NoFlag, downstream-NoFlag}
use pullcord.Authentication.Session.Values.{new-Each, get_session-Each, cookie_mask-Each}
use pullcord.Authentication.CookieFilter.Lasting.{after_mask}
use pullcord.Authentication.CookieFilter.{
  Reply, response, internal_server_error, no_response, filter_request, min_handler, add_cookies,
  as_served, masked_login,
}

-- A request: its cookies, form and path, with the read of random bytes for it.
pub record Visit : Type 0 where
  pub cookies : List Cookie
  pub rand : Rand
  pub form : Form
  pub path : String

module _ (lib : Library) (fuel : ℕ) (checker : String → String → Option Error) (i : String) where
  pub serve : Visit → Handler × ℕ → Reply Login.Reply × (Handler × ℕ)
  unfolding filter_request min_handler
  serve v s =
      filter_request (min_handler lib fuel) (masked_login checker i v.rand v.form v.path) v.cookies
        s

  -- Requests one after the other, whoever sends them.
  unfoldable pub serve_all : List Visit → Handler × ℕ → List (Reply Login.Reply) × (Handler × ℕ)
  unfolding serve
  serve_all [] s = ([], s)
  serve_all (v ∷ later) s =
      let (reply, s') = serve v s in
      let (replies, s'') = serve_all later s' in (reply ∷ replies, s'')

-- The login handler let the request through.
abbrev pub IsThrough : Reply Login.Reply → Type 0
IsThrough (response r cookies) = r ≡ downstream
IsThrough (internal_server_error cookies) = ⊥
IsThrough no_response = ⊥
IsThrough Reply.masking_panicked = ⊥
IsThrough Reply.masking_out_of_fuel = ⊥
IsThrough Reply.panicked = ⊥
IsThrough Reply.out_of_fuel = ⊥

module _ (lib : Library) (fuel : ℕ) (checker : String → String → Option Error) (i : String) where
  -- What a request does: it sets the flag only with good credentials, and is let through without it
  -- only with them.
  abbrev IsHonest : Form → Reply Login.Reply × (Handler × ℕ) → Type 0
  IsHonest form x =
      (NoFlag i x.1.0 ⊎ Admissible checker i form) × (IsThrough x.0 → Admissible checker i form)

  served_downstream :
      (r : Login.Reply) (cookies : List Cookie)
      → IsThrough (add_cookies (as_served r) cookies)
      → r ≡ downstream
  unfolding add_cookies
  served_downstream downstream cookies e = refl
  served_downstream Login.Reply.internal_server_error cookies e = e
  served_downstream (Login.Reply.login_page x y z) cookies e = e
  served_downstream Login.Reply.panicked cookies e = absurd e

  masked-IsHonest :
      (b : ℕ) (rand : Rand) (form : Form) (path : String) (m : Masked) (h : Handler) (k : ℕ)
      → NoFlag i h
      → IsHonest form (after_mask lib fuel checker i b rand form path (m, h, k))
  masked-IsHonest b rand form path Masked.panicked h k n = (inl n, λ e. absurd e)
  masked-IsHonest b rand form path Masked.out_of_fuel h k n = (inl n, λ e. absurd e)
  masked-IsHonest b rand form path (masked f set) h k n =
      let req : Request = record { context = session; form = form; path = path } in
      (
        login-NoFlag i checker b rand req h n,
        λ e.
            downstream-NoFlag i checker b rand req h n (
              served_downstream (Login.filter_request (min_session b) checker i rand req h).0 set
                e),
      )

  serve-IsHonest :
      (v : Visit) (s : Handler × ℕ) → NoFlag i s.0 → IsHonest v.form (serve lib fuel checker i v s)
  unfolding serve
  serve-IsHonest v s n =
      let (b, h) = get_session s.0 in
      let x = cookie_mask lib fuel b v.cookies h s.1 in
      masked-IsHonest b v.rand v.form v.path x.0 x.1 x.2 (
        cookie_mask-Each (IsUnset i) lib fuel b v.cookies h s.1
          (get_session-Each (IsUnset i) s.0 n))

  serve_all_from :
      (visits : List Visit) (s : Handler × ℕ)
      → NoFlag i s.0
      → Any IsThrough (serve_all lib fuel checker i visits s).0
      → Any (λ v. Admissible checker i v.form) visits
  unfolding serve_all
  serve_all_from [] s n h = h
  serve_all_from (v ∷ later) s n (inl through) = inl ((serve-IsHonest v s n).1 through)
  serve_all_from (v ∷ later) s n (inr h) = elim (serve-IsHonest v s n).0 [
    | inl still ↦ inr (serve_all_from later (serve lib fuel checker i v s).1 still h)
    | inr good ↦ inl good
  ]

  -- From a new session handler on, whatever requests come from whatever visitors and with whatever
  -- cookies, none is let through to the downstream filter of the login handler behind the cookie
  -- masking filter, unless one of them carries a user name and password, once each, that the checker
  -- accepts.
  pub serve_all_needs_password :
      (name path domain : String) (k : ℕ) (visits : List Visit)
      → Any IsThrough
          (serve_all lib fuel checker i visits (new_min_session_handler name path domain, k)).0
      → Any (λ v. Admissible checker i v.form) visits
  serve_all_needs_password name path domain k visits =
      serve_all_from visits (new_min_session_handler name path domain, k)
        (new-Each (IsUnset i) name path domain)
