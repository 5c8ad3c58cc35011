-- ===== src/Authentication/Login/FirstPage.antt =====
-- authentication/login_handler.go: the page of a session that has neither a flag nor a token.
use pullcord.Base.{ℕ, ◌≡◌, refl, Option, List, String, Error, no_such_session_value, length}
use pullcord.Authentication.Names.{hex}
use pullcord.Authentication.Session.{string, bytes}
use pullcord.Authentication.Login.{
  missing, SessionOps, session, Form, login_page, auth_key, xsrf_key, try_login, login_form,
  filter_request,
}
use pullcord.Authentication.Login.Keys.{SessionLaws}

-- It gets the login page without an error, with a new token, which the session keeps.
pub first_page :
    {S : Type 0} (ops : SessionOps S) (laws : SessionLaws ops)
    (checker : String → String → Option Error) (i : String) (s : S) (raw : List ℕ) (form : Form)
    (path : String)
    → length raw ≡ 64
    → ops.get_value s (auth_key i) ≡ missing no_such_session_value
    → ops.get_value s (xsrf_key i) ≡ missing no_such_session_value
    → filter_request ops checker i
        (bytes raw)
        (record { context = session; form = form; path = path })
        s
      ≡ (login_page "" path (hex raw), (ops.set_value s (xsrf_key i) (string (hex raw))).1)
unfolding filter_request try_login login_form
first_page ops laws checker i s raw form path full new untold =
    rw
      (
        filter_request,
        new,
        try_login,
        untold,
        login_form,
        full,
        laws.never_fails s (xsrf_key i) (string (hex raw)),
      )
      refl
