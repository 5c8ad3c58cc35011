-- ===== src/Authentication/Login/Tests.antt =====
-- Logins and passwords on small inputs, and the theorems at such inputs.
use text.Mathlib.Text.{◌==◌ as str_eq}
use pullcord.Base.{
  Any, ℕ, ◌≡◌, ◌≢◌, ◌↔◌, refl, inl, inr, true, Option, none, some, List, [], ◌∷◌, String, Map,
  lookup, insert, delete, Error, no_such_identifier, bad_password, if◌then◌else◌, replicate,
}
use pullcord.Authentication.Names.{hex}
use pullcord.Authentication.Session.{
  bool, string, Handler, Rand, bytes, new_min_session_handler, get_session, get_value, set_value,
}
use pullcord.Authentication.Login.{
  got, session, posted, Request, downstream, login_page, auth_key, xsrf_key, username_key,
  password_key, filter_request,
}
use pullcord.Authentication.Login.Keys.{min_session, min_session-SessionLaws}
use pullcord.Authentication.Login.Access.{IsLetThrough, filter_request-downstream_iff}
use pullcord.Authentication.Login.State.{Admissible}
use pullcord.Authentication.Login.Trace.{run, run_needs_password, other_flag}

-- A store with one user, and no hashing.
abbrev checker : String → String → Option Error
checker user pass =
    if str_eq user "ada"
    then (if str_eq pass "secret" then none else some bad_password)
    else some no_such_identifier

-- A fresh session at address 0.
abbrev start : Handler
start = (get_session (new_min_session_handler "s" "/" "example")).1

abbrev raw : List ℕ
raw = replicate 64 7

abbrev visit : Rand × Request
visit = (bytes raw, record { context = session; form = posted []; path = "/" })

abbrev form : Map (List String)
form =
    (xsrf_key "web", hex raw ∷ [])
    ∷ (username_key "web", "ada" ∷ [])
    ∷ (password_key "web", "secret" ∷ [])
    ∷ []

abbrev login : Rand × Request
login = (bytes raw, record { context = session; form = posted form; path = "/" })

-- The login page first, then the downstream filter by the password, and then by the flag.
logged_in :
    (run (min_session 0) checker "web" (visit ∷ login ∷ visit ∷ []) start).0
    ≡ login_page "" "/" (hex raw) ∷ downstream ∷ downstream ∷ []
unfolding run filter_request get_value lookup get_session new_min_session_handler set_value insert
    xsrf_key auth_key delete hex username_key password_key
logged_in = refl

no_flag : (min_session 0).get_value start (auth_key "web") ≢ got (bool true)
unfolding get_value lookup get_session new_min_session_handler
no_flag e = cc

let_in :
    Any
      (λ r. r ≡ downstream)
      (run (min_session 0) checker "web" (visit ∷ login ∷ visit ∷ []) start).0
unfolding run filter_request get_value lookup get_session new_min_session_handler set_value insert
    xsrf_key auth_key delete hex username_key password_key
let_in = inr (inl refl)

run_needs_password_example :
    Any (λ p. Admissible checker "web" p.1.form) (visit ∷ login ∷ visit ∷ [])
run_needs_password_example =
    run_needs_password (min_session 0) (min_session-SessionLaws 0) checker "web"
      (visit ∷ login ∷ visit ∷ []) start no_flag let_in

-- The session after the first request, which stored a token.
abbrev visited : Handler
visited = set_value 0 (xsrf_key "web") (string (hex raw)) start

filter_request-downstream_iff_example :
    ((filter_request (min_session 0) checker "web" (bytes raw) login.1 visited).0 ≡ downstream)
    ↔ ((session ≡ session) × IsLetThrough (min_session 0) checker "web" visited (posted form))
filter_request-downstream_iff_example =
    filter_request-downstream_iff (min_session 0) checker "web" visited (bytes raw) login.1

let_through :
    (filter_request (min_session 0) checker "web" (bytes raw) login.1 visited).0 ≡ downstream
unfolding run filter_request get_value lookup get_session new_min_session_handler set_value insert
    xsrf_key auth_key delete hex username_key password_key
let_through = refl

-- Without the token the same form is refused.
forged :
    (filter_request
      (min_session 0)
      checker
      "web"
      (bytes raw)
      login.1
      (set_value 0 (xsrf_key "web") (string "other") start)).0
    ≡ login_page "Invalid credentials" "/" (hex raw)
unfolding run filter_request get_value lookup get_session new_min_session_handler set_value insert
    xsrf_key auth_key delete hex username_key password_key
forged = refl

different : ◌≢◌ {A = String} "web" "admin"
different e = cc

other_flag_example :
    (min_session 0).get_value
      (filter_request (min_session 0) checker "web" (bytes raw) login.1 visited).1
      (auth_key "admin")
    ≡ (min_session 0).get_value visited (auth_key "admin")
other_flag_example =
    other_flag (min_session 0) (min_session-SessionLaws 0) checker "web" "admin" (bytes raw) login.1
      visited different
