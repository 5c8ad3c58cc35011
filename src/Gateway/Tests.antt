-- ===== src/Gateway/Tests.antt =====
-- A gateway: a proxy behind a login behind a cookie mask, with pages beside it.
use text.Mathlib.Text.{◌==◌ as str_eq}
use pullcord.Base.{
  Any, ◌<◌, ◌%◌, ◌≡◌, refl, true, ◌⊎◌, inl, Option, none, some, List, [], ◌∷◌, String, pos, Error,
  bad_password, if◌then◌else◌, replicate, length, length-replicate, sym, ap, ◌∙◌, ◌==◌, lookup,
  insert, Map, All, map, AllAt-at, arith,
}
use pullcord.Monitor.Service
use pullcord.Monitor.Service.{NetEnv, connected}
use pullcord.Authentication.Login
use pullcord.Authentication.CookieFilter
use pullcord.Util.Passthru
use pullcord.Util.Passthru.{new_passthru_filter}
use pullcord.Authentication.Names.{◌<+>◌, hex, cookie_name, cookie_name_pattern}
use pullcord.Authentication.Session.{
  Cookie, Handler, Library, bytes, new_min_session_handler, get_session, get_value, set_value,
  cookie_mask,
}
use pullcord.Authentication.Session.Values.{new-Each}
use pullcord.Authentication.Login.{posted, xsrf_key, auth_key, username_key, password_key}
use pullcord.Authentication.CookieFilter.Flags.{IsUnset}
use pullcord.Gateway.{
  Filter, standard_response, landing, passthru, login, cookiemask, conditional, Request, State, Env,
  Reply, response, proxied, filter_request, filter_all,
}
use pullcord.Authentication.Session.Pattern.{compile_plain, match_plain, compile_plain-pattern}
use pullcord.Authentication.Session.Return.{IsReadable}
use pullcord.Authentication.Session.Calm.{Compiles}
use pullcord.Gateway.Guard.{IsOwn, Guarded, IsGuard, Good}
use pullcord.Gateway.Passwords.{ShowsPassword, filter_all_needs_stored_password}
use pullcord.Authentication.Password.{Pbkdf2Hash, Kdf, check_password}
use pullcord.Gateway.Behind.{filter_all_needs_password}

abbrev pub varied : Library
varied = record { read = λ k size. bytes (replicate size (k % 256)); compile = compile_plain }

abbrev pub net_env : NetEnv
net_env = record {
  env = record { now = λ n. pos n; run = λ effects command args. none; call = λ effects i. none };
  dial = λ dialled e. connected;
}

abbrev pub checker : String → String → Option Error
checker user pass = if str_eq pass "secret" then none else some bad_password

abbrev pub env : Env
env = record {
  net = net_env;
  lib = varied;
  check_password = λ c. checker;
  test = λ t n req. inl true;
  name_fuel = 2;
  trigger_fuel = 0;
}

abbrev filters : List Filter
filters =
    passthru (new_passthru_filter "app" (pos 80))
    ∷ login "web" 0 0
    ∷ cookiemask 0 1
    ∷ landing
    ∷ standard_response (pos 404)
    ∷ conditional 0 2 3 4
    ∷ []

abbrev state : State
state = record {
  filters = filters;
  handlers = λ a. new_min_session_handler "s" "/" "example";
  net = record { world = record { objects = []; readings = 0; effects = [] }; dialled = [] };
  reads = 0;
  tests = 0;
}

abbrev pub first_visit : Request
first_visit = record { cookies = []; context = none; form = posted []; path = "/" }

abbrev given_cookies : Reply → List Cookie
given_cookies (response r cookies) = cookies
given_cookies _ = []

abbrev login_visit : Request
login_visit = record {
  cookies = given_cookies (filter_request env 6 5 first_visit state).0;
  context = none;
  form = posted (
      ("xsrf-web", hex (replicate 64 2) ∷ [])
      ∷ ("username-web", "ada" ∷ [])
      ∷ ("password-web", "secret" ∷ [])
      ∷ []);
  path = "/";
}

abbrev visits : List Request
visits = first_visit ∷ login_visit ∷ []

pub varied-Compiles : (h : Handler) → Compiles varied h
varied-Compiles h = (match_plain (h.name <+> "-[0-9A-Fa-f]{64}$"), compile_plain-pattern h.name)

pub varied-IsReadable : IsReadable varied
varied-IsReadable k size = (replicate size (k % 256), refl)

-- Everything but the proxy.
state-IsGuard : IsGuard "web" (λ c. 0 ≡ c) (λ a. 0 < a) filters
state-IsGuard = record {
  guarded = λ a f p e.
      AllAt-at (λ a f. 0 < a → Guarded "web" (λ c. 0 ≡ c) (λ a. 0 < a) f) a filters f
        (
          λ p. absurd (omega (arith, p)),
          (
            λ p. inl (refl, refl),
            (
              λ p. omega arith,
              (λ p. tt, (λ p. tt, (λ p. (omega arith, omega arith, omega arith), tt))),
            ),
          ),
        )
        e p;
}

abbrev proxied_to : Reply → Option Service.Passthru
proxied_to (response (proxied p) cookies) = some p
proxied_to _ = none

-- The first visit gets the login page, and the second one gets through.
visited :
    map proxied_to (filter_all env 6 5 visits state).0
    ≡ none ∷ some (record { host = "app"; port = pos 80 }) ∷ []
unfolding filter_all CookieFilter.filter_request cookie_mask lookup get_session
    new_min_session_handler Login.filter_request get_value compile_plain cookie_name_pattern
    set_value cookie_name insert xsrf_key auth_key pullcord.Base.delete username_key password_key
    Passthru.filter_request new_passthru_filter
visited = refl

filter_all_needs_password_example :
    ((filter_all env 6 5 visits state).1.net ≡ state.net
      × (filter_all env 6 5 visits state).1.filters ≡ state.filters
      × All IsOwn (filter_all env 6 5 visits state).0)
    ⊎ Any (Good env "web" (λ c. 0 ≡ c)) visits
filter_all_needs_password_example =
    filter_all_needs_password env "web" (λ c. 0 ≡ c) (λ a. 0 < a) 6 5 visits state (omega arith)
      state-IsGuard (λ a. new-Each (IsUnset "web") "s" "/" "example")

-- A store that has ada's password.
abbrev kdf : Kdf
kdf password salt iterations size = replicate size (if str_eq password "secret" then 1 else 2)

abbrev table : Map Pbkdf2Hash
table = ("ada", record { hash = replicate 64 1; salt = replicate 64 7; iterations = 4096 }) ∷ []

abbrev stored_env : Env
stored_env = record env { check_password = λ c. check_password kdf table }

filter_all_needs_stored_password_example :
    ((filter_all stored_env 6 5 visits state).1.net ≡ state.net
      × All IsOwn (filter_all stored_env 6 5 visits state).0)
    ⊎ Any (ShowsPassword kdf table "web") visits
filter_all_needs_stored_password_example =
    filter_all_needs_stored_password stored_env "web" (λ c. 0 ≡ c) kdf table (λ a. 0 < a) 6 5 visits
      state (λ c user pass h. refl) (omega arith) state-IsGuard
      (λ a. new-Each (IsUnset "web") "s" "/" "example")
