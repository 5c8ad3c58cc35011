-- ===== src/Authentication/CookieFilter/Tests.antt =====
-- The filters together on a small input, and the theorem at that input.
use text.Mathlib.Text.{◌==◌ as str_eq}
use pullcord.Base.{
  Any, ◌%◌, List, inl, inr, ℕ, ◌≡◌, refl, Bool, true, false, Option, none, some, [], ◌∷◌, String,
  Map, pos, lookup, insert, Error, bad_password, if◌then◌else◌, replicate, arith,
}
use pullcord.Authentication.Names.{cookie_name, cookie_name_pattern, is_literal, hex}
use pullcord.Authentication.Session.{
  string, Cookie, Handler, Library, bytes, get_session, get_value, set_value, cookie_mask,
  mask_cookies, mask_cookie, adopt, new_min_session_handler,
}
use pullcord.Authentication.Session.Pattern.{compile_plain, plain-MatchesLiterals}
use pullcord.Authentication.Session.Allocation.{IsAllocated, new_handler-IsAllocated}
use pullcord.Authentication.Session.Revisit.{Opens}
use pullcord.Authentication.Login
use pullcord.Authentication.Login.{
  Form, posted, downstream, login_page, auth_key, xsrf_key, username_key, password_key,
}
use pullcord.Authentication.CookieFilter.{
  Reply, response, filter_request, min_handler, masked_login,
}
use pullcord.Authentication.CookieFilter.Lasting.{login_lasts}
use pullcord.Authentication.CookieFilter.Visitors.{
  Visit, serve, serve_all, IsThrough, serve_all_needs_password,
}
use pullcord.Authentication.Login.State.{Admissible}
use pullcord.Authentication.Session.Generation.{repeated-FillsSlices}
use pullcord.Authentication.CookieFilter.FirstLogin.{LogsIn, first_login}

abbrev lib : Library
lib = record { read = λ k size. bytes (replicate size 7); compile = compile_plain }

abbrev name : String
name = cookie_name "s" (replicate 32 171)

abbrev token : String
token = "0a1b"

-- A handler with one established session, which has shown its login page.
abbrev handler : Handler
handler = record {
  name = "s";
  path = "/";
  domain = "example";
  table = some ((name, 0) ∷ []);
  core_of = λ a. 0;
  core = λ k. record { cvalue = "77"; values = ("xsrf-web", string token) ∷ [] };
  next = 1;
}

abbrev cookie : Cookie
cookie = record {
  name = name;
  value = "77";
  path = "";
  domain = "";
  max_age = pos 0;
  secure = false;
  http_only = false;
}

handler-IsAllocated : IsAllocated handler
unfolding lookup
handler-IsAllocated = record { listed = λ j b e. ground arith; cores = λ b l. omega arith }

abbrev regex_of : Option (String → Bool) → String → Bool
regex_of none s = false
regex_of (some re) s = re s

cookie-Opens : Opens lib handler 0 cookie
unfolding lookup compile_plain cookie_name_pattern cookie_name
cookie-Opens = record {
  regex = regex_of (lib.compile (cookie_name_pattern "s"));
  compiled = refl;
  recognised = refl;
  listed = refl;
  value = refl;
  not_empty = λ e. cc;
}

abbrev checker : String → String → Option Error
checker user pass = if str_eq pass "secret" then none else some bad_password

abbrev form : Form
form =
    posted (
      ("xsrf-web", token ∷ [])
      ∷ ("username-web", "ada" ∷ [])
      ∷ ("password-web", "secret" ∷ [])
      ∷ [])

abbrev login : Reply Login.Reply × (Handler × ℕ)
login =
    filter_request (min_handler lib 2) (masked_login checker "web" (bytes []) form "/")
      (cookie ∷ []) (handler, 0)

logged_in : login ≡ (response downstream [], login.1)
unfolding filter_request min_handler cookie_mask mask_cookies mask_cookie compile_plain
    cookie_name_pattern cookie_name lookup get_session Login.filter_request xsrf_key auth_key
    username_key password_key get_value insert set_value adopt
logged_in = refl

login_lasts_example :
    (filter_request
      (min_handler lib 2)
      (masked_login checker "web" (bytes []) (posted []) "/later")
      (cookie ∷ [])
      login.1).0
    ≡ response downstream []
login_lasts_example =
    login_lasts lib 2 checker "web" 0 cookie handler 0 (bytes []) (bytes []) form (posted []) "/"
      "/later" login.1 handler-IsAllocated cookie-Opens logged_in

-- Two requests from nothing: the login page with a cookie, and a login with that cookie.
abbrev varied : Library
varied = record { read = λ k size. bytes (replicate size (k % 256)); compile = compile_plain }

abbrev fresh : Handler × ℕ
fresh = (new_min_session_handler "s" "/" "example", 0)

abbrev first_visit : Visit
first_visit = record { cookies = []; rand = bytes (replicate 64 7); form = posted []; path = "/" }

abbrev given_cookies : Reply Login.Reply → List Cookie
given_cookies (response r cookies) = cookies
given_cookies _ = []

abbrev login_fields : Map (List String)
login_fields =
    ("xsrf-web", hex (replicate 64 7) ∷ [])
    ∷ ("username-web", "ada" ∷ [])
    ∷ ("password-web", "secret" ∷ [])
    ∷ []

abbrev login_visit : Visit
login_visit = record {
  cookies = given_cookies (serve varied 2 checker "web" first_visit fresh).0;
  rand = bytes [];
  form = posted login_fields;
  path = "/";
}

let_through :
    Any IsThrough (serve_all varied 2 checker "web" (first_visit ∷ login_visit ∷ []) fresh).0
unfolding serve_all cookie_mask lookup get_session new_min_session_handler Login.filter_request
    get_value compile_plain cookie_name_pattern set_value cookie_name insert xsrf_key auth_key
    pullcord.Base.delete username_key password_key
let_through = inr (inl refl)

serve_all_needs_password_example :
    Any (λ v. Admissible checker "web" v.form) (first_visit ∷ login_visit ∷ [])
serve_all_needs_password_example =
    serve_all_needs_password varied 2 checker "web" "s" "/" "example" 0
      (first_visit ∷ login_visit ∷ []) let_through

-- The first visit, from nothing, and the form that it asks for.
abbrev first_served : Reply Login.Reply × (Handler × ℕ)
first_served =
    filter_request (min_handler varied 2)
      (masked_login checker "web" (bytes (replicate 64 7)) (posted []) "/") [] fresh

first_served_is : first_served ≡ (
  response (login_page "" "/" (hex (replicate 64 7))) (given_cookies first_served.0),
  first_served.1,
)
unfolding filter_request min_handler cookie_mask lookup get_session new_min_session_handler
    Login.filter_request get_value compile_plain cookie_name_pattern
first_served_is = refl

login_fields-LogsIn : LogsIn varied 2 checker "web" (hex (replicate 64 7)) login_fields
unfolding lookup xsrf_key username_key password_key
login_fields-LogsIn = record {
  sent = refl;
  credentials = record {
    user = "ada";
    pass = "secret";
    has_user = refl;
    has_pass = refl;
    accepted = refl;
  };
}

literal : is_literal fresh.0.name ≡ true
unfolding is_literal new_min_session_handler
literal = refl

first_login_example :
    (login_page "" "/" (hex (replicate 64 7)) ≡ login_page "" "/" (hex (replicate 64 7)))
    × ((filter_request
          (min_handler varied 2)
          (masked_login checker "web" (bytes []) (posted login_fields) "/app")
          (given_cookies first_served.0)
          first_served.1).0
        ≡ response downstream [])
first_login_example =
    first_login varied 2 checker "web" fresh.0 0 (replicate 64 7) [] (posted []) "/"
      (login_page "" "/" (hex (replicate 64 7))) (given_cookies first_served.0) first_served.1
      login_fields (bytes []) "/app" (plain-MatchesLiterals varied refl) literal
      (repeated-FillsSlices (λ k. k % 256) (λ k. omega arith))
      (new_handler-IsAllocated "s" "/" "example") tt refl login_fields-LogsIn first_served_is
