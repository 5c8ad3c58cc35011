-- ===== src/Authentication/Tests.antt =====
-- Sessions and logins on small inputs, and the theorems at such inputs.
use pullcord.Base.{
  Any, ℕ, ◌%◌, ◌<◌, ◌⊎◌, ◌≡◌, refl, Bool, true, false, Option, none, some, List, [], ◌∷◌, String,
  pos, lookup, insert, length, replicate, keep, All, arith,
}
use pullcord.Authentication.Names.{
  matches_cookie_name, cookie_name, cookie_name_pattern, is_literal,
}
use pullcord.Authentication.Session.{
  string, Cookie, Handler, Library, bytes, new_min_session_handler, get_session, get_value,
  set_value, cookie_mask, Masked, masked, mask_cookies, mask_cookie, gen_cookie,
}
use pullcord.Authentication.Session.Pattern.{compile_plain, plain-MatchesLiterals}
use pullcord.Authentication.Session.Isolation.{Unlocks, cookie_mask-Unlocks}
use pullcord.Authentication.Session.Allocation.{
  IsAllocated, new_handler-IsAllocated, get_session-IsAllocated, get_session-IsFresh,
  cookie_mask-IsAllocated,
}
use pullcord.Authentication.Session.Forwarding.{is_foreign, forwarded-cookie_mask}
use pullcord.Authentication.Session.Return.{IsFree, cookie_mask_returns}
use pullcord.Authentication.Session.Generation.{FillsSlices, repeated-FillsSlices}
use pullcord.Authentication.Session.Revisit.{Opens, first_visit, set_then_revisit}

-- A source of bytes that differ from one read to the next.
abbrev lib : Library
lib = record { read = λ k size. bytes (replicate size (k % 256)); compile = compile_plain }

lib-FillsSlices : FillsSlices lib.read
lib-FillsSlices = repeated-FillsSlices (λ k. k % 256) (λ k. omega arith)

abbrev plain : String → String → Cookie
plain name value = record {
  name = name;
  value = value;
  path = "";
  domain = "";
  max_age = pos 0;
  secure = false;
  http_only = false;
}

abbrev foreign_cookie : Cookie
foreign_cookie = plain "theme" "dark"

abbrev handler : Handler
handler = new_min_session_handler "s" "/" "example"

handler-IsAllocated : IsAllocated handler
handler-IsAllocated = new_handler-IsAllocated "s" "/" "example"

-- The first request: one foreign cookie, and a session at address 0.
abbrev first : Masked × Handler × ℕ
first = cookie_mask lib 3 (get_session handler).0 (foreign_cookie ∷ []) (get_session handler).1 0

abbrev masked_set : Masked → List Cookie
masked_set (masked f s) = s
masked_set Masked.panicked = []
masked_set Masked.out_of_fuel = []

abbrev given : List Cookie
given = masked_set first.0

first_is : first ≡ (masked (foreign_cookie ∷ []) given, first.1, first.2)
unfolding get_session new_min_session_handler cookie_mask mask_cookies mask_cookie compile_plain
    cookie_name_pattern gen_cookie lookup
first_is = refl

given_once : length given ≡ 1
unfolding get_session new_min_session_handler cookie_mask mask_cookies mask_cookie compile_plain
    cookie_name_pattern gen_cookie lookup
given_once = refl

foreign_is : All (λ c. matches_cookie_name handler.name c.name ≡ false) (foreign_cookie ∷ [])
unfolding new_min_session_handler matches_cookie_name
foreign_is = (refl, tt)

foreign_is' :
    All (λ c. matches_cookie_name (get_session handler).1.name c.name ≡ false) (foreign_cookie ∷ [])
unfolding new_min_session_handler get_session matches_cookie_name
foreign_is' = (refl, tt)

literal : is_literal handler.name ≡ true
unfolding is_literal new_min_session_handler
literal = refl

literal' : is_literal (get_session handler).1.name ≡ true
unfolding is_literal new_min_session_handler get_session
literal' = refl

first_visit_example : (c : Cookie) × (given ≡ c ∷ []) × Opens lib first.1 (get_session handler).0 c
first_visit_example =
    first_visit lib 3 (get_session handler).0 (foreign_cookie ∷ []) (get_session handler).1 0
      (foreign_cookie ∷ []) given first.1 first.2 (plain-MatchesLiterals lib refl) literal'
      lib-FillsSlices foreign_is' first_is

forwarded-cookie_mask_example :
    (re : String → Bool) × (lib.compile (cookie_name_pattern (get_session handler).1.name)
      ≡ some re)
    × (foreign_cookie ∷ [] ≡ keep (is_foreign re) (foreign_cookie ∷ []))
forwarded-cookie_mask_example =
    forwarded-cookie_mask lib 3 (get_session handler).0 (foreign_cookie ∷ [])
      (get_session handler).1 0 (foreign_cookie ∷ []) given first.1 first.2 first_is

first_address : (get_session handler).0 < (get_session handler).1.next
unfolding get_session new_min_session_handler
first_address = omega arith

first-IsAllocated : IsAllocated first.1
first-IsAllocated =
    cookie_mask-IsAllocated lib 3 (get_session handler).0 (foreign_cookie ∷ [])
      (get_session handler).1 0 (foreign_cookie ∷ []) given first.1 first.2 first_address
      (get_session-IsAllocated handler handler-IsAllocated) first_is

-- The cookie that the first request was given.
abbrev head_or : Cookie → List Cookie → Cookie
head_or c [] = c
head_or c (d ∷ ds) = d

abbrev key_cookie : Cookie
key_cookie = head_or foreign_cookie given

abbrev regex_of : Option (String → Bool) → String → Bool
regex_of none s = false
regex_of (some re) s = re s

key_cookie-Opens : Opens lib first.1 0 key_cookie
unfolding get_session new_min_session_handler cookie_mask mask_cookies mask_cookie compile_plain
    cookie_name_pattern gen_cookie lookup insert cookie_name
key_cookie-Opens = record {
  regex = regex_of (lib.compile (cookie_name_pattern "s"));
  compiled = refl;
  recognised = refl;
  listed = refl;
  value = refl;
  not_empty = λ e. cc;
}

-- The second request: a session at address 1, which brings the cookie.
abbrev second_start : ℕ × Handler
second_start = get_session first.1

abbrev second : Masked × Handler × ℕ
second = cookie_mask lib 3 second_start.0 (key_cookie ∷ []) second_start.1 9

second_is : second ≡ (masked [] [], second.1, second.2)
unfolding get_session new_min_session_handler cookie_mask mask_cookies mask_cookie compile_plain
    cookie_name_pattern gen_cookie lookup insert cookie_name
second_is = refl

cookie_mask-Unlocks_example :
    (second.1.core_of second_start.0 ≡ second_start.1.core_of second_start.0)
    ⊎ Any (Unlocks second_start.1 (second.1.core_of second_start.0)) (key_cookie ∷ [])
cookie_mask-Unlocks_example =
    cookie_mask-Unlocks lib 3 second_start.0 (key_cookie ∷ []) second_start.1 9 [] [] second.1
      second.2 (get_session-IsFresh first.1 first-IsAllocated) second_is

abbrev changed : ℕ × Handler
changed = get_session (set_value (get_session handler).0 "user" (string "ada") first.1)

set_then_revisit_example :
    ((cookie_mask lib 3 changed.0 given changed.1 9).0 ≡ masked [] [])
    × (get_value changed.0 "user" (cookie_mask lib 3 changed.0 given changed.1 9).1
        ≡ some (string "ada"))
set_then_revisit_example =
    set_then_revisit lib 3 3 (foreign_cookie ∷ []) handler 0 9 (foreign_cookie ∷ []) given first.1
      first.2 "user" (string "ada") (plain-MatchesLiterals lib refl) literal lib-FillsSlices
      handler-IsAllocated foreign_is first_is

name-IsFree : IsFree lib (get_session handler).1 0 0
unfolding get_session new_min_session_handler lookup
name-IsFree = (replicate 32 0, refl, refl)

s_compiles :
    lib.compile (cookie_name_pattern (get_session handler).1.name)
    ≡ some (regex_of (lib.compile (cookie_name_pattern "s")))
unfolding get_session new_min_session_handler compile_plain cookie_name_pattern
s_compiles = refl

cookie_mask_returns_example :
    (f : List Cookie) × (s : List Cookie) × ((cookie_mask lib 3
        (get_session handler).0
        (foreign_cookie ∷ [])
        (get_session handler).1
        0).0
      ≡ masked f s)
cookie_mask_returns_example =
    cookie_mask_returns lib 3 (get_session handler).0 (foreign_cookie ∷ []) (get_session handler).1
      0 0 (regex_of (lib.compile (cookie_name_pattern "s"))) s_compiles
      (λ k size. (replicate size (k % 256), refl)) (omega arith) name-IsFree
