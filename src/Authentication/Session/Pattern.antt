-- ===== src/Authentication/Session/Pattern.antt =====
-- authentication/minsession.go: the regular expression of a handler with a literal name.
use Prim.Native.Char.{code}
use text.Mathlib.TextLemmas
use pullcord.Base.{
  ap, Bool, true, false, ◌&&◌, ◌≡◌, refl, ◌∙◌, none, some, String, if◌then◌else◌, ◌==◌, Bool-cases,
  inl, inr, arith,
}
use pullcord.Authentication.Names.{
  ◌<+>◌, cookie_name_pattern, is_literal, matches_cookie_name, all_hex, size, strip, is_plain,
}
use pullcord.Authentication.Session.{Library, Compile}

-- What `regexp` documents of the pattern of a literal name: it compiles, and matches the name and a
-- dash before 64 hex digits.
pub record MatchesLiterals (lib : Library) : Type 0 where
  pub matches :
      (name : String)
      → is_literal name ≡ true
      → (re : String → Bool) × (lib.compile (cookie_name_pattern name) ≡ some re)
        × ((s : String) → re s ≡ matches_cookie_name name s)

-- A matcher for the patterns of literal names: what stands before the class of hex digits is matched
-- as it stands.
unfoldable pub match_plain : String → String → Bool
unfolding all_hex size
match_plain String.[] s = false
match_plain (String.◌∷◌ p ps) String.[] = false
match_plain (String.◌∷◌ p ps) (String.◌∷◌ c s) =
    if code p == b'['
    then all_hex (String.◌∷◌ c s) && size (String.◌∷◌ c s) == 64
    else code p == code c && match_plain ps s

unfoldable pub compile_plain : Compile
unfolding match_plain
compile_plain String.[] = none
compile_plain (String.◌∷◌ c p) = some (match_plain p)

class-eq : (s : String) → match_plain "[0-9A-Fa-f]{64}$" s ≡ (all_hex s && size s == 64)
unfolding match_plain all_hex size
class-eq String.[] = refl
class-eq (String.◌∷◌ c s) = refl

and_parts : (a b : Bool) → (a && b) ≡ true → (a ≡ true) × (b ≡ true)
and_parts true true e = (refl, refl)
and_parts true false e = absurd (cc)
and_parts false b e = absurd (cc)

match_plain-eq :
    (name s : String)
    → is_literal name ≡ true
    → match_plain (name <+> "-[0-9A-Fa-f]{64}$") s
      ≡ elim (strip (name <+> "-") s) [ none ↦ false | some r ↦ all_hex r && size r == 64 ]
unfolding match_plain strip is_literal all_hex size
match_plain-eq String.[] String.[] l = refl
match_plain-eq String.[] (String.◌∷◌ c s) l = elim (Bool-cases (45 == code c)) [
  | inl same ↦ rw same (class-eq s)
  | inr other ↦ rw other refl
]
match_plain-eq (String.◌∷◌ p name) String.[] l =
    rw (TextLemmas.cons-append p name "-[0-9A-Fa-f]{64}$", TextLemmas.cons-append p name "-") refl
match_plain-eq (String.◌∷◌ p name) (String.◌∷◌ c s) l =
    let (plain, rest) = and_parts (is_plain (code p)) (is_literal name) l in
    let no_class : code p == 91 ≡ false = ground arith in
    rw
      (
        TextLemmas.cons-append p name "-[0-9A-Fa-f]{64}$",
        TextLemmas.cons-append p name "-",
        match_plain,
        no_class,
      )
      (elim (Bool-cases (code p == code c)) [
        | inl same ↦ rw same (match_plain-eq name s rest)
        | inr other ↦ rw other refl
      ])

caret : (p : String) → "^" <+> p ≡ String.◌∷◌ "^" p
caret p = TextLemmas.cons-append "^" "" p ∙ ap (λ s. String.◌∷◌ "^" s) (TextLemmas.nil-append p)

pub compile_plain-pattern :
    (name : String)
    → compile_plain (cookie_name_pattern name) ≡ some (match_plain (name <+> "-[0-9A-Fa-f]{64}$"))
unfolding compile_plain cookie_name_pattern
compile_plain-pattern name = ap compile_plain (caret (name <+> "-[0-9A-Fa-f]{64}$"))

-- The matcher is as documented.
pub plain-MatchesLiterals : (lib : Library) → lib.compile ≡ compile_plain → MatchesLiterals lib
unfolding compile_plain cookie_name_pattern matches_cookie_name
plain-MatchesLiterals lib e = record {
  matches = λ name l. (
    match_plain (name <+> "-[0-9A-Fa-f]{64}$"),
    ap (λ (f : Compile). f (cookie_name_pattern name)) e ∙ compile_plain-pattern name,
    λ s. match_plain-eq name s l,
  );
}
