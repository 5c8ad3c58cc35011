-- ===== src/Authentication/Names.antt =====
-- authentication/minsession.go and login_handler.go: hex encoded tokens, the names of session
-- cookies, and the regular expression that recognises them.
use Prim.Native.Char.{Char, code}
use Prim.Native.String
use text.Mathlib.TextLemmas
use pullcord.Base.{
  ap, ℕ, zero, suc, ◌*◌, ◌/◌, ◌%◌, ◌<◌, ◌≡◌, refl, Bool, true, false, ◌&&◌, ◌||◌, Option, none,
  some, List, [], ◌∷◌, String, leb, ◌==◌, if◌then◌else◌, length, get_elem?, All, arith, Bool-cases,
  inl, inr, ◌≢◌,
}

infixr 66 ◌<+>◌
-- Go's `+` of strings.
abbrev pub ◌<+>◌ : String → String → String
s <+> t = String.◌++◌ s t

abbrev hex_table : List Char
hex_table =
    "0" ∷ "1" ∷ "2" ∷ "3" ∷ "4" ∷ "5" ∷ "6" ∷ "7" ∷ "8" ∷ "9" ∷ "a" ∷ "b" ∷ "c" ∷ "d" ∷ "e" ∷ "f"
    ∷ []

-- The digit of a half byte.
hex_digit : ℕ → Char
hex_digit n = elim (get_elem? hex_table n) [ some c ↦ c | none ↦ "0" ]

-- `hex.EncodeToString`
unfoldable pub hex : List ℕ → String
unfolding hex_digit
hex [] = ""
hex (b ∷ bs) = String.◌∷◌ (hex_digit (b / 16)) (String.◌∷◌ (hex_digit (b % 16)) (hex bs))

-- The class `[0-9A-Fa-f]`.
abbrev is_hex : ℕ → Bool
is_hex c = leb b'0' c && leb c b'9' || leb b'A' c && leb c b'F' || leb b'a' c && leb c b'f'

unfoldable pub all_hex : String → Bool
all_hex String.[] = true
all_hex (String.◌∷◌ c s) = is_hex (code c) && all_hex s

unfoldable pub size : String → ℕ
size String.[] = 0
size (String.◌∷◌ c s) = suc (size s)

-- What follows a prefix, if a text has it.
unfoldable pub strip : String → String → Option String
strip String.[] s = some s
strip (String.◌∷◌ c p) String.[] = none
strip (String.◌∷◌ c p) (String.◌∷◌ d s) = if code c == code d then strip p s else none

-- The pattern that `CookieMask` compiles: the handler's name stands in it unescaped.
unfoldable pub cookie_name_pattern : String → String
cookie_name_pattern name = "^" <+> (name <+> "-[0-9A-Fa-f]{64}$")

-- Letters, digits, `-` and `_`: what a pattern matches as it stands.
abbrev pub is_plain : ℕ → Bool
is_plain c =
    leb b'0' c && leb c b'9'
    || leb b'A' c && leb c b'Z'
    || leb b'a' c && leb c b'z'
    || c == 45
    || c == 95

unfoldable pub is_literal : String → Bool
is_literal String.[] = true
is_literal (String.◌∷◌ c s) = is_plain (code c) && is_literal s

-- The match of `^NAME-[0-9A-Fa-f]{64}$`, for a literal name.
unfoldable pub matches_cookie_name : String → String → Bool
unfolding strip all_hex size
matches_cookie_name name s = elim (strip (name <+> "-") s) [
  | none ↦ false
  | some r ↦ all_hex r && size r == 64
]

-- `handler.Name + "-" + hex.EncodeToString(nbytes)`
unfoldable pub cookie_name : String → List ℕ → String
unfolding hex
cookie_name name bytes = name <+> ("-" <+> hex bytes)

strip-append : (p s : String) → strip p (p <+> s) ≡ some s
unfolding strip
strip-append String.[] s = rw (TextLemmas.nil-append s)
strip-append (String.◌∷◌ c p) s =
    rw (TextLemmas.cons-append c p s) (elim (Bool-cases (code c == code c)) [
      | inl same ↦ rw same (strip-append p s)
      | inr other ↦ absurd (ground arith)
    ])

get_elem?-All {ℓ κ} :
    {A : Type ℓ} (P : A → Type κ) (xs : List A) (i : ℕ)
    → All P xs
    → i < length xs
    → (x : A) × (get_elem? xs i ≡ some x) × P x
get_elem?-All P [] i h l = absurd (omega arith)
get_elem?-All P (x ∷ xs) zero h l = (x, refl, h.0)
get_elem?-All P (x ∷ xs) (suc i) h l = get_elem?-All P xs i h.1 (omega arith)

IsHex : Char → Type 0
IsHex c = is_hex (code c) ≡ true

hex_digit-IsHex : (n : ℕ) → n < 16 → is_hex (code (hex_digit n)) ≡ true
unfolding hex_digit IsHex
hex_digit-IsHex n h =
    let (c, found, good) = get_elem?-All IsHex hex_table n (ground arith) h in rw found good

abbrev pub IsByte : ℕ → Type 0
IsByte b = b < 256

all_hex-hex : (bs : List ℕ) → All IsByte bs → all_hex (hex bs) ≡ true
unfolding all_hex hex
all_hex-hex [] h = refl
all_hex-hex (b ∷ bs) h =
    rw (hex_digit-IsHex (b / 16) (omega arith), hex_digit-IsHex (b % 16) (omega arith))
      (all_hex-hex bs h.1)

size-hex : (bs : List ℕ) → size (hex bs) ≡ 2 * length bs
unfolding size hex
size-hex [] = refl
size-hex (b ∷ bs) = omega (arith, size-hex bs)

-- A generated name is recognised.
pub matches-cookie_name :
    (name : String) (bytes : List ℕ)
    → All IsByte bytes
    → length bytes ≡ 32
    → matches_cookie_name name (cookie_name name bytes) ≡ true
unfolding matches_cookie_name cookie_name
matches-cookie_name name bytes h l =
    rw
      (
        ← TextLemmas.append_assoc name "-" (hex bytes),
        strip-append (name <+> "-") (hex bytes),
        matches_cookie_name,
        all_hex-hex bytes h,
      )
      (ground (arith, size-hex bytes))

-- The encoding of a value that is not empty is not empty.
pub size-hex_pos : (bs : List ℕ) → 0 < length bs → hex bs ≢ ""
unfolding hex
size-hex_pos [] h e = absurd (omega arith)
size-hex_pos (b ∷ bs) h e = TextLemmas.cons≢nil e

-- Names of one handler from different numbers of bytes differ.
pub length-cookie_name :
    (name : String) (bs cs : List ℕ)
    → cookie_name name bs ≡ cookie_name name cs
    → length bs ≡ length cs
unfolding cookie_name
length-cookie_name name bs cs e =
    let same : hex bs ≡ hex cs =
      TextLemmas.append_cancel_left "-" (hex bs) (hex cs)
        (TextLemmas.append_cancel_left name ("-" <+> hex bs) ("-" <+> hex cs) e) in
    omega (arith, size-hex bs, size-hex cs, ap size same)
