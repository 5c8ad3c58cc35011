-- ===== src/Authentication/Password.antt =====
-- authentication/inmempwdstore.go: `InMemPwdStore` and its PBKDF2 hashes. The key derivation of
-- golang.org/x/crypto/pbkdf2 and the decoder of base64 texts are parameters.
pub mod Store
pub mod Table
mod Tests
use pullcord.Base.{
  ℕ, Bool, true, false, not, ◌&&◌, Option, none, some, List, [], ◌∷◌, String, Map, lookup, insert,
  Error, insufficient_iterations, insufficient_entropy, no_such_identifier, bad_password,
  incorrect_salt_length, incorrect_hash_length, length, ltb, ◌==◌, if◌then◌else◌,
}
use pullcord.Authentication.Session.{Rand, bytes, unreadable}

abbrev pub pbkdf2_key_length : ℕ
pbkdf2_key_length = 64

abbrev pub pbkdf2_min_iterations : ℕ
pbkdf2_min_iterations = 4096

-- `Iterations` is a uint16; the slices of bytes are arrays of 64 in the code.
pub record Pbkdf2Hash : Type 0 where
  pub hash : List ℕ
  pub salt : List ℕ
  pub iterations : ℕ

-- `pbkdf2.Key` over SHA-256: the password, the salt, the iterations, the length of the key.
abbrev pub Kdf : Type 0
Kdf = String → List ℕ → ℕ → ℕ → List ℕ

-- A result with Go's error.
pub data Result {ℓ} (A : Type ℓ) : Type ℓ where
  ok : A → Result A
  err : Error → Result A

-- `1 == subtle.ConstantTimeCompare(x, y)`
pub constant_time_equal : List ℕ → List ℕ → Bool
constant_time_equal [] [] = true
constant_time_equal [] (y ∷ ys) = false
constant_time_equal (x ∷ xs) [] = false
constant_time_equal (x ∷ xs) (y ∷ ys) = x == y && constant_time_equal xs ys

-- `GetPbkdf2Hash`; the read of the salt is an argument.
pub get_pbkdf2_hash : Kdf → Rand → String → ℕ → Result Pbkdf2Hash
get_pbkdf2_hash kdf rand password iterations =
    if ltb iterations pbkdf2_min_iterations then err insufficient_iterations else (elim rand [
      | unreadable e ↦ err e
      | bytes salt ↦
          if length salt == pbkdf2_key_length
          then ok (record {
            hash = kdf password salt iterations pbkdf2_key_length;
            salt = salt;
            iterations = iterations;
          })
          else err insufficient_entropy
    ])

-- `Pbkdf2Hash.Check`
pub check : Kdf → Pbkdf2Hash → String → Option Error
unfolding constant_time_equal
check kdf h password =
    if constant_time_equal h.hash (kdf password h.salt h.iterations pbkdf2_key_length)
    then none
    else some bad_password

-- `InMemPwdStore.CheckPassword`
unfoldable pub check_password : Kdf → Map Pbkdf2Hash → String → String → Option Error
check_password kdf table id pass = elim (lookup id table) [
  | none ↦ some no_such_identifier
  | some h ↦ check kdf h pass
]

-- The definition that the JSON decoder hands over.
pub record HashDef : Type 0 where
  pub hash : String
  pub salt : String
  pub iterations : ℕ

-- `Pbkdf2Hash.UnmarshalJSON`, after the JSON decoder; `decode` is `base64.StdEncoding.DecodeString`.
unfoldable pub unmarshal_hash : (String → Result (List ℕ)) → HashDef → Result Pbkdf2Hash
unmarshal_hash decode t = elim (decode t.hash) [
  | err e ↦ err e
  | ok h ↦
      if not (length h == pbkdf2_key_length)
      then err incorrect_hash_length
      else (elim (decode t.salt) [
        | err e ↦ err e
        | ok s ↦
            if not (length s == pbkdf2_key_length)
            then err incorrect_salt_length
            else if ltb t.iterations pbkdf2_min_iterations
            then err insufficient_iterations
            else ok (record { hash = h; salt = s; iterations = t.iterations })
      ])
]

-- The JSON decoder fills the table entry by entry, by the decoder of hashes, and stops at the first
-- error.
unfoldable pub fill_table :
    (String → Result (List ℕ)) → Map HashDef → Map Pbkdf2Hash → Map Pbkdf2Hash × Option Error
unfolding unmarshal_hash
fill_table decode [] table = (table, none)
fill_table decode ((id, t) ∷ more) table = elim (unmarshal_hash decode t) [
  | err e ↦ (table, some e)
  | ok h ↦ fill_table decode more (insert id h table)
]

-- `InMemPwdStore.UnmarshalJSON`: the new table, and the error.
unfoldable pub unmarshal_store :
    (String → Result (List ℕ)) → Map HashDef → Map Pbkdf2Hash × Option Error
unfolding fill_table
unmarshal_store decode t = fill_table decode t []
