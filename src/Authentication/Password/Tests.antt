-- ===== src/Authentication/Password/Tests.antt =====
-- Hashes and stores of them on small inputs, and the theorems at such inputs.
use text.Mathlib.Text.{◌==◌ as str_eq}
use pullcord.Base.{
  Any, ℕ, ◌≡◌, ◌≢◌, ◌↔◌, refl, none, some, List, [], ◌∷◌, String, Map, lookup, insert, bad_password,
  if◌then◌else◌, length, replicate,
}
use pullcord.Authentication.Session.{bytes}
use pullcord.Authentication.Password.{
  Kdf, Pbkdf2Hash, HashDef, Result, ok, get_pbkdf2_hash, check, check_password, unmarshal_hash,
  unmarshal_store,
}
use pullcord.Authentication.Password.Store.{IsSound, check-get_pbkdf2_hash}
use pullcord.Authentication.Password.Table.{Backs, check_password-unmarshal_store}

-- A derivation that tells one password from all others.
abbrev kdf : Kdf
kdf password salt n size = replicate size (if str_eq password "secret" then 6 else 1)

abbrev salt : List ℕ
salt = replicate 64 3

abbrev stored : Pbkdf2Hash
stored = record { hash = replicate 64 6; salt = salt; iterations = 4096 }

made : get_pbkdf2_hash kdf (bytes salt) "secret" 4096 ≡ ok stored
unfolding get_pbkdf2_hash
made = refl

check-get_pbkdf2_hash_example :
    (check kdf stored "secret" ≡ none)
    × ((check kdf stored "guess" ≡ none) ↔ (kdf "secret" salt 4096 64 ≡ kdf "guess" salt 4096 64))
    × ((check kdf stored "guess" ≡ some bad_password)
        ↔ (kdf "secret" salt 4096 64 ≢ kdf "guess" salt 4096 64))
    × IsSound stored
check-get_pbkdf2_hash_example =
    check-get_pbkdf2_hash kdf (bytes salt) "secret" "guess" 4096 stored made

abbrev decode : String → Result (List ℕ)
decode text = if str_eq text "hash" then ok (replicate 64 6) else ok salt

abbrev definition : HashDef
definition = record { hash = "hash"; salt = "salt"; iterations = 4096 }

decoded : unmarshal_hash decode definition ≡ ok stored
unfolding unmarshal_hash
decoded = refl

abbrev definitions : Map HashDef
definitions =
    ("ada", definition) ∷ ("bob", record { hash = "salt"; salt = "salt"; iterations = 5000 }) ∷ []

ada_accepted : check_password kdf (unmarshal_store decode definitions).0 "ada" "secret" ≡ none
unfolding check_password unmarshal_store lookup insert pullcord.Base.delete check
ada_accepted = refl

check_password-unmarshal_store_example : Any (Backs decode kdf "ada" "secret") definitions
check_password-unmarshal_store_example =
    check_password-unmarshal_store decode kdf definitions "ada" "secret" ada_accepted
