-- ===== src/Authentication/Password/Store.antt =====
-- authentication/inmempwdstore.go: what a stored hash accepts.
use pullcord.Base.{
  ℕ, ◌≤◌, true, ◌≡◌, ◌≢◌, ◌↔◌, refl, sym, ap, ◌∙◌, none, some, List, [], ◌∷◌, String, length,
  bad_password, arith,
}
use pullcord.Authentication.Session.{Rand, bytes, unreadable}
use pullcord.Authentication.Password.{
  Pbkdf2Hash, Kdf, Result, ok, err, HashDef, constant_time_equal, get_pbkdf2_hash, check,
  unmarshal_hash,
}

constant_time_equal_iff : (xs ys : List ℕ) → (constant_time_equal xs ys ≡ true) ↔ (xs ≡ ys)
unfolding constant_time_equal
constant_time_equal_iff [] [] = (λ h. refl, λ h. refl)
constant_time_equal_iff [] (y ∷ ys) = (λ h. cc, λ h. cc)
constant_time_equal_iff (x ∷ xs) [] = (λ h. cc, λ h. cc)
constant_time_equal_iff (x ∷ xs) (y ∷ ys) =
    let ih = constant_time_equal_iff xs ys in (λ h. ground (arith, ih.0), λ h. ground (arith, ih.1))

-- A hash that the program works with.
pub record IsSound (h : Pbkdf2Hash) : Type 0 where
  pub salt_length : length h.salt ≡ 64
  pub enough : 4096 ≤ h.iterations

made_from :
    (kdf : Kdf) (rand : Rand) (password : String) (n : ℕ) (h : Pbkdf2Hash)
    → get_pbkdf2_hash kdf rand password n ≡ ok h
    → (h.hash ≡ kdf password h.salt n 64) × (h.iterations ≡ n) × (length h.salt ≡ 64) × (4096 ≤ n)
unfolding get_pbkdf2_hash
made_from kdf (unreadable x) password n h e = absurd (ground arith)
made_from kdf (bytes salt) password n h e = (ground arith, ground arith, ground arith, ground arith)

pub check-none_iff :
    (kdf : Kdf) (h : Pbkdf2Hash) (p : String)
    → (check kdf h p ≡ none) ↔ (h.hash ≡ kdf p h.salt h.iterations 64)
unfolding check
check-none_iff kdf h p =
    let same = constant_time_equal_iff h.hash (kdf p h.salt h.iterations 64) in
    (λ e. ground (arith, same.0), λ e. ground (arith, same.1))

check-bad_iff :
    (kdf : Kdf) (h : Pbkdf2Hash) (p : String)
    → (check kdf h p ≡ some bad_password) ↔ (h.hash ≢ kdf p h.salt h.iterations 64)
unfolding check
check-bad_iff kdf h p =
    let same = constant_time_equal_iff h.hash (kdf p h.salt h.iterations 64) in
    (λ e q. ground (arith, same.1), λ e. ground (arith, same.0))

-- A hash that was made for a password accepts exactly the passwords that derive the same key, its
-- own among them, and answers any other with `BadPasswordError`. Its salt has 64 bytes, and its
-- iterations are not too few.
pub check-get_pbkdf2_hash :
    (kdf : Kdf) (rand : Rand) (password other : String) (n : ℕ) (h : Pbkdf2Hash)
    → get_pbkdf2_hash kdf rand password n ≡ ok h
    → (check kdf h password ≡ none)
      × ((check kdf h other ≡ none) ↔ (kdf password h.salt n 64 ≡ kdf other h.salt n 64))
      × ((check kdf h other ≡ some bad_password)
          ↔ (kdf password h.salt n 64 ≢ kdf other h.salt n 64))
      × IsSound h
check-get_pbkdf2_hash kdf rand password other n h e =
    let (made, count, salted, enough) = made_from kdf rand password n h e in
    (
      (check-none_iff kdf h password).1 (made ∙ ap (λ i. kdf password h.salt i 64) (sym count)),
      rw (← made, ← count) (check-none_iff kdf h other),
      rw (← made, ← count) (check-bad_iff kdf h other),
      record { salt_length = salted; enough = rw count enough },
    )

-- A hash that the decoder makes has 64 bytes of hash and of salt, and no fewer iterations than the
-- program asks of its own.
pub unmarshal_hash-IsSound :
    (decode : String → Result (List ℕ)) (t : HashDef) (h : Pbkdf2Hash)
    → unmarshal_hash decode t ≡ ok h
    → (length h.hash ≡ 64) × IsSound h × (decode t.hash ≡ ok h.hash) × (decode t.salt ≡ ok h.salt)
unfolding unmarshal_hash
unmarshal_hash-IsSound decode t h e = by_parts (decode t.hash) (decode t.salt) refl refl
  where
    by_parts :
        (x y : Result (List ℕ))
        → decode t.hash ≡ x
        → decode t.salt ≡ y
        → (length h.hash ≡ 64)
          × IsSound h
          × (decode t.hash ≡ ok h.hash)
          × (decode t.salt ≡ ok h.salt)
    by_parts (err x) y p q = absurd (ground arith)
    by_parts (ok x) (err y) p q = absurd (ground arith)
    by_parts (ok x) (ok y) p q = (ground arith, ground arith, ground arith, ground arith)
