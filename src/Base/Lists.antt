-- ===== src/Base/Lists.antt =====
-- Lists measured by native numbers, and selection by a Boolean test.
use Prim.Native.Nat.{ℕ, zero, suc, ◌+◌}
use mathlib.Core.Path.{◌≡◌, refl, ap, subst, subst₂}
use mathlib.Core.Logic.{◌⊎◌}
use mathlib.Core.Bool.{Bool}
use mathlib.Core.Option.{Option, none, some}
use mathlib.Core.List.{List, [], ◌∷◌, ◌++◌}
use native.Mathlib.Omega.{arith}
use pullcord.Base.Tests.{if◌then◌else◌}

module _ {ℓ} {A : Type ℓ} where
  abbrev pub length : List A → ℕ
  length [] = 0
  length (x ∷ xs) = suc (length xs)

  abbrev pub replicate : ℕ → A → List A
  replicate zero a = []
  replicate (suc n) a = a ∷ replicate n a

  -- The elements that pass a test, in order.
  abbrev pub keep : (A → Bool) → List A → List A
  keep p [] = []
  keep p (x ∷ xs) = if p x then x ∷ keep p xs else keep p xs

  abbrev pub get_elem? : List A → ℕ → Option A
  get_elem? [] i = none
  get_elem? (x ∷ xs) zero = some x
  get_elem? (x ∷ xs) (suc i) = get_elem? xs i

  -- A write out of bounds changes nothing.
  abbrev pub set : List A → ℕ → A → List A
  set [] i v = []
  set (x ∷ xs) zero v = v ∷ xs
  set (x ∷ xs) (suc i) v = x ∷ set xs i v

module _ {ℓ} {A : Type ℓ} where
  pub length-append : (xs ys : List A) → length (xs ++ ys) ≡ length xs + length ys
  length-append [] ys = omega arith
  length-append (x ∷ xs) ys = omega (arith, length-append xs ys)

  pub keep-append : (p : A → Bool) (xs ys : List A) → keep p (xs ++ ys) ≡ keep p xs ++ keep p ys
  keep-append p [] ys = refl
  keep-append p (x ∷ xs) ys = ground (arith, keep-append p xs ys)

pub length-replicate {ℓ} : {A : Type ℓ} (n : ℕ) (a : A) → length (replicate n a) ≡ n
length-replicate zero a = refl
length-replicate (suc n) a = ap suc (length-replicate n a)

-- Some element of a list.
abbrev pub Any {ℓ} : {A : Type ℓ} → (A → Type 0) → List A → Type 0
Any P [] = ⊥
Any P (x ∷ xs) = P x ⊎ Any P xs

module _ {ℓ κ} {A : Type ℓ} (P : A → Type κ) where
  abbrev pub All : List A → Type κ
  All [] = Unit
  All (x ∷ xs) = P x × All xs

  pub replicate-All : (n : ℕ) (a : A) → P a → All (replicate n a)
  replicate-All zero a h = tt
  replicate-All (suc n) a h = (h, replicate-All n a h)

  pub append-All : (xs ys : List A) → All xs → All ys → All (xs ++ ys)
  append-All [] ys h k = k
  append-All (x ∷ xs) ys h k = (h.0, append-All xs ys h.1 k)

-- What holds of every element at its index, of a list that is written out, from an index on.
module _ {ℓ κ} {A : Type ℓ} (P : ℕ → A → Type κ) where
  abbrev pub AllAt : ℕ → List A → Type κ
  AllAt i [] = Unit
  AllAt i (x ∷ xs) = P i x × AllAt (suc i) xs

  pub AllAt-get_elem? :
      (i a : ℕ) (xs : List A) (x : A) → AllAt i xs → get_elem? xs a ≡ some x → P (i + a) x
  AllAt-get_elem? i a [] x h e = absurd (cc)
  AllAt-get_elem? i zero (y ∷ xs) x h e =
      let same : y ≡ x = cc in let here : i ≡ i + 0 = omega arith in subst₂ P here same h.0
  AllAt-get_elem? i (suc a) (y ∷ xs) x h e =
      let there : suc i + a ≡ i + suc a = omega arith in
      subst (λ j. P j x) there (AllAt-get_elem? (suc i) a xs x h.1 e)

  -- From the first index on.
  pub AllAt-at : (a : ℕ) (xs : List A) (x : A) → AllAt 0 xs → get_elem? xs a ≡ some x → P a x
  AllAt-at a xs x h e =
      let here : 0 + a ≡ a = omega arith in subst (λ j. P j x) here (AllAt-get_elem? 0 a xs x h e)

  append-AllAt :
      (i : ℕ) (xs ys : List A) → AllAt i xs → AllAt (i + length xs) ys → AllAt i (xs ++ ys)
  append-AllAt i [] ys h k = let here : i + 0 ≡ i = omega arith in subst (λ j. AllAt j ys) here k
  append-AllAt i (x ∷ xs) ys h k =
      let there : i + suc (length xs) ≡ suc i + length xs = omega arith in
      (h.0, append-AllAt (suc i) xs ys h.1 (subst (λ j. AllAt j ys) there k))

  -- From the first index on.
  pub append-AllAt_first : (xs ys : List A) → AllAt 0 xs → AllAt (length xs) ys → AllAt 0 (xs ++ ys)
  append-AllAt_first xs ys h k =
      let here : length xs ≡ 0 + length xs = omega arith in
      append-AllAt 0 xs ys h (subst (λ j. AllAt j ys) here k)

pub map-AllAt {ℓ κ μ} :
    {A : Type ℓ} (P : ℕ → A → Type κ) (Q : ℕ → A → Type μ)
    → ((i : ℕ) (x : A) → P i x → Q i x)
    → (i : ℕ) (xs : List A) → AllAt P i xs
    → AllAt Q i xs
map-AllAt P Q f i [] h = tt
map-AllAt P Q f i (x ∷ xs) h = (f i x h.0, map-AllAt P Q f (suc i) xs h.1)

pub map-All {ℓ κ μ} :
    {A : Type ℓ} (P : A → Type κ) (Q : A → Type μ)
    → ((x : A) → P x → Q x)
    → (xs : List A) → All P xs
    → All Q xs
map-All P Q f [] h = tt
map-All P Q f (x ∷ xs) h = (f x h.0, map-All P Q f xs h.1)
