-- ===== src/Trigger/Handler/Store.antt =====
-- The store of trigger handlers: every pointer goes to an object made before its owner, as where
-- a constructor is given the handlers that it keeps. There are no nil handlers and no cycles.
use pullcord.Base.{
  ℕ, zero, suc, ◌<◌, ◌≡◌, refl, ap, inl, inr, none, some, List, [], ◌∷◌, Time, length, get_elem?,
  set, All, AllAt, AllAt-at, arith, ◌⊎◌,
}
use mathlib.Core.Path.{subst₂}
use pullcord.Trigger.RateLimit.{RateLimitTrigger, admit}
use pullcord.Trigger.Handler.{Handler, Object, shell, compound, ratelimit, foreign}

abbrev pub Below : ℕ → Handler → Type 0
Below a none = ⊥
Below a (some b) = b < a

abbrev pub Fits : ℕ → Object → Type 0
Fits a (shell command args) = Unit
Fits a (compound ts) = All (Below a) ts
Fits a (ratelimit r) = Below a r.guarded_trigger
Fits a (foreign i) = Unit

pub record IsOrdered (objects : List Object) : Type 0 where
  pub at : (a : ℕ) (o : Object) → get_elem? objects a ≡ some o → Fits a o

pub get_elem?_lt {ℓ} :
    {A : Type ℓ} (xs : List A) (i : ℕ) → i < length xs → (x : A) × (get_elem? xs i ≡ some x)
get_elem?_lt [] i h = absurd (omega arith)
get_elem?_lt (x ∷ xs) zero h = (x, refl)
get_elem?_lt (x ∷ xs) (suc i) h = get_elem?_lt xs i (omega arith)

pub length-set {ℓ} : {A : Type ℓ} (xs : List A) (i : ℕ) (v : A) → length (set xs i v) ≡ length xs
length-set [] i v = refl
length-set (x ∷ xs) zero v = refl
length-set (x ∷ xs) (suc i) v = ap suc (length-set xs i v)

pub get_elem?-set_ne {ℓ} :
    {A : Type ℓ} (xs : List A) (i j : ℕ) (v : A) → i < j → get_elem? (set xs i v) j ≡ get_elem? xs j
get_elem?-set_ne [] i j v h = refl
get_elem?-set_ne (x ∷ xs) zero zero v h = absurd (omega arith)
get_elem?-set_ne (x ∷ xs) (suc i) zero v h = absurd (omega arith)
get_elem?-set_ne (x ∷ xs) zero (suc j) v h = refl
get_elem?-set_ne (x ∷ xs) (suc i) (suc j) v h = get_elem?-set_ne xs i j v (omega arith)

pub get_elem?-set_self {ℓ} :
    {A : Type ℓ} (xs : List A) (i : ℕ) (v : A) → i < length xs → get_elem? (set xs i v) i ≡ some v
get_elem?-set_self [] i v h = absurd (omega arith)
get_elem?-set_self (x ∷ xs) zero v h = refl
get_elem?-set_self (x ∷ xs) (suc i) v h = get_elem?-set_self xs i v (omega arith)

-- What a write leaves at an index is the value written, or what was there.
pub get_elem?-set_cases {ℓ} :
    {A : Type ℓ} (xs : List A) (i j : ℕ) (v o : A)
    → get_elem? (set xs i v) j ≡ some o
    → ((i ≡ j) × (v ≡ o)) ⊎ (get_elem? xs j ≡ some o)
get_elem?-set_cases [] i j v o h = inr h
get_elem?-set_cases (x ∷ xs) zero zero v o h = inl (refl, cc)
get_elem?-set_cases (x ∷ xs) zero (suc j) v o h = inr h
get_elem?-set_cases (x ∷ xs) (suc i) zero v o h = inr h
get_elem?-set_cases (x ∷ xs) (suc i) (suc j) v o h = elim (get_elem?-set_cases xs i j v o h) [
  | inl (p, q) ↦ inl (ap suc p, q)
  | inr k ↦ inr k
]

pub set-IsOrdered :
    (objects : List Object) (a : ℕ) (o : Object)
    → IsOrdered objects
    → Fits a o
    → IsOrdered (set objects a o)
set-IsOrdered objects a o h f = record {
  at = λ b x e. elim (get_elem?-set_cases objects a b o x e) [
    | inl (p, q) ↦ subst₂ Fits p q f
    | inr k ↦ h.at b x k
  ];
}

pub guarded_trigger-admit {ℓ} :
    {H : Type ℓ} (now : Time) (r : RateLimitTrigger H)
    → (admit now r).0.guarded_trigger ≡ r.guarded_trigger
unfolding admit
guarded_trigger-admit now r = ground arith

-- The same of a store that is written out.
pub AllAt-IsOrdered : (os : List Object) → AllAt Fits 0 os → IsOrdered os
AllAt-IsOrdered os h = record { at = λ a o e. AllAt-at Fits a os o h e }
