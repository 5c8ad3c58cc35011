-- ===== src/Base/Maps.antt =====
-- Go's `map[string]V` as an association list. The order of entries is the representation's own.
use Prim.Native.String.{String}
use mathlib.Core.Path.{◌≡◌, refl, subst₂}
use mathlib.Core.Option.{Option, none, some}
use mathlib.Core.List.{List, [], ◌∷◌}
use native.Mathlib.Omega.{arith}
use text.Mathlib.Text.{◌==◌ as str_eq}
use text.Mathlib.TextEquality.{eq_iff}
use mathlib.Core.Logic.{inl, inr}
use pullcord.Base.Tests.{if◌then◌else◌, Bool-cases}
use pullcord.Base.Lists.{All}

abbrev pub Map {ℓ} : Type ℓ → Type ℓ
Map V = List (String × V)

module _ {ℓ} {V : Type ℓ} where
  -- `v, present := m[k]`
  unfoldable pub lookup : String → Map V → Option V
  lookup k [] = none
  lookup k ((j, v) ∷ m) = if str_eq j k then some v else lookup k m

  -- `delete(m, k)`
  unfoldable pub delete : String → Map V → Map V
  delete k [] = []
  delete k ((j, v) ∷ m) = let rest = delete k m in if str_eq j k then rest else (j, v) ∷ rest

  -- `m[k] = v`
  unfoldable pub insert : String → V → Map V → Map V
  insert k v m = (k, v) ∷ delete k m

  pub lookup-delete :
      (k j : String) (m : Map V) → lookup j (delete k m) ≡ (if str_eq k j then none else lookup j m)
  unfolding lookup delete
  lookup-delete k j [] = ground arith
  lookup-delete k j ((i, v) ∷ m) =
      ground (arith, lookup-delete k j m, eq_iff i k, eq_iff i j, eq_iff k j)

  pub lookup-insert :
      (k j : String) (v : V) (m : Map V)
      → lookup j (insert k v m) ≡ (if str_eq k j then some v else lookup j m)
  unfolding lookup insert
  lookup-insert k j v m = ground (arith, lookup-delete k j m)

  -- A map that may be `nil`: it reads as an empty one.
  abbrev pub entries : Option (Map V) → Map V
  entries none = []
  entries (some m) = m

-- What holds of every entry holds of the value found under a key.
pub lookup-All {ℓ κ} :
    {V : Type ℓ} (P : String → V → Type κ) (k : String) (v : V) (m : Map V)
    → All (λ p. P p.0 p.1) m
    → lookup k m ≡ some v
    → P k v
unfolding lookup
lookup-All P k v [] h e = absurd (cc)
lookup-All P k v ((j, w) ∷ m) h e = elim (Bool-cases (str_eq j k)) [
  | inl same ↦
      let at_k : j ≡ k = (eq_iff j k).0 same in
      let value : w ≡ v = cc (rw (lookup, same) at e) in subst₂ P at_k value h.0
  | inr other ↦ lookup-All P k v m h.1 (rw (lookup, other) at e)
]

-- What holds of the values of a map still does when one that has it is put in.
delete-All {ℓ κ} :
    {V : Type ℓ} (P : V → Type κ) (k : String) (m : Map V)
    → All (λ p. P p.1) m
    → All (λ p. P p.1) (delete k m)
unfolding delete
delete-All P k [] h = tt
delete-All P k ((j, v) ∷ m) h = elim (Bool-cases (str_eq j k)) [
  | inl same ↦ rw (delete, same) (delete-All P k m h.1)
  | inr other ↦ rw (delete, other) (h.0, delete-All P k m h.1)
]

pub insert-All {ℓ κ} :
    {V : Type ℓ} (P : V → Type κ) (k : String) (v : V) (m : Map V)
    → P v
    → All (λ p. P p.1) m
    → All (λ p. P p.1) (insert k v m)
unfolding insert
insert-All P k v m p h = (p, delete-All P k m h)

pub lookup-empty {ℓ} : {V : Type ℓ} (k : String) → lookup {V = V} k [] ≡ none
unfolding lookup
lookup-empty k = refl
