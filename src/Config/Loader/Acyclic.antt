-- ===== src/Config/Loader/Acyclic.antt =====
-- config/config.go: loading definitions whose references do not lead back.
use pullcord.Base.{
  ℕ, suc, ◌+◌, ◌*◌, ◌≤◌, ◌<◌, ◌≡◌, refl, Option, none, some, List, [], ◌∷◌, ◌++◌, String, Map,
  lookup, arith,
}
use pullcord.Config.Resource.{Unmarshaled, nil, filter, router}
use pullcord.Config.Loader.{
  Def, malformed, empty, ref, bad_ref, typed, Defs, no_more, also, Entry, complete, building,
  Loaded, loaded, failed, out_of_fuel, fill_pipeline,
}

-- How many definitions are nested in a definition, itself included, and in a list.
unfoldable mutual
  pub height : Def → ℕ
  height (typed type data_ ds) = suc (heights ds)
  height (malformed e) = 1
  height empty = 1
  height (ref name) = 1
  height (bad_ref e) = 1

  pub heights : Defs → ℕ
  heights no_more = 0
  heights (also d ds) = height d + heights ds

-- The names to which a definition refers have ranks below a bound.
unfoldable mutual
  pub RefsBelow : (String → ℕ) → ℕ → Def → Type 0
  RefsBelow rank n (typed type data_ ds) = AllRefsBelow rank n ds
  RefsBelow rank n (ref name) = rank name < n
  RefsBelow rank n (malformed e) = Unit
  RefsBelow rank n empty = Unit
  RefsBelow rank n (bad_ref e) = Unit

  pub AllRefsBelow : (String → ℕ) → ℕ → Defs → Type 0
  AllRefsBelow rank n no_more = Unit
  AllRefsBelow rank n (also d ds) = RefsBelow rank n d × AllRefsBelow rank n ds

-- An end: a result or an error.
abbrev pub IsEnd {ℓ} : {A : Type ℓ} → Loaded A → Type 0
IsEnd (loaded a) = Unit
IsEnd (failed e) = Unit
IsEnd out_of_fuel = ⊥

-- Each definition refers to names of lower rank only; ranks stay below `ranks`, and heights within
-- `deep`.
pub record IsAcyclic (unregistered : Map Def) (rank : String → ℕ) (ranks deep : ℕ) : Type 0 where
  pub lower :
      (name : String) (d : Def)
      → lookup name unregistered ≡ some d
      → RefsBelow rank (rank name) d × (rank name < ranks) × (height d ≤ deep)

pub rank_step : (r n deep : ℕ) → r < n → r * deep + deep ≤ n * deep
rank_step r n deep h = grind arith

pub fill_pipeline-IsEnd :
    (names : List String) (registry : Map Entry) (filters : List ℕ)
    → IsEnd (fill_pipeline names registry filters)
unfolding fill_pipeline
fill_pipeline-IsEnd [] registry filters = tt
fill_pipeline-IsEnd (name ∷ names) registry filters =
    by_entry (λ fs. fill_pipeline-IsEnd names registry fs) (lookup name registry) refl
  where
    by_entry :
        ((fs : List ℕ) → IsEnd (fill_pipeline names registry fs))
        → (o : Option Entry) → lookup name registry ≡ o
        → IsEnd (fill_pipeline (name ∷ names) registry filters)
    by_entry ih none q = rw (IsEnd, fill_pipeline, q) tt
    by_entry ih (some building) q = rw (IsEnd, fill_pipeline, q) tt
    by_entry ih (some (complete (router a))) q = rw (fill_pipeline, q) (ih filters)
    by_entry ih (some (complete (filter a))) q = rw (fill_pipeline, q) (ih (filters ++ a ∷ []))
    by_entry ih (some (complete nil)) q = rw (IsEnd, fill_pipeline, q) tt
    by_entry ih (some (complete (Unmarshaled.trigger a))) q = rw (IsEnd, fill_pipeline, q) tt
    by_entry ih (some (complete (Unmarshaled.session_handler a))) q =
        rw (IsEnd, fill_pipeline, q) tt
    by_entry ih (some (complete (Unmarshaled.password_checker a))) q =
        rw (IsEnd, fill_pipeline, q) tt
    by_entry ih (some (complete (Unmarshaled.plain a))) q = rw (IsEnd, fill_pipeline, q) tt
