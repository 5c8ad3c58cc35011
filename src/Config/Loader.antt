-- ===== src/Config/Loader.antt =====
-- config/config.go: `RegisterResourceType`, `Resource.UnmarshalJSON`, `unmarshalByName` and
-- `ServerFromReader`, over definitions that the JSON decoder has decoded.
pub mod Cycles
pub mod Acyclic
mod Tests
use text.Mathlib.Text.{◌==◌ as str_eq}
use pullcord.Base.{
  ℕ, zero, suc, Bool, true, false, ◌||◌, Option, none, some, List, [], ◌∷◌, ◌++◌, String, Map,
  lookup, insert, Error, duplicate_resource_type, unknown_resource_type, no_such_resource,
  cyclic_dependency, empty_pipeline, not_registered, not_a_filter, if◌then◌else◌,
}
use pullcord.Config.Resource.{Unmarshaled, nil, filter, router}

mutual
  -- The definition of a resource: malformed; empty; a reference, to a name unless its data is no
  -- text; or a type with data, of which some parts are definitions themselves, in their order.
  pub data Def : Type 0 where
    malformed : Error → Def
    empty : Def
    ref : String → Def
    bad_ref : Error → Def
    typed : String → ℕ → Defs → Def

  pub data Defs : Type 0 where
    no_more : Defs
    also : Def → Defs → Defs

-- What `UnmarshalJSON` of a type makes of the data and of the resources in it.
pub data Made : Type 0 where
  made : Unmarshaled → Made
  refused : Error → Made

abbrev pub Maker : Type 0
Maker = ℕ → List Unmarshaled → Made

abbrev reference_resource_type_name : String
reference_resource_type_name = "ref"

unfoldable pub register_resource_type {ℓ} : {M : Type ℓ} → String → M → Map M → Option Error × Map M
register_resource_type name maker types = elim (lookup name types) [
  | some m ↦ (some duplicate_resource_type, types)
  | none ↦
      if str_eq name reference_resource_type_name
      then (some duplicate_resource_type, types)
      else (none, insert name maker types)
]

-- A `Resource` of the registry, complete or under construction.
pub data Entry : Type 0 where
  complete : Unmarshaled → Entry
  building : Entry

pub data Loaded {ℓ} (A : Type ℓ) : Type ℓ where
  loaded : A → Loaded A
  failed : Error → Loaded A
  out_of_fuel : Loaded A

-- The resources in the data of a type; the first error ends the decoding.
unfoldable pub load_all : (Def → Loaded Unmarshaled) → Defs → Loaded (List Unmarshaled)
load_all load no_more = loaded []
load_all load (also d ds) =
    let rest = load_all load ds in
    elim (load d) [
      | loaded u ↦ elim rest [
        | loaded us ↦ loaded (u ∷ us)
        | failed e ↦ failed e
        | out_of_fuel ↦ out_of_fuel
      ]
      | failed e ↦ failed e
      | out_of_fuel ↦ out_of_fuel
    ]

-- `u := newFunc()` and its `UnmarshalJSON`.
unfoldable pub make : Maker → ℕ → Loaded (List Unmarshaled) → Loaded Unmarshaled
make maker data_ (loaded us) = elim (maker data_ us) [ made u ↦ loaded u | refused e ↦ failed e ]
make maker data_ (failed e) = failed e
make maker data_ out_of_fuel = out_of_fuel

module _ (types : Map Maker) (unregistered : Map Def) where
  -- `Resource.UnmarshalJSON`, with fuel for the depth of its recursion.
  unfoldable pub load : ℕ → Map Entry → Def → Loaded Unmarshaled
  unfolding make load_all
  load zero registry d = out_of_fuel
  load (suc fuel) registry (malformed e) = failed e
  load (suc fuel) registry empty = loaded nil
  load (suc fuel) registry (bad_ref e) = failed e
  load (suc fuel) registry (ref name) = elim (lookup name registry) [
    | some (complete u) ↦ loaded u
    | some building ↦ failed cyclic_dependency
    | none ↦ elim (lookup name unregistered) [
      | some d ↦ load fuel registry d
      | none ↦ failed no_such_resource
    ]
  ]
  load (suc fuel) registry (typed type data_ ds) = elim (lookup type types) [
    | none ↦ failed unknown_resource_type
    | some maker ↦ make maker data_ (load_all (load fuel registry) ds)
  ]

  -- `r.unmarshalByName(name)`
  unfoldable pub unmarshal_by_name : ℕ → Map Entry → String → Loaded Unmarshaled
  unfolding load
  unmarshal_by_name fuel registry name = elim (lookup name unregistered) [
    | none ↦ failed no_such_resource
    | some d ↦ load fuel registry d
  ]

-- The value behind an entry; one under construction has none yet.
abbrev pub unmarshaled : Entry → Unmarshaled
unmarshaled (complete u) = u
unmarshaled building = nil

-- The loop over the pipeline: a router is left out, and a filter goes to the end.
unfoldable pub fill_pipeline : List String → Map Entry → List ℕ → Loaded (List ℕ)
fill_pipeline [] registry filters = loaded filters
fill_pipeline (name ∷ names) registry filters = elim (lookup name registry) [
  | none ↦ failed not_registered
  | some e ↦ elim (unmarshaled e) [
    | router a ↦ fill_pipeline names registry filters
    | filter a ↦ fill_pipeline names registry (filters ++ a ∷ [])
    | nil ↦ failed not_a_filter
    | Unmarshaled.trigger a ↦ failed not_a_filter
    | Unmarshaled.session_handler a ↦ failed not_a_filter
    | Unmarshaled.password_checker a ↦ failed not_a_filter
    | Unmarshaled.plain a ↦ failed not_a_filter
  ]
]
