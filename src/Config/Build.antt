-- ===== src/Config/Build.antt =====
-- config/config.go: the loader with the objects that decoders make. The state holds what is behind the
-- addresses of resources; it passes from one decoder to the next, and what an unfinished load has made
-- stays in it.
pub mod Results
pub mod Sound
pub mod Server
pub mod Meaning
pub mod Named
pub mod Ends
use pullcord.Base.{
  ℕ, zero, suc, Option, none, some, List, [], ◌∷◌, String, Map, lookup, insert, Error,
  unknown_resource_type, no_such_resource, cyclic_dependency, empty_pipeline,
}
use pullcord.Config.Resource.{Unmarshaled, nil}
use pullcord.Config.Loader.{
  Def, malformed, empty, ref, bad_ref, typed, Defs, no_more, also, Made, made, refused, Entry,
  complete, building, Loaded, loaded, failed, out_of_fuel, fill_pipeline,
}

-- What loads a value, or fails, and changes the state in either case.
abbrev pub Action : Type 0 → Type 0 → Type 0
Action S A = S → Loaded A × S

module _ {S : Type 0} where
  abbrev pub pure : {A : Type 0} → A → Action S A
  pure a s = (loaded a, s)

  abbrev pub fail : {A : Type 0} → Error → Action S A
  fail e s = (failed e, s)

  -- The result of an action and what comes after it, which an error leaves out.
  abbrev pub and_then : {A B : Type 0} → Loaded A × S → (A → Action S B) → Loaded B × S
  and_then (loaded a, s) f = f a s
  and_then (failed e, s) f = (failed e, s)
  and_then (out_of_fuel, s) f = (out_of_fuel, s)

infixl 5 ◌>>=◌
abbrev pub ◌>>=◌ : {S A B : Type 0} → Action S A → (A → Action S B) → Action S B
◌>>=◌ m f s = and_then (m s) f

-- `UnmarshalJSON` of a type on the data and on the resources in it, with the object that it makes.
abbrev pub StatefulMaker : Type 0 → Type 0
StatefulMaker S = ℕ → List Unmarshaled → S → Made × S

module _ {S : Type 0} where
  -- The resources in the data of a type, one after the other.
  unfoldable pub build_all : (Def → Action S Unmarshaled) → Defs → Action S (List Unmarshaled)
  build_all build no_more = pure []
  build_all build (also d ds) = do u ← build d; us ← build_all build ds; pure (u ∷ us)

  abbrev pub of_made : Made × S → Loaded Unmarshaled × S
  of_made (made u, s) = (loaded u, s)
  of_made (refused e, s) = (failed e, s)

  -- `u := newFunc()` and its `UnmarshalJSON`.
  abbrev pub run_maker : StatefulMaker S → ℕ → List Unmarshaled → Action S Unmarshaled
  run_maker maker data_ us s = of_made (maker data_ us s)

  module _ (types : Map (StatefulMaker S)) (unregistered : Map Def) where
    -- `Resource.UnmarshalJSON`, with fuel for the depth of its recursion.
    unfoldable pub build : ℕ → Map Entry → Def → Action S Unmarshaled
    unfolding build_all
    build zero registry d s = (out_of_fuel, s)
    build (suc fuel) registry (malformed e) s = (failed e, s)
    build (suc fuel) registry empty s = (loaded nil, s)
    build (suc fuel) registry (bad_ref e) s = (failed e, s)
    build (suc fuel) registry (ref name) s = elim (lookup name registry) [
      | some (complete u) ↦ (loaded u, s)
      | some building ↦ (failed cyclic_dependency, s)
      | none ↦ elim (lookup name unregistered) [
        | some d ↦ build fuel registry d s
        | none ↦ (failed no_such_resource, s)
      ]
    ]
    build (suc fuel) registry (typed type data_ ds) s = elim (lookup type types) [
      | none ↦ (failed unknown_resource_type, s)
      | some maker ↦ and_then (build_all (build fuel registry) ds s) (run_maker maker data_)
    ]

    -- `r.unmarshalByName(name)`
    unfoldable pub build_by_name : ℕ → Map Entry → String → Action S Unmarshaled
    unfolding build
    build_by_name fuel registry name s = elim (lookup name unregistered) [
      | none ↦ (failed no_such_resource, s)
      | some d ↦ build fuel registry d s
    ]

    -- The loop over the names of the resources, in the order that Go happens to take.
    unfoldable pub build_registry : ℕ → List String → Map Entry → Action S (Map Entry)
    unfolding build_by_name
    build_registry fuel [] registry s = (loaded registry, s)
    build_registry fuel (name ∷ names) registry s = elim (lookup name registry) [
      | some e ↦ build_registry fuel names registry s
      | none ↦ and_then (build_by_name fuel (insert name building registry) name s) (λ u.
          build_registry fuel names (insert name (complete u) (insert name building registry)))
    ]

    -- `ServerFromReader` up to the call of `falcore.NewServer`: the filters of the server's pipeline.
    unfoldable pub build_server : ℕ → List String → List String → Action S (List ℕ)
    unfolding build_registry
    build_server fuel order [] s = (failed empty_pipeline, s)
    build_server fuel order (name ∷ names) s =
        and_then (build_registry fuel order [] s)
          (λ registry s'. (fill_pipeline (name ∷ names) registry [], s'))
