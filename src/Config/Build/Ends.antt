-- ===== src/Config/Build/Ends.antt =====
-- config/config.go: loading with objects ends, where references do not lead back.
use pullcord.Base.{
  ℕ, zero, suc, ◌+◌, ◌*◌, ◌≤◌, ◌≡◌, inl, inr, none, List, [], ◌∷◌, String, Map, lookup, insert,
  Option-cases, arith,
}
use pullcord.Config.Resource.{Unmarshaled}
use pullcord.Config.Loader.{
  Def, malformed, empty, ref, bad_ref, typed, Defs, no_more, also, Made, made, refused, Entry,
  complete, building, Loaded,
}
use pullcord.Config.Loader.Acyclic.{
  height, heights, RefsBelow, AllRefsBelow, IsEnd, IsAcyclic, rank_step, fill_pipeline-IsEnd,
}
use pullcord.Config.Build.{
  Action, and_then, StatefulMaker, of_made, build_all, build, build_by_name, build_registry,
  build_server,
}
use pullcord.Config.Build.Results.{and_then-Holds}

mutual
  unfolding RefsBelow

  refs_below : (d : Def) → RefsBelow (λ name. 0) 1 d
  refs_below (typed type data_ ds) = all_refs_below ds
  refs_below (ref name) = omega arith
  refs_below (malformed e) = tt
  refs_below empty = tt
  refs_below (bad_ref e) = tt

  all_refs_below : (ds : Defs) → AllRefsBelow (λ name. 0) 1 ds
  all_refs_below no_more = tt
  all_refs_below (also d ds) = (refs_below d, all_refs_below ds)

module _ {S : Type 0} where
  and_then-IsEnd :
      {A B : Type 0} (x : Loaded A × S) (f : A → Action S B)
      → IsEnd x.0
      → ((a : A) (s : S) → IsEnd (f a s).0)
      → IsEnd (and_then x f).0
  and_then-IsEnd x f h after =
      and_then-Holds (λ y. IsEnd y.0) (λ y. IsEnd y.0) x f h (λ a s p. after a s) (λ e s p. p)
        (λ s p. p)

  of_made-IsEnd : (x : Made × S) → IsEnd (of_made x).0
  of_made-IsEnd (made u, s) = tt
  of_made-IsEnd (refused e, s) = tt

  build_all-IsEnd :
      (load : Def → Action S Unmarshaled) (rank : String → ℕ) (n deep : ℕ)
      → ((d : Def) (s : S) → RefsBelow rank n d → height d ≤ deep → IsEnd (load d s).0)
      → (ds : Defs) (s : S) → AllRefsBelow rank n ds
      → heights ds ≤ deep
      → IsEnd (build_all load ds s).0
  unfolding build_all height RefsBelow
  build_all-IsEnd load rank n deep each no_more s r l = tt
  build_all-IsEnd load rank n deep each (also d ds) s r l =
      and_then-IsEnd (load d s) _ (each d s r.0 (omega arith)) (λ u t.
        and_then-IsEnd (build_all load ds t) _
          (build_all-IsEnd load rank n deep each ds t r.1 (omega arith)) (λ us t'. tt))

  -- Where every name that is defined is registered too, the nesting of a definition bounds the depth.
  pub build_registered-IsEnd :
      (types : Map (StatefulMaker S)) (unregistered : Map Def) (registry : Map Entry)
      → ((name : String) → lookup name registry ≡ none → lookup name unregistered ≡ none)
      → (fuel : ℕ) (d : Def) (s : S) → height d ≤ fuel
      → IsEnd (build types unregistered fuel registry d s).0
  unfolding build height
  build_registered-IsEnd types unregistered registry known zero (malformed e) s l =
      absurd (omega arith)
  build_registered-IsEnd types unregistered registry known zero empty s l = absurd (omega arith)
  build_registered-IsEnd types unregistered registry known zero (bad_ref e) s l =
      absurd (omega arith)
  build_registered-IsEnd types unregistered registry known zero (ref name) s l =
      absurd (omega arith)
  build_registered-IsEnd types unregistered registry known zero (typed type data_ ds) s l =
      absurd (omega arith)
  build_registered-IsEnd types unregistered registry known (suc fuel) (malformed e) s l = tt
  build_registered-IsEnd types unregistered registry known (suc fuel) empty s l = tt
  build_registered-IsEnd types unregistered registry known (suc fuel) (bad_ref e) s l = tt
  build_registered-IsEnd types unregistered registry known (suc fuel) (ref name) s l =
      elim (Option-cases (lookup name registry)) [
        | inr (complete u, q) ↦ rw (IsEnd, build, q) tt
        | inr (building, q) ↦ rw (IsEnd, build, q) tt
        | inl free ↦ rw (IsEnd, build, free, known name free) tt
      ]
  build_registered-IsEnd types unregistered registry known (suc fuel) (typed type data_ ds) s l =
      elim (Option-cases (lookup type types)) [
        | inl unknown ↦ rw (IsEnd, build, unknown) tt
        | inr (maker, q) ↦
            rw (build, q)
              (and_then-IsEnd (build_all (build types unregistered fuel registry) ds s) _
                (build_all-IsEnd (build types unregistered fuel registry) (λ name. 0) 1 (heights ds)
                  (λ c t below h.
                    build_registered-IsEnd types unregistered registry known fuel c t (omega arith))
                  ds s (all_refs_below ds) (omega arith))
                (λ us t. of_made-IsEnd (maker data_ us t)))
      ]

  module _ (types : Map (StatefulMaker S)) (unregistered : Map Def) (rank : String → ℕ)
      (ranks deep : ℕ) (acyclic : IsAcyclic unregistered rank ranks deep) where
    build-IsEnd :
        (registry : Map Entry) (fuel n : ℕ) (d : Def) (s : S)
        → RefsBelow rank n d
        → n * deep + height d ≤ fuel
        → IsEnd (build types unregistered fuel registry d s).0
    unfolding build height RefsBelow
    build-IsEnd registry zero n (malformed e) s r l = absurd (omega arith)
    build-IsEnd registry zero n empty s r l = absurd (omega arith)
    build-IsEnd registry zero n (bad_ref e) s r l = absurd (omega arith)
    build-IsEnd registry zero n (ref name) s r l = absurd (omega arith)
    build-IsEnd registry zero n (typed type data_ ds) s r l = absurd (omega arith)
    build-IsEnd registry (suc fuel) n (malformed e) s r l = tt
    build-IsEnd registry (suc fuel) n empty s r l = tt
    build-IsEnd registry (suc fuel) n (bad_ref e) s r l = tt
    build-IsEnd registry (suc fuel) n (typed type data_ ds) s r l =
        elim (Option-cases (lookup type types)) [
          | inl unknown ↦ rw (IsEnd, build, unknown) tt
          | inr (maker, q) ↦
              rw (build, q)
                (and_then-IsEnd (build_all (build types unregistered fuel registry) ds s) _
                  (build_all-IsEnd (build types unregistered fuel registry) rank n (heights ds)
                    (λ c t b h. build-IsEnd registry fuel n c t b (omega arith)) ds s r
                    (omega arith))
                  (λ us t. of_made-IsEnd (maker data_ us t)))
        ]
    build-IsEnd registry (suc fuel) n (ref name) s r l =
        elim (Option-cases (lookup name registry)) [
          | inr (complete u, q) ↦ rw (IsEnd, build, q) tt
          | inr (building, q) ↦ rw (IsEnd, build, q) tt
          | inl free ↦ elim (Option-cases (lookup name unregistered)) [
            | inl unknown ↦ rw (IsEnd, build, free, unknown) tt
            | inr (d, q) ↦
                let (below, _, h) = acyclic.lower name d q in
                rw (build, free, q)
                  (build-IsEnd registry fuel (rank name) d s below
                    (omega (arith, rank_step (rank name) n deep r)))
          ]
        ]

    module _ (fuel : ℕ) (enough : ranks * deep ≤ fuel) where
      by_name-IsEnd :
          (registry : Map Entry) (name : String) (s : S)
          → IsEnd (build_by_name types unregistered fuel registry name s).0
      unfolding build_by_name
      by_name-IsEnd registry name s = elim (Option-cases (lookup name unregistered)) [
        | inl unknown ↦ rw (IsEnd, build_by_name, unknown) tt
        | inr (d, q) ↦
            let (below, r, h) = acyclic.lower name d q in
            rw (build_by_name, q)
              (build-IsEnd registry fuel (rank name) d s below
                (omega (arith, rank_step (rank name) ranks deep r)))
      ]

      build_registry-IsEnd :
          (names : List String) (registry : Map Entry) (s : S)
          → IsEnd (build_registry types unregistered fuel names registry s).0
      unfolding build_registry
      build_registry-IsEnd [] registry s = tt
      build_registry-IsEnd (name ∷ names) registry s = elim (Option-cases (lookup name registry)) [
        | inr (e, q) ↦ rw (build_registry, q) (build_registry-IsEnd names registry s)
        | inl free ↦
            let started = insert name building registry in
            rw (build_registry, free)
              (and_then-IsEnd (build_by_name types unregistered fuel started name s) _
                (by_name-IsEnd started name s)
                (λ u t. build_registry-IsEnd names (insert name (complete u) started) t))
      ]

      -- Loading a configuration whose references all lead to names of a lower rank ends in a server or
      -- in an error, in every order of its resources, whatever its decoders make: `ranks * deep` is
      -- fuel enough.
      pub build_server-IsEnd :
          (order pipeline : List String) (s : S)
          → IsEnd (build_server types unregistered fuel order pipeline s).0
      unfolding build_server
      build_server-IsEnd order [] s = tt
      build_server-IsEnd order (name ∷ names) s =
          and_then-IsEnd (build_registry types unregistered fuel order [] s) _
            (build_registry-IsEnd order [] s)
            (λ registry t. fill_pipeline-IsEnd (name ∷ names) registry [])
