-- ===== src/Config/Build/Meaning.antt =====
-- config/config.go: what a loaded resource has to do with its definition.
use pullcord.Base.{
  ℕ, zero, suc, ◌≡◌, refl, inl, inr, some, List, [], ◌∷◌, String, Map, lookup, Option-cases,
}
use pullcord.Config.Resource.{Unmarshaled, nil}
use pullcord.Config.Loader.{
  Def, malformed, empty, ref, bad_ref, typed, Defs, no_more, also, Entry, complete, building,
  Loaded, loaded, failed, out_of_fuel,
}
use pullcord.Config.Build.{Action, StatefulMaker, of_made, build_all, build}
use pullcord.Config.Build.Sound.{Keeping, OnLoaded, Kept, kept_as_it_is, and_then-Kept}

-- A relation of definitions and loaded resources that growth keeps.
pub record Meaning {S : Type 0} (k : Keeping S) (unregistered : Map Def) : Type 1 where
  pub means : Def → S → Unmarshaled → Type 0
  pub means_grows : (d : Def) (s t : S) (u : Unmarshaled) → k.grows s t → means d s u → means d t u
  pub means_empty : (s : S) → means empty s nil
  pub means_ref :
      (name : String) (d : Def) (s : S) (u : Unmarshaled)
      → lookup name unregistered ≡ some d
      → means d s u
      → means (ref name) s u

module _ {S : Type 0} (k : Keeping S) (unregistered : Map Def) (m : Meaning k unregistered) where
  -- The resources in the data, each with its definition.
  abbrev pub AllMean : Defs → S → List Unmarshaled → Type 0
  AllMean no_more s [] = Unit
  AllMean no_more s (u ∷ us) = ⊥
  AllMean (also d ds) s [] = ⊥
  AllMean (also d ds) s (u ∷ us) = m.means d s u × AllMean ds s us

  abbrev pub EntriesMean : S → Map Entry → Type 0
  EntriesMean s registry =
      (name : String) (u : Unmarshaled)
      → lookup name registry ≡ some (complete u)
      → m.means (ref name) s u

  -- A decoder whose resource has to do with the definition, if the resources in its data have.
  pub record IsMeant (allowed : Def → Type 0) (type : String) (maker : StatefulMaker S)
      : Type 0 where
    pub meant :
        (n : ℕ) (ds : Defs) (us : List Unmarshaled) (s : S)
        → allowed (typed type n ds)
        → k.holds s
        → AllMean ds s us
        → Kept k (m.means (typed type n ds)) s (of_made (maker n us s))

  pub EntriesMean-grows :
      (s t : S) (registry : Map Entry)
      → k.grows s t
      → EntriesMean s registry
      → EntriesMean t registry
  EntriesMean-grows s t registry g v name u e = m.means_grows (ref name) s t u g (v name u e)

  abbrev pub AllAllowed : (Def → Type 0) → Defs → Type 0
  AllAllowed allowed no_more = Unit
  AllAllowed allowed (also d ds) = allowed d × AllAllowed allowed ds

  build_all-Mean :
      (load : Def → Action S Unmarshaled) (allowed : Def → Type 0) (registry : Map Entry)
      → ((d : Def) (s : S)
          → allowed d
          → EntriesMean s registry
          → k.holds s
          → Kept k (m.means d) s (load d s))
      → (ds : Defs) (s : S) → AllAllowed allowed ds
      → EntriesMean s registry
      → k.holds s
      → Kept k (AllMean ds) s (build_all load ds s)
  unfolding build_all
  build_all-Mean load allowed registry each no_more s o v h =
      kept_as_it_is k (AllMean no_more) s _ refl h tt
  build_all-Mean load allowed registry each (also d ds) s (o, os) v h =
      and_then-Kept k (m.means d) (AllMean (also d ds)) s (load d s) _ (each d s o v h)
        (λ u t held g mean.
          and_then-Kept k (AllMean ds) (AllMean (also d ds)) t (build_all load ds t) _
            (build_all-Mean load allowed registry each ds t os (EntriesMean-grows s t registry g v)
              held)
            (λ us r held' g' all.
              kept_as_it_is k (AllMean (also d ds)) r _ refl held'
                (m.means_grows d t r u g' mean, all)))

  pub means-ref :
      (name : String) (d : Def) (s : S) (x : Loaded Unmarshaled × S)
      → lookup name unregistered ≡ some d
      → Kept k (m.means d) s x
      → Kept k (m.means (ref name)) s x
  means-ref name d s x q h = record {
    holds = h.holds;
    grows = h.grows;
    result = by_result x h.result;
  }
    where
      by_result :
          (x : Loaded Unmarshaled × S)
          → OnLoaded k (m.means d) x
          → OnLoaded k (m.means (ref name)) x
      by_result (loaded u, t) r = m.means_ref name d t u q r
      by_result (failed e, t) r = tt
      by_result (out_of_fuel, t) r = tt

  module _ (types : Map (StatefulMaker S)) (allowed : Def → Type 0)
      (parts : (type : String) (n : ℕ) (ds : Defs)
        → allowed (typed type n ds)
        → AllAllowed allowed ds)
      (makers : (type : String) (maker : StatefulMaker S)
        → lookup type types ≡ some maker
        → IsMeant allowed type maker)
      (defined : (name : String) (d : Def) → lookup name unregistered ≡ some d → allowed d) where
    pub build-Means :
        (registry : Map Entry) (fuel : ℕ) (d : Def) (s : S)
        → allowed d
        → EntriesMean s registry
        → k.holds s
        → Kept k (m.means d) s (build types unregistered fuel registry d s)
    unfolding build
    build-Means registry zero d s o v h = kept_as_it_is k (m.means d) s _ refl h tt
    build-Means registry (suc fuel) (malformed e) s o v h =
        kept_as_it_is k (m.means (malformed e)) s _ refl h tt
    build-Means registry (suc fuel) empty s o v h =
        kept_as_it_is k (m.means empty) s _ refl h (m.means_empty s)
    build-Means registry (suc fuel) (bad_ref e) s o v h =
        kept_as_it_is k (m.means (bad_ref e)) s _ refl h tt
    build-Means registry (suc fuel) (ref name) s o v h =
        elim (Option-cases (lookup name registry)) [
          | inr (complete u, q) ↦
              rw (build, q) (kept_as_it_is k (m.means (ref name)) s _ refl h (v name u q))
          | inr (building, q) ↦ rw (build, q) (kept_as_it_is k (m.means (ref name)) s _ refl h tt)
          | inl free ↦ elim (Option-cases (lookup name unregistered)) [
            | inl unknown ↦
                rw (build, free, unknown) (kept_as_it_is k (m.means (ref name)) s _ refl h tt)
            | inr (d, q) ↦
                rw (build, free, q)
                  (means-ref name d s (build types unregistered fuel registry d s) q
                    (build-Means registry fuel d s (defined name d q) v h))
          ]
        ]
    build-Means registry (suc fuel) (typed type data_ ds) s o v h =
        elim (Option-cases (lookup type types)) [
          | inl unknown ↦
              rw (build, unknown) (kept_as_it_is k (m.means (typed type data_ ds)) s _ refl h tt)
          | inr (maker, q) ↦
              rw (build, q)
                (and_then-Kept k (AllMean ds) (m.means (typed type data_ ds)) s
                  (build_all (build types unregistered fuel registry) ds s) _
                  (build_all-Mean (build types unregistered fuel registry) allowed registry
                    (build-Means registry fuel) ds s (parts type data_ ds o) v h)
                  (λ us t held g all. (makers type maker q).meant data_ ds us t o held all))
        ]
