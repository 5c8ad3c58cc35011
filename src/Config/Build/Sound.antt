-- ===== src/Config/Build/Sound.antt =====
-- config/config.go: what loading keeps, when every decoder keeps it.
use pullcord.Base.{
  ℕ, zero, suc, ◌≡◌, refl, inl, inr, none, some, List, String, Map, lookup, All, Option-cases,
}
use pullcord.Config.Resource.{Unmarshaled, nil}
use pullcord.Config.Loader.{
  Def, malformed, empty, ref, bad_ref, typed, Defs, no_more, also, Entry, complete, building,
  Loaded, loaded, failed, out_of_fuel,
}
use pullcord.Config.Build.{Action, and_then, StatefulMaker, of_made, build_all, build}
use pullcord.Config.Build.Results.{and_then-Holds}

-- An invariant of the state, how the state grows, and the resources that are valid in a state.
pub record Keeping (S : Type 0) : Type 1 where
  pub holds : S → Type 0
  pub grows : S → S → Type 0
  pub valid : S → Unmarshaled → Type 0
  pub grows_refl : (s : S) → grows s s
  pub grows_trans : (s t u : S) → grows s t → grows t u → grows s u
  pub valid_nil : (s : S) → valid s nil
  pub valid_grows : (s t : S) (u : Unmarshaled) → grows s t → valid s u → valid t u

-- The types that a definition names are allowed.
unfoldable mutual
  pub OfTypes : (String → Type 0) → Def → Type 0
  OfTypes allowed (typed type data_ ds) = allowed type × AllOfTypes allowed ds
  OfTypes allowed (ref name) = Unit
  OfTypes allowed (malformed e) = Unit
  OfTypes allowed empty = Unit
  OfTypes allowed (bad_ref e) = Unit

  pub AllOfTypes : (String → Type 0) → Defs → Type 0
  AllOfTypes allowed no_more = Unit
  AllOfTypes allowed (also d ds) = OfTypes allowed d × AllOfTypes allowed ds

module _ {S : Type 0} (k : Keeping S) where
  abbrev pub OnLoaded : {A : Type 0} → (S → A → Type 0) → Loaded A × S → Type 0
  OnLoaded V (loaded a, s) = V s a
  OnLoaded V (failed e, s) = Unit
  OnLoaded V (out_of_fuel, s) = Unit

  -- From `s` on, the state has grown and the invariant holds; what was loaded is valid.
  pub record Kept {A : Type 0} (V : S → A → Type 0) (s : S) (x : Loaded A × S) : Type 0 where
    pub holds : k.holds x.1
    pub grows : k.grows s x.1
    pub result : OnLoaded V x

  pub record IsKeeper (maker : StatefulMaker S) : Type 0 where
    pub keeps :
        (n : ℕ) (us : List Unmarshaled) (s : S)
        → k.holds s
        → All (k.valid s) us
        → Kept k.valid s (of_made (maker n us s))

  abbrev pub ValidEntries : S → Map Entry → Type 0
  ValidEntries s registry =
      (name : String) (u : Unmarshaled) → lookup name registry ≡ some (complete u) → k.valid s u

  pub kept_as_it_is :
      {A : Type 0} (V : S → A → Type 0) (s : S) (x : Loaded A × S)
      → x.1 ≡ s
      → k.holds s
      → OnLoaded V x
      → Kept V s x
  kept_as_it_is V s x e h v = record { holds = rw e h; grows = rw e (k.grows_refl s); result = v }

  pub later :
      {A : Type 0} (V : S → A → Type 0) (s t : S) (x : Loaded A × S)
      → k.grows s t
      → Kept V t x
      → Kept V s x
  later V s t x g h = record {
    holds = h.holds;
    grows = k.grows_trans s t x.1 g h.grows;
    result = h.result;
  }

  -- One action after another.
  pub and_then-Kept :
      {A B : Type 0} (V : S → A → Type 0) (W : S → B → Type 0) (s : S) (x : Loaded A × S)
      (f : A → Action S B)
      → Kept V s x
      → ((a : A) (t : S) → k.holds t → k.grows s t → V t a → Kept W t (f a t))
      → Kept W s (and_then x f)
  and_then-Kept V W s x f h after =
      and_then-Holds (Kept V s) (Kept W s) x f h
        (λ a t p. later W s t (f a t) p.grows (after a t p.holds p.grows p.result))
        (λ e t p. record { holds = p.holds; grows = p.grows; result = tt })
        (λ t p. record { holds = p.holds; grows = p.grows; result = tt })

  pub ValidEntries-grows :
      (s t : S) (registry : Map Entry)
      → k.grows s t
      → ValidEntries s registry
      → ValidEntries t registry
  ValidEntries-grows s t registry g v name u e = k.valid_grows s t u g (v name u e)

  abbrev pub AllValid : S → List Unmarshaled → Type 0
  AllValid s us = All (k.valid s) us

  pub build_all-Kept :
      (load : Def → Action S Unmarshaled) (allowed : String → Type 0) (registry : Map Entry)
      → ((d : Def) (s : S)
          → OfTypes allowed d
          → ValidEntries s registry
          → k.holds s
          → Kept k.valid s (load d s))
      → (ds : Defs) (s : S) → AllOfTypes allowed ds
      → ValidEntries s registry
      → k.holds s
      → Kept AllValid s (build_all load ds s)
  unfolding build_all OfTypes
  build_all-Kept load allowed registry each no_more s o v h = kept_as_it_is AllValid s _ refl h tt
  build_all-Kept load allowed registry each (also d ds) s (o, os) v h =
      and_then-Kept k.valid AllValid s (load d s) _ (each d s o v h) (λ u t held g valid.
        and_then-Kept AllValid AllValid t (build_all load ds t) _
          (build_all-Kept load allowed registry each ds t os (ValidEntries-grows s t registry g v)
            held)
          (λ us r held' g' all.
            kept_as_it_is AllValid r _ refl held' (k.valid_grows t r u g' valid, all)))

  module _ (types : Map (StatefulMaker S)) (unregistered : Map Def) (allowed : String → Type 0)
      (keepers : (type : String) (maker : StatefulMaker S)
        → allowed type
        → lookup type types ≡ some maker
        → IsKeeper maker)
      (registry : Map Entry)
      (defined : (name : String) (d : Def)
        → lookup name registry ≡ none
        → lookup name unregistered ≡ some d
        → OfTypes allowed d) where
    pub build-Kept :
        (fuel : ℕ) (d : Def) (s : S)
        → OfTypes allowed d
        → ValidEntries s registry
        → k.holds s
        → Kept k.valid s (build types unregistered fuel registry d s)
    unfolding build OfTypes
    build-Kept zero d s o v h = kept_as_it_is k.valid s _ refl h tt
    build-Kept (suc fuel) (malformed e) s o v h = kept_as_it_is k.valid s _ refl h tt
    build-Kept (suc fuel) empty s o v h = kept_as_it_is k.valid s _ refl h (k.valid_nil s)
    build-Kept (suc fuel) (bad_ref e) s o v h = kept_as_it_is k.valid s _ refl h tt
    build-Kept (suc fuel) (ref name) s o v h = elim (Option-cases (lookup name registry)) [
      | inr (complete u, q) ↦ rw (build, q) (kept_as_it_is k.valid s _ refl h (v name u q))
      | inr (building, q) ↦ rw (build, q) (kept_as_it_is k.valid s _ refl h tt)
      | inl free ↦ elim (Option-cases (lookup name unregistered)) [
        | inl unknown ↦ rw (build, free, unknown) (kept_as_it_is k.valid s _ refl h tt)
        | inr (d, q) ↦ rw (build, free, q) (build-Kept fuel d s (defined name d free q) v h)
      ]
    ]
    build-Kept (suc fuel) (typed type data_ ds) s (o, os) v h =
        elim (Option-cases (lookup type types)) [
          | inl unknown ↦ rw (build, unknown) (kept_as_it_is k.valid s _ refl h tt)
          | inr (maker, q) ↦
              rw (build, q)
                (and_then-Kept AllValid k.valid s
                  (build_all (build types unregistered fuel registry) ds s) _
                  (build_all-Kept (build types unregistered fuel registry) allowed registry
                    (build-Kept fuel) ds s os v h)
                  (λ us t held g all. (keepers type maker o q).keeps data_ us t held all))
        ]
