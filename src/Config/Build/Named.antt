-- ===== src/Config/Build/Named.antt =====
-- config/config.go: what the filters of a server have to do with the definitions of their names.
use mathlib.Core.Path.{subst₂}
use text.Mathlib.Text.{◌==◌ as str_eq}
use pullcord.Base.{
  ℕ, ◌≡◌, refl, sym, ◌∙◌, inl, inr, Option, none, some, List, [], ◌∷◌, ◌++◌, String, Map, lookup,
  insert, lookup-insert, lookup-empty, All, append-All, Option-cases, Bool-cases, eq_iff,
}
use pullcord.Config.Resource.{Unmarshaled, nil, filter, router}
use pullcord.Config.Loader.{Def, ref, typed, Defs, Entry, complete, building, fill_pipeline}
use pullcord.Config.Build.{StatefulMaker, build, build_by_name, build_registry, build_server}
use pullcord.Config.Build.Sound.{Keeping, OnLoaded, Kept, kept_as_it_is, and_then-Kept}
use pullcord.Config.Build.Meaning.{
  Meaning, AllAllowed, EntriesMean, EntriesMean-grows, IsMeant, build-Means, means-ref,
}

module _ {S : Type 0} (k : Keeping S) (unregistered : Map Def) (m : Meaning k unregistered) where
  -- A filter that has to do with a name of the pipeline.
  abbrev pub Named : (String → Type 0) → S → ℕ → Type 0
  Named P s a = (name : String) × P name × m.means (ref name) s (filter a)

  abbrev pub AllNamed : (String → Type 0) → S → List ℕ → Type 0
  AllNamed P s filters = All (Named P s) filters

  fill_pipeline-Named :
      (P : String → Type 0) (s : S) (names : List String) (registry : Map Entry) (filters : List ℕ)
      → All P names
      → EntriesMean k unregistered m s registry
      → AllNamed P s filters
      → OnLoaded k (AllNamed P) (fill_pipeline names registry filters, s)
  unfolding fill_pipeline
  fill_pipeline-Named P s [] registry filters ps v h = h
  fill_pipeline-Named P s (name ∷ names) registry filters (p, ps) v h =
      by_entry (λ fs. fill_pipeline-Named P s names registry fs ps v) (lookup name registry) refl
    where
      by_entry :
          ((fs : List ℕ)
            → AllNamed P s fs
            → OnLoaded k (AllNamed P) (fill_pipeline names registry fs, s))
          → (o : Option Entry) → lookup name registry ≡ o
          → OnLoaded k (AllNamed P) (fill_pipeline (name ∷ names) registry filters, s)
      by_entry ih none q = rw (fill_pipeline, q) tt
      by_entry ih (some building) q = rw (fill_pipeline, q) tt
      by_entry ih (some (complete (router a))) q = rw (fill_pipeline, q) (ih filters h)
      by_entry ih (some (complete (filter a))) q =
          rw (fill_pipeline, q)
            (ih (filters ++ a ∷ [])
              (append-All (Named P s) filters (a ∷ []) h ((name, p, v name (filter a) q), tt)))
      by_entry ih (some (complete nil)) q = rw (fill_pipeline, q) tt
      by_entry ih (some (complete (Unmarshaled.trigger a))) q = rw (fill_pipeline, q) tt
      by_entry ih (some (complete (Unmarshaled.session_handler a))) q = rw (fill_pipeline, q) tt
      by_entry ih (some (complete (Unmarshaled.password_checker a))) q = rw (fill_pipeline, q) tt
      by_entry ih (some (complete (Unmarshaled.plain a))) q = rw (fill_pipeline, q) tt

  building-EntriesMean :
      (s : S) (name : String) (registry : Map Entry)
      → EntriesMean k unregistered m s registry
      → EntriesMean k unregistered m s (insert name building registry)
  building-EntriesMean s name registry v j u e =
      let at_j = lookup-insert name j building registry in
      elim (Bool-cases (str_eq name j)) [
        | inl same ↦ absurd (cc (rw same at at_j))
        | inr other ↦ v j u (sym (rw other at at_j) ∙ e)
      ]

  complete-EntriesMean :
      (s : S) (name : String) (u : Unmarshaled) (registry : Map Entry)
      → EntriesMean k unregistered m s registry
      → m.means (ref name) s u
      → EntriesMean k unregistered m s (insert name (complete u) registry)
  complete-EntriesMean s name u registry v mean j w e =
      let at_j = lookup-insert name j (complete u) registry in
      elim (Bool-cases (str_eq name j)) [
        | inl same ↦
            let here : some (complete u) ≡ some (complete w) = sym (rw same at at_j) ∙ e in
            let u_is_w : u ≡ w = cc in
            subst₂ (λ (n : String) (x : Unmarshaled). m.means (ref n) s x) ((eq_iff name j).0 same)
              u_is_w mean
        | inr other ↦ v j w (sym (rw other at at_j) ∙ e)
      ]

  module _ (types : Map (StatefulMaker S)) (allowed : Def → Type 0)
      (parts : (type : String) (n : ℕ) (ds : Defs)
        → allowed (typed type n ds)
        → AllAllowed k unregistered m allowed ds)
      (makers : (type : String) (maker : StatefulMaker S)
        → lookup type types ≡ some maker
        → IsMeant k unregistered m allowed type maker)
      (defined : (name : String) (d : Def) → lookup name unregistered ≡ some d → allowed d)
      (fuel : ℕ) where
    by_name-Means :
        (registry : Map Entry) (name : String) (s : S)
        → EntriesMean k unregistered m s registry
        → k.holds s
        → Kept k (m.means (ref name)) s (build_by_name types unregistered fuel registry name s)
    unfolding build_by_name
    by_name-Means registry name s v h = elim (Option-cases (lookup name unregistered)) [
      | inl unknown ↦
          rw (build_by_name, unknown) (kept_as_it_is k (m.means (ref name)) s _ refl h tt)
      | inr (d, q) ↦
          rw (build_by_name, q)
            (means-ref k unregistered m name d s (build types unregistered fuel registry d s) q (
              build-Means k unregistered m types allowed parts makers defined registry fuel d s
                (defined name d q) v h))
    ]

    build_registry-Means :
        (names : List String) (registry : Map Entry) (s : S)
        → EntriesMean k unregistered m s registry
        → k.holds s
        → Kept k
            (EntriesMean k unregistered m)
            s
            (build_registry types unregistered fuel names registry s)
    unfolding build_registry
    build_registry-Means [] registry s v h =
        kept_as_it_is k (EntriesMean k unregistered m) s _ refl h v
    build_registry-Means (name ∷ names) registry s v h =
        elim (Option-cases (lookup name registry)) [
          | inr (e, q) ↦ rw (build_registry, q) (build_registry-Means names registry s v h)
          | inl free ↦
              let started = insert name building registry in
              let mean = building-EntriesMean s name registry v in
              rw (build_registry, free)
                (and_then-Kept k (m.means (ref name)) (EntriesMean k unregistered m) s
                  (build_by_name types unregistered fuel started name s) _
                  (by_name-Means started name s mean h)
                  (λ u t held g made.
                    build_registry-Means names (insert name (complete u) started) t
                      (complete-EntriesMean t name u started
                        (EntriesMean-grows k unregistered m s t started g mean) made)
                      held))
        ]

    -- The filters of a server each have to do with the definition of a name of the pipeline.
    pub build_server-Named :
        (P : String → Type 0) (order pipeline : List String) (s : S)
        → All P pipeline
        → k.holds s
        → Kept k (AllNamed P) s (build_server types unregistered fuel order pipeline s)
    unfolding build_server
    build_server-Named P order [] s ps h = kept_as_it_is k (AllNamed P) s _ refl h tt
    build_server-Named P order (name ∷ names) s ps h =
        and_then-Kept k (EntriesMean k unregistered m) (AllNamed P) s
          (build_registry types unregistered fuel order [] s) _
          (build_registry-Means order [] s (λ j u e. absurd (cc (lookup-empty {V = Entry} j))) h)
          (λ registry t held g v.
            kept_as_it_is k (AllNamed P) t _ refl held
              (fill_pipeline-Named P t (name ∷ names) registry [] ps v tt))
