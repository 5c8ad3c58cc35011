-- ===== src/Config/Build/Server.antt =====
-- config/config.go: what registration and the filling of the pipeline keep, when every decoder keeps
-- it.
use mathlib.Core.Path.{subst}
use text.Mathlib.Text.{◌==◌ as str_eq}
use pullcord.Base.{
  ℕ, ◌≡◌, refl, sym, ◌∙◌, inl, inr, Option, none, some, List, [], ◌∷◌, ◌++◌, String, Map, lookup,
  insert, lookup-insert, lookup-empty, All, Option-cases, Bool-cases,
}
use pullcord.Config.Resource.{Unmarshaled, nil, filter, router}
use pullcord.Config.Loader.{Def, Entry, complete, building, fill_pipeline}
use pullcord.Config.Build.{StatefulMaker, build_by_name, build_registry, build_server}
use pullcord.Config.Build.Sound.{
  Keeping, OfTypes, OnLoaded, Kept, IsKeeper, ValidEntries, ValidEntries-grows, kept_as_it_is,
  and_then-Kept, build-Kept,
}

module _ {S : Type 0} (k : Keeping S) where
  abbrev pub ValidFilters : S → List ℕ → Type 0
  ValidFilters s filters = All (λ a. k.valid s (filter a)) filters

  append-ValidFilters :
      (s : S) (filters : List ℕ) (a : ℕ)
      → ValidFilters s filters
      → k.valid s (filter a)
      → ValidFilters s (filters ++ a ∷ [])
  append-ValidFilters s [] a h v = (v, tt)
  append-ValidFilters s (b ∷ filters) a h v = (h.0, append-ValidFilters s filters a h.1 v)

  fill_pipeline-Valid :
      (s : S) (names : List String) (registry : Map Entry) (filters : List ℕ)
      → ValidEntries k s registry
      → ValidFilters s filters
      → OnLoaded k ValidFilters (fill_pipeline names registry filters, s)
  unfolding fill_pipeline
  fill_pipeline-Valid s [] registry filters v h = h
  fill_pipeline-Valid s (name ∷ names) registry filters v h =
      by_entry (λ fs. fill_pipeline-Valid s names registry fs v) (lookup name registry) refl
    where
      by_entry :
          ((fs : List ℕ)
            → ValidFilters s fs
            → OnLoaded k ValidFilters (fill_pipeline names registry fs, s))
          → (o : Option Entry) → lookup name registry ≡ o
          → OnLoaded k ValidFilters (fill_pipeline (name ∷ names) registry filters, s)
      by_entry ih none q = rw (fill_pipeline, q) tt
      by_entry ih (some building) q = rw (fill_pipeline, q) tt
      by_entry ih (some (complete (router a))) q = rw (fill_pipeline, q) (ih filters h)
      by_entry ih (some (complete (filter a))) q =
          rw (fill_pipeline, q)
            (ih (filters ++ a ∷ []) (append-ValidFilters s filters a h (v name (filter a) q)))
      by_entry ih (some (complete nil)) q = rw (fill_pipeline, q) tt
      by_entry ih (some (complete (Unmarshaled.trigger a))) q = rw (fill_pipeline, q) tt
      by_entry ih (some (complete (Unmarshaled.session_handler a))) q = rw (fill_pipeline, q) tt
      by_entry ih (some (complete (Unmarshaled.password_checker a))) q = rw (fill_pipeline, q) tt
      by_entry ih (some (complete (Unmarshaled.plain a))) q = rw (fill_pipeline, q) tt

  building-ValidEntries :
      (s : S) (name : String) (registry : Map Entry)
      → ValidEntries k s registry
      → ValidEntries k s (insert name building registry)
  building-ValidEntries s name registry v j u e =
      let at_j = lookup-insert name j building registry in
      elim (Bool-cases (str_eq name j)) [
        | inl same ↦ absurd (cc (rw same at at_j))
        | inr other ↦ v j u (sym (rw other at at_j) ∙ e)
      ]

  complete-ValidEntries :
      (s : S) (name : String) (u : Unmarshaled) (registry : Map Entry)
      → ValidEntries k s registry
      → k.valid s u
      → ValidEntries k s (insert name (complete u) registry)
  complete-ValidEntries s name u registry v valid j w e =
      let at_j = lookup-insert name j (complete u) registry in
      elim (Bool-cases (str_eq name j)) [
        | inl same ↦
            let here : some (complete u) ≡ some (complete w) = sym (rw same at at_j) ∙ e in
            let u_is_w : u ≡ w = cc in subst (k.valid s) u_is_w valid
        | inr other ↦ v j w (sym (rw other at at_j) ∙ e)
      ]

  module _ (types : Map (StatefulMaker S)) (unregistered : Map Def) (allowed : String → Type 0)
      (keepers : (type : String) (maker : StatefulMaker S)
        → allowed type
        → lookup type types ≡ some maker
        → IsKeeper k maker)
      (defined : (name : String) (d : Def) → lookup name unregistered ≡ some d → OfTypes allowed d)
      (fuel : ℕ) where
    by_name-Kept :
        (registry : Map Entry) (name : String) (s : S)
        → ValidEntries k s registry
        → k.holds s
        → Kept k k.valid s (build_by_name types unregistered fuel registry name s)
    unfolding build_by_name
    by_name-Kept registry name s v h = elim (Option-cases (lookup name unregistered)) [
      | inl unknown ↦ rw (build_by_name, unknown) (kept_as_it_is k k.valid s _ refl h tt)
      | inr (d, q) ↦
          rw (build_by_name, q)
            (build-Kept k types unregistered allowed keepers registry (λ n c free e. defined n c e)
              fuel d s (defined name d q) v h)
    ]

    build_registry-Kept :
        (names : List String) (registry : Map Entry) (s : S)
        → ValidEntries k s registry
        → k.holds s
        → Kept k (ValidEntries k) s (build_registry types unregistered fuel names registry s)
    unfolding build_registry
    build_registry-Kept [] registry s v h = kept_as_it_is k (ValidEntries k) s _ refl h v
    build_registry-Kept (name ∷ names) registry s v h = elim (Option-cases (lookup name registry)) [
      | inr (e, q) ↦ rw (build_registry, q) (build_registry-Kept names registry s v h)
      | inl free ↦
          let started = insert name building registry in
          let valid = building-ValidEntries s name registry v in
          rw (build_registry, free)
            (and_then-Kept k k.valid (ValidEntries k) s
              (build_by_name types unregistered fuel started name s) _
              (by_name-Kept started name s valid h)
              (λ u t held g made.
                build_registry-Kept names (insert name (complete u) started) t
                  (complete-ValidEntries t name u started (ValidEntries-grows k s t started g valid)
                    made)
                  held))
    ]

    -- Loading a configuration keeps the invariant and lets the state grow, whether it succeeds or
    -- not, and the filters of the pipeline are valid in the state that it leaves.
    pub build_server-Kept :
        (order pipeline : List String) (s : S)
        → k.holds s
        → Kept k ValidFilters s (build_server types unregistered fuel order pipeline s)
    unfolding build_server
    build_server-Kept order [] s h = kept_as_it_is k ValidFilters s _ refl h tt
    build_server-Kept order (name ∷ names) s h =
        and_then-Kept k (ValidEntries k) ValidFilters s
          (build_registry types unregistered fuel order [] s) _
          (build_registry-Kept order [] s (λ j u e. absurd (cc (lookup-empty {V = Entry} j))) h)
          (λ registry t held g v.
            kept_as_it_is k ValidFilters t _ refl held
              (fill_pipeline-Valid t (name ∷ names) registry [] v tt))
