-- ===== src/Util/Router.antt =====
-- util/path_route_adapter.go: `ExactPathRouter`, after the JSON decoder has decoded its routes.
use text.Mathlib.Text.{◌==◌ as str_eq}
use pullcord.Base.{
  ℕ, ◌≡◌, ap, ◌∙◌, ◌↔◌, refl, inl, inr, Option, none, some, [], ◌∷◌, String, Map, lookup, insert,
  entries, lookup-insert, insert-All, lookup-empty, Error, unexpected_resource_type, if◌then◌else◌,
  Bool-cases, Option-cases, All, eq_iff,
}
use pullcord.Config.Resource.{Unmarshaled, as_filter}

-- A route leads to a filter's address; `none` is a nil map.
pub record ExactPathRouter : Type 0 where
  pub routes : Option (Map ℕ)

-- The loop over the decoded routes, in the order that Go happens to take.
pub fill_routes : Map Unmarshaled → Map ℕ → Map ℕ × Option Error
fill_routes [] routes = (routes, none)
fill_routes ((path, rsc) ∷ more) routes = elim (as_filter rsc) [
  | some f ↦ fill_routes more (insert path f routes)
  | none ↦ (routes, some unexpected_resource_type)
]

-- `ExactPathRouter.UnmarshalJSON`
pub unmarshal_router : Map Unmarshaled → ExactPathRouter → ExactPathRouter × Option Error
unmarshal_router t r = let (routes, e) = fill_routes t [] in (record r { routes = some routes }, e)

-- `SelectPipeline`; `none` is the nil filter.
pub select_pipeline : ExactPathRouter → String → Option ℕ
select_pipeline r path = lookup path (entries r.routes)

-- The paths of a Go map are distinct.
abbrev pub IsDistinct : Map Unmarshaled → Type 0
IsDistinct [] = Unit
IsDistinct ((path, rsc) ∷ more) = (lookup path more ≡ none) × IsDistinct more

-- Every route leads to a filter.
abbrev pub IsServable : Map Unmarshaled → Type 0
IsServable t = All (λ p. (f : ℕ) × (as_filter p.1 ≡ some f)) t

-- The filter that the definition gives for a path, or else another.
abbrev pub filter_at : Map Unmarshaled → String → Option ℕ → Option ℕ
filter_at t path default_ = elim (lookup path t) [ some rsc ↦ as_filter rsc | none ↦ default_ ]

fill_routes_of-IsServable :
    (t : Map Unmarshaled) (routes : Map ℕ) → IsServable t → (fill_routes t routes).1 ≡ none
unfolding fill_routes
fill_routes_of-IsServable [] routes h = refl
fill_routes_of-IsServable ((path, rsc) ∷ more) routes ((f, q), h) =
    rw (fill_routes, q) (fill_routes_of-IsServable more (insert path f routes) h)

fill_routes-IsServable :
    (t : Map Unmarshaled) (routes : Map ℕ) → (fill_routes t routes).1 ≡ none → IsServable t
unfolding fill_routes
fill_routes-IsServable [] routes e = tt
fill_routes-IsServable ((path, rsc) ∷ more) routes e = elim (Option-cases (as_filter rsc)) [
  | inl other ↦ absurd (cc (rw (fill_routes, other) at e))
  | inr (f, q) ↦
      ((f, q), fill_routes-IsServable more (insert path f routes) (rw (fill_routes, q) at e))
]

lookup-cons :
    (p path : String) (rsc : Unmarshaled) (more : Map Unmarshaled)
    → lookup path ((p, rsc) ∷ more) ≡ (if str_eq p path then some rsc else lookup path more)
unfolding lookup
lookup-cons p path rsc more = refl

lookup-fill_routes :
    (t : Map Unmarshaled) (routes : Map ℕ) (path : String)
    → IsDistinct t
    → IsServable t
    → lookup path (fill_routes t routes).0 ≡ filter_at t path (lookup path routes)
unfolding fill_routes
lookup-fill_routes [] routes path d h = rw (filter_at, lookup-empty {V = Unmarshaled} path) refl
lookup-fill_routes ((p, rsc) ∷ more) routes path d ((f, q), h) =
    let rest = lookup-fill_routes more (insert p f routes) path d.1 h in
    let inserted = lookup-insert p path f routes in
    elim (Bool-cases (str_eq p path)) [
      | inl same ↦
          let no_more : lookup path more ≡ none = rw (← (eq_iff p path).0 same) d.0 in
          rw (filter_at, lookup-cons p path rsc more, same, fill_routes, q)
            (rest ∙ rw (filter_at, no_more, inserted, same) refl)
      | inr other ↦
          rw (filter_at, lookup-cons p path rsc more, other, fill_routes, q)
            (rest ∙ ap (filter_at more path) (rw other at inserted))
    ]

-- The decoder of a router returns no error exactly when every route leads to a filter, and then
-- every path, over distinct paths, is routed to the filter that the definition gives for it, and to
-- nil if the definition gives none.
pub select_pipeline-unmarshal :
    (t : Map Unmarshaled) (r : ExactPathRouter)
    → IsDistinct t
    → ((unmarshal_router t r).1 ≡ none ↔ IsServable t)
      × (IsServable t
          → (path : String) → select_pipeline (unmarshal_router t r).0 path ≡ filter_at t path none)
unfolding unmarshal_router select_pipeline
select_pipeline-unmarshal t r d = (
  (fill_routes-IsServable t [], fill_routes_of-IsServable t []),
  λ h path. lookup-fill_routes t [] path d h ∙ rw (lookup-empty {V = ℕ} path) refl,
)

fill_routes-All :
    (P : ℕ → Type 0) (t : Map Unmarshaled) (routes : Map ℕ)
    → All (λ p. (f : ℕ) → as_filter p.1 ≡ some f → P f) t
    → All (λ p. P p.1) routes
    → All (λ p. P p.1) (fill_routes t routes).0
unfolding fill_routes
fill_routes-All P [] routes h r = r
fill_routes-All P ((path, rsc) ∷ more) routes h r = elim (Option-cases (as_filter rsc)) [
  | inl other ↦ rw (fill_routes, other) r
  | inr (f, q) ↦
      rw (fill_routes, q)
        (fill_routes-All P more (insert path f routes) h.1 (insert-All P path f routes (h.0 f q) r))
]

-- What holds of every filter of the definition holds of the filters that a decoded router leads to.
pub unmarshal_router-All :
    (P : ℕ → Type 0) (t : Map Unmarshaled) (r : ExactPathRouter)
    → All (λ p. (f : ℕ) → as_filter p.1 ≡ some f → P f) t
    → All (λ p. P p.1) (entries (unmarshal_router t r).0.routes)
unfolding unmarshal_router
unmarshal_router-All P t r h = fill_routes-All P t [] h tt
