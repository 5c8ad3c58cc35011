-- ===== src/Program/Fencing/Decoders.antt =====
-- Every decoder of the program keeps a fenced store, and what its resource has to do with the
-- definition.
use pullcord.Base.{
  ℕ, zero, suc, ◌≡◌, refl, ◌⊎◌, inl, inr, Option, none, some, List, [], ◌∷◌, ◌++◌, Map, Error,
  get_elem?, length, All, append-All, map-All, ap, ◌∙◌,
}
use pullcord.Config.Resource.{Unmarshaled, as_filter, as_password_checker}
use pullcord.Config.Loader.{Def, Defs, no_more, also, Made, refused}
use pullcord.Config.Build.{of_made}
use pullcord.Config.Build.Sound.{Kept, kept_as_it_is}
use pullcord.Config.Build.Meaning.{AllMean}
use pullcord.Trigger.Handler.{Object, foreign}
use pullcord.Trigger.Definitions.{DelayTrigger}
use pullcord.Authentication.Session
use pullcord.Authentication.Password.{Pbkdf2Hash}
use pullcord.Util.Router.{ExactPathRouter}
use pullcord.Gateway.{Filter}
use pullcord.Program.Store.{
  Store, with_data, unless_error, add_filter, add_trigger, add_delay, add_handler, add_checker,
  add_router,
}
use pullcord.Program.Types.{Field, resource_at}
use pullcord.Program.Placed.{Grows, Since-refl}
use pullcord.Program.Opening.{IsDecoded}
use pullcord.Program.Fencing.{
  IsNoProxy, def_at, OnFilter, OnChecker, Policy, IsClosed, IsKeyed, Fence, IsFenced, fencing,
  Means, Fence-Grows, IsPromised, fenced_meaning,
}

get_elem?-new : {A : Type 0} (xs : List A) (x : A) → get_elem? (xs ++ x ∷ []) (length xs) ≡ some x
get_elem?-new [] x = refl
get_elem?-new (y ∷ xs) x = get_elem?-new xs x

pub OnFilter-at :
    (P : ℕ → Type 0) (u : Unmarshaled) (a : ℕ) → as_filter u ≡ some a → OnFilter P u → P a
unfolding as_filter
OnFilter-at P (Unmarshaled.filter b) a e h = let same : b ≡ a = cc in rw (← same) h
OnFilter-at P _ a e h = absurd (cc)

pub OnChecker-at :
    (P : ℕ → Type 0) (u : Unmarshaled) (a : ℕ)
    → as_password_checker u ≡ some a
    → OnChecker P u
    → P a
unfolding as_password_checker
OnChecker-at P (Unmarshaled.password_checker b) a e h = let same : b ≡ a = cc in rw (← same) h
OnChecker-at P _ a e h = absurd (cc)

module _ (policy : Policy) where
  -- What a decoder leaves of a definition.
  abbrev pub Meant : Def → Store → Made × Store → Type 0
  Meant d s x = Kept (fencing policy) (Means policy d) s (of_made x)

  pub refused-Meant :
      (d : Def) (e : Error) (s : Store) → IsFenced policy s → Meant d s (refused e, s)
  refused-Meant d e s p = kept_as_it_is (fencing policy) (Means policy d) s _ refl p tt

  pub with_data-Meant :
      {A : Type 0} (d : Def) (x : A ⊎ Error) (f : A → Store → Made × Store) (s : Store)
      → IsFenced policy s
      → ((a : A) → x ≡ inl a → Meant d s (f a s))
      → Meant d s (with_data x f s)
  with_data-Meant d (inl a) f s p h = h a refl
  with_data-Meant d (inr e) f s p h = refused-Meant d e s p

  pub unless_error-Meant :
      {A : Type 0} (d : Def) (x : A × Option Error) (f : A → Store → Made × Store) (s : Store)
      → IsFenced policy s
      → Meant d s (f x.0 s)
      → Meant d s (unless_error x f s)
  unless_error-Meant d (a, none) f s p h = h
  unless_error-Meant d (a, some e) f s p h = refused-Meant d e s p

  -- The resource of a field has to do with the definition of the field.
  pub part-Means :
      (unregistered : Map Def) (promised : IsPromised policy unregistered) (ds : Defs)
      (us : List Unmarshaled) (s : Store) (f : Field)
      → AllMean (fencing policy) unregistered (fenced_meaning policy unregistered promised) ds s us
      → Means policy (def_at ds f) s (resource_at us f)
  part-Means unregistered promised ds us s none h = (λ c. tt, λ c. tt)
  part-Means unregistered promised no_more [] s (some n) h = (λ c. tt, λ c. tt)
  part-Means unregistered promised (also d ds) (u ∷ us) s (some zero) h = h.0
  part-Means unregistered promised (also d ds) (u ∷ us) s (some (suc n)) h =
      part-Means unregistered promised ds us s (some n) h.1
  part-Means unregistered promised no_more (u ∷ us) s (some n) h = elim h [ ]
  part-Means unregistered promised (also d ds) [] s (some n) h = elim h [ ]

  module _ (s : Store) (p : IsFenced policy s) where
    still_fenced :
        (t : Store) (g : Grows s t)
        → All (Fence policy s) s.filters
        → All (Fence policy t) s.filters
    still_fenced t g =
        map-All (Fence policy s) (Fence policy t) (λ f. Fence-Grows policy s t f g) s.filters

    pub add_filter-Meant :
        (d : Def) (f : Filter)
        → Fence policy s f
        → (IsClosed policy d → IsNoProxy f)
        → Meant d s (add_filter f s)
    add_filter-Meant d f h closed =
        let t = (add_filter f s).1 in
        let g : Grows s t = record {
          filters = (f ∷ [], refl);
          routers = Since-refl s.routers;
          handlers = Since-refl s.handlers;
          checkers = Since-refl s.checkers;
          objects = Since-refl s.objects;
          delays = Since-refl s.delays;
        } in
        record {
          holds = record {
            filters =
                append-All (Fence policy t) s.filters (f ∷ []) (still_fenced t g p.filters)
                  (Fence-Grows policy s t f g h, tt);
            handlers = p.handlers;
          };
          grows = g;
          result = (λ c. (f, get_elem?-new s.filters f, closed c), λ c. tt);
        }

    pub add_trigger-Meant : (d : Def) (o : Object) → Meant d s (add_trigger o s)
    add_trigger-Meant d o =
        let t = (add_trigger o s).1 in
        let g : Grows s t = record {
          filters = Since-refl s.filters;
          routers = Since-refl s.routers;
          handlers = Since-refl s.handlers;
          checkers = Since-refl s.checkers;
          objects = (o ∷ [], refl);
          delays = Since-refl s.delays;
        } in
        record {
          holds = record { filters = still_fenced t g p.filters; handlers = p.handlers };
          grows = g;
          result = (λ c. tt, λ c. tt);
        }

    pub add_router-Meant : (d : Def) (r : ExactPathRouter) → Meant d s (add_router r s)
    add_router-Meant d r =
        let t = (add_router r s).1 in
        let g : Grows s t = record {
          filters = Since-refl s.filters;
          routers = (r ∷ [], refl);
          handlers = Since-refl s.handlers;
          checkers = Since-refl s.checkers;
          objects = Since-refl s.objects;
          delays = Since-refl s.delays;
        } in
        record {
          holds = record { filters = still_fenced t g p.filters; handlers = p.handlers };
          grows = g;
          result = (λ c. tt, λ c. tt);
        }

    pub add_delay-Meant : (d : Def) (x : DelayTrigger) → Meant d s (add_delay x s)
    add_delay-Meant d x =
        let t = (add_delay x s).1 in
        let g : Grows s t = record {
          filters = Since-refl s.filters;
          routers = Since-refl s.routers;
          handlers = Since-refl s.handlers;
          checkers = Since-refl s.checkers;
          objects = (foreign (length s.delays) ∷ [], refl);
          delays = (x ∷ [], refl);
        } in
        record {
          holds = record { filters = still_fenced t g p.filters; handlers = p.handlers };
          grows = g;
          result = (λ c. tt, λ c. tt);
        }

    pub add_handler-Meant :
        (d : Def) (x : Session.Handler) → IsDecoded x → Meant d s (add_handler x s)
    add_handler-Meant d x h =
        let t = (add_handler x s).1 in
        let g : Grows s t = record {
          filters = Since-refl s.filters;
          routers = Since-refl s.routers;
          handlers = (x ∷ [], refl);
          checkers = Since-refl s.checkers;
          objects = Since-refl s.objects;
          delays = Since-refl s.delays;
        } in
        record {
          holds = record {
            filters = still_fenced t g p.filters;
            handlers = append-All IsDecoded s.handlers (x ∷ []) p.handlers (h, tt);
          };
          grows = g;
          result = (λ c. tt, λ c. tt);
        }

    pub add_checker-Meant :
        (d : Def) (x : Map Pbkdf2Hash)
        → (IsKeyed policy d → x ≡ policy.table)
        → Meant d s (add_checker x s)
    add_checker-Meant d x h =
        let t = (add_checker x s).1 in
        let g : Grows s t = record {
          filters = Since-refl s.filters;
          routers = Since-refl s.routers;
          handlers = Since-refl s.handlers;
          checkers = (x ∷ [], refl);
          objects = Since-refl s.objects;
          delays = Since-refl s.delays;
        } in
        record {
          holds = record { filters = still_fenced t g p.filters; handlers = p.handlers };
          grows = g;
          result = (λ c. tt, λ c. get_elem?-new s.checkers x ∙ ap (λ y. some y) (h c));
        }
