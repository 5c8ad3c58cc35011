-- ===== src/Program/Keepers.antt =====
-- Every decoder of the program keeps the store placed: the objects of the program's filters, triggers
-- and handlers, one by one.
use pullcord.Base.{
  ℕ, zero, suc, ◌<◌, ◌≡◌, refl, ◌⊎◌, inl, inr, Option, none, some, List, [], ◌∷◌, ◌++◌, Error,
  length, All, Map, arith,
}
use pullcord.Config.Resource.{
  Unmarshaled, as_trigger, as_filter, as_session_handler, as_password_checker,
}
use pullcord.Config.Loader.{Made}
use pullcord.Config.Build.{of_made}
use pullcord.Config.Build.Sound.{Kept, kept_as_it_is}
use pullcord.Trigger.Handler.{Object}
use pullcord.Trigger.Definitions.{DelayTrigger}
use pullcord.Authentication.Password.{Pbkdf2Hash}
use pullcord.Authentication.Session
use pullcord.Util.Router.{ExactPathRouter}
use pullcord.Gateway.{Filter}
use pullcord.Program.Store.{
  Store, with_data, unless_error, add_filter, add_trigger, add_delay, add_handler, add_checker,
  add_router,
}
use pullcord.Program.Types.{Field, resource_at}
use pullcord.Program.Placed.{
  Leads, Calls, Waits, Routes, IsPlaced, Grows, Since-refl, Leads-Grows, Calls-Grows, Waits-Grows,
  grown-IsPlaced, Valid, placing,
}

-- A resource that came into the store after `s`.
abbrev pub New : Store → Store → Unmarshaled → Type 0
New s t u = Valid t u × ¬ Valid s u

-- What a decoder leaves, from a store that is placed.
abbrev pub Keeps : Store → Made × Store → Type 0
Keeps s x = Kept placing (New s) s (of_made x)

pub refused-Keeps : (e : Error) (s : Store) → IsPlaced s → Keeps s (Made.refused e, s)
refused-Keeps e s p = kept_as_it_is placing (New s) s _ refl p tt

pub with_data-Keeps :
    {A : Type 0} (x : A ⊎ Error) (f : A → Store → Made × Store) (s : Store)
    → IsPlaced s
    → ((a : A) → Keeps s (f a s))
    → Keeps s (with_data x f s)
with_data-Keeps (inl a) f s p h = h a
with_data-Keeps (inr e) f s p h = refused-Keeps e s p

pub unless_error-Keeps :
    {A : Type 0} (x : A × Option Error) (f : A → Store → Made × Store) (s : Store)
    → IsPlaced s
    → Keeps s (f x.0 s)
    → Keeps s (unless_error x f s)
unless_error-Keeps (a, none) f s p h = h
unless_error-Keeps (a, some e) f s p h = refused-Keeps e s p

length-add : {A : Type 0} (xs : List A) (x : A) → length xs < length (xs ++ x ∷ [])
length-add [] x = omega arith
length-add (y ∷ xs) x = omega (arith, length-add xs x)

module _ (s : Store) (p : IsPlaced s) where
  pub add_filter-Keeps : (f : Filter) → Leads s (length s.filters) f → Keeps s (add_filter f s)
  add_filter-Keeps f h =
      let t = (add_filter f s).1 in
      let g : Grows s t = record {
        filters = (f ∷ [], refl);
        routers = Since-refl s.routers;
        handlers = Since-refl s.handlers;
        checkers = Since-refl s.checkers;
        objects = Since-refl s.objects;
        delays = Since-refl s.delays;
      } in
      record {
        holds = grown-IsPlaced s t g p (Leads-Grows s t g (length s.filters) f h, tt) tt tt tt;
        grows = g;
        result = (length-add s.filters f, λ v. omega (arith, v));
      }

  pub add_trigger-Keeps : (o : Object) → Calls s (length s.objects) o → Keeps s (add_trigger o s)
  add_trigger-Keeps o h =
      let t = (add_trigger o s).1 in
      let g : Grows s t = record {
        filters = Since-refl s.filters;
        routers = Since-refl s.routers;
        handlers = Since-refl s.handlers;
        checkers = Since-refl s.checkers;
        objects = (o ∷ [], refl);
        delays = Since-refl s.delays;
      } in
      record {
        holds = grown-IsPlaced s t g p tt (Calls-Grows s t g (length s.objects) o h, tt) tt tt;
        grows = g;
        result = (length-add s.objects o, λ v. omega (arith, v));
      }

  pub add_router-Keeps :
      (r : ExactPathRouter) → Routes s (length s.routers) r → Keeps s (add_router r s)
  add_router-Keeps r h =
      let t = (add_router r s).1 in
      let g : Grows s t = record {
        filters = Since-refl s.filters;
        routers = (r ∷ [], refl);
        handlers = Since-refl s.handlers;
        checkers = Since-refl s.checkers;
        objects = Since-refl s.objects;
        delays = Since-refl s.delays;
      } in
      record {
        holds = grown-IsPlaced s t g p tt tt tt (h, tt);
        grows = g;
        result = (length-add s.routers r, λ v. omega (arith, v));
      }

  pub add_handler-Keeps : (h : Session.Handler) → Keeps s (add_handler h s)
  add_handler-Keeps h =
      let t = (add_handler h s).1 in
      let g : Grows s t = record {
        filters = Since-refl s.filters;
        routers = Since-refl s.routers;
        handlers = (h ∷ [], refl);
        checkers = Since-refl s.checkers;
        objects = Since-refl s.objects;
        delays = Since-refl s.delays;
      } in
      record {
        holds = grown-IsPlaced s t g p tt tt tt tt;
        grows = g;
        result = (length-add s.handlers h, λ v. omega (arith, v));
      }

  pub add_checker-Keeps : (c : Map Pbkdf2Hash) → Keeps s (add_checker c s)
  add_checker-Keeps c =
      let t = (add_checker c s).1 in
      let g : Grows s t = record {
        filters = Since-refl s.filters;
        routers = Since-refl s.routers;
        handlers = Since-refl s.handlers;
        checkers = (c ∷ [], refl);
        objects = Since-refl s.objects;
        delays = Since-refl s.delays;
      } in
      record {
        holds = grown-IsPlaced s t g p tt tt tt tt;
        grows = g;
        result = (length-add s.checkers c, λ v. omega (arith, v));
      }

  pub add_delay-Keeps : (d : DelayTrigger) → Waits s (length s.delays) d → Keeps s (add_delay d s)
  add_delay-Keeps d h =
      let t = (add_delay d s).1 in
      let g : Grows s t = record {
        filters = Since-refl s.filters;
        routers = Since-refl s.routers;
        handlers = Since-refl s.handlers;
        checkers = Since-refl s.checkers;
        objects = (Object.foreign (length s.delays) ∷ [], refl);
        delays = (d ∷ [], refl);
      } in
      record {
        holds =
            grown-IsPlaced s t g p tt (length-add s.delays d, tt)
              (Waits-Grows s t g (length s.delays) d h, tt) tt;
        grows = g;
        result = (length-add s.objects _, λ v. omega (arith, v));
      }

-- The resources in the data are in the store.
pub resource_at-Valid :
    (s : Store) (us : List Unmarshaled) (f : Field) → All (Valid s) us → Valid s (resource_at us f)
resource_at-Valid s us none h = tt
resource_at-Valid s [] (some i) h = tt
resource_at-Valid s (u ∷ us) (some zero) h = h.0
resource_at-Valid s (u ∷ us) (some (suc i)) h = resource_at-Valid s us (some i) h.1

module _ (s : Store) where
  pub as_trigger-Valid :
      (u : Unmarshaled) (a : ℕ) → as_trigger u ≡ some a → Valid s u → a < length s.objects
  unfolding as_trigger
  as_trigger-Valid (Unmarshaled.trigger b) a e v = let same : b ≡ a = cc in rw (← same) v
  as_trigger-Valid _ a e v = absurd (cc)

  pub as_filter-Valid :
      (u : Unmarshaled) (a : ℕ) → as_filter u ≡ some a → Valid s u → a < length s.filters
  unfolding as_filter
  as_filter-Valid (Unmarshaled.filter b) a e v = let same : b ≡ a = cc in rw (← same) v
  as_filter-Valid _ a e v = absurd (cc)

  pub as_session_handler-Valid :
      (u : Unmarshaled) (a : ℕ) → as_session_handler u ≡ some a → Valid s u → a < length s.handlers
  unfolding as_session_handler
  as_session_handler-Valid (Unmarshaled.session_handler b) a e v =
      let same : b ≡ a = cc in rw (← same) v
  as_session_handler-Valid _ a e v = absurd (cc)

  pub as_password_checker-Valid :
      (u : Unmarshaled) (a : ℕ) → as_password_checker u ≡ some a → Valid s u → a < length s.checkers
  unfolding as_password_checker
  as_password_checker-Valid (Unmarshaled.password_checker b) a e v =
      let same : b ≡ a = cc in rw (← same) v
  as_password_checker-Valid _ a e v = absurd (cc)
