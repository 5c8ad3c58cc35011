-- ===== src/Program/Fencing.antt =====
-- Configurations in which only login handlers of one identifier, with one table of passwords, lead to
-- proxies and services, and what loading them keeps.
pub mod Decoders
pub mod Makers
pub mod Secrecy
mod Tests
use text.Mathlib.Text.{◌==◌ as str_eq}
use pullcord.Base.{
  ℕ, zero, suc, false, true, ◌≡◌, ◌≢◌, refl, ◌∙◌, sym, ap, ◌⊎◌, inl, inr, Option, none, some, List,
  [], ◌∷◌, ◌++◌, String, Map, lookup, get_elem?, length, All, map-All, append-All,
}
use pullcord.Config.Resource.{
  Unmarshaled, nil, trigger, filter, router, session_handler, password_checker, plain,
}
use pullcord.Config.Loader.{Def, malformed, empty, ref, bad_ref, typed, Defs, no_more, also}
use pullcord.Config.Build.Sound.{Keeping}
use pullcord.Config.Build.Meaning.{Meaning}
use pullcord.Authentication.Password.{Pbkdf2Hash, HashDef, Result, unmarshal_store}
use pullcord.Gateway.{
  Filter, standard_response, landing, passthru, service, login, cookiemask, conditional,
}
use pullcord.Program.Store.{Store}
use pullcord.Program.Types.{Field, Json}
use pullcord.Program.Placed.{Grows, Grows-refl, Grows-trans, Since}
use pullcord.Program.Opening.{IsDecoded}

abbrev pub IsNoProxy : Filter → Type 0
IsNoProxy (standard_response t) = Unit
IsNoProxy landing = Unit
IsNoProxy (passthru p) = ⊥
IsNoProxy (service svc) = ⊥
IsNoProxy (login i c d) = Unit
IsNoProxy (cookiemask h m) = Unit
IsNoProxy (conditional t x y z) = Unit

-- The filter at `a` is no proxy and no service.
abbrev pub Shut : Store → ℕ → Type 0
Shut s a = (f : Filter) × (get_elem? s.filters a ≡ some f) × IsNoProxy f

-- The definition that a field has.
abbrev pub def_at : Defs → Field → Def
def_at ds none = empty
def_at no_more (some i) = empty
def_at (also d ds) (some zero) = d
def_at (also d ds) (some (suc i)) = def_at ds (some i)

abbrev pub OnFilter : (ℕ → Type 0) → Unmarshaled → Type 0
OnFilter P (filter a) = P a
OnFilter P _ = Unit

abbrev pub OnChecker : (ℕ → Type 0) → Unmarshaled → Type 0
OnChecker P (password_checker a) = P a
OnChecker P _ = Unit

-- What a configuration promises: the identifier of its login handlers and the table of their passwords,
-- names of resources that are no proxies, and names of password stores with the table; over what
-- the JSON decoder and the base64 decoder give.
pub record Policy : Type 1 where
  pub json : Json
  pub decode : String → Result (List ℕ)
  pub identifier : String
  pub table : Map Pbkdf2Hash
  pub closed : String → Type 0
  pub keyed : String → Type 0

module _ (policy : Policy) where
  -- A definition of neither a proxy nor a service.
  abbrev pub IsClosed : Def → Type 0
  IsClosed (typed type n ds) =
      (str_eq type "passthrufilter" ≡ false) × (str_eq type "minmonitorredservice" ≡ false)
  IsClosed (ref name) = policy.closed name
  IsClosed (malformed e) = Unit
  IsClosed empty = Unit
  IsClosed (bad_ref e) = Unit

  -- A definition of a password store, if it is one, with the table.
  abbrev pub IsKeyed : Def → Type 0
  IsKeyed (typed type n ds) =
      (t : Map HashDef)
      → policy.json.password_store n ≡ inl t
      → (unmarshal_store policy.decode t).0 ≡ policy.table
  IsKeyed (ref name) = policy.keyed name
  IsKeyed (malformed e) = Unit
  IsKeyed empty = Unit
  IsKeyed (bad_ref e) = Unit

  -- A login handler has the identifier and the table, or else neither the identifier nor a proxy
  -- behind it; a cookie masking filter has no proxy behind it.
  abbrev pub IsFencedType : String → ℕ → Defs → Type 0
  IsFencedType type n ds =
      (str_eq type "loginhandler" ≡ true
        → (j : String) (c d : Field) → policy.json.login n ≡ inl (j, c, d)
        → ((policy.identifier ≡ j) × IsKeyed (def_at ds c))
          ⊎ ((j ≢ policy.identifier) × IsClosed (def_at ds d)))
      × (str_eq type "cookiemaskfilter" ≡ true
          → (h m : Field) → policy.json.cookiemask n ≡ inl (h, m)
          → IsClosed (def_at ds m))

  unfoldable mutual
    pub IsFencedDef : Def → Type 0
    IsFencedDef (typed type n ds) = IsFencedType type n ds × AllFencedDefs ds
    IsFencedDef (ref name) = Unit
    IsFencedDef (malformed e) = Unit
    IsFencedDef empty = Unit
    IsFencedDef (bad_ref e) = Unit

    pub AllFencedDefs : Defs → Type 0
    AllFencedDefs no_more = Unit
    AllFencedDefs (also d ds) = IsFencedDef d × AllFencedDefs ds

  abbrev pub Keyed : Store → ℕ → Type 0
  Keyed s c = get_elem? s.checkers c ≡ some policy.table

  -- The same of a filter of the store.
  abbrev pub Fence : Store → Filter → Type 0
  Fence s (login j c d) =
      ((policy.identifier ≡ j) × Keyed s c) ⊎ ((j ≢ policy.identifier) × Shut s d)
  Fence s (cookiemask h m) = Shut s m
  Fence s (conditional t x y z) = Shut s x × Shut s y × Shut s z
  Fence s (standard_response t) = Unit
  Fence s landing = Unit
  Fence s (passthru p) = Unit
  Fence s (service svc) = Unit

  pub record IsFenced (s : Store) : Type 0 where
    pub filters : All (Fence s) s.filters
    pub handlers : All IsDecoded s.handlers

  abbrev pub fencing : Keeping Store
  fencing = record {
    holds = IsFenced;
    grows = Grows;
    valid = λ s u. Unit;
    grows_refl = Grows-refl;
    grows_trans = Grows-trans;
    valid_nil = λ s. tt;
    valid_grows = λ s t u g v. tt;
  }

  -- A resource of a definition of no proxy is no proxy, and so on.
  abbrev pub Means : Def → Store → Unmarshaled → Type 0
  Means d s u = (IsClosed d → OnFilter (Shut s) u) × (IsKeyed d → OnChecker (Keyed s) u)

get_elem?-Since :
    {A : Type 0} (xs ys : List A) (a : ℕ) (x : A)
    → Since xs ys
    → get_elem? xs a ≡ some x
    → get_elem? ys a ≡ some x
get_elem?-Since xs ys a x (new, e) h = ap (λ l. get_elem? l a) e ∙ still xs a h
  where
    still : (zs : List _) (b : ℕ) → get_elem? zs b ≡ some x → get_elem? (zs ++ new) b ≡ some x
    still [] b h = absurd (cc)
    still (z ∷ zs) zero h = h
    still (z ∷ zs) (suc b) h = still zs b h

pub Shut-Grows : (s t : Store) (a : ℕ) → Grows s t → Shut s a → Shut t a
Shut-Grows s t a g (f, e, n) = (f, get_elem?-Since s.filters t.filters a f g.filters e, n)

module _ (policy : Policy) where
  pub Keyed-Grows : (s t : Store) (c : ℕ) → Grows s t → Keyed policy s c → Keyed policy t c
  Keyed-Grows s t c g e = get_elem?-Since s.checkers t.checkers c policy.table g.checkers e

  pub Fence-Grows : (s t : Store) (f : Filter) → Grows s t → Fence policy s f → Fence policy t f
  Fence-Grows s t (login j c d) g (inl (e, k)) = inl (e, Keyed-Grows s t c g k)
  Fence-Grows s t (login j c d) g (inr (e, k)) = inr (e, Shut-Grows s t d g k)
  Fence-Grows s t (cookiemask h m) g k = Shut-Grows s t m g k
  Fence-Grows s t (conditional b x y z) g (k, l, m) =
      (Shut-Grows s t x g k, Shut-Grows s t y g l, Shut-Grows s t z g m)
  Fence-Grows s t (standard_response r) g k = tt
  Fence-Grows s t landing g k = tt
  Fence-Grows s t (passthru p) g k = tt
  Fence-Grows s t (service svc) g k = tt

  pub OnFilter-Grows :
      (s t : Store) (u : Unmarshaled) → Grows s t → OnFilter (Shut s) u → OnFilter (Shut t) u
  OnFilter-Grows s t (filter a) g h = Shut-Grows s t a g h
  OnFilter-Grows s t nil g h = tt
  OnFilter-Grows s t (trigger a) g h = tt
  OnFilter-Grows s t (router a) g h = tt
  OnFilter-Grows s t (session_handler a) g h = tt
  OnFilter-Grows s t (password_checker a) g h = tt
  OnFilter-Grows s t (plain a) g h = tt

  pub OnChecker-Grows :
      (s t : Store) (u : Unmarshaled)
      → Grows s t
      → OnChecker (Keyed policy s) u
      → OnChecker (Keyed policy t) u
  OnChecker-Grows s t (password_checker a) g h = Keyed-Grows s t a g h
  OnChecker-Grows s t nil g h = tt
  OnChecker-Grows s t (trigger a) g h = tt
  OnChecker-Grows s t (filter a) g h = tt
  OnChecker-Grows s t (router a) g h = tt
  OnChecker-Grows s t (session_handler a) g h = tt
  OnChecker-Grows s t (plain a) g h = tt

  -- The names are what they say.
  pub record IsPromised (unregistered : Map Def) : Type 0 where
    pub closed :
        (name : String) (d : Def)
        → lookup name unregistered ≡ some d
        → policy.closed name
        → IsClosed policy d
    pub keyed :
        (name : String) (d : Def)
        → lookup name unregistered ≡ some d
        → policy.keyed name
        → IsKeyed policy d

  abbrev pub fenced_meaning :
      (unregistered : Map Def) → IsPromised unregistered → Meaning (fencing policy) unregistered
  fenced_meaning unregistered promised = record {
    means = Means policy;
    means_grows =
        λ d s t u g h. (λ c. OnFilter-Grows s t u g (h.0 c), λ c. OnChecker-Grows s t u g (h.1 c));
    means_empty = λ s. (λ c. tt, λ c. tt);
    means_ref = λ name d s u q h.
        (λ c. h.0 (promised.closed name d q c), λ c. h.1 (promised.keyed name d q c));
  }
