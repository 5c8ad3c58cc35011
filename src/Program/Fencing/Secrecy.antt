-- ===== src/Program/Fencing/Secrecy.antt =====
-- A server from a configuration in which only login handlers lead to proxies and services: what
-- requests without a password do.
use mathlib.Core.Path.{subst}
use pullcord.Base.{Any, ℕ, ◌≡◌, refl, ◌∙◌, ◌⊎◌, some, List, String, Map, lookup, get_elem?, All}
use pullcord.Config.Loader.{Def, ref, typed, Defs, no_more, also, loaded}
use pullcord.Config.Build.{build_server}
use pullcord.Config.Build.Sound.{Kept}
use pullcord.Config.Build.Meaning.{AllAllowed}
use pullcord.Config.Build.Named.{AllNamed, build_server-Named}
use pullcord.Config.Resource.{Unmarshaled}
use pullcord.Authentication.Session.Values.{Each}
use pullcord.Authentication.CookieFilter.Flags.{IsUnset}
use pullcord.Authentication.Password.{Kdf}
use pullcord.Gateway.{
  Filter, standard_response, landing, passthru, service, login, cookiemask, conditional, Request,
  Env, filter_all,
}
use pullcord.Gateway.Guard.{IsOwn, Guarded, IsGuard}
use pullcord.Gateway.Passwords.{ShowsPassword, filter_all_needs_stored_password}
use pullcord.Program.Store.{Store, empty_store}
use pullcord.Program.Types.{types}
use pullcord.Program.Serving.{
  start, checker_at, check_passwords, decoded-Each, handler_at-Holds, All-get_elem?,
}
use pullcord.Program.Fencing.{
  IsNoProxy, Shut, Policy, IsFencedDef, AllFencedDefs, Keyed, Fence, IsFenced, fencing, IsPromised,
  fenced_meaning,
}
use pullcord.Program.Fencing.Makers.{types-Maker}

module _ (policy : Policy) where
  Fence-Guarded :
      (s : Store) (f : Filter)
      → IsNoProxy f
      → Fence policy s f
      → Guarded policy.identifier (Keyed policy s) (Shut s) f
  Fence-Guarded s (standard_response t) n h = tt
  Fence-Guarded s landing n h = tt
  Fence-Guarded s (passthru p) n h = n
  Fence-Guarded s (service svc) n h = n
  Fence-Guarded s (login j c d) n h = h
  Fence-Guarded s (cookiemask k m) n h = h
  Fence-Guarded s (conditional t x y z) n h = h

  fenced-IsGuard :
      (s : Store)
      → IsFenced policy s
      → IsGuard policy.identifier (Keyed policy s) (Shut s) s.filters
  fenced-IsGuard s p = record {
    guarded = λ a f (g, at_a, n) e.
        let same : g ≡ f = cc in
        Fence-Guarded s f (subst IsNoProxy same n)
          (All-get_elem? (Fence policy s) s.filters a f p.filters e);
  }

  empty-IsFenced : IsFenced policy empty_store
  empty-IsFenced = record { filters = tt; handlers = tt }

  module _ (unregistered : Map Def) where
    AllFencedDefs-AllAllowed :
        (promised : IsPromised policy unregistered) (ds : Defs)
        → AllFencedDefs policy ds
        → AllAllowed
            (fencing policy)
            unregistered
            (fenced_meaning policy unregistered promised)
            (IsFencedDef policy)
            ds
    unfolding IsFencedDef
    AllFencedDefs-AllAllowed promised no_more h = tt
    AllFencedDefs-AllAllowed promised (also d ds) h =
        (h.0, AllFencedDefs-AllAllowed promised ds h.1)

    fenced_parts :
        (promised : IsPromised policy unregistered) (type : String) (n : ℕ) (ds : Defs)
        → IsFencedDef policy (typed type n ds)
        → AllAllowed
            (fencing policy)
            unregistered
            (fenced_meaning policy unregistered promised)
            (IsFencedDef policy)
            ds
    unfolding IsFencedDef
    fenced_parts promised type n ds h = AllFencedDefs-AllAllowed promised ds h.1

    module _ (promised : IsPromised policy unregistered)
        (fenced : (name : String) (d : Def)
          → lookup name unregistered ≡ some d
          → IsFencedDef policy d)
        (env : Env) (kdf : Kdf) where
      -- A configuration in which proxies and services stand only behind login handlers of one
      -- identifier with one table of passwords, and its pipeline names none of them, makes a server
      -- that asks for a password: whatever requests come to a filter of its pipeline, with the password
      -- stores that it made, nothing is dialled, triggered or forwarded, and replies are the program's
      -- own, unless one of the requests carries a user name and a password, once each, such that the
      -- hash of the user in the table is the key that the password derives.
      pub built_server_needs_password :
          (fuel call_fuel : ℕ) (order pipeline : List String) (filters : List ℕ) (s : Store)
          (n a : ℕ) (reqs : List Request)
          → All policy.closed pipeline
          → build_server
              (types policy.json policy.decode)
              unregistered
              fuel
              order
              pipeline
              empty_store
            ≡ (loaded filters, s)
          → ((c : ℕ) (user pass : String)
              → env.check_password c user pass ≡ check_passwords kdf s c user pass)
          → get_elem? filters n ≡ some a
          → ((filter_all env call_fuel a reqs (start s)).1.net ≡ (start s).net
              × All IsOwn (filter_all env call_fuel a reqs (start s)).0)
            ⊎ Any (ShowsPassword kdf policy.table policy.identifier) reqs
      built_server_needs_password fuel call_fuel order pipeline filters s n a reqs closed e stores
            at_n =
          let k = fencing policy in
          let m = fenced_meaning policy unregistered promised in
          let built : Kept k (AllNamed k unregistered m policy.closed) empty_store
              (loaded filters, s) =
            subst (Kept k (AllNamed k unregistered m policy.closed) empty_store) e (
              build_server-Named k unregistered m (types policy.json policy.decode)
                (IsFencedDef policy) (fenced_parts promised)
                (types-Maker policy unregistered promised) fenced fuel policy.closed order pipeline
                empty_store closed empty-IsFenced) in
          let (name, is_closed, mean) =
            All-get_elem?
              (λ b.
                (name : String) × policy.closed name × m.means (ref name) s (Unmarshaled.filter b))
              filters n a built.result at_n in
          filter_all_needs_stored_password env policy.identifier (Keyed policy s) kdf policy.table
            (Shut s) call_fuel a reqs (start s)
            (λ c user pass keyed. stores c user pass ∙ rw (check_passwords, checker_at, keyed) refl)
            (mean.0 is_closed) (fenced-IsGuard s built.holds)
            (handler_at-Holds (Each (IsUnset policy.identifier)) s.handlers
              (decoded-Each (IsUnset policy.identifier)) built.holds.handlers)
