-- ===== src/Program/Sharing.antt =====
-- Which references share an object: a resource is shared once it is registered, and made anew before.
use mathlib.Core.Path.{subst}
use pullcord.Base.{
  ℕ, suc, ◌≡◌, ◌≢◌, refl, inl, inr, none, some, List, String, Map, lookup, insert, lookup-insert,
  Option-cases, eq_iff,
}
use pullcord.Config.Resource.{Unmarshaled}
use pullcord.Config.Loader.{
  Def, ref, typed, Defs, Entry, complete, Loaded, loaded, failed, out_of_fuel,
}
use pullcord.Config.Build.{of_made, build, build_all}
use pullcord.Config.Build.Sound.{
  Kept, OnLoaded, kept_as_it_is, and_then-Kept, AllValid, ValidEntries, ValidEntries-grows,
  build_all-Kept, build-Kept,
}
use pullcord.Authentication.Password.{Result}
use pullcord.Program.Store.{Store}
use pullcord.Program.Types.{Json, types}
use pullcord.Program.Placed.{IsPlaced, Grows, Valid, Valid-Grows, placing}
use pullcord.Program.Keepers.{New}
use pullcord.Program.Loading.{types-IsKeeper, types-Keeper, any_types, all_any_types}

-- What is new since a later store is new since an earlier one.
New-earlier :
    (s t : Store) (x : Loaded Unmarshaled × Store)
    → Grows s t
    → Kept placing (New t) t x
    → Kept placing (New s) t x
New-earlier s t x g h = record { holds = h.holds; grows = h.grows; result = earlier x h.result }
  where
    earlier :
        (x : Loaded Unmarshaled × Store) → OnLoaded placing (New t) x → OnLoaded placing (New s) x
    earlier (loaded u, r) n = (n.0, λ v. n.1 (Valid-Grows s t u g v))
    earlier (failed e, r) n = tt
    earlier (out_of_fuel, r) n = tt

module _ (json : Json) (decode : String → Result (List ℕ)) (unregistered : Map Def)
    (registry : Map Entry) where
  typed-New :
      (fuel : ℕ) (type : String) (data_ : ℕ) (ds : Defs) (s : Store)
      → IsPlaced s
      → ValidEntries placing s registry
      → Kept placing
          (New s)
          s
          (build (types json decode) unregistered (suc fuel) registry (typed type data_ ds) s)
  unfolding build
  typed-New fuel type data_ ds s p v =
      let reg = types json decode in
      elim (Option-cases (lookup type reg)) [
        | inl unknown ↦ rw (build, unknown) (kept_as_it_is placing (New s) s _ refl p tt)
        | inr (maker, q) ↦
            rw (build, q)
              (and_then-Kept placing (AllValid placing) (New s) s
                (build_all (build reg unregistered fuel registry) ds s) _
                (build_all-Kept placing (build reg unregistered fuel registry) (λ type. Unit)
                  registry
                  (build-Kept placing reg unregistered (λ type. Unit) (types-IsKeeper json decode)
                    registry (λ name d free e. any_types d) fuel)
                  ds s (all_any_types ds) v p)
                (λ us t held g all.
                  New-earlier s t (of_made (maker data_ us t)) g
                    ((types-Keeper json decode type maker q).keeps data_ us t held all)))
      ]

  unregistered_ref-New :
      (fuel : ℕ) (name type : String) (data_ : ℕ) (ds : Defs) (s : Store)
      → IsPlaced s
      → ValidEntries placing s registry
      → lookup name registry ≡ none
      → lookup name unregistered ≡ some (typed type data_ ds)
      → Kept placing
          (New s)
          s
          (build (types json decode) unregistered (suc (suc fuel)) registry (ref name) s)
  unfolding build
  unregistered_ref-New fuel name type data_ ds s p v free q =
      rw (build, free, q) (typed-New fuel type data_ ds s p v)

  -- Before a resource with a type is registered, two references to it, one after the other, load two
  -- different objects; once it is registered, a reference loads the registered one and makes nothing.
  pub repeated_ref :
      (fuel : ℕ) (name type : String) (data_ : ℕ) (ds : Defs) (s t r : Store) (u w : Unmarshaled)
      → IsPlaced s
      → ValidEntries placing s registry
      → lookup name registry ≡ none
      → lookup name unregistered ≡ some (typed type data_ ds)
      → build (types json decode) unregistered (suc (suc fuel)) registry (ref name) s
        ≡ (loaded u, t)
      → build (types json decode) unregistered (suc (suc fuel)) registry (ref name) t
        ≡ (loaded w, r)
      → (u ≢ w)
        × (build
              (types json decode)
              unregistered
              (suc (suc fuel))
              (insert name (complete u) registry)
              (ref name)
              r
            ≡ (loaded u, r))
  unfolding build
  repeated_ref fuel name type data_ ds s t r u w p v free q e f =
      let first : Kept placing (New s) s (loaded u, t) =
        subst (Kept placing (New s) s) e
          (unregistered_ref-New fuel name type data_ ds s p v free q) in
      let second : Kept placing (New t) t (loaded w, r) = subst (Kept placing (New t) t) f (
        unregistered_ref-New fuel name type data_ ds t first.holds
          (ValidEntries-grows placing s t registry first.grows v) free q) in
      let at_name = lookup-insert name name (complete u) registry in
      (
        λ same. second.result.1 (subst (Valid t) same first.result.0),
        rw (build, rw ((eq_iff name name).1 refl) at at_name) refl,
      )
