-- ===== src/Config/Loader/Cycles.antt =====
-- config/config.go: references that lead back to themselves.
use pullcord.Base.{
  ℕ, zero, suc, ◌≡◌, refl, none, some, String, Map, lookup, insert, lookup-insert,
  cyclic_dependency, arith, eq_iff,
}
use pullcord.Config.Loader.{
  Def, ref, Maker, Entry, building, failed, out_of_fuel, load, unmarshal_by_name,
}

module _ (types : Map Maker) (unregistered : Map Def) where
  -- A resource that refers to itself is refused while it is the one that is registered. Loaded for
  -- the sake of another one, before it is registered itself, it is loaded for ever: no fuel is
  -- enough.
  pub self_reference :
      (name : String) (fuel : ℕ) (registry : Map Entry)
      → lookup name unregistered ≡ some (ref name)
      → lookup name registry ≡ none
      → (unmarshal_by_name types unregistered (suc fuel) (insert name building registry) name
          ≡ failed cyclic_dependency)
        × (load types unregistered fuel registry (ref name) ≡ out_of_fuel)
  unfolding load unmarshal_by_name
  self_reference name zero registry h free = (
    rw (unmarshal_by_name, h, load)
        (ground (arith, lookup-insert name name building registry, eq_iff name name)),
    refl,
  )
  self_reference name (suc fuel) registry h free = (
    rw (unmarshal_by_name, h, load)
        (ground (arith, lookup-insert name name building registry, eq_iff name name)),
    rw (load, free, h) (self_reference name fuel registry h free).1,
  )
