-- ===== src/Config/Loader/Tests.antt =====
-- The loader on a small configuration, and the theorem at it.
use pullcord.Base.{◌≡◌, refl, none, some, [], ◌∷◌, Map, lookup, insert, cyclic_dependency, Error}
use pullcord.Config.Resource.{Unmarshaled}
use pullcord.Config.Loader.{
  Def, ref, made, Maker, Entry, building, failed, out_of_fuel, load, register_resource_type,
  unmarshal_by_name,
}
use pullcord.Config.Loader.Cycles.{self_reference}

abbrev types : Map Maker
types = ("trigger", λ n us. made (Unmarshaled.trigger n)) ∷ []

abbrev resources : Map Def
resources = ("loop", ref "loop") ∷ []

taken :
    (register_resource_type {M = Maker} "ref" (λ n us. made (Unmarshaled.trigger n)) []).0
    ≡ some Error.duplicate_resource_type
unfolding register_resource_type lookup
taken = refl

listed : lookup "loop" resources ≡ some (ref "loop")
unfolding lookup
listed = refl

unregistered : lookup {V = Entry} "loop" [] ≡ none
unfolding lookup
unregistered = refl

self_reference_example :
    (unmarshal_by_name types resources 9 (insert "loop" building []) "loop"
      ≡ failed cyclic_dependency)
    × (load types resources 8 [] (ref "loop") ≡ out_of_fuel)
self_reference_example = self_reference types resources "loop" 8 [] listed unregistered
