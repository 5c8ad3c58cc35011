-- ===== src/Config/Validator/Tests.antt =====
-- The validator on a small registry.
use pullcord.Base.{
  ◌≡◌, refl, true, false, inl, inr, none, some, [], ◌∷◌, String, Map, Error, lookup, insert, delete,
  arith, Option, ℕ, if◌then◌else◌, ◌==◌,
}
use pullcord.Authentication.Names.{hex}
use pullcord.Authentication.Session.{Rand, bytes}
use pullcord.Config.Resource.{Unmarshaled, plain}
use pullcord.Config.Loader.{malformed, typed, no_more, made, register_resource_type, fill_pipeline}
use pullcord.Config.Loader.Acyclic.{height}
use pullcord.Config.Build.{
  StatefulMaker, build, build_all, build_by_name, build_registry, build_server,
}
use pullcord.Config.Build.Sound.{OfTypes}
use pullcord.Config.Validator.{
  Watched, IsValid, ConfigTestData, ConfigTest, make_validation, watching, watch_all,
  generate_validator, try_data, check_all, run,
}
use pullcord.Config.Validator.Kinds.{nested, passed, Kind, try_data-Kind}

abbrev types : Map (StatefulMaker ℕ)
types = ("thing", λ n us s. (made (plain n), s)) ∷ []

-- The thing of number 1 is not valid.
abbrev valid_thing : Unmarshaled → Option Error
valid_thing (plain n) = if n == 1 then some (Error.other 1) else none
valid_thing _ = none

abbrev is_valid : IsValid
is_valid = some valid_thing

abbrev rand : Rand
rand = bytes (1 ∷ 255 ∷ [])

abbrev name : String
name = "validator-01ff"

abbrev thing : ℕ → ConfigTestData
thing n = record { definition = inl (typed "thing" n no_more) }

abbrev test : ConfigTest
test = record {
  is_valid = is_valid;
  syntactically_bad =
      record { definition = inr (Error.other 2) }
      ∷ record { definition = inl (malformed (Error.other 3)) }
      ∷ [];
  semantically_bad = thing 1 ∷ [];
  good = thing 2 ∷ [];
}

abbrev world : Watched ℕ
world = record { store = 0; is_valid_was_run = false; validations = [] }

-- Every assertion of this test passes.
all_pass :
    (run types 3 test rand world).0
    ≡ true ∷ true ∷ true ∷ true ∷ true ∷ true ∷ true ∷ true ∷ true ∷ true ∷ true ∷ true ∷ true
      ∷ true ∷ []
unfolding run generate_validator check_all try_data hex register_resource_type make_validation
    build_server build_registry build_by_name build build_all fill_pipeline lookup insert delete
all_pass = refl

abbrev registry : Map (StatefulMaker (Watched ℕ))
registry = (generate_validator rand (watching is_valid) (watch_all types)).1

generated : generate_validator rand (watching is_valid) (watch_all types) ≡ ((name, none), registry)
unfolding generate_validator hex register_resource_type lookup insert delete
generated = refl

try_data-Kind_example :
    Kind types is_valid name
      (nested types is_valid name registry 1 (thing 1) world)
      (passed (try_data registry 2 name (thing 1) world))
unfolding OfTypes height
try_data-Kind_example =
    try_data-Kind types is_valid name rand registry 1 (thing 1) world generated
      ((refl, tt), omega arith)
