-- ===== src/Config/Validator.antt =====
-- config/util/validator.go: the resource type that a test registers to see what becomes of a
-- configuration, and the assertions of `ConfigTest.Run`.
pub mod Watching
pub mod Kinds
mod Tests
use text.Mathlib.Text.{◌==◌ as str_eq}
use pullcord.Base.{
  ℕ, Bool, true, false, not, ◌&&◌, ◌⊎◌, inl, inr, Option, none, some, List, [], ◌∷◌, ◌++◌, String,
  ℤ, pos, Map, Error, length,
}
use pullcord.Authentication.Names.{◌<+>◌, hex}
use pullcord.Authentication.Session.{Rand, bytes, unreadable}
use pullcord.Config.Resource.{Unmarshaled, nil, filter}
use pullcord.Config.Loader.{
  Def, typed, no_more, also, made, refused, Loaded, loaded, failed, out_of_fuel,
  register_resource_type,
}
use pullcord.Config.Build.{StatefulMaker, build_server}

-- The state of a test: what the decoders of other types have, the variable `isValidWasRun`, and what
-- the validation resources hold, which have addresses of their own.
pub record Watched (S : Type 0) : Type 0 where
  pub store : S
  pub is_valid_was_run : Bool
  pub validations : List Unmarshaled

-- `validate` of a validation resource.
abbrev pub Validate : Type 0 → Type 0
Validate S = Unmarshaled → Watched S → Option Error × Watched S

abbrev pub first : List Unmarshaled → Unmarshaled
first [] = nil
first (u ∷ us) = u

pub response_string : String
response_string =
    "<!DOCTYPE html>\n<html>\n <head>\n  <title>\n   Pullcord validator output\n  </title>\n </head>\n <body>\n  <h1>\n   Pullcord validator output\n  </h1>\n  <p>\n   This page is the result of a successful config validation resource being\n   created. This is probably the result of a unit test passing.\n  </p>\n </body>\n</html>\n"

-- `validation.FilterRequest`
pub filter_request : ℤ × String
filter_request = (pos 200, response_string)

-- A test's function for resources of its type, nil if it has none.
abbrev pub IsValid : Type 0
IsValid = Option (Unmarshaled → Option Error)

-- `c.IsValid(i)`, or nil without it.
abbrev pub judge : IsValid → Unmarshaled → Option Error
judge none u = none
judge (some f) u = f u

-- What the JSON decoder makes of the definition of a resource with the type of the test and this data;
-- the error is that of a configuration that is no JSON with it.
pub record ConfigTestData : Type 0 where
  pub definition : Def ⊎ Error

pub record ConfigTest : Type 0 where
  pub is_valid : IsValid
  pub syntactically_bad : List ConfigTestData
  pub semantically_bad : List ConfigTestData
  pub good : List ConfigTestData

-- The configuration of `constructConfigReader`, once it is decoded; its pipeline is the validator.
abbrev pub constructed : String → Def → Map Def
constructed validator_name d = ("validator", typed validator_name 0 (also d no_more)) ∷ []

-- What an assertion sees of a server and an error.
abbrev pub is_error : {A : Type 0} → Loaded A → Bool
is_error (loaded a) = false
is_error (failed e) = true
is_error out_of_fuel = false

abbrev pub is_nil : {A : Type 0} → Loaded A → Bool
is_nil (loaded a) = false
is_nil (failed e) = true
is_nil out_of_fuel = false

abbrev pub is_none : Option Error → Bool
is_none none = true
is_none (some e) = false

module _ {S : Type 0} where
  -- `validation.UnmarshalJSON`, after the resource in the data has been decoded.
  pub make_validation : Validate S → StatefulMaker (Watched S)
  make_validation validate n us w =
      let (e, w') = validate (first us) w in
      elim e [
        | some x ↦ (refused x, w')
        | none ↦ (
          made (filter (length w'.validations)),
          record w' { validations = w'.validations ++ first us ∷ [] },
        )
      ]

  -- The function that `Run` gives to `GenerateValidator`.
  abbrev pub watching : IsValid → Validate S
  watching is_valid u w = (judge is_valid u, record w { is_valid_was_run = true })

  -- The decoders of other types do not know the test.
  abbrev pub watch : StatefulMaker S → StatefulMaker (Watched S)
  watch maker n us w = let (m, s) = maker n us w.store in (m, record w { store = s })

  abbrev pub watch_all : Map (StatefulMaker S) → Map (StatefulMaker (Watched S))
  watch_all [] = []
  watch_all ((type, maker) ∷ types) = (type, watch maker) ∷ watch_all types

  -- `GenerateValidator`: the name, the error, and the registry.
  pub generate_validator :
      Rand
      → Validate S
      → Map (StatefulMaker (Watched S))
      → (String × Option Error) × Map (StatefulMaker (Watched S))
  generate_validator (unreadable e) validate types = (("", some e), types)
  generate_validator (bytes rbytes) validate types =
      let validator_name = "validator-" <+> hex rbytes in
      let (e, types') = register_resource_type validator_name (make_validation validate) types in
      ((validator_name, e), types')

  -- The assertions on data with syntax errors, with semantic errors, and on good data.
  abbrev pub syntactic_checks : Loaded (List ℕ) × Watched S → List Bool
  syntactic_checks (s, w) = is_error s ∷ not w.is_valid_was_run ∷ is_nil s ∷ []

  abbrev pub semantic_checks : Loaded (List ℕ) × Watched S → List Bool
  semantic_checks (s, w) = is_error s ∷ w.is_valid_was_run ∷ is_nil s ∷ []

  abbrev pub good_checks : Loaded (List ℕ) × Watched S → List Bool
  good_checks (s, w) = not (is_error s) ∷ w.is_valid_was_run ∷ not (is_nil s) ∷ []

  module _ (types : Map (StatefulMaker (Watched S))) (fuel : ℕ) (validator_name : String) where
    -- The body of each loop up to its assertions: the flag is reset, and a server made from the
    -- constructed configuration.
    pub try_data : ConfigTestData → Watched S → Loaded (List ℕ) × Watched S
    try_data d w =
        let w₀ = record w { is_valid_was_run = false } in
        elim d.definition [
          | inr e ↦ (failed e, w₀)
          | inl def ↦
              build_server types (constructed validator_name def) fuel ("validator" ∷ [])
                ("validator" ∷ []) w₀
        ]

    -- One of the loops, with its assertions.
    pub check_all :
        (Loaded (List ℕ) × Watched S → List Bool)
        → List ConfigTestData
        → Watched S
        → List Bool × Watched S
    unfolding try_data
    check_all checks [] w = ([], w)
    check_all checks (d ∷ ds) w =
        let x = try_data d w in let (rest, w') = check_all checks ds x.1 in (checks x ++ rest, w')

  -- `ConfigTest.Run`: the outcomes of its assertions, in their order.
  unfoldable pub run :
      Map (StatefulMaker S) → ℕ → ConfigTest → Rand → Watched S → List Bool × Watched S
  unfolding generate_validator check_all
  run types fuel c rand w =
      let ((name, e), types') = generate_validator rand (watching c.is_valid) (watch_all types) in
      let (syntactic, w₁) =
        check_all types' fuel name syntactic_checks c.syntactically_bad
          (record w { is_valid_was_run = false }) in
      let (semantic, w₂) = check_all types' fuel name semantic_checks c.semantically_bad w₁ in
      let (good, w₃) = check_all types' fuel name good_checks c.good w₂ in
      (is_none e ∷ not (str_eq name "") ∷ syntactic ++ semantic ++ good, w₃)
