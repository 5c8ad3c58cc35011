-- ===== src/Config/Validator/Kinds.antt =====
-- config/util/validator.go: which data the assertions of `ConfigTest.Run` pass on.
use mathlib.Core.Path.{subst}
use text.Mathlib.Text.{◌==◌ as str_eq}
use pullcord.Base.{
  ℕ, suc, ◌≤◌, Bool, true, false, ◌&&◌, ◌≡◌, refl, sym, ◌∙◌, ◌⊎◌, inl, inr, none, some, List, [],
  ◌∷◌, ◌++◌, String, Map, Error, lookup, insert, delete, length, Option-cases, Bool-cases,
}
use pullcord.Authentication.Session.{Rand}
use pullcord.Config.Resource.{Unmarshaled}
use pullcord.Config.Loader.{
  Def, Entry, building, Loaded, loaded, failed, out_of_fuel, fill_pipeline,
}
use pullcord.Config.Build.{
  StatefulMaker, build, build_all, build_by_name, build_registry, build_server,
}
use pullcord.Config.Loader.Acyclic.{height, IsEnd}
use pullcord.Config.Build.Sound.{OfTypes, build-Kept}
use pullcord.Config.Build.Ends.{build_registered-IsEnd}
use pullcord.Config.Validator.Watching.{
  unflagged, generated-insert, lookup-validator, others-IsKeeper,
}
use pullcord.Config.Validator.{
  Watched, IsValid, judge, ConfigTestData, constructed, make_validation, watching, try_data,
  generate_validator, watch_all, syntactic_checks, semantic_checks, good_checks,
}

module _ {S : Type 0} where
  abbrev ran : Watched S → Watched S
  ran w = record w { is_valid_was_run = true }

  -- What a validator makes of the resource that was loaded.
  abbrev verdict : IsValid → Loaded Unmarshaled × Watched S → Loaded (List ℕ) × Watched S
  verdict is_valid (failed e, w) = (failed e, w)
  verdict is_valid (out_of_fuel, w) = (out_of_fuel, w)
  verdict is_valid (loaded u, w) = elim (judge is_valid u) [
    | some x ↦ (failed x, ran w)
    | none ↦ (
      loaded (length w.validations ∷ []),
      record (ran w) { validations = w.validations ++ u ∷ [] },
    )
  ]

  -- Loading the resource in a test's configuration, while the validator is under construction.
  pub load_data :
      Map (StatefulMaker (Watched S))
      → String
      → ℕ
      → Def
      → Watched S
      → Loaded Unmarshaled × Watched S
  load_data types validator_name fuel d w =
      build types (constructed validator_name d) fuel (insert "validator" building []) d w

  module _ (types : Map (StatefulMaker (Watched S))) (is_valid : IsValid) (validator_name : String)
      (registered : lookup validator_name types ≡ some (make_validation (watching is_valid))) where
    built-verdict :
        (fuel : ℕ) (d : Def) (w : Watched S)
        → build_server types
            (constructed validator_name d)
            (suc fuel)
            ("validator" ∷ [])
            ("validator" ∷ [])
            w
          ≡ verdict is_valid (load_data types validator_name fuel d w)
    unfolding build_server build_registry build_by_name build build_all lookup insert delete
        load_data make_validation fill_pipeline
    built-verdict fuel d w = by_loaded (load_data types validator_name fuel d w) refl
      where
        by_loaded :
            (x : Loaded Unmarshaled × Watched S)
            → load_data types validator_name fuel d w ≡ x
            → build_server types
                (constructed validator_name d)
                (suc fuel)
                ("validator" ∷ [])
                ("validator" ∷ [])
                w
              ≡ verdict is_valid (load_data types validator_name fuel d w)
        by_loaded (failed e, t) p =
            rw
              (
                build_server, build_registry, build_by_name, build, registered, build_all,
                load_data, p,
              )
              refl
        by_loaded (out_of_fuel, t) p =
            rw
              (
                build_server, build_registry, build_by_name, build, registered, build_all,
                load_data, p,
              )
              refl
        by_loaded (loaded u, t) p = elim (Option-cases (judge is_valid u)) [
          | inr (x, q) ↦
              rw
                (
                  build_server, build_registry, build_by_name, build, registered, build_all,
                  load_data, p, make_validation, verdict, q,
                )
                refl
          | inl q ↦
              rw
                (
                  build_server, build_registry, build_by_name, build, registered, build_all,
                  load_data, p, make_validation, verdict, q,
                )
                refl
        ]

-- Whether all of a loop's assertions pass.
abbrev pub passes : List Bool → Bool
passes [] = true
passes (b ∷ bs) = b && passes bs

-- Which of the three loops data passes in.
abbrev pub passed : {S : Type 0} → Loaded (List ℕ) × Watched S → Bool × Bool × Bool
passed x = (passes (syntactic_checks x), passes (semantic_checks x), passes (good_checks x))

module _ {S : Type 0} (types : Map (StatefulMaker S)) (is_valid : IsValid)
    (validator_name : String) where
  abbrev validating : Map (StatefulMaker (Watched S))
  validating = insert validator_name (make_validation (watching is_valid)) (watch_all types)

  -- The resource of the data does not load, or is rejected, or is accepted.
  abbrev pub Kind : Loaded Unmarshaled → Bool × Bool × Bool → Type 0
  Kind x outcomes =
      ((e : Error) × (x ≡ failed e) × (outcomes ≡ (true, false, false)))
      ⊎ ((u : Unmarshaled) × (e : Error) × (x ≡ loaded u)
          × (judge is_valid u ≡ some e)
          × (outcomes ≡ (false, true, false)))
      ⊎ ((u : Unmarshaled) × (x ≡ loaded u)
          × (judge is_valid u ≡ none)
          × (outcomes ≡ (false, false, true)))

  verdict-Kind :
      (x : Loaded Unmarshaled × Watched S)
      → IsEnd x.0
      → x.1.is_valid_was_run ≡ false
      → Kind x.0 (passed (verdict is_valid x))
  verdict-Kind (failed e, w) h q = inl (e, refl, rw q refl)
  verdict-Kind (out_of_fuel, w) h q = elim h [ ]
  verdict-Kind (loaded u, w) h q = elim (Option-cases (judge is_valid u)) [
    | inr (e, r) ↦ inr (inl (u, e, refl, r, rw (verdict, r) refl))
    | inl r ↦ inr (inr (u, refl, r, rw (verdict, r) refl))
  ]

  -- What becomes of the resource of a test's data, before the validator sees it.
  abbrev pub nested :
      Map (StatefulMaker (Watched S)) → ℕ → ConfigTestData → Watched S → Loaded Unmarshaled
  nested types' fuel d w = elim d.definition [
    | inr e ↦ failed e
    | inl def ↦ (load_data types' validator_name fuel def (record w { is_valid_was_run = false })).0
  ]

  -- The data does not name the validator's own type, and there is fuel for its depth.
  abbrev pub IsTest : ℕ → ConfigTestData → Type 0
  IsTest fuel d = elim d.definition [
    | inr e ↦ Unit
    | inl def ↦ OfTypes (λ type. str_eq validator_name type ≡ false) def × height def ≤ fuel
  ]

  only_validator :
      (d : Def) (name : String)
      → lookup name (insert {V = Entry} "validator" building []) ≡ none
      → lookup name (constructed validator_name d) ≡ none
  unfolding lookup insert delete
  only_validator d name e = elim (Bool-cases (str_eq "validator" name)) [
    | inl same ↦ absurd (cc (rw (lookup, same) at e))
    | inr other ↦ rw (lookup, other) refl
  ]

  load_data-Unflagged :
      (fuel : ℕ) (d : Def) (w : Watched S)
      → OfTypes (λ type. str_eq validator_name type ≡ false) d
      → (load_data validating validator_name fuel d w).1.is_valid_was_run ≡ w.is_valid_was_run
  unfolding load_data
  load_data-Unflagged fuel d w o =
      (build-Kept unflagged validating (constructed validator_name d)
        (λ type. str_eq validator_name type ≡ false)
        (others-IsKeeper types (watching is_valid) validator_name) (insert "validator" building [])
        (λ name c free e. absurd (cc (sym (only_validator d name free) ∙ e))) fuel d w o
        (λ name u e. tt) tt).grows

  validating-Kind :
      (fuel : ℕ) (x : Def ⊎ Error) (w : Watched S)
      → IsTest fuel (record { definition = x })
      → Kind
          (nested validating fuel (record { definition = x }) w)
          (passed (try_data validating (suc fuel) validator_name (record { definition = x }) w))
  unfolding try_data load_data
  validating-Kind fuel (inr e) w t = inl (e, refl, refl)
  validating-Kind fuel (inl d) w (o, l) =
      let w₀ = record w { is_valid_was_run = false } in
      rw
        (built-verdict validating is_valid validator_name
          (lookup-validator types (watching is_valid) validator_name) fuel d w₀)
        (verdict-Kind (load_data validating validator_name fuel d w₀)
          (build_registered-IsEnd validating (constructed validator_name d)
            (insert "validator" building []) (only_validator d) fuel d w₀ l)
          (load_data-Unflagged fuel d w₀ o))

  -- Data tried with a validator that was generated without error passes all assertions of exactly one
  -- of the three loops of `Run`: of that on syntax errors if the configuration is no JSON or its
  -- resource does not load, of that on semantic errors if it loads and `IsValid` has an error, and of
  -- that on good data if it loads and `IsValid` has none. The data does not use the validator's type,
  -- and there is fuel for its depth.
  pub try_data-Kind :
      (rand : Rand) (types' : Map (StatefulMaker (Watched S))) (fuel : ℕ) (d : ConfigTestData)
      (w : Watched S)
      → generate_validator rand (watching is_valid) (watch_all types)
        ≡ ((validator_name, none), types')
      → IsTest fuel d
      → Kind (nested types' fuel d w) (passed (try_data types' (suc fuel) validator_name d w))
  try_data-Kind rand types' fuel d w e t =
      subst (λ r. Kind (nested r fuel d w) (passed (try_data r (suc fuel) validator_name d w)))
        (sym (generated-insert rand (watching is_valid) (watch_all types) types' validator_name e))
        (validating-Kind fuel d.definition w t)
