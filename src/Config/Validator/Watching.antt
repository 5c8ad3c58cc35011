-- ===== src/Config/Validator/Watching.antt =====
-- config/util/validator.go: the registry with a validator's type, and decoders of other types, which
-- leave `isValidWasRun` as it is.
use text.Mathlib.Text.{◌==◌ as str_eq}
use pullcord.Base.{
  false, ◌≡◌, refl, ap, sym, ◌∙◌, inl, inr, Option, none, some, [], ◌∷◌, String, Map, Error, lookup,
  insert, lookup-insert, lookup-All, All, Option-cases, Bool-cases, eq_iff,
}
use pullcord.Authentication.Names.{◌<+>◌, hex}
use pullcord.Authentication.Session.{Rand, bytes, unreadable}
use pullcord.Config.Loader.{Made, made, refused, register_resource_type}
use pullcord.Config.Build.{StatefulMaker, of_made}
use pullcord.Config.Build.Sound.{Keeping, Kept, IsKeeper}
use pullcord.Config.Validator.{
  Watched, Validate, make_validation, watch, watch_all, generate_validator,
}

module _ {S : Type 0} where
  -- The flag stays as it is.
  abbrev pub unflagged : Keeping (Watched S)
  unflagged = record {
    holds = λ w. Unit;
    grows = λ w t. t.is_valid_was_run ≡ w.is_valid_was_run;
    valid = λ w u. Unit;
    grows_refl = λ w. refl;
    grows_trans = λ w t r p q. q ∙ p;
    valid_nil = λ w. tt;
    valid_grows = λ w t u p v. tt;
  }

  watch-IsKeeper : (maker : StatefulMaker S) → IsKeeper unflagged (watch maker)
  watch-IsKeeper maker = record { keeps = λ n us w h v. by_made w (maker n us w.store) }
    where
      by_made :
          (w : Watched S) (x : Made × S)
          → Kept unflagged (λ t u. Unit) w (of_made (x.0, record w { store = x.1 }))
      by_made w (made u, s) = record { holds = tt; grows = refl; result = tt }
      by_made w (refused e, s) = record { holds = tt; grows = refl; result = tt }

  watch_all-IsKeeper :
      (types : Map (StatefulMaker S)) → All (λ p. IsKeeper unflagged p.1) (watch_all types)
  watch_all-IsKeeper [] = tt
  watch_all-IsKeeper ((type, maker) ∷ types) = (watch-IsKeeper maker, watch_all-IsKeeper types)

  registered-insert :
      (name : String) (maker : StatefulMaker (Watched S)) (types : Map (StatefulMaker (Watched S)))
      → (register_resource_type name maker types).0 ≡ none
      → (register_resource_type name maker types).1 ≡ insert name maker types
  unfolding register_resource_type
  registered-insert name maker types e = elim (Option-cases (lookup name types)) [
    | inr (m, q) ↦ absurd (cc (rw (register_resource_type, q) at e))
    | inl free ↦ elim (Bool-cases (str_eq name "ref")) [
      | inl taken ↦ absurd (cc (rw (register_resource_type, free, taken) at e))
      | inr other ↦ rw (register_resource_type, free, other) refl
    ]
  ]

  -- A validator that was generated without error is put into the registry.
  pub generated-insert :
      (rand : Rand) (validate : Validate S) (types types' : Map (StatefulMaker (Watched S)))
      (name : String)
      → generate_validator rand validate types ≡ ((name, none), types')
      → types' ≡ insert name (make_validation validate) types
  unfolding generate_validator
  generated-insert (unreadable x) validate types types' name e =
      absurd (cc (ap (λ (y : (String × Option Error) × Map (StatefulMaker (Watched S))). y.0.1) e))
  generated-insert (bytes rbytes) validate types types' name e =
      let named = ap (λ (y : (String × Option Error) × Map (StatefulMaker (Watched S))). y.0.0) e in
      let fine = ap (λ (y : (String × Option Error) × Map (StatefulMaker (Watched S))). y.0.1) e in
      let at_end = ap (λ (y : (String × Option Error) × Map (StatefulMaker (Watched S))). y.1) e in
      sym at_end
      ∙ registered-insert ("validator-" <+> hex rbytes) (make_validation validate) types fine
      ∙ ap (λ (n : String). insert n (make_validation validate) types) named

  module _ (types : Map (StatefulMaker S)) (validate : Validate S) (name : String) where
    pub lookup-validator :
        lookup name (insert name (make_validation validate) (watch_all types))
        ≡ some (make_validation validate)
    lookup-validator =
        let at_name =
          lookup-insert {V = StatefulMaker (Watched S)} name name (make_validation validate)
            (watch_all types) in
        rw ((eq_iff name name).1 refl) at at_name

    -- Every other type leaves the flag.
    pub others-IsKeeper :
        (type : String) (maker : StatefulMaker (Watched S))
        → str_eq name type ≡ false
        → lookup type (insert name (make_validation validate) (watch_all types)) ≡ some maker
        → IsKeeper unflagged maker
    others-IsKeeper type maker other e =
        let at_type =
          lookup-insert {V = StatefulMaker (Watched S)} name type (make_validation validate)
            (watch_all types) in
        lookup-All (λ n m. IsKeeper unflagged m) type maker (watch_all types)
          (watch_all-IsKeeper types) (sym (rw other at at_type) ∙ e)
