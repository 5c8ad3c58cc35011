-- ===== src/Program/Loading.antt =====
-- Loading a configuration with every type of resource of the program.
use mathlib.Core.Path.{subst₂}
use text.Mathlib.Text.{◌==◌ as str_eq}
use pullcord.Base.{
  ℕ, ◌≡◌, sym, ◌∙◌, inl, inr, some, List, [], ◌∷◌, String, Map, lookup, lookup-insert, lookup-empty,
  All, Bool-cases, Option-cases, eq_iff,
}
use pullcord.Config.Resource.{Unmarshaled}
use pullcord.Config.Loader.{
  Def, malformed, empty, ref, bad_ref, typed, Defs, no_more, also, Loaded, loaded, failed,
  out_of_fuel, register_resource_type,
}
use pullcord.Config.Build.{StatefulMaker, of_made, build_server}
use pullcord.Config.Build.Sound.{Kept, IsKeeper, OfTypes, AllOfTypes, OnLoaded}
use pullcord.Config.Build.Server.{ValidFilters, build_server-Kept}
use pullcord.Authentication.Password.{Result}
use pullcord.Program.Store.{Store}
use pullcord.Program.Types.{
  Json, make_compound, make_ratelimit, make_delay, make_shell, make_service, make_login,
  make_cookiemask, make_session_handler, make_password_store, make_standard_response, make_landing,
  make_passthru, make_router, resource_types, register_types, types,
}
use pullcord.Program.Placed.{IsPlaced, Valid, placing}
use pullcord.Program.Keepers.{New}
use pullcord.Program.Decoders.{
  Keeper, make_compound-Keeper, make_ratelimit-Keeper, make_delay-Keeper, make_shell-Keeper,
  make_service-Keeper, make_login-Keeper, make_cookiemask-Keeper, make_session_handler-Keeper,
  make_password_store-Keeper, make_standard_response-Keeper, make_landing-Keeper,
  make_passthru-Keeper, make_router-Keeper,
}

-- What holds of every type of a registry.
abbrev pub OfEach : (String → StatefulMaker Store → Type 0) → Map (StatefulMaker Store) → Type 0
OfEach P registered =
    (type : String) (maker : StatefulMaker Store)
    → lookup type registered ≡ some maker
    → P type maker

Keeper-IsKeeper : (maker : StatefulMaker Store) → Keeper maker → IsKeeper placing maker
Keeper-IsKeeper maker k = record {
  keeps = λ n us s p v.
      let kept = k.keeps n us s p v in
      record {
        holds = kept.holds;
        grows = kept.grows;
        result = still_valid s (of_made (maker n us s)) kept.result;
      };
}
  where
    still_valid :
        (s : Store) (x : Loaded Unmarshaled × Store)
        → OnLoaded placing (New s) x
        → OnLoaded placing Valid x
    still_valid s (loaded u, t) v = v.0
    still_valid s (failed e, t) v = tt
    still_valid s (out_of_fuel, t) v = tt

mutual
  unfolding OfTypes

  pub any_types : (d : Def) → OfTypes (λ type. Unit) d
  any_types (typed type data_ ds) = (tt, all_any_types ds)
  any_types (ref name) = tt
  any_types (malformed e) = tt
  any_types empty = tt
  any_types (bad_ref e) = tt

  pub all_any_types : (ds : Defs) → AllOfTypes (λ type. Unit) ds
  all_any_types no_more = tt
  all_any_types (also d ds) = (any_types d, all_any_types ds)

module _ (json : Json) (decode : String → Result (List ℕ)) where
  register_resource_type-OfEach :
      (P : String → StatefulMaker Store → Type 0) (name : String) (maker : StatefulMaker Store)
      (registered : Map (StatefulMaker Store))
      → P name maker
      → OfEach P registered
      → OfEach P (register_resource_type name maker registered).1
  unfolding register_resource_type
  register_resource_type-OfEach P name maker registered p h =
      elim (Option-cases (lookup name registered)) [
        | inr (m, q) ↦ rw (register_resource_type, q) h
        | inl free ↦ elim (Bool-cases (str_eq name "ref")) [
          | inl taken ↦ rw (register_resource_type, free, taken) h
          | inr other ↦
              rw (register_resource_type, free, other)
                (λ type m e.
                  let at_type = lookup-insert name type maker registered in
                  elim (Bool-cases (str_eq name type)) [
                    | inl same ↦
                        let here : maker ≡ m = cc (sym (rw same at at_type) ∙ e) in
                        subst₂ P ((eq_iff name type).0 same) here p
                    | inr differ ↦ h type m (sym (rw differ at at_type) ∙ e)
                  ])
        ]
      ]

  register_types-OfEach :
      (P : String → StatefulMaker Store → Type 0) (more registered : Map (StatefulMaker Store))
      → All (λ p. P p.0 p.1) more
      → OfEach P registered
      → OfEach P (register_types json decode more registered)
  unfolding register_types
  register_types-OfEach P [] registered all h = h
  register_types-OfEach P ((name, maker) ∷ more) registered all h =
      register_types-OfEach P more (register_resource_type name maker registered).1 all.1
        (register_resource_type-OfEach P name maker registered all.0 h)

  -- What holds of every constructor that the packages register.
  pub types-OfEach :
      (P : String → StatefulMaker Store → Type 0)
      → P "ratelimittrigger" (make_ratelimit json decode)
      → P "compoundtrigger" (make_compound json decode)
      → P "delaytrigger" (make_delay json decode)
      → P "shelltrigger" (make_shell json decode)
      → P "minmonitorredservice" (make_service json decode)
      → P "loginhandler" (make_login json decode)
      → P "cookiemaskfilter" (make_cookiemask json decode)
      → P "minsessionhandler" (make_session_handler json decode)
      → P "inmempwdstore" (make_password_store json decode)
      → P "standardresponse" (make_standard_response json decode)
      → P "landingfilter" (make_landing json decode)
      → P "passthrufilter" (make_passthru json decode)
      → P "exactpathrouter" (make_router json decode)
      → OfEach P (types json decode)
  unfolding types
  types-OfEach P ratelimit compound delay shell service login cookiemask session_handler
        password_store standard_response landing passthru router =
      register_types-OfEach P (resource_types json decode) []
        (
          ratelimit,
          (
            compound,
            (
              delay,
              (
                shell,
                (
                  service,
                  (
                    login,
                    (
                      cookiemask,
                      (
                        session_handler,
                        (password_store, (standard_response, (landing, (passthru, (router, tt))))),
                      ),
                    ),
                  ),
                ),
              ),
            ),
          ),
        )
        (λ type maker e. absurd (cc (sym (lookup-empty {V = StatefulMaker Store} type) ∙ e)))

  pub types-Keeper : OfEach (λ type maker. Keeper maker) (types json decode)
  types-Keeper =
      types-OfEach (λ type maker. Keeper maker) (make_ratelimit-Keeper json decode)
        (make_compound-Keeper json decode) (make_delay-Keeper json decode)
        (make_shell-Keeper json decode) (make_service-Keeper json decode)
        (make_login-Keeper json decode) (make_cookiemask-Keeper json decode)
        (make_session_handler-Keeper json decode) (make_password_store-Keeper json decode)
        (make_standard_response-Keeper json decode) (make_landing-Keeper json decode)
        (make_passthru-Keeper json decode) (make_router-Keeper json decode)

  pub types-IsKeeper :
      (type : String) (maker : StatefulMaker Store)
      → Unit {0}
      → lookup type (types json decode) ≡ some maker
      → IsKeeper placing maker
  types-IsKeeper type maker allowed e = Keeper-IsKeeper maker (types-Keeper type maker e)

  module _ (unregistered : Map Def) (fuel : ℕ) where
    -- Loading a configuration with the program's types into a store whose filters and triggers call
    -- earlier ones leaves such a store, on every error too: nothing dangles, and what was there stays
    -- as it was. The filters of the server's pipeline are in the store.
    pub build_server-IsPlaced :
        (order pipeline : List String) (s : Store)
        → IsPlaced s
        → Kept placing
            (ValidFilters placing)
            s
            (build_server (types json decode) unregistered fuel order pipeline s)
    build_server-IsPlaced order pipeline s p =
        build_server-Kept placing (types json decode) unregistered (λ type. Unit) types-IsKeeper
          (λ name d e. any_types d) fuel order pipeline s p
