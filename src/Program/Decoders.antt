-- ===== src/Program/Decoders.antt =====
-- Every decoder of the program keeps the store placed.
use pullcord.Base.{
  ℕ, ◌<◌, ◌≡◌, refl, inl, inr, Option, none, some, List, [], ◌∷◌, length, All, map-All,
  Option-cases, Map, Parsed, parsed, bad_duration, String,
}
use pullcord.Config.Resource.{
  Unmarshaled, as_trigger, as_filter, as_session_handler, as_password_checker,
}
use pullcord.Config.Build.{StatefulMaker}
use pullcord.Trigger.Handler.{ratelimit}
use pullcord.Trigger.Handler.Decode.{unmarshal_compound, unmarshal_compound-All}
use pullcord.Trigger.Definitions.{
  zero_rate_limit_trigger, unmarshal_rate_limit, DelayDef, unmarshal_delay, unmarshal_shell,
}
use pullcord.Monitor.Service.Outcome.{Known}
use pullcord.Monitor.Service.Decode.{
  handler_of, unmarshal_service, unmarshal_service-Known, zero_service,
}
use pullcord.Authentication.Password.{Result, unmarshal_store}
use pullcord.Authentication.Definitions.{unmarshal_login, unmarshal_cookiemask}
use pullcord.Util.Router.{unmarshal_router, unmarshal_router-All}
use pullcord.Util.StandardResponse.{unmarshal_standard_response}
use pullcord.Gateway.{landing}
use pullcord.Program.Store.{Store, unless_error, add_trigger, add_delay, add_checker}
use pullcord.Program.Types.{
  Field, zero_delay_trigger, resource_at, resources_at, pointer_at, service_def, add_login,
  add_cookiemask, Json, make_compound, make_ratelimit, make_delay, make_shell, make_service,
  make_login, make_cookiemask, make_session_handler, make_password_store, make_standard_response,
  make_landing, make_passthru, make_router,
}
use pullcord.Program.Placed.{IsPlaced, Valid}
use pullcord.Program.Keepers.{
  Keeps, refused-Keeps, with_data-Keeps, unless_error-Keeps, add_filter-Keeps, add_trigger-Keeps,
  add_router-Keeps, add_handler-Keeps, add_checker-Keeps, add_delay-Keeps, resource_at-Valid,
  as_trigger-Valid, as_filter-Valid, as_session_handler-Valid, as_password_checker-Valid,
}

-- A decoder that keeps the store placed, and makes a new object whenever it succeeds.
pub record Keeper (maker : StatefulMaker Store) : Type 0 where
  pub keeps :
      (n : ℕ) (us : List Unmarshaled) (s : Store)
      → IsPlaced s
      → All (Valid s) us
      → Keeps s (maker n us s)

module _ (json : Json) (decode : String → Result (List ℕ)) where
  pub make_login-Keeper : Keeper (make_login json decode)
  unfolding make_login unmarshal_login add_login
  make_login-Keeper = record {
    keeps = λ n us s p v. with_data-Keeps (json.login n) _ s p (λ (i, checker, downstream).
        let c = resource_at us checker in
        let d = resource_at us downstream in
        elim (Option-cases (as_password_checker c)) [
          | inl other ↦ rw (unmarshal_login, other) (refused-Keeps _ s p)
          | inr (a, q) ↦ elim (Option-cases (as_filter d)) [
            | inl other ↦ rw (unmarshal_login, q, other) (refused-Keeps _ s p)
            | inr (b, r) ↦
                rw (unmarshal_login, q, r)
                  (add_filter-Keeps s p _ (
                    as_password_checker-Valid s c a q (resource_at-Valid s us checker v),
                    as_filter-Valid s d b r (resource_at-Valid s us downstream v),
                  ))
          ]
        ]);
  }

  pub make_shell-Keeper : Keeper (make_shell json decode)
  unfolding make_shell unmarshal_shell
  make_shell-Keeper = record {
    keeps = λ n us s p v. with_data-Keeps (json.shell n) _ s p (λ t. add_trigger-Keeps s p _ tt);
  }

  ratelimit-Keeps :
      (s : Store) (us : List Unmarshaled) (guarded : Field) (m : ℕ) (period : Parsed)
      → IsPlaced s
      → All (Valid s) us
      → Keeps s (
          unless_error
            (unmarshal_rate_limit
              (record {
                guarded_trigger = resource_at us guarded;
                max_allowed = m;
                period = period;
              })
              zero_rate_limit_trigger)
            (λ r. add_trigger (ratelimit r))
            s)
  unfolding unmarshal_rate_limit
  ratelimit-Keeps s us guarded m period p v =
      let u = resource_at us guarded in
      elim (Option-cases (as_trigger u)) [
        | inl other ↦ rw (unmarshal_rate_limit, other) (refused-Keeps _ s p)
        | inr (a, q) ↦ by_period a q period
      ]
    where
      by_period :
          (a : ℕ)
          → as_trigger (resource_at us guarded) ≡ some a
          → (t : Parsed)
          → Keeps s (
              unless_error
                (unmarshal_rate_limit
                  (record { guarded_trigger = resource_at us guarded; max_allowed = m; period = t })
                  zero_rate_limit_trigger)
                (λ r. add_trigger (ratelimit r))
                s)
      by_period a q (bad_duration e) = rw (unmarshal_rate_limit, q) (refused-Keeps e s p)
      by_period a q (parsed d) =
          rw (unmarshal_rate_limit, q)
            (add_trigger-Keeps s p _
              (as_trigger-Valid s (resource_at us guarded) a q (resource_at-Valid s us guarded v)))

  pub make_ratelimit-Keeper : Keeper (make_ratelimit json decode)
  unfolding make_ratelimit
  make_ratelimit-Keeper = record {
    keeps = λ n us s p v.
        with_data-Keeps (json.ratelimit n) _ s p
          (λ (guarded, m, period). ratelimit-Keeps s us guarded m period p v);
  }

  pub make_compound-Keeper : Keeper (make_compound json decode)
  unfolding make_compound
  make_compound-Keeper = record {
    keeps = λ n us s p v. elim (Option-cases (json.compound n)) [
      | inr (e, q) ↦ rw (make_compound, q) (refused-Keeps e s p)
      | inl ok ↦
          rw (make_compound, ok)
            (unless_error-Keeps (unmarshal_compound us) _ s p (
              add_trigger-Keeps s p _ (
                unmarshal_compound-All (Known (length s.objects)) us tt (
                  map-All (Valid s)
                    (λ u. (a : ℕ) → as_trigger u ≡ some a → Known (length s.objects) (some a))
                    (λ u w a e. as_trigger-Valid s u a e w) us v))))
    ];
  }

  -- A delayed trigger has a trigger of the store whatever the delay is.
  delayed-Known :
      (s : Store) (t : DelayDef)
      → Valid s t.delayed_trigger
      → Known (length s.objects) (unmarshal_delay t zero_delay_trigger).0.delayed_trigger
  unfolding unmarshal_delay
  delayed-Known s t v = elim (Option-cases (as_trigger t.delayed_trigger)) [
    | inl other ↦ rw (unmarshal_delay, other) tt
    | inr (a, q) ↦ by_delay a q t.delay refl
  ]
    where
      by_delay :
          (a : ℕ)
          → as_trigger t.delayed_trigger ≡ some a
          → (d : Parsed) → t.delay ≡ d
          → Known (length s.objects) (unmarshal_delay t zero_delay_trigger).0.delayed_trigger
      by_delay a q (bad_duration e) r =
          rw (unmarshal_delay, q, r) (as_trigger-Valid s t.delayed_trigger a q v)
      by_delay a q (parsed d) r =
          rw (unmarshal_delay, q, r) (as_trigger-Valid s t.delayed_trigger a q v)

  pub make_delay-Keeper : Keeper (make_delay json decode)
  unfolding make_delay
  make_delay-Keeper = record {
    keeps = λ n us s p v. with_data-Keeps (json.delay n) _ s p (λ (delayed, delay).
        unless_error-Keeps (unmarshal_delay _ zero_delay_trigger) add_delay s p
          (add_delay-Keeps s p _ (delayed-Known s _ (resource_at-Valid s us delayed v))));
  }

  pub make_cookiemask-Keeper : Keeper (make_cookiemask json decode)
  unfolding make_cookiemask unmarshal_cookiemask add_cookiemask
  make_cookiemask-Keeper = record {
    keeps = λ n us s p v. with_data-Keeps (json.cookiemask n) _ s p (λ (handler, masked).
        let h = resource_at us handler in
        let m = resource_at us masked in
        elim (Option-cases (as_session_handler h)) [
          | inl other ↦ rw (unmarshal_cookiemask, other) (refused-Keeps _ s p)
          | inr (a, q) ↦ elim (Option-cases (as_filter m)) [
            | inl other ↦ rw (unmarshal_cookiemask, q, other) (refused-Keeps _ s p)
            | inr (b, r) ↦
                rw (unmarshal_cookiemask, q, r)
                  (add_filter-Keeps s p _ (
                    as_session_handler-Valid s h a q (resource_at-Valid s us handler v),
                    as_filter-Valid s m b r (resource_at-Valid s us masked v),
                  ))
          ]
        ]);
  }

  pub make_session_handler-Keeper : Keeper (make_session_handler json decode)
  unfolding make_session_handler
  make_session_handler-Keeper = record {
    keeps =
        λ n us s p v. with_data-Keeps (json.session_handler n) _ s p (λ t. add_handler-Keeps s p _);
  }

  pub make_password_store-Keeper : Keeper (make_password_store json decode)
  unfolding make_password_store
  make_password_store-Keeper = record {
    keeps = λ n us s p v. with_data-Keeps (json.password_store n) _ s p (λ t.
        unless_error-Keeps (unmarshal_store decode t) add_checker s p (add_checker-Keeps s p _));
  }

  pub make_standard_response-Keeper : Keeper (make_standard_response json decode)
  unfolding make_standard_response
  make_standard_response-Keeper = record {
    keeps = λ n us s p v. with_data-Keeps (json.standard_response n) _ s p (λ t.
        unless_error-Keeps (unmarshal_standard_response t _) _ s p (add_filter-Keeps s p _ tt));
  }

  pub make_landing-Keeper : Keeper (make_landing json decode)
  unfolding make_landing
  make_landing-Keeper = record { keeps = λ n us s p v. add_filter-Keeps s p landing tt }

  pub make_passthru-Keeper : Keeper (make_passthru json decode)
  unfolding make_passthru
  make_passthru-Keeper = record {
    keeps = λ n us s p v. with_data-Keeps (json.passthru n) _ s p (λ t. add_filter-Keeps s p _ tt);
  }

  resources_at-Routes :
      (s : Store) (us : List Unmarshaled) (t : Map ℕ)
      → All (Valid s) us
      → All (λ p. (f : ℕ) → as_filter p.1 ≡ some f → f < length s.filters) (resources_at us t)
  resources_at-Routes s us [] v = tt
  resources_at-Routes s us ((path, i) ∷ more) v = (
    λ f e. as_filter-Valid s (resource_at us (some i)) f e (resource_at-Valid s us (some i) v),
    resources_at-Routes s us more v,
  )

  pub make_router-Keeper : Keeper (make_router json decode)
  unfolding make_router
  make_router-Keeper = record {
    keeps = λ n us s p v. with_data-Keeps (json.router n) _ s p (λ t.
        unless_error-Keeps (unmarshal_router (resources_at us t) (record { routes = none })) _ s p (
          add_router-Keeps s p _ (
            unmarshal_router-All (λ f. f < length s.filters) (resources_at us t) _
              (resources_at-Routes s us t v))));
  }

  handler_of-Known :
      (s : Store) (us : List Unmarshaled) (f : Field) (h : Option ℕ)
      → All (Valid s) us
      → handler_of (pointer_at us f) ≡ some h
      → Known (length s.objects) h
  unfolding handler_of
  handler_of-Known s us f none v e = tt
  handler_of-Known s us none (some a) v e = absurd (cc)
  handler_of-Known s us (some i) (some a) v e =
      let u = resource_at us (some i) in
      elim (Option-cases (as_trigger u)) [
        | inl other ↦ absurd (cc (rw (handler_of, other) at e))
        | inr (b, q) ↦
            let same : b ≡ a = cc (rw (handler_of, q) at e) in
            rw (← same) (as_trigger-Valid s u b q (resource_at-Valid s us (some i) v))
      ]

  pub make_service-Keeper : Keeper (make_service json decode)
  unfolding make_service
  make_service-Keeper = record {
    keeps = λ n us s p v. with_data-Keeps (json.service n) _ s p (λ d.
        unless_error-Keeps (unmarshal_service (service_def d us) zero_service) _ s p (
          add_filter-Keeps s p _ (
            unmarshal_service-Known (Known (length s.objects)) (service_def d us) tt
              (λ h. handler_of-Known s us d.on_down h v) (λ h. handler_of-Known s us d.on_up h v)
              (λ h. handler_of-Known s us d.always h v))));
  }
