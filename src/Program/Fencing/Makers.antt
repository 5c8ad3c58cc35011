-- ===== src/Program/Fencing/Makers.antt =====
-- Every decoder of the program keeps a fenced store, one by one.
use pullcord.Base.{◌≡◌, refl, inl, inr, some, String, Map, lookup, Option-cases}
use pullcord.Config.Resource.{as_filter, as_session_handler, as_password_checker}
use pullcord.Config.Loader.{Def, typed}
use pullcord.Config.Build.{StatefulMaker}
use pullcord.Config.Build.Meaning.{IsMeant}
use pullcord.Trigger.Handler.{compound, ratelimit}
use pullcord.Trigger.Handler.Decode.{unmarshal_compound}
use pullcord.Trigger.Definitions.{unmarshal_shell}
use pullcord.Authentication.Password.{unmarshal_store}
use pullcord.Authentication.Definitions.{unmarshal_login, unmarshal_cookiemask}
use pullcord.Gateway.{standard_response, landing, passthru, service, login, cookiemask}
use pullcord.Program.Store.{Store, add_filter, add_trigger, add_delay, add_checker, add_router}
use pullcord.Program.Types.{
  resource_at, add_login, add_cookiemask, make_compound, make_ratelimit, make_delay, make_shell,
  make_service, make_login, make_cookiemask, make_session_handler, make_password_store,
  make_standard_response, make_landing, make_passthru, make_router, types,
}
use pullcord.Program.Loading.{types-OfEach}
use pullcord.Program.Fencing.{Policy, Shut, IsFencedDef, Keyed, fencing, IsPromised, fenced_meaning}
use pullcord.Program.Fencing.Decoders.{
  refused-Meant, with_data-Meant, unless_error-Meant, part-Means, OnFilter-at, OnChecker-at,
  add_filter-Meant, add_trigger-Meant, add_router-Meant, add_delay-Meant, add_handler-Meant,
  add_checker-Meant,
}

module _ (policy : Policy) (unregistered : Map Def)
    (promised : IsPromised policy unregistered) where
  abbrev pub Maker : String → StatefulMaker Store → Type 0
  Maker =
      IsMeant (fencing policy) unregistered (fenced_meaning policy unregistered promised)
        (IsFencedDef policy)

  make_ratelimit-Maker : Maker "ratelimittrigger" (make_ratelimit policy.json policy.decode)
  unfolding make_ratelimit
  make_ratelimit-Maker = record {
    meant = λ n ds us s safe p all.
        with_data-Meant policy (typed "ratelimittrigger" n ds) (policy.json.ratelimit n) _ s p
          (λ t e.
            unless_error-Meant policy (typed "ratelimittrigger" n ds) _
              (λ r. add_trigger (ratelimit r)) s p
              (add_trigger-Meant policy s p (typed "ratelimittrigger" n ds) (ratelimit _)));
  }

  make_delay-Maker : Maker "delaytrigger" (make_delay policy.json policy.decode)
  unfolding make_delay
  make_delay-Maker = record {
    meant = λ n ds us s safe p all.
        with_data-Meant policy (typed "delaytrigger" n ds) (policy.json.delay n) _ s p (λ t e.
          unless_error-Meant policy (typed "delaytrigger" n ds) _ add_delay s p
            (add_delay-Meant policy s p (typed "delaytrigger" n ds) _));
  }

  make_shell-Maker : Maker "shelltrigger" (make_shell policy.json policy.decode)
  unfolding make_shell unmarshal_shell
  make_shell-Maker = record {
    meant = λ n ds us s safe p all.
        with_data-Meant policy (typed "shelltrigger" n ds) (policy.json.shell n) _ s p
          (λ t e. add_trigger-Meant policy s p (typed "shelltrigger" n ds) (unmarshal_shell t));
  }

  make_service-Maker : Maker "minmonitorredservice" (make_service policy.json policy.decode)
  unfolding make_service
  make_service-Maker = record {
    meant = λ n ds us s safe p all.
        with_data-Meant policy (typed "minmonitorredservice" n ds) (policy.json.service n) _ s p
          (λ t e.
            unless_error-Meant policy (typed "minmonitorredservice" n ds) _
              (λ svc. add_filter (service svc)) s p
              (add_filter-Meant policy s p (typed "minmonitorredservice" n ds) (service _) tt
                (λ c. absurd (cc c.1))));
  }

  make_session_handler-Maker :
      Maker "minsessionhandler" (make_session_handler policy.json policy.decode)
  unfolding make_session_handler
  make_session_handler-Maker = record {
    meant = λ n ds us s safe p all.
        with_data-Meant policy (typed "minsessionhandler" n ds) (policy.json.session_handler n) _ s
          p (λ t e. add_handler-Meant policy s p (typed "minsessionhandler" n ds) _ (t, refl));
  }

  make_password_store-Maker : Maker "inmempwdstore" (make_password_store policy.json policy.decode)
  unfolding make_password_store
  make_password_store-Maker = record {
    meant = λ n ds us s safe p all.
        with_data-Meant policy (typed "inmempwdstore" n ds) (policy.json.password_store n) _ s p
          (λ t e.
            unless_error-Meant policy (typed "inmempwdstore" n ds) (unmarshal_store policy.decode t)
              add_checker s p
              (add_checker-Meant policy s p (typed "inmempwdstore" n ds)
                (unmarshal_store policy.decode t).0 (λ keyed. keyed t e)));
  }

  make_standard_response-Maker :
      Maker "standardresponse" (make_standard_response policy.json policy.decode)
  unfolding make_standard_response
  make_standard_response-Maker = record {
    meant = λ n ds us s safe p all.
        with_data-Meant policy (typed "standardresponse" n ds) (policy.json.standard_response n) _ s
          p
          (λ t e.
            unless_error-Meant policy (typed "standardresponse" n ds) _
              (λ r. add_filter (standard_response r)) s p
              (add_filter-Meant policy s p (typed "standardresponse" n ds) (standard_response _) tt
                (λ c. tt)));
  }

  make_landing-Maker : Maker "landingfilter" (make_landing policy.json policy.decode)
  unfolding make_landing
  make_landing-Maker = record {
    meant = λ n ds us s safe p all.
        add_filter-Meant policy s p (typed "landingfilter" n ds) landing tt (λ c. tt);
  }

  make_passthru-Maker : Maker "passthrufilter" (make_passthru policy.json policy.decode)
  unfolding make_passthru
  make_passthru-Maker = record {
    meant = λ n ds us s safe p all.
        with_data-Meant policy (typed "passthrufilter" n ds) (policy.json.passthru n) _ s p (λ t e.
          add_filter-Meant policy s p (typed "passthrufilter" n ds) (passthru _) tt
            (λ c. absurd (cc c.0)));
  }

  make_router-Maker : Maker "exactpathrouter" (make_router policy.json policy.decode)
  unfolding make_router
  make_router-Maker = record {
    meant = λ n ds us s safe p all.
        with_data-Meant policy (typed "exactpathrouter" n ds) (policy.json.router n) _ s p (λ t e.
          unless_error-Meant policy (typed "exactpathrouter" n ds) _ add_router s p
            (add_router-Meant policy s p (typed "exactpathrouter" n ds) _));
  }

  make_compound-Maker : Maker "compoundtrigger" (make_compound policy.json policy.decode)
  unfolding make_compound
  make_compound-Maker = record {
    meant = λ n ds us s safe p all. elim (Option-cases (policy.json.compound n)) [
      | inr (e, q) ↦
          rw (make_compound, q) (refused-Meant policy (typed "compoundtrigger" n ds) e s p)
      | inl fine ↦
          rw (make_compound, fine)
            (unless_error-Meant policy (typed "compoundtrigger" n ds) (unmarshal_compound us)
              (λ ts. add_trigger (compound ts)) s p
              (add_trigger-Meant policy s p (typed "compoundtrigger" n ds) (compound _)))
    ];
  }

  make_login-Maker : Maker "loginhandler" (make_login policy.json policy.decode)
  unfolding make_login unmarshal_login add_login IsFencedDef
  make_login-Maker = record {
    meant = λ n ds us s safe p all.
        let def = typed "loginhandler" n ds in
        with_data-Meant policy def (policy.json.login n) _ s p (λ (j, c, d) e.
          elim (Option-cases (as_password_checker (resource_at us c))) [
            | inl other ↦ rw (unmarshal_login, other) (refused-Meant policy def _ s p)
            | inr (a, q) ↦ elim (Option-cases (as_filter (resource_at us d))) [
              | inl other ↦ rw (unmarshal_login, q, other) (refused-Meant policy def _ s p)
              | inr (b, r) ↦
                  rw (unmarshal_login, q, r)
                    (add_filter-Meant policy s p def (login j a b)
                      (elim (safe.0.0 refl j c d e) [
                        | inl (same, keyed) ↦ inl (
                          same,
                          OnChecker-at (Keyed policy s) (resource_at us c) a q
                              ((part-Means policy unregistered promised ds us s c all).1 keyed),
                        )
                        | inr (differ, closed) ↦ inr (
                          differ,
                          OnFilter-at (Shut s) (resource_at us d) b r
                              ((part-Means policy unregistered promised ds us s d all).0 closed),
                        )
                      ])
                      (λ c. tt))
            ]
          ]);
  }

  make_cookiemask-Maker : Maker "cookiemaskfilter" (make_cookiemask policy.json policy.decode)
  unfolding make_cookiemask unmarshal_cookiemask add_cookiemask IsFencedDef
  make_cookiemask-Maker = record {
    meant = λ n ds us s safe p all.
        let def = typed "cookiemaskfilter" n ds in
        with_data-Meant policy def (policy.json.cookiemask n) _ s p (λ (h, m) e.
          elim (Option-cases (as_session_handler (resource_at us h))) [
            | inl other ↦ rw (unmarshal_cookiemask, other) (refused-Meant policy def _ s p)
            | inr (a, q) ↦ elim (Option-cases (as_filter (resource_at us m))) [
              | inl other ↦ rw (unmarshal_cookiemask, q, other) (refused-Meant policy def _ s p)
              | inr (b, r) ↦
                  rw (unmarshal_cookiemask, q, r)
                    (add_filter-Meant policy s p def (cookiemask a b)
                      (OnFilter-at (Shut s) (resource_at us m) b r (
                        (part-Means policy unregistered promised ds us s m all).0
                          (safe.0.1 refl h m e)))
                      (λ c. tt))
            ]
          ]);
  }

  pub types-Maker :
      (type : String) (maker : StatefulMaker Store)
      → lookup type (types policy.json policy.decode) ≡ some maker
      → Maker type maker
  types-Maker =
      types-OfEach policy.json policy.decode Maker make_ratelimit-Maker make_compound-Maker
        make_delay-Maker make_shell-Maker make_service-Maker make_login-Maker make_cookiemask-Maker
        make_session_handler-Maker make_password_store-Maker make_standard_response-Maker
        make_landing-Maker make_passthru-Maker make_router-Maker
