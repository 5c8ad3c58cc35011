-- ===== src/Program/Opening.antt =====
-- A program without monitored services and without compound triggers, before its first request:
-- session handlers have no sessions yet.
use text.Mathlib.Text.{◌==◌ as str_eq}
use pullcord.Base.{
  ℕ, false, ◌≡◌, refl, ◌⊎◌, inl, inr, Option, none, some, List, [], ◌∷◌, Error, All, append-All,
  String, Option-cases, length, lookup,
}
use pullcord.Config.Resource.{Unmarshaled}
use pullcord.Config.Loader.{Made, made, refused}
use pullcord.Config.Build.{StatefulMaker, of_made}
use pullcord.Config.Build.Sound.{Keeping, Kept, IsKeeper}
use pullcord.Trigger.Handler.{Object, shell, compound, ratelimit, foreign}
use pullcord.Trigger.Definitions.{unmarshal_shell}
use pullcord.Authentication.Session
use pullcord.Authentication.Password.{Result}
use pullcord.Authentication.Definitions.{
  LoginHandler, CookiemaskFilter, SessionHandlerDef, zero_handler, unmarshal_min_session_handler,
}
use pullcord.Gateway.{
  Filter, standard_response, landing, passthru, service, login, cookiemask, conditional,
}
use pullcord.Program.Store.{
  Store, with_data, unless_error, add_filter, add_trigger, add_delay, add_checker, add_router,
}
use pullcord.Program.Types.{
  Json, add_login, add_cookiemask, make_ratelimit, make_delay, make_shell, make_login,
  make_cookiemask, make_session_handler, make_password_store, make_standard_response, make_landing,
  make_passthru, make_router, types,
}
use pullcord.Program.Loading.{OfEach, types-OfEach}

abbrev pub IsUnmonitored : Filter → Type 0
IsUnmonitored (standard_response t) = Unit
IsUnmonitored landing = Unit
IsUnmonitored (passthru p) = Unit
IsUnmonitored (service svc) = ⊥
IsUnmonitored (login i c d) = Unit
IsUnmonitored (cookiemask h m) = Unit
IsUnmonitored (conditional t x y z) = Unit

abbrev pub IsSimple : Object → Type 0
IsSimple (shell command args) = Unit
IsSimple (compound ts) = ⊥
IsSimple (ratelimit r) = Unit
IsSimple (foreign i) = Unit

-- A session handler as its decoder leaves it.
abbrev pub IsDecoded : Session.Handler → Type 0
IsDecoded h = (t : SessionHandlerDef) × (h ≡ unmarshal_min_session_handler t zero_handler)

pub record IsOpening (s : Store) : Type 0 where
  pub filters : All IsUnmonitored s.filters
  pub objects : All IsSimple s.objects
  pub handlers : All IsDecoded s.handlers

abbrev pub opening : Keeping Store
opening = record {
  holds = IsOpening;
  grows = λ s t. Unit;
  valid = λ s u. Unit;
  grows_refl = λ s. tt;
  grows_trans = λ s t u g h. tt;
  valid_nil = λ s. tt;
  valid_grows = λ s t u g v. tt;
}

-- The types of resources but the two.
abbrev pub IsPlainType : String → Type 0
IsPlainType type =
    (str_eq type "compoundtrigger" ≡ false) × (str_eq type "minmonitorredservice" ≡ false)

-- A decoder that leaves such a program.
record Opener (maker : StatefulMaker Store) : Type 0 where
  opens : (n : ℕ) (us : List Unmarshaled) (s : Store) → IsOpening s → IsOpening (maker n us s).1

Opener-IsKeeper : (maker : StatefulMaker Store) → Opener maker → IsKeeper opening maker
Opener-IsKeeper maker o = record {
  keeps = λ n us s p all. by_made s (maker n us s) (o.opens n us s p);
}
  where
    by_made :
        (s : Store) (x : Made × Store) → IsOpening x.1 → Kept opening (λ t u. Unit) s (of_made x)
    by_made s (made u, t) h = record { holds = h; grows = tt; result = tt }
    by_made s (refused e, t) h = record { holds = h; grows = tt; result = tt }

with_data-Opens :
    {A : Type 0} (x : A ⊎ Error) (f : A → Store → Made × Store) (s : Store)
    → IsOpening s
    → ((a : A) → IsOpening (f a s).1)
    → IsOpening (with_data x f s).1
with_data-Opens (inl a) f s p h = h a
with_data-Opens (inr e) f s p h = p

unless_error-Opens :
    {A : Type 0} (x : A × Option Error) (f : A → Store → Made × Store) (s : Store)
    → IsOpening s
    → IsOpening (f x.0 s).1
    → IsOpening (unless_error x f s).1
unless_error-Opens (a, none) f s p h = h
unless_error-Opens (a, some e) f s p h = p

module _ (s : Store) (p : IsOpening s) where
  add_filter-Opens : (f : Filter) → IsUnmonitored f → IsOpening (add_filter f s).1
  add_filter-Opens f h = record {
    filters = append-All IsUnmonitored s.filters (f ∷ []) p.filters (h, tt);
    objects = p.objects;
    handlers = p.handlers;
  }

  add_trigger-Opens : (o : Object) → IsSimple o → IsOpening (add_trigger o s).1
  add_trigger-Opens o h = record {
    filters = p.filters;
    objects = append-All IsSimple s.objects (o ∷ []) p.objects (h, tt);
    handlers = p.handlers;
  }

  add_login-Opens : (h : LoginHandler) → IsOpening (add_login h s).1
  unfolding add_login
  add_login-Opens h = elim (Option-cases h.password_checker) [
    | inl missing ↦ rw (add_login, missing) p
    | inr (c, q) ↦ elim (Option-cases h.downstream) [
      | inl missing ↦ rw (add_login, q, missing) p
      | inr (d, r) ↦ rw (add_login, q, r) (add_filter-Opens (login h.identifier c d) tt)
    ]
  ]

  add_cookiemask-Opens : (f : CookiemaskFilter) → IsOpening (add_cookiemask f s).1
  unfolding add_cookiemask
  add_cookiemask-Opens f = elim (Option-cases f.handler) [
    | inl missing ↦ rw (add_cookiemask, missing) p
    | inr (h, q) ↦ elim (Option-cases f.masked) [
      | inl missing ↦ rw (add_cookiemask, q, missing) p
      | inr (m, r) ↦ rw (add_cookiemask, q, r) (add_filter-Opens (cookiemask h m) tt)
    ]
  ]

module _ (json : Json) (decode : String → Result (List ℕ)) where
  plain_types-Opener : OfEach (λ type maker. IsPlainType type → Opener maker) (types json decode)
  unfolding make_ratelimit make_delay make_shell unmarshal_shell make_login make_cookiemask
      make_session_handler make_password_store make_standard_response make_landing make_passthru
      make_router
  plain_types-Opener =
      types-OfEach json decode (λ type maker. IsPlainType type → Opener maker)
        (λ h. record {
          opens = λ n us s p. with_data-Opens (json.ratelimit n) _ s p (λ t.
              unless_error-Opens _ (λ r. add_trigger (ratelimit r)) s p
                (add_trigger-Opens s p (ratelimit _) tt));
        })
        (λ h. absurd (cc h.0))
        (λ h. record {
          opens = λ n us s p. with_data-Opens (json.delay n) _ s p (λ t.
              unless_error-Opens _ add_delay s p (record {
                filters = p.filters;
                objects =
                    append-All IsSimple s.objects (foreign (length s.delays) ∷ []) p.objects
                      (tt, tt);
                handlers = p.handlers;
              }));
        })
        (λ h. record {
          opens = λ n us s p.
              with_data-Opens (json.shell n) _ s p
                (λ t. add_trigger-Opens s p (unmarshal_shell t) tt);
        })
        (λ h. absurd (cc h.1))
        (λ h. record {
          opens = λ n us s p.
              with_data-Opens (json.login n) _ s p
                (λ t. unless_error-Opens _ add_login s p (add_login-Opens s p _));
        })
        (λ h. record {
          opens = λ n us s p.
              with_data-Opens (json.cookiemask n) _ s p
                (λ t. unless_error-Opens _ add_cookiemask s p (add_cookiemask-Opens s p _));
        })
        (λ h. record {
          opens = λ n us s p. with_data-Opens (json.session_handler n) _ s p (λ t. record {
            filters = p.filters;
            objects = p.objects;
            handlers = append-All IsDecoded s.handlers _ p.handlers ((t, refl), tt);
          });
        })
        (λ h. record {
          opens = λ n us s p. with_data-Opens (json.password_store n) _ s p (λ t.
              unless_error-Opens _ add_checker s p
                (record { filters = p.filters; objects = p.objects; handlers = p.handlers }));
        })
        (λ h. record {
          opens = λ n us s p. with_data-Opens (json.standard_response n) _ s p (λ t.
              unless_error-Opens _ (λ r. add_filter (standard_response r)) s p
                (add_filter-Opens s p (standard_response _) tt));
        })
        (λ h. record { opens = λ n us s p. add_filter-Opens s p landing tt })
        (λ h. record {
          opens = λ n us s p.
              with_data-Opens (json.passthru n) _ s p (λ t. add_filter-Opens s p (passthru _) tt);
        })
        (λ h. record {
          opens = λ n us s p. with_data-Opens (json.router n) _ s p (λ t.
              unless_error-Opens _ add_router s p
                (record { filters = p.filters; objects = p.objects; handlers = p.handlers }));
        })

  pub types-Opens :
      (type : String) (maker : StatefulMaker Store)
      → IsPlainType type
      → lookup type (types json decode) ≡ some maker
      → IsKeeper opening maker
  types-Opens type maker h e = Opener-IsKeeper maker (plain_types-Opener type maker e h)
