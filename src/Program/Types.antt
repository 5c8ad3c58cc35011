-- ===== src/Program/Types.antt =====
-- Every type of resource that the packages register: its `UnmarshalJSON`, after the JSON decoder has
-- filled the definition, with the object that it makes.
use pullcord.Base.{
  ℕ, ◌⊎◌, Option, none, some, List, [], ◌∷◌, String, ℤ, pos, Map, Error, unexpected_resource_type,
  get_elem?, Parsed,
}
use pullcord.Config.Resource.{Unmarshaled, nil}
use pullcord.Config.Loader.{Made, refused, register_resource_type}
use pullcord.Config.Build.{StatefulMaker}
use pullcord.Trigger.Handler.{compound, ratelimit}
use pullcord.Trigger.Handler.Decode.{unmarshal_compound}
use pullcord.Trigger.Definitions.{
  zero_rate_limit_trigger, unmarshal_rate_limit, DelayTrigger, unmarshal_delay, ShellDef,
  unmarshal_shell,
}
use pullcord.Monitor.Service.Decode.{ServiceDef, zero_service, unmarshal_service}
use pullcord.Authentication.Definitions.{
  LoginHandler, CookiemaskFilter, SessionHandlerDef, zero_handler, unmarshal_login,
  unmarshal_cookiemask, unmarshal_min_session_handler,
}
use pullcord.Authentication.Password.{Result, HashDef, unmarshal_store}
use pullcord.Util.StandardResponse.{unmarshal_standard_response}
use pullcord.Util.Router.{unmarshal_router}
use pullcord.Util.Passthru.{PassthruDef, PassthruFilter, unmarshal_passthru}
use pullcord.Gateway.{standard_response, landing, passthru, service, login, cookiemask}
use pullcord.Program.Store.{
  Store, with_data, unless_error, add_filter, add_trigger, add_delay, add_handler, add_checker,
  add_router,
}

-- Which of the resources in the data a field has; `none` if the data leaves it out.
abbrev pub Field : Type 0
Field = Option ℕ

pub record ServiceData : Type 0 where
  pub address : String
  pub port : ℤ
  pub protocol : String
  pub grace_period : Parsed
  pub on_down : Field
  pub on_up : Field
  pub always : Field

-- What the JSON decoder reads from the data of a resource besides the resources in it, by the type
-- that the data is for, or its error. The resources of a compound trigger are its whole list.
pub record Json : Type 0 where
  pub compound : ℕ → Option Error
  pub ratelimit : ℕ → (Field × ℕ × Parsed) ⊎ Error
  pub delay : ℕ → (Field × Parsed) ⊎ Error
  pub shell : ℕ → ShellDef ⊎ Error
  pub service : ℕ → ServiceData ⊎ Error
  pub login : ℕ → (String × Field × Field) ⊎ Error
  pub cookiemask : ℕ → (Field × Field) ⊎ Error
  pub session_handler : ℕ → SessionHandlerDef ⊎ Error
  pub password_store : ℕ → Map HashDef ⊎ Error
  pub standard_response : ℕ → ℤ ⊎ Error
  pub passthru : ℕ → PassthruDef ⊎ Error
  pub router : ℕ → Map ℕ ⊎ Error

-- A resource that is left out is the zero value of `Resource`.
abbrev pub resource_at : List Unmarshaled → Field → Unmarshaled
resource_at us none = nil
resource_at us (some i) = elim (get_elem? us i) [ some u ↦ u | none ↦ nil ]

-- A pointer to a resource.
abbrev pub pointer_at : List Unmarshaled → Field → Option Unmarshaled
pointer_at us none = none
pointer_at us (some i) = some (resource_at us (some i))

abbrev pub resources_at : List Unmarshaled → Map ℕ → Map Unmarshaled
resources_at us [] = []
resources_at us ((path, i) ∷ more) = (path, resource_at us (some i)) ∷ resources_at us more

-- A decoded login handler has both of its parts, or there was an error before.
unfoldable pub add_login : LoginHandler → Store → Made × Store
add_login h s = elim h.password_checker [
  | none ↦ (refused unexpected_resource_type, s)
  | some c ↦ elim h.downstream [
    | none ↦ (refused unexpected_resource_type, s)
    | some d ↦ add_filter (login h.identifier c d) s
  ]
]

-- So has a cookie masking filter.
unfoldable pub add_cookiemask : CookiemaskFilter → Store → Made × Store
add_cookiemask f s = elim f.handler [
  | none ↦ (refused unexpected_resource_type, s)
  | some h ↦ elim f.masked [
    | none ↦ (refused unexpected_resource_type, s)
    | some m ↦ add_filter (cookiemask h m) s
  ]
]

-- `new(DelayTrigger)`, `new(LoginHandler)` and `new(PassthruFilter)`
abbrev pub zero_delay_trigger : DelayTrigger
zero_delay_trigger = record { delayed_trigger = none; delay = pos 0 }

abbrev zero_login_handler : LoginHandler
zero_login_handler = record { identifier = ""; password_checker = none; downstream = none }

abbrev zero_passthru : PassthruFilter
zero_passthru = record { host = ""; port = pos 0; upstream_filter = none }

abbrev pub service_def : ServiceData → List Unmarshaled → ServiceDef
service_def d us = record {
  address = d.address;
  port = d.port;
  protocol = d.protocol;
  grace_period = d.grace_period;
  on_down = pointer_at us d.on_down;
  on_up = pointer_at us d.on_up;
  always = pointer_at us d.always;
}

module _ (json : Json) (decode : String → Result (List ℕ)) where
  unfoldable pub make_compound : StatefulMaker Store
  make_compound n us s = elim (json.compound n) [
    | some e ↦ (refused e, s)
    | none ↦ unless_error (unmarshal_compound us) (λ ts. add_trigger (compound ts)) s
  ]

  unfoldable pub make_ratelimit : StatefulMaker Store
  make_ratelimit n us = with_data (json.ratelimit n) (λ (guarded, max_allowed, period).
      unless_error
        (unmarshal_rate_limit
          (record {
            guarded_trigger = resource_at us guarded;
            max_allowed = max_allowed;
            period = period;
          })
          zero_rate_limit_trigger)
        (λ r. add_trigger (ratelimit r)))

  unfoldable pub make_delay : StatefulMaker Store
  make_delay n us = with_data (json.delay n) (λ (delayed, delay).
      unless_error
        (unmarshal_delay (record { delayed_trigger = resource_at us delayed; delay = delay })
          zero_delay_trigger)
        add_delay)

  unfoldable pub make_shell : StatefulMaker Store
  make_shell n us = with_data (json.shell n) (λ t. add_trigger (unmarshal_shell t))

  unfoldable pub make_service : StatefulMaker Store
  make_service n us = with_data (json.service n) (λ d.
      unless_error (unmarshal_service (service_def d us) zero_service)
        (λ svc. add_filter (service svc)))

  unfoldable pub make_login : StatefulMaker Store
  unfolding add_login
  make_login n us = with_data (json.login n) (λ (identifier, checker, downstream).
      unless_error
        (unmarshal_login
          (record {
            identifier = identifier;
            password_checker = resource_at us checker;
            downstream = resource_at us downstream;
          })
          zero_login_handler)
        add_login)

  unfoldable pub make_cookiemask : StatefulMaker Store
  unfolding add_cookiemask
  make_cookiemask n us = with_data (json.cookiemask n) (λ (handler, masked).
      unless_error
        (unmarshal_cookiemask
          (record { handler = resource_at us handler; masked = resource_at us masked })
          (record { handler = none; masked = none }))
        add_cookiemask)

  unfoldable pub make_session_handler : StatefulMaker Store
  make_session_handler n us =
      with_data (json.session_handler n)
        (λ t. add_handler (unmarshal_min_session_handler t zero_handler))

  unfoldable pub make_password_store : StatefulMaker Store
  make_password_store n us =
      with_data (json.password_store n) (λ t. unless_error (unmarshal_store decode t) add_checker)

  unfoldable pub make_standard_response : StatefulMaker Store
  make_standard_response n us = with_data (json.standard_response n) (λ t.
      unless_error (unmarshal_standard_response t (pos 0)) (λ r. add_filter (standard_response r)))

  -- `LandingFilter.UnmarshalJSON` does not look at the data.
  unfoldable pub make_landing : StatefulMaker Store
  make_landing n us = add_filter landing

  unfoldable pub make_passthru : StatefulMaker Store
  make_passthru n us =
      with_data (json.passthru n) (λ t. add_filter (passthru (unmarshal_passthru t zero_passthru)))

  unfoldable pub make_router : StatefulMaker Store
  make_router n us = with_data (json.router n) (λ t.
      unless_error (unmarshal_router (resources_at us t) (record { routes = none })) add_router)

  -- The names and the constructors that the packages register.
  abbrev pub resource_types : Map (StatefulMaker Store)
  resource_types =
      ("ratelimittrigger", make_ratelimit)
      ∷ ("compoundtrigger", make_compound)
      ∷ ("delaytrigger", make_delay)
      ∷ ("shelltrigger", make_shell)
      ∷ ("minmonitorredservice", make_service)
      ∷ ("loginhandler", make_login)
      ∷ ("cookiemaskfilter", make_cookiemask)
      ∷ ("minsessionhandler", make_session_handler)
      ∷ ("inmempwdstore", make_password_store)
      ∷ ("standardresponse", make_standard_response)
      ∷ ("landingfilter", make_landing)
      ∷ ("passthrufilter", make_passthru)
      ∷ ("exactpathrouter", make_router)
      ∷ []

  -- The calls of `RegisterResourceType`, one after the other; Go fixes no order of the packages.
  unfoldable pub register_types :
      Map (StatefulMaker Store) → Map (StatefulMaker Store) → Map (StatefulMaker Store)
  register_types [] types = types
  register_types ((name, maker) ∷ more) types =
      register_types more (register_resource_type name maker types).1

  unfoldable pub types : Map (StatefulMaker Store)
  unfolding register_types
  types = register_types resource_types []
