-- ===== src/Monitor/Service/Decode.antt =====
-- monitor/minmonitor.go: `MinMonitorredService.UnmarshalJSON`, after the JSON decoder has filled the
-- definition, and the service that it leaves.
use pullcord.Base.{
  ℕ, Bool, true, false, ◌≡◌, ◌∙◌, Option, none, some, String, ℤ, pos, zero_time, Error,
  unexpected_resource_type, arith, refl, inl, inr, Option-cases, Parsed, parsed, bad_duration,
}
use pullcord.Config.Resource.{Unmarshaled, as_trigger}
use pullcord.Trigger.Handler.{Handler, returned}
use pullcord.Monitor.Service.{Service, Net, NetEnv, panic, status, filter_request}
use pullcord.Monitor.Service.Filter.{hooks, fire, respond, filter_request-eq-respond}
use pullcord.Monitor.Service.Outcome.{status-Kept}

-- The decoded definition; a trigger that is null or left out is `none`.
pub record ServiceDef : Type 0 where
  pub address : String
  pub port : ℤ
  pub protocol : String
  pub grace_period : Parsed
  pub on_down : Option Unmarshaled
  pub on_up : Option Unmarshaled
  pub always : Option Unmarshaled

-- `new(MinMonitorredService)`
abbrev pub zero_service : Service
zero_service = record {
  address = "";
  port = pos 0;
  protocol = "";
  grace_period = pos 0;
  on_down = none;
  on_up = none;
  always = none;
  last_checked = zero_time;
  up = false;
  passthru = none;
}

-- The handler that a part of the definition names, nil if it is left out; `none` is a resource of
-- another type.
unfoldable pub handler_of : Option Unmarshaled → Option Handler
handler_of none = some none
handler_of (some u) = elim (as_trigger u) [ some a ↦ some (some a) | none ↦ none ]

-- The end of `UnmarshalJSON`: the fields that cannot fail.
assign_rest : ServiceDef → Service → Service
assign_rest d s = record s { address = d.address; port = d.port; protocol = d.protocol }

-- The part on `Always`, and the rest. The code assigns the trigger to `OnDown`.
pub assign_always : ServiceDef → Service → Service × Option Error
unfolding as_trigger assign_rest
assign_always d s = elim d.always [
  | none ↦ (assign_rest d (record s { always = none }), none)
  | some u ↦ elim (as_trigger u) [
    | some a ↦ (assign_rest d (record s { on_down = some a }), none)
    | none ↦ (s, some unexpected_resource_type)
  ]
]

-- `UnmarshalJSON`: the service and the error, what was assigned before an error included.
unfoldable pub unmarshal_service : ServiceDef → Service → Service × Option Error
unfolding handler_of as_trigger assign_always
unmarshal_service d s = elim d.grace_period [
  | bad_duration x ↦ (s, some x)
  | parsed g ↦
      let s₁ = record s { grace_period = g } in
      elim (handler_of d.on_down) [
        | none ↦ (s₁, some unexpected_resource_type)
        | some down ↦
            let s₂ = record s₁ { on_down = down } in
            elim (handler_of d.on_up) [
              | none ↦ (s₂, some unexpected_resource_type)
              | some up ↦ assign_always d (record s₂ { on_up = up })
            ]
      ]
]

-- What holds of nil and of the triggers of a definition holds of those of a decoded service.
pub unmarshal_service-Known :
    (P : Handler → Type 0) (d : ServiceDef)
    → P none
    → ((h : Handler) → handler_of d.on_down ≡ some h → P h)
    → ((h : Handler) → handler_of d.on_up ≡ some h → P h)
    → ((h : Handler) → handler_of d.always ≡ some h → P h)
    → P (unmarshal_service d zero_service).0.on_down
      × P (unmarshal_service d zero_service).0.on_up
      × P (unmarshal_service d zero_service).0.always
unfolding unmarshal_service handler_of assign_always assign_rest
unmarshal_service-Known P d nil down up always =
    by_parts d.grace_period (handler_of d.on_down) (handler_of d.on_up) d.always refl refl refl refl
  where
    by_parts :
        (g : Parsed) (x y : Option Handler) (z : Option Unmarshaled)
        → d.grace_period ≡ g
        → handler_of d.on_down ≡ x
        → handler_of d.on_up ≡ y
        → d.always ≡ z
        → P (unmarshal_service d zero_service).0.on_down
          × P (unmarshal_service d zero_service).0.on_up
          × P (unmarshal_service d zero_service).0.always
    by_parts (bad_duration e) x y z p q r t = rw (unmarshal_service, p) (nil, nil, nil)
    by_parts (parsed g) none y z p q r t = rw (unmarshal_service, p, q) (nil, nil, nil)
    by_parts (parsed g) (some x) none z p q r t =
        rw (unmarshal_service, p, q, r) (down x q, nil, nil)
    by_parts (parsed g) (some x) (some y) none p q r t =
        rw (unmarshal_service, p, q, r, assign_always, t) (down x q, up y r, nil)
    by_parts (parsed g) (some x) (some y) (some u) p q r t = elim (Option-cases (as_trigger u)) [
      | inl other ↦ rw (unmarshal_service, p, q, r, assign_always, t, other) (down x q, up y r, nil)
      | inr (a, o) ↦
          rw (unmarshal_service, p, q, r, assign_always, t, o)
            (always (some a) (rw (handler_of, t, o) refl), up y r, nil)
    ]

decoded_passthru : (d : ServiceDef) → (unmarshal_service d zero_service).0.passthru ≡ none
unfolding unmarshal_service
decoded_passthru d = ground arith

fired_panics :
    (e : NetEnv) (fuel : ℕ) (s : Bool × Option Error) (svc : Service) (n : Net)
    → s ≡ (true, none)
    → svc.passthru ≡ none
    → (fire e fuel (hooks true svc) n.world).0 ≡ returned none
    → (respond e fuel s svc n).0 ≡ panic
unfolding respond
fired_panics e fuel (up, some x) svc n q p h = absurd (cc)
fired_panics e fuel (false, none) svc n q p h = absurd (cc)
fired_panics e fuel (true, none) svc n q p h = rw (h, p)

-- A service that the decoder made has no proxy: a request that finds it up, with its triggers all
-- returning without error, panics.
pub decoded_service_panics :
    (e : NetEnv) (fuel : ℕ) (d : ServiceDef) (n : Net)
    → (status e (unmarshal_service d zero_service).0 n).0 ≡ (true, none)
    → (fire e fuel
        (hooks true (status e (unmarshal_service d zero_service).0 n).1)
        (status e (unmarshal_service d zero_service).0 n).2.world).0
      ≡ returned none
    → (filter_request e fuel (unmarshal_service d zero_service).0 n).0 ≡ panic
decoded_service_panics e fuel d n q h =
    let svc = (unmarshal_service d zero_service).0 in
    rw (filter_request-eq-respond e fuel svc n) (
      fired_panics e fuel (status e svc n).0 (status e svc n).1 (status e svc n).2 q
        ((status-Kept e svc n).passthru ∙ decoded_passthru d) h)
