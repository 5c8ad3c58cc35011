-- ===== src/Trigger/Definitions.antt =====
-- trigger/ratelimit.go, delay.go, shelltrigger.go and sqstrigger.go: the decoders, after the JSON decoder has filled
-- the definition, and the constructors.
use pullcord.Base.{
  ℕ, ◌≡◌, ◌↔◌, refl, Option, none, some, List, String, pos, Duration, Error,
  unexpected_resource_type, not_yet_implemented, Parsed, parsed, bad_duration, sym, ap,
}
use pullcord.Config.Resource.{Unmarshaled, as_trigger}
use pullcord.Trigger.RateLimit.{RateLimitTrigger, new_rate_limit_trigger}
use pullcord.Trigger.Handler.{Handler, Object, shell}

-- `MaxAllowed` is a uint.
pub record RateLimitDef : Type 0 where
  pub guarded_trigger : Unmarshaled
  pub max_allowed : ℕ
  pub period : Parsed

-- `new(RateLimitTrigger)`
abbrev pub zero_rate_limit_trigger : RateLimitTrigger Handler
zero_rate_limit_trigger = record {
  guarded_trigger = none;
  max_allowed = 0;
  period = pos 0;
  previous_triggers = none;
}

-- `RateLimitTrigger.UnmarshalJSON`: what was assigned before an error stays.
unfoldable pub unmarshal_rate_limit :
    RateLimitDef → RateLimitTrigger Handler → RateLimitTrigger Handler × Option Error
unmarshal_rate_limit t r = elim (as_trigger t.guarded_trigger) [
  | none ↦ (r, some unexpected_resource_type)
  | some a ↦ elim t.period [
    | bad_duration e ↦ (record r { guarded_trigger = some a }, some e)
    | parsed p ↦
        (record r { guarded_trigger = some a; period = p; max_allowed = t.max_allowed }, none)
  ]
]

-- The decoder of a rate limited trigger returns no error exactly on a trigger with a period that can
-- be read, and then leaves what the constructor makes of these and of the limit.
pub unmarshal_rate_limit_iff :
    (t : RateLimitDef) (r : RateLimitTrigger Handler)
    → (unmarshal_rate_limit t zero_rate_limit_trigger ≡ (r, none)) ↔ (
        (a : ℕ) × (p : Duration) × (as_trigger t.guarded_trigger ≡ some a)
        × (t.period ≡ parsed p)
        × (r ≡ new_rate_limit_trigger (some a) t.max_allowed p))
unfolding unmarshal_rate_limit new_rate_limit_trigger
unmarshal_rate_limit_iff t r = (
  by_parts (as_trigger t.guarded_trigger) t.period refl refl,
  λ w. rw (unmarshal_rate_limit, w.2, w.3, w.4) refl,
)
  where
    by_parts :
        (x : Option ℕ) (y : Parsed)
        → as_trigger t.guarded_trigger ≡ x
        → t.period ≡ y
        → unmarshal_rate_limit t zero_rate_limit_trigger ≡ (r, none)
        → (a : ℕ) × (p : Duration) × (as_trigger t.guarded_trigger ≡ some a)
          × (t.period ≡ parsed p)
          × (r ≡ new_rate_limit_trigger (some a) t.max_allowed p)
    by_parts none y q s e = absurd (cc (rw (unmarshal_rate_limit, q) at e))
    by_parts (some a) (bad_duration x) q s e = absurd (cc (rw (unmarshal_rate_limit, q, s) at e))
    by_parts (some a) (parsed p) q s e =
        let decoded : (new_rate_limit_trigger (some a) t.max_allowed p, none) ≡ (r, none) =
          rw (unmarshal_rate_limit, q, s) at e in
        (a, p, q, s, sym (ap (λ (x : RateLimitTrigger Handler × Option Error). x.0) decoded))

-- A `DelayTrigger` before its first `Trigger`: its channel is nil.
pub record DelayTrigger : Type 0 where
  pub delayed_trigger : Handler
  pub delay : Duration

pub record DelayDef : Type 0 where
  pub delayed_trigger : Unmarshaled
  pub delay : Parsed

-- `DelayTrigger.UnmarshalJSON`
unfoldable pub unmarshal_delay : DelayDef → DelayTrigger → DelayTrigger × Option Error
unmarshal_delay t d = elim (as_trigger t.delayed_trigger) [
  | none ↦ (d, some unexpected_resource_type)
  | some a ↦ elim t.delay [
    | bad_duration e ↦ (record d { delayed_trigger = some a }, some e)
    | parsed p ↦ (record d { delayed_trigger = some a; delay = p }, none)
  ]
]

pub record ShellDef : Type 0 where
  pub command : String
  pub args : List String

-- `NewShellTriggerHandler`
pub new_shell_trigger_handler : String → List String → Object
new_shell_trigger_handler command args = shell command args

-- `ShellTriggerHandler.UnmarshalJSON`, which assigns both fields whatever they were.
unfoldable pub unmarshal_shell : ShellDef → Object
unmarshal_shell t = shell t.command t.args

-- trigger/sqstrigger.go: a handler that takes a message, and is no `TriggerHandler` therefore.
pub record SqsTriggerHandler : Type 0 where
  pub url : String

-- `NewSqsTriggerHandler`
pub new_sqs_trigger_handler : String → SqsTriggerHandler
new_sqs_trigger_handler url = record { url = url }

-- `SqsTriggerHandler.Trigger`
pub trigger_sqs : SqsTriggerHandler → String → Option Error
trigger_sqs handler message = some not_yet_implemented
