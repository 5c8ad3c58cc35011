-- ===== src/Trigger/Tests.antt =====
-- Runs of the triggers on small inputs, and the theorems at such inputs.
use pullcord.Base.{
  ℕ, ◌+◌, ◌≤◌, ◌≡◌, refl, true, false, none, some, List, [], ◌∷◌, map, pos, ◌+ℤ◌, +ℤ_parts, Time,
  Error, rate_limit_exceeded, zero_time, length, keep, get_elem?, arith, Parsed,
}
use pullcord.Config.Resource.{Unmarshaled, as_trigger}
use pullcord.Trigger.RateLimit.{RateLimitTrigger, new_rate_limit_trigger, admit, admit_all}
use pullcord.Trigger.RateLimit.Window.{window_all}
use pullcord.Trigger.RateLimit.Refinement.{admit_all-eq-window_all}
use pullcord.Trigger.RateLimit.Bound.{inside, let_through, rate_bound}
use pullcord.Trigger.Handler.{
  Handler, Object, shell, compound, ratelimit, foreign, called, World, Env, returned, panicked,
  trigger, trigger_compound,
}
use pullcord.Trigger.Handler.Store.{IsOrdered, AllAt-IsOrdered}
use pullcord.Trigger.Handler.Total.{Ends, trigger-Ends}
use pullcord.Trigger.Handler.Effects.{FailedAt, compound_error, ratelimit_times}
use pullcord.Trigger.Definitions.{
  RateLimitDef, zero_rate_limit_trigger, unmarshal_rate_limit, unmarshal_rate_limit_iff,
}
use pullcord.Trigger.Handler.Decode.{unmarshal_compound, decoded_compound_panics}

abbrev times : List Time
times = pos 11 ∷ pos 12 ∷ pos 13 ∷ pos 30 ∷ []

abbrev limiter : RateLimitTrigger ℕ
limiter = new_rate_limit_trigger 0 2 (pos 10)

-- Two calls pass within the period, and another after it.
limited : (admit_all limiter times).1 ≡ true ∷ true ∷ false ∷ true ∷ []
unfolding new_rate_limit_trigger admit_all ◌+ℤ◌
limited = refl

-- A limit of zero lets the first call through all the same.
zero_limit :
    (admit_all (new_rate_limit_trigger {H = ℕ} 0 0 (pos 10)) times).1
    ≡ true ∷ false ∷ false ∷ false ∷ []
unfolding new_rate_limit_trigger admit_all ◌+ℤ◌
zero_limit = refl

admit_all-eq-window_all_example : (admit_all limiter times).1 ≡ (window_all 2 (pos 10) [] times).1
admit_all-eq-window_all_example =
    admit_all-eq-window_all {H = ℕ} 0 2 (pos 10) (pos 11) times (omega arith)
      (omega (arith, +ℤ_parts zero_time (pos 10))) (omega arith) (omega arith)

rate_bound_example :
    length (keep (inside (pos 10) (pos 12)) (let_through times (admit_all limiter times).1)) ≤ 2
rate_bound_example =
    rate_bound {H = ℕ} 0 2 (pos 10) (pos 11) times (pos 12) (omega arith)
      (omega (arith, +ℤ_parts zero_time (pos 10))) (omega arith) (omega arith)

-- A clock that advances by one at each reading, a command that fails, and foreign handlers that do
-- not.
abbrev env : Env
env = record {
  now = λ n. pos (n + 20);
  run = λ effects command args. some (Error.other 1);
  call = λ effects i. none;
}

abbrev once : RateLimitTrigger Handler
once = record {
  guarded_trigger = some 0;
  max_allowed = 1;
  period = pos 10;
  previous_triggers = some (pos 15 ∷ []);
}

abbrev objects : List Object
objects =
    foreign 7
    ∷ ratelimit once
    ∷ compound (some 0 ∷ some 1 ∷ some 0 ∷ [])
    ∷ shell "wake" ("now" ∷ [])
    ∷ []

abbrev world : World
world = record { objects = objects; readings = 0; effects = [] }

world-IsOrdered : IsOrdered objects
world-IsOrdered = AllAt-IsOrdered objects (omega arith)

-- The rate limited trigger refuses, and the last trigger is not called.
compound_stops :
    ((trigger env 3 (some 2) world).0 ≡ returned (some rate_limit_exceeded))
    × ((trigger env 3 (some 2) world).1.effects ≡ called 7 ∷ [])
unfolding trigger ◌+ℤ◌ admit
compound_stops = (refl, refl)

trigger-Ends_example : Ends 3 world (trigger env 3 (some 2) world)
trigger-Ends_example = trigger-Ends env 3 2 world world-IsOrdered (omega arith) (omega arith)

abbrev parts : List Handler
parts = some 0 ∷ some 1 ∷ some 0 ∷ []

abbrev after_parts : World
after_parts = (trigger_compound env (trigger env 2) parts world).1

parts_fail :
    trigger_compound env (trigger env 2) parts world
    ≡ (returned (some rate_limit_exceeded), after_parts)
unfolding trigger trigger_compound ◌+ℤ◌ admit
parts_fail = refl

compound_error_example : FailedAt env (trigger env 2) parts world rate_limit_exceeded after_parts
compound_error_example =
    compound_error env (trigger env 2) parts world after_parts rate_limit_exceeded parts_fail

ratelimit_times_example :
    get_elem? (trigger env 3 (some 1) world).1.objects 1
    ≡ some (ratelimit (admit (pos (0 + 20)) once).0)
ratelimit_times_example = ratelimit_times env 3 1 once world world-IsOrdered refl (omega arith)

once_refuses : (admit (pos 20) once).1 ≡ false
unfolding admit ◌+ℤ◌
once_refuses = refl

abbrev decoded : List Handler
decoded = (unmarshal_compound (map Unmarshaled.trigger (5 ∷ 6 ∷ []))).0

abbrev decoded_world : World
decoded_world = record { objects = compound decoded ∷ []; readings = 0; effects = [] }

decoded_compound_panics_example :
    ((unmarshal_compound (map Unmarshaled.trigger (5 ∷ 6 ∷ []))).1 ≡ none)
    × (trigger env 3 (some 0) decoded_world ≡ (panicked, decoded_world))
decoded_compound_panics_example = decoded_compound_panics env 1 0 5 (6 ∷ []) decoded_world refl

abbrev limit_def : RateLimitDef
limit_def = record {
  guarded_trigger = Unmarshaled.trigger 4;
  max_allowed = 2;
  period = Parsed.parsed (pos 10);
}

unmarshal_rate_limit_iff_example :
    (unmarshal_rate_limit limit_def zero_rate_limit_trigger
      ≡ (new_rate_limit_trigger (some 4) 2 (pos 10), none))
unfolding as_trigger
unmarshal_rate_limit_iff_example =
    (unmarshal_rate_limit_iff limit_def (new_rate_limit_trigger (some 4) 2 (pos 10))).1
      (4, pos 10, refl, refl, refl)
