-- ===== src/Trigger/RateLimit.antt =====
-- trigger/ratelimit.go: the state of a `RateLimitTrigger` and the decision of its `Trigger`.
pub mod Window
pub mod Refinement
pub mod Bound
use pullcord.Base.{
  ℕ, Bool, true, false, Option, none, some, List, [], ◌∷◌, ◌++◌, Time, Duration, zero_time, after,
  ◌+ℤ◌, leb, if◌then◌else◌, length, replicate,
}

-- `guarded` is the handler that the trigger guards; `none` for the times is a nil slice.
pub record RateLimitTrigger {ℓ} (H : Type ℓ) : Type ℓ where
  pub guarded_trigger : H
  pub max_allowed : ℕ
  pub period : Duration
  pub previous_triggers : Option (List Time)

-- The loop that drops the times from the front while they are older than the period.
pub expire : Time → Duration → List Time → List Time
expire now period [] = []
expire now period (t ∷ ts) = if after now (t +ℤ period) then expire now period ts else t ∷ ts

module _ {ℓ} {H : Type ℓ} where
  unfoldable pub new_rate_limit_trigger : H → ℕ → Duration → RateLimitTrigger H
  new_rate_limit_trigger guarded max_allowed period = record {
    guarded_trigger = guarded;
    max_allowed = max_allowed;
    period = period;
    previous_triggers = none;
  }

  -- `Trigger` up to the call of the guarded trigger: the new state, and whether the call is made.
  -- `make([]time.Time, MaxAllowed)` makes a slice of that many zero times.
  unfoldable pub admit : Time → RateLimitTrigger H → RateLimitTrigger H × Bool
  unfolding expire
  admit now r = elim r.previous_triggers [
    | none ↦ (
      record r { previous_triggers = some (replicate r.max_allowed zero_time ++ now ∷ []) },
      true,
    )
    | some previous ↦
        let live = expire now r.period previous in
        if leb r.max_allowed (length live)
        then (record r { previous_triggers = some live }, false)
        else (record r { previous_triggers = some (live ++ now ∷ []) }, true)
  ]

  -- A sequence of calls at the given times: the state, and for each call whether it was let through.
  unfoldable pub admit_all : RateLimitTrigger H → List Time → RateLimitTrigger H × List Bool
  unfolding admit
  admit_all r [] = (r, [])
  admit_all r (now ∷ later) =
      let (r', passed) = admit now r in let (r'', rest) = admit_all r' later in (r'', passed ∷ rest)
