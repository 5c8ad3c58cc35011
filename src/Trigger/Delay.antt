-- ===== src/Trigger/Delay.antt =====
-- trigger/delay.go: `DelayTrigger`, with the goroutine that its first `Trigger` starts and the timer
-- of that goroutine, as a relation of steps.
pub mod Once
pub mod Stuck
mod Tests
use pullcord.Base.{ℕ, ◌≡◌, List, [], ◌∷◌, Time, Duration, ◌+ℤ◌, ◌≤ℤ◌}

-- A `time.Timer`: it will expire at a time, its value waits in its channel, or neither.
pub data Timer : Type 0 where
  armed : Time → Timer
  expired idle : Timer

-- No goroutine, which is a nil channel; one that has not made its timer; one that waits in its
-- `select`; one that waits for the value of the timer after `tmr.Stop()` was false.
pub data Phase : Type 0 where
  absent starting selecting draining : Phase

-- `last` is when the last call of `Trigger` came through. `fired` are the calls of the delayed
-- trigger, newest first: the time, and `last` at that time.
pub record State : Type 0 where
  pub phase : Phase
  pub timer : Timer
  pub now : Time
  pub last : Time
  pub fired : List (Time × Time)

pub new_delay_trigger : Time → State
new_delay_trigger now = record { phase = absent; timer = idle; now = now; last = now; fired = [] }

-- `Trigger` with a nil channel.
abbrev pub first_call : State → State
first_call s = record s { phase = starting; last = s.now }

-- `time.NewTimer(dla)` and `tmr.Reset(dla)`, after which the goroutine selects.
abbrev pub arm : Duration → State → State
arm d s = record s { phase = selecting; timer = armed (s.now +ℤ d) }

-- `case _, ok := <-ac`: `tmr.Stop()` is true only of a timer that has not expired. The code never
-- closes the channel.
pub on_request : Duration → State → State
on_request d s = elim s.timer [
  | armed t ↦ arm d (record s { last = s.now })
  | expired ↦ record s { phase = draining; last = s.now }
  | idle ↦ record s { phase = draining; last = s.now }
]

-- `case <-tmr.C`: the delayed trigger is called, whatever it returns.
abbrev pub on_timer : State → State
on_timer s = record s { timer = idle; fired = (s.now, s.last) ∷ s.fired }

-- A step of the callers of `Trigger`, of the goroutine, or of time. A call on a channel that is not
-- nil comes through when the goroutine selects.
pub data Step (d : Duration) (s : State) : State → Type 0 where
  called : s.phase ≡ absent → Step d s (first_call s)
  started : s.phase ≡ starting → Step d s (arm d s)
  received : s.phase ≡ selecting → Step d s (on_request d s)
  drained : s.phase ≡ draining → s.timer ≡ expired → Step d s (arm d s)
  fires : s.phase ≡ selecting → s.timer ≡ expired → Step d s (on_timer s)
  expires : (t : Time) → s.timer ≡ armed t → t ≤ℤ s.now → Step d s (record s { timer = expired })
  elapses : (later : Time) → s.now ≤ℤ later → Step d s (record s { now = later })

pub data Run (d : Duration) : State → State → Type 0 where
  stay : (s : State) → Run d s s
  go : (s s' s'' : State) → Step d s s' → Run d s' s'' → Run d s s''
