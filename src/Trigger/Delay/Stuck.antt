-- ===== src/Trigger/Delay/Stuck.antt =====
-- trigger/delay.go: the first request, and a request after the delayed trigger was called.
use pullcord.Base.{◌<◌, ◌≡◌, refl, List, [], ◌∷◌, Time, Duration, ◌+ℤ◌, ◌≤ℤ◌, length, arith}
use pullcord.Trigger.Delay.{
  expired, idle, selecting, draining, State, new_delay_trigger, first_call, arm, on_request,
  on_timer, Step, called, started, received, drained, fires, expires, elapses, Run, stay, go,
}
use pullcord.Trigger.Delay.Once.{new-IsSound, Run-IsSound}

-- The goroutine waits for a timer that is not set, after the calls `l` of the delayed trigger.
pub record IsStuck (l : List (Time × Time)) (s : State) : Type 0 where
  pub waits : s.phase ≡ draining
  pub no_timer : s.timer ≡ idle
  pub calls : s.fired ≡ l

Step-IsStuck :
    (d : Duration) (l : List (Time × Time)) (s s' : State)
    → Step d s s'
    → IsStuck l s
    → IsStuck l s'
Step-IsStuck d l s _ (called p) h = absurd (cc h.waits)
Step-IsStuck d l s _ (started p) h = absurd (cc h.waits)
Step-IsStuck d l s _ (received p) h = absurd (cc h.waits)
Step-IsStuck d l s _ (drained p q) h = absurd (cc h.no_timer)
Step-IsStuck d l s _ (fires p q) h = absurd (cc h.waits)
Step-IsStuck d l s _ (expires t q _) h = absurd (cc h.no_timer)
Step-IsStuck d l s _ (elapses later _) h = record {
  waits = h.waits;
  no_timer = h.no_timer;
  calls = h.calls;
}

Run-IsStuck :
    (d : Duration) (l : List (Time × Time)) (s s' : State) → Run d s s' → IsStuck l s → IsStuck l s'
Run-IsStuck d l s _ (stay _) h = h
Run-IsStuck d l s _ (go _ s' s'' step rest) h =
    Run-IsStuck d l s' s'' rest (Step-IsStuck d l s s' step h)

-- Once the delayed trigger has been called, the next request that comes through leaves the goroutine
-- waiting for ever for a timer that is not set, and the delayed trigger is not called again.
pub request_after_fire :
    (d : Duration) (now : Time) (s s' : State)
    → Run d (new_delay_trigger now) s
    → 0 < length s.fired
    → Run d (on_request d s) s'
    → IsStuck s.fired s'
unfolding on_request
request_after_fire d now s s' r f r' =
    let v = Run-IsSound d (new_delay_trigger now) s r (new-IsSound d now) in
    let q = v.after_fired f in
    Run-IsStuck d s.fired (on_request d s) s' r'
      (rw (q, on_request) (record { waits = refl; no_timer = q; calls = refl }))

-- A first request and time alone lead to a call of the delayed trigger, at the end of the delay.
pub first_request_fires :
    (d : Duration) (now : Time)
    → now ≤ℤ now +ℤ d
    → Run d (new_delay_trigger now) (record {
      phase = selecting;
      timer = idle;
      now = now +ℤ d;
      last = now;
      fired = (now +ℤ d, now) ∷ [];
    })
unfolding new_delay_trigger
first_request_fires d now l =
    let s₁ = first_call (new_delay_trigger now) in
    let s₂ = arm d s₁ in
    let s₃ = record s₂ { now = now +ℤ d } in
    let s₄ = record s₃ { timer = expired } in
    go (new_delay_trigger now) s₁ (on_timer s₄) (called refl) (
      go s₁ s₂ (on_timer s₄) (started refl) (
        go s₂ s₃ (on_timer s₄) (elapses (now +ℤ d) l) (
          go s₃ s₄ (on_timer s₄) (expires (now +ℤ d) refl (omega arith))
            (go s₄ (on_timer s₄) (on_timer s₄) (fires refl refl) (stay (on_timer s₄))))))
