-- ===== src/Trigger/Delay/Tests.antt =====
-- A delayed trigger on small inputs, and the theorems at such inputs.
use pullcord.Base.{◌≤◌, [], ◌∷◌, pos, ◌+ℤ◌, ◌≤ℤ◌, length, All, arith}
use pullcord.Trigger.Delay.{idle, selecting, State, new_delay_trigger, on_request, Run, stay}
use pullcord.Trigger.Delay.Once.{IsLate, Run-fires_once}
use pullcord.Trigger.Delay.Stuck.{IsStuck, request_after_fire, first_request_fires}

abbrev fired_state : State
fired_state = record {
  phase = selecting;
  timer = idle;
  now = pos 100 +ℤ pos 5;
  last = pos 100;
  fired = (pos 100 +ℤ pos 5, pos 100) ∷ [];
}

delay_passes : pos 100 ≤ℤ pos 100 +ℤ pos 5
unfolding ◌+ℤ◌
delay_passes = omega arith

fires : Run (pos 5) (new_delay_trigger (pos 100)) fired_state
fires = first_request_fires (pos 5) (pos 100) delay_passes

Run-fires_once_example : (length fired_state.fired ≤ 1) × All (IsLate (pos 5)) fired_state.fired
Run-fires_once_example = Run-fires_once (pos 5) (pos 100) fired_state fires

request_after_fire_example : IsStuck fired_state.fired (on_request (pos 5) fired_state)
request_after_fire_example =
    request_after_fire (pos 5) (pos 100) fired_state (on_request (pos 5) fired_state) fires
      (omega arith) (stay (on_request (pos 5) fired_state))
