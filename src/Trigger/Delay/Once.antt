-- ===== src/Trigger/Delay/Once.antt =====
-- trigger/delay.go: when, and how often, the delayed trigger is called.
use pullcord.Base.{
  ◌≤◌, ◌<◌, ◌≡◌, ◌≢◌, ◌⊎◌, inl, inr, refl, List, [], ◌∷◌, Time, Duration, ◌+ℤ◌, ◌≤ℤ◌, +ℤ_parts,
  length, All, arith,
}
use pullcord.Trigger.Delay.{
  Timer, armed, expired, idle, absent, starting, selecting, draining, State, new_delay_trigger,
  first_call, arm, on_request, on_timer, Step, called, started, received, drained, fires, expires,
  elapses, Run, stay, go,
}

-- A call of the delayed trigger comes a delay after the last request before it.
abbrev pub IsLate : Duration → Time × Time → Type 0
IsLate d p = p.1 +ℤ d ≤ℤ p.0

-- Before the goroutine selects there is no timer, and after it has called the delayed trigger there
-- is none either.
pub record IsSound (d : Duration) (s : State) : Type 0 where
  pub behind : s.last ≤ℤ s.now
  pub before : s.phase ≡ absent ⊎ (s.phase ≡ starting) → (s.timer ≡ idle) × (s.fired ≡ [])
  pub after_fired : 0 < length s.fired → s.timer ≡ idle
  pub once : length s.fired ≤ 1
  pub armed_late : (t : Time) → s.phase ≡ selecting → s.timer ≡ armed t → s.last +ℤ d ≤ℤ t
  pub expired_late : s.phase ≡ selecting → s.timer ≡ expired → s.last +ℤ d ≤ℤ s.now
  pub draining_not_armed : (t : Time) → s.phase ≡ draining → s.timer ≢ armed t
  pub late : All (IsLate d) s.fired

later_sum : (a b d : Time) → a ≤ℤ b → a +ℤ d ≤ℤ b +ℤ d
later_sum a b d h = omega (arith, +ℤ_parts a d, +ℤ_parts b d)

pub new-IsSound : (d : Duration) (now : Time) → IsSound d (new_delay_trigger now)
unfolding new_delay_trigger
new-IsSound d now = record {
  behind = omega arith;
  before = λ h. (refl, refl);
  after_fired = λ h. refl;
  once = omega arith;
  armed_late = λ t p q. absurd (ground arith);
  expired_late = λ p q. absurd (ground arith);
  draining_not_armed = λ t p q. absurd (ground arith);
  late = tt;
}

arm-IsSound : (d : Duration) (s : State) → (s.fired ≡ []) → s.last ≤ℤ s.now → IsSound d (arm d s)
arm-IsSound d s f b = record {
  behind = b;
  before = λ h. absurd (ground arith);
  after_fired = λ h. absurd (ground arith);
  once = ground arith;
  armed_late = λ t p q. ground (arith, later_sum s.last s.now d b);
  expired_late = λ p q. absurd (ground arith);
  draining_not_armed = λ t p q. absurd (ground arith);
  late = rw f tt;
}

-- While a timer is set, the delayed trigger has not been called.
not_fired : (d : Duration) (s : State) → IsSound d s → s.timer ≢ idle → s.fired ≡ []
not_fired d s v n = by_calls s.fired refl
  where
    by_calls : (l : List (Time × Time)) → s.fired ≡ l → l ≡ []
    by_calls [] e = refl
    by_calls (x ∷ l) e = absurd (n (v.after_fired (rw e (omega arith))))

drain-IsSound :
    (d : Duration) (s : State)
    → IsSound d s
    → ((t : Time) → s.timer ≢ armed t)
    → IsSound d (record s { phase = draining; last = s.now })
drain-IsSound d s v n = record {
  behind = omega arith;
  before = λ h. absurd (ground arith);
  after_fired = v.after_fired;
  once = v.once;
  armed_late = λ t p q. absurd (ground arith);
  expired_late = λ p q. absurd (ground arith);
  draining_not_armed = λ t p. n t;
  late = v.late;
}

request-IsSound :
    (d : Duration) (s : State) (m : Timer) → s.timer ≡ m → IsSound d s → IsSound d (on_request d s)
unfolding on_request
request-IsSound d s (armed t) q v =
    rw (q, on_request)
      (arm-IsSound d (record s { last = s.now }) (not_fired d s v (λ e. ground arith))
        (omega arith))
request-IsSound d s expired q v = rw (q, on_request) (drain-IsSound d s v (λ t e. ground arith))
request-IsSound d s idle q v = rw (q, on_request) (drain-IsSound d s v (λ t e. ground arith))

fire-IsSound :
    (d : Duration) (s : State)
    → s.phase ≡ selecting
    → s.timer ≡ expired
    → IsSound d s
    → IsSound d (on_timer s)
fire-IsSound d s p q v =
    let none_yet = not_fired d s v (λ e. ground arith) in
    record {
      behind = v.behind;
      before = λ h. absurd (ground arith);
      after_fired = λ h. refl;
      once = ground arith;
      armed_late = λ t p' e. absurd (ground arith);
      expired_late = λ p' e. absurd (ground arith);
      draining_not_armed = λ t p' e. absurd (ground arith);
      late = (v.expired_late p q, v.late);
    }

expire-IsSound :
    (d : Duration) (s : State) (t : Time)
    → s.timer ≡ armed t
    → t ≤ℤ s.now
    → IsSound d s
    → IsSound d (record s { timer = expired })
expire-IsSound d s t q l v = record {
  behind = v.behind;
  before = λ h. absurd (ground (arith, (v.before h).0));
  after_fired = λ h. absurd (ground (arith, v.after_fired h));
  once = v.once;
  armed_late = λ u p e. absurd (ground arith);
  expired_late = λ p e. omega (arith, v.armed_late t p q);
  draining_not_armed = λ u p e. ground arith;
  late = v.late;
}

elapse-IsSound :
    (d : Duration) (s : State) (later : Time)
    → s.now ≤ℤ later
    → IsSound d s
    → IsSound d (record s { now = later })
elapse-IsSound d s later l v = record {
  behind = omega (arith, v.behind);
  before = v.before;
  after_fired = v.after_fired;
  once = v.once;
  armed_late = v.armed_late;
  expired_late = λ p e. omega (arith, v.expired_late p e);
  draining_not_armed = v.draining_not_armed;
  late = v.late;
}

call-IsSound :
    (d : Duration) (s : State) → s.phase ≡ absent → IsSound d s → IsSound d (first_call s)
call-IsSound d s p v =
    let (no_timer, none_yet) = v.before (inl p) in
    record {
      behind = omega arith;
      before = λ h. (no_timer, none_yet);
      after_fired = v.after_fired;
      once = v.once;
      armed_late = λ t q e. absurd (ground arith);
      expired_late = λ q e. absurd (ground arith);
      draining_not_armed = λ t q e. ground arith;
      late = v.late;
    }

Step-IsSound : (d : Duration) (s s' : State) → Step d s s' → IsSound d s → IsSound d s'
Step-IsSound d s _ (called p) v = call-IsSound d s p v
Step-IsSound d s _ (started p) v = arm-IsSound d s (v.before (inr p)).1 v.behind
Step-IsSound d s _ (received p) v = request-IsSound d s s.timer refl v
Step-IsSound d s _ (drained p q) v = arm-IsSound d s (not_fired d s v (λ e. ground arith)) v.behind
Step-IsSound d s _ (fires p q) v = fire-IsSound d s p q v
Step-IsSound d s _ (expires t q l) v = expire-IsSound d s t q l v
Step-IsSound d s _ (elapses later l) v = elapse-IsSound d s later l v

pub Run-IsSound : (d : Duration) (s s' : State) → Run d s s' → IsSound d s → IsSound d s'
Run-IsSound d s _ (stay _) v = v
Run-IsSound d s _ (go _ s' s'' step rest) v = Run-IsSound d s' s'' rest (Step-IsSound d s s' step v)

-- Whatever the order of requests, steps of the goroutine and time, the delayed trigger is called at
-- most once since the trigger was made, and then not before the delay has passed since the last
-- request that came through.
pub Run-fires_once :
    (d : Duration) (now : Time) (s : State)
    → Run d (new_delay_trigger now) s
    → (length s.fired ≤ 1) × All (IsLate d) s.fired
Run-fires_once d now s r =
    let v = Run-IsSound d (new_delay_trigger now) s r (new-IsSound d now) in (v.once, v.late)
