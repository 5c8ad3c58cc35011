-- ===== src/Monitor/Service/History/Refinement.antt =====
-- monitor/minmonitor.go: the methods of a service against the history of its probes.
use mathlib.Core.Path.{subst₂}
use pullcord.Base.{
  true, false, ◌≡◌, refl, none, List, [], ◌∷◌, ◌++◌, Time, Duration, String, ℤ, after, ◌+ℤ◌,
  if◌then◌else◌, Bool-cases, inl, inr,
}
use pullcord.Monitor.Service.{
  Endpoint, Dial, connected, op_error, failure, Service, Net, NetEnv, endpoint, tick, reprobe,
  status, new_service,
}
use pullcord.Trigger.Handler.{Handler}
use pullcord.Monitor.Service.History.{
  Op, check, probe, inform, Answer, answered, Event, probed, told, run_op, run_ops, verdict,
  spec_probe, spec_op, spec_ops,
}

module _ (e : NetEnv) where
  -- The fields of the service hold the last event.
  abbrev Holds : Service → List Event → Type 0
  Holds svc [] = svc.up ≡ false
  Holds svc (probed t up ∷ h) = (svc.up ≡ up) × (svc.last_checked ≡ t)
  Holds svc (told t ∷ h) = (svc.up ≡ true) × (svc.last_checked ≡ t)

  record Agrees (p : Endpoint) (g : Duration) (svc : Service) (h : List Event) : Type 0 where
    at : endpoint svc ≡ p
    grace : svc.grace_period ≡ g
    holds : Holds svc h

  -- One operation: the same answer and world, and the fields hold the new history.
  record Matches (p : Endpoint) (g : Duration) (code : Answer × Service × Net)
      (spec : Answer × List Event × Net) : Type 0 where
    answer : code.0 ≡ spec.0
    agrees : Agrees p g code.1 spec.1
    net : code.2 ≡ spec.2

  pub reprobe_lem :
      (svc : Service) (n : Net)
      → let v = verdict e (e.dial n.dialled (endpoint svc)) in
        reprobe e svc n ≡ (
          v,
          record svc { last_checked = e.env.now n.world.readings; up = v.0 },
          tick (record n { dialled = n.dialled ++ endpoint svc ∷ [] }),
        )
  unfolding reprobe
  reprobe_lem svc n = by_dial (e.dial n.dialled (endpoint svc)) refl
    where
      by_dial :
          (d : Dial)
          → e.dial n.dialled (endpoint svc) ≡ d
          → let v = verdict e (e.dial n.dialled (endpoint svc)) in
            reprobe e svc n ≡ (
              v,
              record svc { last_checked = e.env.now n.world.readings; up = v.0 },
              tick (record n { dialled = n.dialled ++ endpoint svc ∷ [] }),
            )
      by_dial connected q = rw (q, reprobe)
      by_dial (op_error true err) q = rw (q, reprobe)
      by_dial (op_error false err) q = rw (q, reprobe)
      by_dial (failure err) q = rw (q, reprobe)

  probe-Matches :
      (p : Endpoint) (g : Duration) (svc : Service) (h : List Event) (n : Net)
      → Agrees p g svc h
      → Matches p g (run_op e probe svc n) (spec_probe e p h n)
  unfolding run_op spec_probe
  probe-Matches p g svc h n a =
      rw (reprobe_lem svc n, ← a.at)
        (record {
          answer = refl;
          agrees = record { at = refl; grace = a.grace; holds = (refl, refl) };
          net = refl;
        })

  status_down_lem : (svc : Service) (n : Net) → svc.up ≡ false → status e svc n ≡ reprobe e svc n
  unfolding status
  status_down_lem svc n d = rw d

  status_up_lem :
      (svc : Service) (n : Net)
      → svc.up ≡ true
      → status e svc n ≡ (
          if after (e.env.now n.world.readings) (svc.last_checked +ℤ svc.grace_period)
          then reprobe e svc (tick n)
          else ((true, none), svc, tick n))
  unfolding status
  status_up_lem svc n u = rw u

  -- What the specification does when the service was last known to be up at `t`.
  abbrev spec_cached : Endpoint → List Event → Net → Time → Duration → Answer × List Event × Net
  spec_cached p h n t g =
      if after (e.env.now n.world.readings) (t +ℤ g)
      then spec_probe e p h (tick n)
      else (answered true none, h, tick n)

  cached-Matches_self :
      (p : Endpoint) (svc : Service) (h : List Event) (n : Net)
      → svc.up ≡ true
      → Agrees p svc.grace_period svc h
      → Matches p svc.grace_period
          (run_op e check svc n)
          (spec_cached p h n svc.last_checked svc.grace_period)
  unfolding run_op
  cached-Matches_self p svc h n u a =
      rw (status_up_lem svc n u)
        (elim (Bool-cases
          (after (e.env.now n.world.readings) (svc.last_checked +ℤ svc.grace_period))) [
            | inl old ↦ rw old (probe-Matches p svc.grace_period svc h (tick n) a)
            | inr young ↦ rw young (record { answer = refl; agrees = a; net = refl })
          ])

  cached-Matches :
      (p : Endpoint) (g : Duration) (svc : Service) (h : List Event) (n : Net) (t : Time)
      → svc.up ≡ true
      → svc.last_checked ≡ t
      → Agrees p g svc h
      → Matches p g (run_op e check svc n) (spec_cached p h n t g)
  cached-Matches p g svc h n t u c a =
      subst₂
        (λ t' g'. Agrees p g' svc h → Matches p g' (run_op e check svc n) (spec_cached p h n t' g'))
        c a.grace (cached-Matches_self p svc h n u) a

  check-Matches :
      (p : Endpoint) (g : Duration) (svc : Service) (h : List Event) (n : Net)
      → Agrees p g svc h
      → Matches p g (run_op e check svc n) (spec_op e p g check h n)
  unfolding run_op spec_op
  check-Matches p g svc [] n a = rw (status_down_lem svc n a.holds) (probe-Matches p g svc [] n a)
  check-Matches p g svc (probed t true ∷ h) n a =
      cached-Matches p g svc (probed t true ∷ h) n t a.holds.0 a.holds.1 a
  check-Matches p g svc (probed t false ∷ h) n a =
      rw (status_down_lem svc n a.holds.0) (probe-Matches p g svc (probed t false ∷ h) n a)
  check-Matches p g svc (told t ∷ h) n a =
      cached-Matches p g svc (told t ∷ h) n t a.holds.0 a.holds.1 a

  op-Matches :
      (p : Endpoint) (g : Duration) (op : Op) (svc : Service) (h : List Event) (n : Net)
      → Agrees p g svc h
      → Matches p g (run_op e op svc n) (spec_op e p g op h n)
  op-Matches p g check svc h n a = check-Matches p g svc h n a
  op-Matches p g probe svc h n a = unfold spec_op in probe-Matches p g svc h n a
  op-Matches p g inform svc h n a =
      unfold run_op spec_op in
      record {
        answer = refl;
        agrees = record { at = a.at; grace = a.grace; holds = (refl, refl) };
        net = refl;
      }

  run_ops-Agrees :
      (p : Endpoint) (g : Duration) (ops : List Op) (svc : Service) (h : List Event) (n : Net)
      → Agrees p g svc h
      → run_ops e ops svc n ≡ spec_ops e p g ops h n
  unfolding run_ops spec_ops
  run_ops-Agrees p g [] svc h n a = refl
  run_ops-Agrees p g (op ∷ ops) svc h n a =
      let m = op-Matches p g op svc h n a in
      let ih =
        run_ops-Agrees p g ops (run_op e op svc n).1 (spec_op e p g op h n).1 (run_op e op svc n).2
          m.agrees in
      rw (ih, m.answer, m.net)

  -- Over any sequence of calls of `Status`, `Reprobe` and `SetStatusUp` from a new service on, the
  -- answers and the dials are those that the history of probes and explicit settings decides: a
  -- status is answered from the cache exactly when the last event says up and its time and the grace
  -- period have not passed.
  pub run_ops-eq-spec_ops :
      (address : String) (port : ℤ) (protocol : String) (g : Duration)
      (on_down on_up always : Handler) (ops : List Op) (n : Net)
      → run_ops e ops (new_service address port protocol g on_down on_up always) n
        ≡ spec_ops e (record { protocol = protocol; address = address; port = port }) g ops [] n
  unfolding new_service
  run_ops-eq-spec_ops address port protocol g on_down on_up always ops n =
      run_ops-Agrees (record { protocol = protocol; address = address; port = port }) g ops
        (new_service address port protocol g on_down on_up always) [] n
        (record { at = refl; grace = refl; holds = refl })
