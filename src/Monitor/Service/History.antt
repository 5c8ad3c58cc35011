-- ===== src/Monitor/Service/History.antt =====
-- monitor/minmonitor.go: the cached status of a service against the history of its probes.
pub mod Refinement
use mathlib.Core.Path.{subst₂}
use pullcord.Base.{
  ℕ, ◌+◌, Bool, true, false, not, ◌≡◌, refl, sym, ap, Option, none, some, List, [], ◌∷◌, ◌++◌, Time,
  Duration, String, ℤ, after, ◌+ℤ◌, Error, if◌then◌else◌, arith, Bool-cases, inl, inr,
}
use pullcord.Monitor.Service.{
  Endpoint, Dial, connected, op_error, failure, Service, Net, NetEnv, endpoint, tick, reprobe,
  status, set_status_up, new_service,
}
use pullcord.Trigger.Handler.{Handler}

pub data Op : Type 0 where
  check probe inform : Op

-- What a method returned: `(up, err)` of `Status` and `Reprobe`, `err` of `SetStatusUp`.
pub data Answer : Type 0 where
  answered : Bool → Option Error → Answer
  informed : Option Error → Answer

-- What has been learnt of the service, and when.
pub data Event : Type 0 where
  probed : Time → Bool → Event
  told : Time → Event

module _ (e : NetEnv) where
  pub run_op : Op → Service → Net → Answer × Service × Net
  unfolding reprobe status set_status_up
  run_op check svc n = let ((up, err), svc', n') = status e svc n in (answered up err, svc', n')
  run_op probe svc n = let ((up, err), svc', n') = reprobe e svc n in (answered up err, svc', n')
  run_op inform svc n = let (err, svc', n') = set_status_up e svc n in (informed err, svc', n')

  unfoldable pub run_ops : List Op → Service → Net → List Answer × Net
  unfolding run_op
  run_ops [] svc n = ([], n)
  run_ops (op ∷ ops) svc n =
      let (a, svc', n') = run_op op svc n in
      let (rest, n'') = run_ops ops svc' n' in (a ∷ rest, n'')

  -- The specification: the history decides, newest event first. A dial is answered as its outcome
  -- is read: a refusal from a known address is a down status, and any other failure an error.
  abbrev pub verdict : Dial → Bool × Option Error
  verdict connected = (true, none)
  verdict (op_error true err) = (false, none)
  verdict (op_error false err) = (false, some err)
  verdict (failure err) = (false, some err)

  -- When the service was last known to be up, if the last event says so.
  abbrev pub last_up : List Event → Option Time
  last_up [] = none
  last_up (probed t true ∷ h) = some t
  last_up (probed t false ∷ h) = none
  last_up (told t ∷ h) = some t

  pub spec_probe : Endpoint → List Event → Net → Answer × List Event × Net
  spec_probe p h n =
      let (up, err) = verdict (e.dial n.dialled p) in
      (
        answered up err,
        probed (e.env.now n.world.readings) up ∷ h,
        tick (record n { dialled = n.dialled ++ p ∷ [] }),
      )

  pub spec_op : Endpoint → Duration → Op → List Event → Net → Answer × List Event × Net
  unfolding spec_probe
  spec_op p g probe h n = spec_probe p h n
  spec_op p g inform h n = (informed none, told (e.env.now n.world.readings) ∷ h, tick n)
  spec_op p g check h n = elim (last_up h) [
    | none ↦ spec_probe p h n
    | some t ↦
        if after (e.env.now n.world.readings) (t +ℤ g)
        then spec_probe p h (tick n)
        else (answered true none, h, tick n)
  ]

  pub spec_ops : Endpoint → Duration → List Op → List Event → Net → List Answer × Net
  unfolding spec_op
  spec_ops p g [] h n = ([], n)
  spec_ops p g (op ∷ ops) h n =
      let (a, h', n') = spec_op p g op h n in
      let (rest, n'') = spec_ops p g ops h' n' in (a ∷ rest, n'')
