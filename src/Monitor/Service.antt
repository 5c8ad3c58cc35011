-- ===== src/Monitor/Service.antt =====
-- monitor/minmonitor.go: a `MinMonitorredService` and its methods. A method takes the service that
-- its receiver points to, and returns it beside the state of the world.
pub mod History
pub mod Filter
pub mod Outcome
pub mod Persists
pub mod Decode
use pullcord.Base.{
  ℕ, ◌+◌, Bool, true, false, not, Option, none, some, List, [], ◌∷◌, ◌++◌, String, ℤ, Time,
  Duration, zero_time, after, ◌+ℤ◌, Error, if◌then◌else◌,
}
use pullcord.Trigger.Handler.{Handler, World, Env, Call, returned, panicked, out_of_fuel, trigger}

-- What `net.Dial` is given: the protocol, the address and the port.
pub record Endpoint : Type 0 where
  pub protocol : String
  pub address : String
  pub port : ℤ

-- What `net.Dial` returns: a connection, a `*net.OpError` with or without `Addr`, another error.
pub data Dial : Type 0 where
  connected : Dial
  op_error : Bool → Error → Dial
  failure : Error → Dial

-- A `PassthruFilter` that `NewPassthruFilter` made.
pub record Passthru : Type 0 where
  pub host : String
  pub port : ℤ

pub record Service : Type 0 where
  pub address : String
  pub port : ℤ
  pub protocol : String
  pub grace_period : Duration
  pub on_down : Handler
  pub on_up : Handler
  pub always : Handler
  pub last_checked : Time
  pub up : Bool
  pub passthru : Option Passthru

-- The world of the triggers, and the endpoints dialled so far, oldest first.
pub record Net : Type 0 where
  pub world : World
  pub dialled : List Endpoint

-- What the program does not decide: that of the triggers, and what a dial returns after those so
-- far.
pub record NetEnv : Type 0 where
  pub env : Env
  pub dial : List Endpoint → Endpoint → Dial

abbrev pub endpoint : Service → Endpoint
endpoint svc = record { protocol = svc.protocol; address = svc.address; port = svc.port }

unfoldable pub new_service : String → ℤ → String → Duration → Handler → Handler → Handler → Service
new_service address port protocol grace_period on_down on_up always = record {
  address = address;
  port = port;
  protocol = protocol;
  grace_period = grace_period;
  on_down = on_down;
  on_up = on_up;
  always = always;
  last_checked = zero_time;
  up = false;
  passthru = some (record { host = address; port = port });
}

-- `time.Now()`: the reading, and the world after it.
abbrev pub tick : Net → Net
tick n = record n { world = record n.world { readings = n.world.readings + 1 } }

-- The page of a response that the program writes itself.
pub data Page : Type 0 where
  internal_server_error service_not_ready : Page

-- How `FilterRequest` ends.
pub data Reply : Type 0 where
  page : ℕ → Page → Reply
  proxied : Passthru → Reply
  panic : Reply
  exhausted : Reply

-- The call of the upstream filter; a nil one panics.
abbrev pub forward : Service → Net → Reply × Net
forward svc n = elim svc.passthru [ some p ↦ (proxied p, n) | none ↦ (panic, n) ]

module _ (e : NetEnv) where
  unfoldable pub reprobe : Service → Net → (Bool × Option Error) × Service × Net
  reprobe svc n =
      let n' = record n { dialled = n.dialled ++ endpoint svc ∷ [] } in
      let svc' = record svc { last_checked = e.env.now n.world.readings } in
      elim (e.dial n.dialled (endpoint svc)) [
        | connected ↦ ((true, none), record svc' { up = true }, tick n')
        | op_error true err ↦ ((false, none), record svc' { up = false }, tick n')
        | op_error false err ↦ ((false, some err), record svc' { up = false }, tick n')
        | failure err ↦ ((false, some err), record svc' { up = false }, tick n')
      ]

  -- The clock is read only if the service was up.
  unfoldable pub status : Service → Net → (Bool × Option Error) × Service × Net
  unfolding reprobe
  status svc n =
      if not svc.up
      then reprobe svc n
      else if after (e.env.now n.world.readings) (svc.last_checked +ℤ svc.grace_period)
      then reprobe svc (tick n)
      else ((true, none), svc, tick n)

  pub set_status_up : Service → Net → Option Error × Service × Net
  set_status_up svc n =
      (none, record svc { last_checked = e.env.now n.world.readings; up = true }, tick n)

  -- `if h != nil { err = h.Trigger(); if err != nil { return 500 } }`, and the rest of the handler.
  unfoldable pub run_trigger : ℕ → Handler → Net → (Net → Reply × Net) → Reply × Net
  run_trigger fuel none n rest = rest n
  run_trigger fuel (some a) n rest =
      let (c, w) = trigger e.env fuel (some a) n.world in
      let n' = record n { world = w } in
      elim c [
        | returned err ↦ elim err [ none ↦ rest n' | some x ↦ (page 500 internal_server_error, n') ]
        | panicked ↦ (panic, n')
        | out_of_fuel ↦ (exhausted, n')
      ]

  -- `FilterRequest`, with fuel for the triggers.
  unfoldable pub filter_request : ℕ → Service → Net → Reply × Service × Net
  filter_request fuel svc n =
      let ((up, err), svc', n') = status svc n in
      let out : Reply × Net = elim err [
        | some x ↦ (page 500 internal_server_error, n')
        | none ↦ run_trigger fuel svc'.always n' λ n₁.
            if up
            then run_trigger fuel svc'.on_up n₁ (λ n₂. forward svc' n₂)
            else run_trigger fuel svc'.on_down n₁ (λ n₂. (page 503 service_not_ready, n₂))
      ] in
      (out.0, svc', out.1)
