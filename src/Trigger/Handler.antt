-- ===== src/Trigger/Handler.antt =====
-- trigger/trigger.go, compound.go, shelltrigger.go and ratelimit.go: `Trigger` of each kind of
-- handler, over a store, since handlers are pointers that several owners may share.
pub mod Store
pub mod Total
pub mod Effects
pub mod Decode
use pullcord.Base.{
  ℕ, zero, suc, ◌+◌, Bool, Option, none, some, List, [], ◌∷◌, ◌++◌, String, Time, Error,
  rate_limit_exceeded, if◌then◌else◌, get_elem?, set,
}
use pullcord.Trigger.RateLimit.{RateLimitTrigger, admit}

-- A `TriggerHandler` is nil or points to an object of the store.
abbrev pub Handler : Type 0
Handler = Option ℕ

-- `foreign` is a handler whose `Trigger` is another package's, such as a test's.
pub data Object : Type 0 where
  shell : String → List String → Object
  compound : List Handler → Object
  ratelimit : RateLimitTrigger Handler → Object
  foreign : ℕ → Object

-- What a call does outside the program.
pub data Effect : Type 0 where
  ran : String → List String → Effect
  called : ℕ → Effect

-- The store, how often the clock was read, and the effects so far, oldest first.
pub record World : Type 0 where
  pub objects : List Object
  pub readings : ℕ
  pub effects : List Effect

-- What the program does not decide: the readings of the clock, and what commands and foreign
-- handlers return after the effects so far.
pub record Env : Type 0 where
  pub now : ℕ → Time
  pub run : List Effect → String → List String → Option Error
  pub call : List Effect → ℕ → Option Error

-- How a call ends. Calling a method of a nil interface panics.
pub data Call : Type 0 where
  returned : Option Error → Call
  panicked : Call
  out_of_fuel : Call

module _ (env : Env) where
  pub perform : Effect → Option Error → World → Call × World
  perform eff e w = (returned e, record w { effects = w.effects ++ eff ∷ [] })

  -- `ShellTriggerHandler.Trigger`: the command runs, and its error is passed on.
  pub trigger_shell : String → List String → World → Call × World
  unfolding perform
  trigger_shell command args w = perform (ran command args) (env.run w.effects command args) w

  -- `CompoundTrigger.Trigger`: the loop over the triggers, which the first error ends.
  unfoldable pub trigger_compound :
      (Handler → World → Call × World) → List Handler → World → Call × World
  trigger_compound trigger [] w = (returned none, w)
  trigger_compound trigger (t ∷ ts) w =
      let (c, w') = trigger t w in
      elim c [
        | returned e ↦ elim e [
          | none ↦ trigger_compound trigger ts w'
          | some x ↦ (returned (some x), w')
        ]
        | panicked ↦ (panicked, w')
        | out_of_fuel ↦ (out_of_fuel, w')
      ]

  -- `RateLimitTrigger.Trigger` of the object at `a`.
  pub trigger_ratelimit :
      (Handler → World → Call × World) → ℕ → RateLimitTrigger Handler → World → Call × World
  trigger_ratelimit trigger a r w =
      let (r', passed) = admit (env.now w.readings) r in
      let w' = record w { objects = set w.objects a (ratelimit r'); readings = w.readings + 1 } in
      if passed then trigger r'.guarded_trigger w' else (returned (some rate_limit_exceeded), w')

  -- The dynamic dispatch of `Trigger` on the object at `a`; no object is a dangling pointer.
  pub dispatch : (Handler → World → Call × World) → ℕ → Option Object → World → Call × World
  unfolding trigger_shell trigger_compound trigger_ratelimit perform
  dispatch trigger a none w = (panicked, w)
  dispatch trigger a (some (shell command args)) w = trigger_shell command args w
  dispatch trigger a (some (compound ts)) w = trigger_compound trigger ts w
  dispatch trigger a (some (ratelimit r)) w = trigger_ratelimit trigger a r w
  dispatch trigger a (some (foreign i)) w = perform (called i) (env.call w.effects i) w

  -- A call of `Trigger`, with fuel for the depth of nested calls.
  unfoldable pub trigger : ℕ → Handler → World → Call × World
  unfolding dispatch
  trigger zero h w = (out_of_fuel, w)
  trigger (suc fuel) none w = (panicked, w)
  trigger (suc fuel) (some a) w = dispatch (trigger fuel) a (get_elem? w.objects a) w
