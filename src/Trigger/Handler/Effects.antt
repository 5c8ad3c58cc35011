-- ===== src/Trigger/Handler/Effects.antt =====
-- What a call of `Trigger` does and does not do.
use pullcord.Base.{
  ℕ, zero, suc, ◌+◌, ◌<◌, ◌≤◌, ◌≡◌, refl, ap, ◌∙◌, inl, inr, false, none, some, List, [], ◌∷◌, ◌++◌,
  Error, length, rate_limit_exceeded, get_elem?, set, arith, Bool-cases,
}
use pullcord.Trigger.RateLimit.{RateLimitTrigger, admit}
use pullcord.Trigger.Handler.{
  Handler, Object, ratelimit, World, Env, Call, returned, panicked, out_of_fuel, trigger_compound,
  trigger_ratelimit, trigger,
}
use pullcord.Trigger.Handler.Store.{
  Below, IsOrdered, length-set, get_elem?-set_self, set-IsOrdered, guarded_trigger-admit,
}
use pullcord.Trigger.Handler.Total.{trigger-Ends}

module _ (env : Env) where
  -- The triggers, called one after the other, each from the state that the one before left, all return
  -- without an error, and leave the last state.
  abbrev pub AllReturn : (Handler → World → Call × World) → List Handler → World → World → Type 0
  AllReturn again [] w w' = w ≡ w'
  AllReturn again (t ∷ ts) w w' =
      ((again t w).0 ≡ returned none) × AllReturn again ts (again t w).1 w'

  -- How a compound trigger came to an error: the triggers before one all returned without error,
  -- that one returned the error from the state that they left, and its state is the last.
  abbrev pub FailedAt :
      (Handler → World → Call × World) → List Handler → World → Error → World → Type 0
  FailedAt again ts w e w' =
      (before : List Handler) × (t : Handler) × (later : List Handler) × (between : World) × (ts
        ≡ before ++ t ∷ later)
      × AllReturn again before w between
      × (again t between ≡ (returned (some e), w'))

  FailedAt-cons :
      (again : Handler → World → Call × World) (t : Handler) (ts : List Handler) (w w' : World)
      (e : Error)
      → (again t w).0 ≡ returned none
      → FailedAt again ts (again t w).1 e w'
      → FailedAt again (t ∷ ts) w e w'
  FailedAt-cons again t ts w w' e q (before, x, later, between, split, clean, failed) =
      (t ∷ before, x, later, between, ap (λ l. t ∷ l) split, (q, clean), failed)

  compound_error-step :
      (again : Handler → World → Call × World) (t : Handler) (ts : List Handler) (w w' : World)
      (e : Error) (c : Call)
      → (again t w).0 ≡ c
      → (trigger_compound env again ts (again t w).1 ≡ (returned (some e), w')
          → FailedAt again ts (again t w).1 e w')
      → trigger_compound env again (t ∷ ts) w ≡ (returned (some e), w')
      → FailedAt again (t ∷ ts) w e w'
  unfolding trigger_compound
  compound_error-step again t ts w w' e (returned none) q ih h =
      FailedAt-cons again t ts w w' e q (ih (rw (q, trigger_compound) at h))
  compound_error-step again t ts w w' e (returned (some x)) q ih h =
      ([], t, ts, w, refl, refl, ap (λ c. (c, (again t w).1)) q ∙ (rw (q, trigger_compound) at h))
  compound_error-step again t ts w w' e panicked q ih h =
      absurd (cc (rw (q, trigger_compound) at h))
  compound_error-step again t ts w w' e out_of_fuel q ih h =
      absurd (cc (rw (q, trigger_compound) at h))

  -- When a compound trigger returns an error, the triggers before some point, called in turn, all
  -- returned without error, the trigger at that point returned the error, and the state is the one that
  -- it left.
  pub compound_error :
      (again : Handler → World → Call × World) (ts : List Handler) (w w' : World) (e : Error)
      → trigger_compound env again ts w ≡ (returned (some e), w')
      → FailedAt again ts w e w'
  unfolding trigger_compound
  compound_error again [] w w' e h = cc
  compound_error again (t ∷ ts) w w' e h =
      compound_error-step again t ts w w' e (again t w).0 refl
        (compound_error again ts (again t w).1 w' e) h

module _ (env : Env) where
  compound_clean-step :
      (again : Handler → World → Call × World) (t : Handler) (ts : List Handler) (w w' : World)
      (c : Call)
      → (again t w).0 ≡ c
      → (trigger_compound env again ts (again t w).1 ≡ (returned none, w')
          → AllReturn env again ts (again t w).1 w')
      → trigger_compound env again (t ∷ ts) w ≡ (returned none, w')
      → AllReturn env again (t ∷ ts) w w'
  unfolding trigger_compound
  compound_clean-step again t ts w w' (returned none) q ih h =
      (q, ih (rw (q, trigger_compound) at h))
  compound_clean-step again t ts w w' (returned (some x)) q ih h =
      absurd (cc (rw (q, trigger_compound) at h))
  compound_clean-step again t ts w w' panicked q ih h = absurd (cc (rw (q, trigger_compound) at h))
  compound_clean-step again t ts w w' out_of_fuel q ih h =
      absurd (cc (rw (q, trigger_compound) at h))

  -- When a compound trigger returns without error, so did each of its triggers.
  pub compound_clean :
      (again : Handler → World → Call × World) (ts : List Handler) (w w' : World)
      → trigger_compound env again ts w ≡ (returned none, w')
      → AllReturn env again ts w w'
  unfolding trigger_compound
  compound_clean again [] w w' h = ap (λ (x : Call × World). x.1) h
  compound_clean again (t ∷ ts) w w' h =
      compound_clean-step again t ts w w' (again t w).0 refl
        (compound_clean again ts (again t w).1 w') h

lt_of_get_elem? {ℓ} :
    {A : Type ℓ} (xs : List A) (i : ℕ) {x : A} → get_elem? xs i ≡ some x → i < length xs
lt_of_get_elem? [] i h = cc
lt_of_get_elem? (y ∷ ys) zero h = omega arith
lt_of_get_elem? (y ∷ ys) (suc i) h = omega (arith, lt_of_get_elem? ys i h)

module _ (env : Env) where
  -- The call of a guarded trigger below `a` leaves the object at `a`.
  guarded_untouched :
      (fuel a : ℕ) (h : Handler) (w : World) {x : Object}
      → Below a h
      → IsOrdered w.objects
      → a < length w.objects
      → a ≤ fuel
      → get_elem? w.objects a ≡ some x
      → get_elem? (trigger env fuel h w).1.objects a ≡ some x
  guarded_untouched fuel a none w b o l le e = absurd b
  guarded_untouched fuel a (some c) w b o l le e =
      (trigger-Ends env fuel c w o (omega arith) (omega arith)).untouched a b ∙ e

  -- On a store without nil handlers and cycles, the call of a rate limited trigger leaves it with
  -- the times of its own decision, whatever the guarded trigger does.
  pub ratelimit_times :
      (fuel a : ℕ) (r : RateLimitTrigger Handler) (w : World)
      → IsOrdered w.objects
      → get_elem? w.objects a ≡ some (ratelimit r)
      → a < fuel
      → get_elem? (trigger env fuel (some a) w).1.objects a
        ≡ some (ratelimit (admit (env.now w.readings) r).0)
  unfolding trigger trigger_ratelimit
  ratelimit_times zero a r w o e h = elim h [ ]
  ratelimit_times (suc fuel) a r w o e h =
      let (r', passed) = admit (env.now w.readings) r in
      let l = lt_of_get_elem? w.objects a e in
      let b : Below a r'.guarded_trigger =
        rw (guarded_trigger-admit (env.now w.readings) r) (o.at a (ratelimit r) e) in
      let w' : World = record w {
        objects = set w.objects a (ratelimit r');
        readings = w.readings + 1;
      } in
      let stored = get_elem?-set_self w.objects a (ratelimit r') l in
      rw e (elim (Bool-cases passed) [
        | inl yes_passed ↦ rw yes_passed (
            guarded_untouched fuel a r'.guarded_trigger w' b
              (set-IsOrdered w.objects a (ratelimit r') o b)
              (omega (arith, length-set w.objects a (ratelimit r'))) (omega arith) stored)
        | inr refused ↦ rw refused stored
      ])

  -- A rate limited trigger that refuses a call returns `RateLimitExceededError` and has no effect
  -- outside the program.
  pub ratelimit_refused :
      (fuel a : ℕ) (r : RateLimitTrigger Handler) (w : World)
      → get_elem? w.objects a ≡ some (ratelimit r)
      → (admit (env.now w.readings) r).1 ≡ false
      → ((trigger env (suc fuel) (some a) w).0 ≡ returned (some rate_limit_exceeded))
        × ((trigger env (suc fuel) (some a) w).1.effects ≡ w.effects)
  unfolding trigger trigger_ratelimit
  ratelimit_refused fuel a r w e refused = (rw (e, refused), rw (e, refused))
