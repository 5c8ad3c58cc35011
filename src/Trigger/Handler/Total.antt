-- ===== src/Trigger/Handler/Total.antt =====
-- The end of a call of `Trigger`, and the objects that it changes.
use pullcord.Base.{
  ℕ, zero, suc, ◌+◌, ◌<◌, ◌≤◌, ◌≡◌, refl, ap, ◌∙◌, inl, inr, Option, none, some, List, [], ◌∷◌,
  Error, length, rate_limit_exceeded, Option-cases, get_elem?, set, All, arith, Bool-cases,
}
use pullcord.Trigger.RateLimit.{RateLimitTrigger, admit}
use pullcord.Trigger.Handler.{
  Handler, Object, shell, compound, ratelimit, foreign, World, Env, Call, returned,
  trigger_compound, trigger_ratelimit, dispatch, trigger,
}
use pullcord.Trigger.Handler.Store.{
  Below, Fits, IsOrdered, get_elem?_lt, length-set, get_elem?-set_ne, set-IsOrdered,
  guarded_trigger-admit,
}

-- How a call ends that may change the objects below `bound` only.
pub record Ends (bound : ℕ) (w : World) (end : Call × World) : Type 0 where
  pub error : Option Error
  pub is_returned : end.0 ≡ returned error
  pub ordered : IsOrdered end.1.objects
  pub same_length : length end.1.objects ≡ length w.objects
  pub untouched : (b : ℕ) → bound ≤ b → get_elem? end.1.objects b ≡ get_elem? w.objects b

-- A call after another changes what both may change.
Ends-trans :
    (bound : ℕ) (w : World) (first second : Call × World)
    → Ends bound w first
    → Ends bound first.1 second
    → Ends bound w second
Ends-trans bound w first second e f = record {
  error = f.error;
  is_returned = f.is_returned;
  ordered = f.ordered;
  same_length = f.same_length ∙ e.same_length;
  untouched = λ b h. f.untouched b h ∙ e.untouched b h;
}

Ends-weaken :
    (bound bound' : ℕ) (w : World) (end : Call × World)
    → bound ≤ bound'
    → Ends bound w end
    → Ends bound' w end
Ends-weaken bound bound' w end le e = record {
  error = e.error;
  is_returned = e.is_returned;
  ordered = e.ordered;
  same_length = e.same_length;
  untouched = λ b h. e.untouched b (omega arith);
}

-- A call that leaves the store as it is.
Ends-same :
    (bound : ℕ) (w w' : World) (error : Option Error)
    → IsOrdered w.objects
    → w'.objects ≡ w.objects
    → Ends bound w (returned error, w')
Ends-same bound w w' error o e = record {
  error = error;
  is_returned = refl;
  ordered = rw e o;
  same_length = ap length e;
  untouched = λ b h. rw e;
}

module _ (env : Env) where
  -- Calls below `a` return: the hypothesis of the induction.
  abbrev Returns : ℕ → (Handler → World → Call × World) → Type 0
  Returns a again =
      (t : Handler) (w : World)
      → Below a t
      → IsOrdered w.objects
      → a ≤ length w.objects
      → Ends a w (again t w)

  compound-Ends :
      (again : Handler → World → Call × World) (a : ℕ) (ts : List Handler) (w : World)
      → Returns a again
      → All (Below a) ts
      → IsOrdered w.objects
      → a ≤ length w.objects
      → Ends a w (trigger_compound env again ts w)
  unfolding trigger_compound
  compound-Ends again a [] w ih b o l = Ends-same a w w none o refl
  compound-Ends again a (t ∷ ts) w ih b o l =
      let e = ih t w b.0 o l in
      let rest =
        compound-Ends again a ts (again t w).1 ih b.1 e.ordered (omega (arith, e.same_length)) in
      elim (Option-cases e.error) [
        | inl clean ↦
            rw (e.is_returned, clean, trigger_compound)
              (Ends-trans a w (again t w) (trigger_compound env again ts (again t w).1) e rest)
        | inr (x, failed) ↦
            rw (e.is_returned, failed, trigger_compound)
              (record {
                error = some x;
                is_returned = refl;
                ordered = e.ordered;
                same_length = e.same_length;
                untouched = e.untouched;
              })
      ]

  -- The write of the new times to the store.
  write-Ends :
      (a : ℕ) (r : RateLimitTrigger Handler) (w w' : World) (error : Option Error)
      → Below a r.guarded_trigger
      → IsOrdered w.objects
      → w'.objects ≡ set w.objects a (ratelimit r)
      → Ends (suc a) w (returned error, w')
  write-Ends a r w w' error b o e = record {
    error = error;
    is_returned = refl;
    ordered = rw e (set-IsOrdered w.objects a (ratelimit r) o b);
    same_length = rw e (length-set w.objects a (ratelimit r));
    untouched = λ i h. rw e (get_elem?-set_ne w.objects a i (ratelimit r) (omega arith));
  }

  ratelimit-Ends :
      (again : Handler → World → Call × World) (a : ℕ) (r : RateLimitTrigger Handler) (w : World)
      → Returns a again
      → Below a r.guarded_trigger
      → IsOrdered w.objects
      → a < length w.objects
      → Ends (suc a) w (trigger_ratelimit env again a r w)
  unfolding trigger_ratelimit
  ratelimit-Ends again a r w ih b o l =
      let (r', passed) = admit (env.now w.readings) r in
      let w' : World = record w {
        objects = set w.objects a (ratelimit r');
        readings = w.readings + 1;
      } in
      let b' : Below a r'.guarded_trigger = rw (guarded_trigger-admit (env.now w.readings) r) b in
      elim (Bool-cases passed) [
        | inl yes_passed ↦
            let written = write-Ends a r' w w' none b' o refl in
            rw yes_passed (
              Ends-trans (suc a) w (returned none, w') (again r'.guarded_trigger w') written
                (Ends-weaken a (suc a) w' (again r'.guarded_trigger w') (omega arith) (
                  ih r'.guarded_trigger w' b' written.ordered
                    (omega (arith, length-set w.objects a (ratelimit r'))))))
        | inr refused ↦ rw refused (write-Ends a r' w w' (some rate_limit_exceeded) b' o refl)
      ]

  dispatch-Ends :
      (again : Handler → World → Call × World) (a : ℕ) (x : Object) (w : World)
      → Returns a again
      → Fits a x
      → IsOrdered w.objects
      → a < length w.objects
      → Ends (suc a) w (dispatch env again a (some x) w)
  unfolding dispatch
  dispatch-Ends again a (shell command args) w ih f o l = Ends-same (suc a) w _ _ o refl
  dispatch-Ends again a (compound ts) w ih f o l =
      Ends-weaken a (suc a) w (trigger_compound env again ts w) (omega arith)
        (compound-Ends again a ts w ih f o (omega arith))
  dispatch-Ends again a (ratelimit r) w ih f o l = ratelimit-Ends again a r w ih f o l
  dispatch-Ends again a (foreign i) w ih f o l = Ends-same (suc a) w _ _ o refl

  Returns-below :
      (fuel a : ℕ)
      → ((b : ℕ) (w : World)
          → IsOrdered w.objects
          → b < length w.objects
          → b < fuel
          → Ends (suc b) w (trigger env fuel (some b) w))
      → a ≤ fuel
      → Returns a (trigger env fuel)
  Returns-below fuel a each le none w b o l = absurd b
  Returns-below fuel a each le (some b) w lt o l =
      Ends-weaken (suc b) a w (trigger env fuel (some b) w) lt
        (each b w o (omega arith) (omega arith))

  -- On a store without nil handlers and cycles, fuel above the object's index suffices: the call
  -- returns, with an error or without, leaves such a store, and changes no object above its own.
  pub trigger-Ends :
      (fuel a : ℕ) (w : World)
      → IsOrdered w.objects
      → a < length w.objects
      → a < fuel
      → Ends (suc a) w (trigger env fuel (some a) w)
  unfolding trigger
  trigger-Ends zero a w o l h = elim h [ ]
  trigger-Ends (suc fuel) a w o l h =
      let (x, found) = get_elem?_lt w.objects a l in
      rw found (
        dispatch-Ends (trigger env fuel) a x w
          (Returns-below fuel a (λ b w'. trigger-Ends fuel b w') (omega arith)) (o.at a x found) o
          l)

  -- So does a sequence of such calls, as a compound trigger makes them.
  pub triggers-Ends :
      (fuel bound : ℕ) (ts : List Handler) (w : World)
      → All (Below bound) ts
      → IsOrdered w.objects
      → bound ≤ length w.objects
      → bound ≤ fuel
      → Ends bound w (trigger_compound env (trigger env fuel) ts w)
  triggers-Ends fuel bound ts w b o l le =
      compound-Ends (trigger env fuel) bound ts w
        (Returns-below fuel bound (λ c w'. trigger-Ends fuel c w') le) b o l
