-- ===== src/Monitor/Service/Filter.antt =====
-- monitor/minmonitor.go: `FilterRequest` against the calls that it makes of the triggers.
use mathlib.Core.Path.{fun_ext}
use pullcord.Base.{
  ℕ, Bool, true, false, ◌≡◌, refl, sym, ap, ◌∙◌, Option, none, some, List, [], ◌∷◌, ◌++◌, Error,
  if◌then◌else◌,
}
use pullcord.Trigger.Handler.{
  Handler, World, Call, returned, panicked, out_of_fuel, trigger_compound, trigger,
}
use pullcord.Monitor.Service.{
  Service, Net, NetEnv, internal_server_error, service_not_ready, Reply, page, panic, exhausted,
  status, run_trigger, forward, filter_request,
}

-- The trigger to call, if it is not nil.
abbrev pub hook : Handler → List Handler
hook none = []
hook (some a) = some a ∷ []

-- The triggers of a request to a service that is up, or down: the one for every request first.
abbrev pub hooks : Bool → Service → List Handler
hooks up svc = hook svc.always ++ hook (if up then svc.on_up else svc.on_down)

-- The reply after a sequence of triggers: an error of theirs is the server's.
abbrev pub finish : Call × World → Net → (Net → Reply × Net) → Reply × Net
finish c n rest =
    let n' = record n { world = c.1 } in
    elim c.0 [
      | returned err ↦ elim err [ none ↦ rest n' | some x ↦ (page 500 internal_server_error, n') ]
      | panicked ↦ (panic, n')
      | out_of_fuel ↦ (exhausted, n')
    ]

abbrev pub answer : Bool → Service → Net → Reply × Net
answer up svc n = if up then forward svc n else (page 503 service_not_ready, n)

module _ (e : NetEnv) where
  abbrev pub fire : ℕ → List Handler → World → Call × World
  fire fuel hs w = trigger_compound e.env (trigger e.env fuel) hs w

  run_trigger-eq-finish :
      (fuel : ℕ) (h : Handler) (n : Net) (rest : Net → Reply × Net)
      → run_trigger e fuel h n rest ≡ finish (fire fuel (hook h) n.world) n rest
  unfolding run_trigger trigger_compound
  run_trigger-eq-finish fuel none n rest = refl
  run_trigger-eq-finish fuel (some a) n rest = by_call (trigger e.env fuel (some a) n.world).0 refl
    where
      by_call :
          (c : Call)
          → (trigger e.env fuel (some a) n.world).0 ≡ c
          → run_trigger e fuel (some a) n rest ≡ finish (fire fuel (some a ∷ []) n.world) n rest
      by_call (returned none) q = rw (q, trigger_compound, run_trigger)
      by_call (returned (some x)) q = rw (q, trigger_compound, run_trigger)
      by_call panicked q = rw (q, trigger_compound, run_trigger)
      by_call out_of_fuel q = rw (q, trigger_compound, run_trigger)

  finish-append :
      (fuel : ℕ) (h : Handler) (ys : List Handler) (n : Net) (rest : Net → Reply × Net)
      → finish (fire fuel (hook h ++ ys) n.world) n rest
        ≡ finish (fire fuel (hook h) n.world) n (λ n₁. finish (fire fuel ys n₁.world) n₁ rest)
  unfolding trigger_compound
  finish-append fuel none ys n rest = refl
  finish-append fuel (some a) ys n rest = by_call (trigger e.env fuel (some a) n.world).0 refl
    where
      by_call :
          (c : Call)
          → (trigger e.env fuel (some a) n.world).0 ≡ c
          → finish (fire fuel (some a ∷ ys) n.world) n rest
            ≡ finish
                (fire fuel (some a ∷ []) n.world)
                n
                (λ n₁. finish (fire fuel ys n₁.world) n₁ rest)
      by_call (returned none) q = rw (q, trigger_compound)
      by_call (returned (some x)) q = rw (q, trigger_compound)
      by_call panicked q = rw (q, trigger_compound)
      by_call out_of_fuel q = rw (q, trigger_compound)

  -- What a request gets: a status error is answered at once, without a trigger; otherwise the
  -- trigger for every request and then the one for the status are called as a compound trigger
  -- calls them, and only if all return without error is the request answered.
  unfoldable pub respond : ℕ → Bool × Option Error → Service → Net → Reply × Net
  respond fuel (up, some x) svc n = (page 500 internal_server_error, n)
  respond fuel (up, none) svc n = finish (fire fuel (hooks up svc) n.world) n (answer up svc)

  triggers-eq-fire :
      (fuel : ℕ) (up : Bool) (svc : Service) (n : Net)
      → run_trigger e fuel svc.always n (λ n₁.
        if up
        then run_trigger e fuel svc.on_up n₁ (λ n₂. forward svc n₂)
        else run_trigger e fuel svc.on_down n₁ (λ n₂. (page 503 service_not_ready, n₂)))
        ≡ finish (fire fuel (hooks up svc) n.world) n (answer up svc)
  triggers-eq-fire fuel true svc n =
      run_trigger-eq-finish fuel svc.always n
        (λ n₁. run_trigger e fuel svc.on_up n₁ (answer true svc))
      ∙ ap (finish (fire fuel (hook svc.always) n.world) n)
          (fun_ext λ n₁. run_trigger-eq-finish fuel svc.on_up n₁ (answer true svc))
      ∙ sym (finish-append fuel svc.always (hook svc.on_up) n (answer true svc))
  triggers-eq-fire fuel false svc n =
      run_trigger-eq-finish fuel svc.always n
        (λ n₁. run_trigger e fuel svc.on_down n₁ (answer false svc))
      ∙ ap (finish (fire fuel (hook svc.always) n.world) n)
          (fun_ext λ n₁. run_trigger-eq-finish fuel svc.on_down n₁ (answer false svc))
      ∙ sym (finish-append fuel svc.always (hook svc.on_down) n (answer false svc))

  -- `FilterRequest` answers as its status and the triggers decide: a status error gets the server's
  -- error page at once, with no trigger called. Otherwise the trigger for every request and then the
  -- one for the status are called, nil ones left out, as a compound trigger calls them. Only if all
  -- return without error is the request forwarded to a service that is up, or the not-ready page
  -- sent for one that is down; an error of theirs gets the server's error page.
  pub filter_request-eq-respond :
      (fuel : ℕ) (svc : Service) (n : Net)
      → let (s, svc', n') = status e svc n in
        let (reply, n'') = respond fuel s svc' n' in
        filter_request e fuel svc n ≡ (reply, svc', n'')
  unfolding filter_request respond
  filter_request-eq-respond fuel svc n = by_error (status e svc n).0.1 refl
    where
      by_error :
          (err : Option Error)
          → (status e svc n).0.1 ≡ err
          → let (s, svc', n') = status e svc n in
            let (reply, n'') = respond fuel s svc' n' in
            filter_request e fuel svc n ≡ (reply, svc', n'')
      by_error (some x) q = rw (q, filter_request, respond)
      by_error none q =
          rw (q, filter_request, respond)
            (ap (λ (out : Reply × Net). (out.0, (status e svc n).1, out.1))
              (triggers-eq-fire fuel (status e svc n).0.0 (status e svc n).1 (status e svc n).2))
