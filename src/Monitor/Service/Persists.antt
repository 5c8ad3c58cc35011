-- ===== src/Monitor/Service/Persists.antt =====
-- monitor/minmonitor.go: what `FilterRequest` leaves of the triggers' store and of the service.
use pullcord.Base.{
  ℕ, ◌≤◌, Bool, true, false, ◌≡◌, refl, ap, ◌∙◌, Option, none, some, Error, arith, length,
}
use pullcord.Trigger.Handler.{World, Call, returned, panicked, out_of_fuel}
use pullcord.Trigger.Handler.Store.{IsOrdered}
use pullcord.Trigger.Handler.Total.{triggers-Ends}
use pullcord.Monitor.Service.{Service, Net, NetEnv, Passthru, status, filter_request}
use pullcord.Monitor.Service.Filter.{
  hooks, finish, answer, fire, respond, filter_request-eq-respond,
}
use pullcord.Monitor.Service.Outcome.{IsReady, hooks-Below, status-Kept, status-IsReady}

-- A store without nil handlers and cycles, of as many objects as before.
pub record Persists (n n' : Net) : Type 0 where
  pub ordered : IsOrdered n'.world.objects
  pub same_length : length n'.world.objects ≡ length n.world.objects

answer_world : (up : Bool) (svc : Service) (n : Net) → (answer up svc n).1.world ≡ n.world
answer_world true svc n = by_proxy svc.passthru refl
  where
    by_proxy : (o : Option Passthru) → svc.passthru ≡ o → (answer true svc n).1.world ≡ n.world
    by_proxy none q = rw q refl
    by_proxy (some p) q = rw q refl
answer_world false svc n = refl

finish_world :
    (c : Call × World) (n : Net) (up : Bool) (svc : Service)
    → (finish c n (answer up svc)).1.world ≡ c.1
finish_world (returned none, w) n up svc = answer_world up svc (record n { world = w })
finish_world (returned (some x), w) n up svc = refl
finish_world (panicked, w) n up svc = refl
finish_world (out_of_fuel, w) n up svc = refl

module _ (e : NetEnv) where
  respond-Persists :
      (fuel : ℕ) (s : Bool × Option Error) (svc : Service) (p : Passthru) (n : Net)
      → IsOrdered n.world.objects
      → length n.world.objects ≤ fuel
      → IsReady (length n.world.objects) svc p
      → Persists n (respond e fuel s svc n).1
  unfolding respond
  respond-Persists fuel (up, some x) svc p n o l r = record { ordered = o; same_length = refl }
  respond-Persists fuel (up, none) svc p n o l r =
      let ends =
        triggers-Ends e.env fuel (length n.world.objects) (hooks up svc) n.world
          (hooks-Below (length n.world.objects) up svc p r) o (omega arith) l in
      let world = finish_world (fire e fuel (hooks up svc) n.world) n up svc in
      record { ordered = rw world ends.ordered; same_length = rw world ends.same_length }

  pub filter_request-Persists :
      (fuel : ℕ) (svc : Service) (p : Passthru) (n : Net)
      → IsOrdered n.world.objects
      → length n.world.objects ≤ fuel
      → IsReady (length n.world.objects) svc p
      → Persists n (filter_request e fuel svc n).2
        × IsReady (length n.world.objects) (filter_request e fuel svc n).1 p
  filter_request-Persists fuel svc p n o l r =
      let k = status-Kept e svc n in
      let ready = status-IsReady e svc p n r in
      let persists =
        respond-Persists fuel (status e svc n).0 (status e svc n).1 p (status e svc n).2
          (rw k.objects o) (rw k.objects l) (rw k.objects ready) in
      rw (filter_request-eq-respond e fuel svc n) (
        record {
          ordered = persists.ordered;
          same_length = persists.same_length ∙ ap length k.objects;
        },
        ready,
      )
