-- ===== src/Monitor/Service/Outcome.antt =====
-- monitor/minmonitor.go: which replies of `FilterRequest` go with which status.
use pullcord.Base.{
  ℕ, ◌≤◌, ◌<◌, Bool, true, false, ◌≡◌, refl, ap, ◌⊎◌, inl, inr, Option, none, some, List, ◌++◌,
  Error, arith, length, All,
}
use pullcord.Trigger.Handler.{Handler, World, Call, returned, trigger}
use pullcord.Trigger.Handler.Store.{Below, IsOrdered}
use pullcord.Trigger.Handler.Total.{triggers-Ends}
use pullcord.Trigger.Handler.Effects.{AllReturn, FailedAt, compound_error, compound_clean}
use pullcord.Monitor.Service.{
  Service, Net, NetEnv, Passthru, internal_server_error, service_not_ready, Reply, page, proxied,
  panic, exhausted, reprobe, status, filter_request,
}
use pullcord.Monitor.Service.Filter.{
  hook, hooks, finish, answer, fire, respond, filter_request-eq-respond,
}

-- A trigger is nil, or points into a store of `bound` objects.
abbrev pub Known : ℕ → Handler → Type 0
Known bound none = Unit
Known bound (some a) = a < bound

-- A service whose triggers and proxy are in place.
pub record IsReady (bound : ℕ) (svc : Service) (p : Passthru) : Type 0 where
  pub always : Known bound svc.always
  pub on_up : Known bound svc.on_up
  pub on_down : Known bound svc.on_down
  pub proxy : svc.passthru ≡ some p

-- A reply that the status justifies: the proxy's for a service that is up, the not-ready page for
-- one that is down without an error, and else the server's error page. There is no panic.
abbrev pub IsJustified : Bool × Option Error → Passthru → Reply → Type 0
IsJustified s p (page code text) =
    ((code ≡ 500) × (text ≡ internal_server_error))
    ⊎ ((code ≡ 503) × (text ≡ service_not_ready) × (s ≡ (false, none)))
IsJustified s p (proxied q) = (q ≡ p) × (s ≡ (true, none))
IsJustified s p panic = ⊥
IsJustified s p exhausted = ⊥

hook-Below : (bound : ℕ) (h : Handler) → Known bound h → All (Below bound) (hook h)
hook-Below bound none k = tt
hook-Below bound (some a) k = (k, tt)

append-All :
    (bound : ℕ) (h : Handler) (ys : List Handler)
    → Known bound h
    → All (Below bound) ys
    → All (Below bound) (hook h ++ ys)
append-All bound none ys k h = h
append-All bound (some a) ys k h = (k, h)

pub hooks-Below :
    (bound : ℕ) (up : Bool) (svc : Service) (p : Passthru)
    → IsReady bound svc p
    → All (Below bound) (hooks up svc)
hooks-Below bound true svc p r =
    append-All bound svc.always (hook svc.on_up) r.always (hook-Below bound svc.on_up r.on_up)
hooks-Below bound false svc p r =
    append-All bound svc.always (hook svc.on_down) r.always (hook-Below bound svc.on_down r.on_down)

answer-IsJustified :
    (up : Bool) (svc : Service) (p : Passthru) (n : Net)
    → svc.passthru ≡ some p
    → IsJustified (up, none) p (answer up svc n).0
answer-IsJustified true svc p n e = rw e (refl, refl)
answer-IsJustified false svc p n e = inr (refl, refl, refl)

finish-IsJustified :
    (c : Call × World) (error : Option Error) (n : Net) (up : Bool) (svc : Service) (p : Passthru)
    → c.0 ≡ returned error
    → svc.passthru ≡ some p
    → IsJustified (up, none) p (finish c n (answer up svc)).0
finish-IsJustified c none n up svc p q e =
    rw q (answer-IsJustified up svc p (record n { world = c.1 }) e)
finish-IsJustified c (some x) n up svc p q e = rw q (inl (refl, refl))

module _ (e : NetEnv) where
  respond-IsJustified :
      (fuel : ℕ) (s : Bool × Option Error) (svc : Service) (p : Passthru) (n : Net)
      → IsOrdered n.world.objects
      → length n.world.objects ≤ fuel
      → IsReady (length n.world.objects) svc p
      → IsJustified s p (respond e fuel s svc n).0
  unfolding respond
  respond-IsJustified fuel (up, some x) svc p n o l r = inl (refl, refl)
  respond-IsJustified fuel (up, none) svc p n o l r =
      let ends =
        triggers-Ends e.env fuel (length n.world.objects) (hooks up svc) n.world
          (hooks-Below (length n.world.objects) up svc p r) o (omega arith) l in
      finish-IsJustified (fire e fuel (hooks up svc) n.world) ends.error n up svc p ends.is_returned
        r.proxy

  -- A status call keeps the triggers, the proxy and the store.
  pub record Kept (svc : Service) (n : Net) (r : (Bool × Option Error) × Service × Net)
      : Type 0 where
    pub always : r.1.always ≡ svc.always
    pub on_up : r.1.on_up ≡ svc.on_up
    pub on_down : r.1.on_down ≡ svc.on_down
    pub passthru : r.1.passthru ≡ svc.passthru
    pub objects : r.2.world.objects ≡ n.world.objects

  pub status-Kept : (svc : Service) (n : Net) → Kept svc n (status e svc n)
  unfolding status reprobe
  status-Kept svc n = ground arith

  pub status-IsReady :
      (svc : Service) (p : Passthru) (n : Net)
      → IsReady (length n.world.objects) svc p
      → IsReady (length n.world.objects) (status e svc n).1 p
  status-IsReady svc p n r =
      let k = status-Kept svc n in
      record {
        always = rw k.always r.always;
        on_up = rw k.on_up r.on_up;
        on_down = rw k.on_down r.on_down;
        proxy = rw k.passthru r.proxy;
      }

  -- A ready service answers every request.
  pub filter_request-IsJustified :
      (fuel : ℕ) (svc : Service) (p : Passthru) (n : Net)
      → IsOrdered n.world.objects
      → length n.world.objects ≤ fuel
      → IsReady (length n.world.objects) svc p
      → IsJustified (status e svc n).0 p (filter_request e fuel svc n).0
  filter_request-IsJustified fuel svc p n o l r =
      let k = status-Kept svc n in
      rw (filter_request-eq-respond e fuel svc n) (
        respond-IsJustified fuel (status e svc n).0 (status e svc n).1 p (status e svc n).2
          (rw k.objects o) (rw k.objects l) (rw k.objects (status-IsReady svc p n r)))

-- The reply to a request, by whether the service is up and the error of its triggers.
abbrev pub reply_to : Bool → Option Error → Passthru → Reply
reply_to up (some x) p = page 500 internal_server_error
reply_to true none p = proxied p
reply_to false none p = page 503 service_not_ready

finish-reply_to :
    (c : Call × World) (error : Option Error) (n : Net) (up : Bool) (svc : Service) (p : Passthru)
    → c.0 ≡ returned error
    → svc.passthru ≡ some p
    → ((finish c n (answer up svc)).0 ≡ reply_to up error p)
      × ((finish c n (answer up svc)).1.world ≡ c.1)
finish-reply_to c (some x) n up svc p q e = rw q (refl, refl)
finish-reply_to c none n true svc p q e = rw (q, e) (refl, refl)
finish-reply_to c none n false svc p q e = rw q (refl, refl)

module _ (e : NetEnv) (fuel : ℕ) where
  -- The triggers, called one after the other: each returns without error, or the first error among
  -- theirs ends the calls.
  abbrev pub Ran : List Handler → World → Option Error → World → Type 0
  Ran hs w none w' = AllReturn e.env (trigger e.env fuel) hs w w'
  Ran hs w (some x) w' = FailedAt e.env (trigger e.env fuel) hs w x w'

  -- What a status decides: with an error, the server's error page, and no trigger is called; without
  -- one, the triggers for it are called, and their error or the status decides.
  abbrev pub Decides : Bool × Option Error → Service → Passthru → World → Reply → World → Type 0
  Decides (up, some x) svc p w r w' = (r ≡ page 500 internal_server_error) × (w' ≡ w)
  Decides (up, none) svc p w r w' =
      (error : Option Error) × Ran (hooks up svc) w error w' × (r ≡ reply_to up error p)

  fire-Ran :
      (hs : List Handler) (w : World) (error : Option Error)
      → (fire e fuel hs w).0 ≡ returned error
      → Ran hs w error (fire e fuel hs w).1
  fire-Ran hs w none q =
      compound_clean e.env (trigger e.env fuel) hs w (fire e fuel hs w).1
        (ap (λ (c : Call). (c, (fire e fuel hs w).1)) q)
  fire-Ran hs w (some x) q =
      compound_error e.env (trigger e.env fuel) hs w (fire e fuel hs w).1 x
        (ap (λ (c : Call). (c, (fire e fuel hs w).1)) q)

  respond-Decides :
      (s : Bool × Option Error) (svc : Service) (p : Passthru) (n : Net)
      → IsOrdered n.world.objects
      → length n.world.objects ≤ fuel
      → IsReady (length n.world.objects) svc p
      → Decides s svc p n.world (respond e fuel s svc n).0 (respond e fuel s svc n).1.world
  unfolding respond
  respond-Decides (up, some x) svc p n o l r = (refl, refl)
  respond-Decides (up, none) svc p n o l r =
      let hs = hooks up svc in
      let ends =
        triggers-Ends e.env fuel (length n.world.objects) hs n.world
          (hooks-Below (length n.world.objects) up svc p r) o (omega arith) l in
      let (reply, world) =
        finish-reply_to (fire e fuel hs n.world) ends.error n up svc p ends.is_returned r.proxy in
      (ends.error, rw world (fire-Ran hs n.world ends.error ends.is_returned), reply)

  -- On a store without nil handlers and cycles, with fuel for its objects, a ready service answers
  -- every request as its status decides. A status error gets the server's error page, and no trigger
  -- is called. Otherwise the trigger for every request and then the one for the status are called; the
  -- first error of theirs ends the calls and gets the server's error page; without one the request is
  -- forwarded if the service is up, and gets the not-ready page if it is down.
  pub filter_request-Decides :
      (svc : Service) (p : Passthru) (n : Net)
      → IsOrdered n.world.objects
      → length n.world.objects ≤ fuel
      → IsReady (length n.world.objects) svc p
      → Decides
          (status e svc n).0
          (status e svc n).1
          p
          (status e svc n).2.world
          (filter_request e fuel svc n).0
          (filter_request e fuel svc n).2.world
  filter_request-Decides svc p n o l r =
      let k = status-Kept e svc n in
      rw (filter_request-eq-respond e fuel svc n) (
        respond-Decides (status e svc n).0 (status e svc n).1 p (status e svc n).2 (rw k.objects o)
          (rw k.objects l) (rw k.objects (status-IsReady e svc p n r)))
