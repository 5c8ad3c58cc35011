-- ===== src/Program/Placed.antt =====
-- The objects that a configuration makes point to objects made before them, and nothing dangles.
use mathlib.Core.List.{append-nil, append_assoc}
use mathlib.Core.Path.{subst}
use pullcord.Base.{
  ℕ, ◌≤◌, ◌<◌, ◌≡◌, sym, ap, ◌∙◌, Option, none, some, List, [], ◌++◌, length, length-append, All,
  AllAt, append-AllAt_first, map-AllAt, map-All, entries, arith,
}
use pullcord.Config.Resource.{
  Unmarshaled, nil, trigger, filter, router, session_handler, password_checker, plain,
}
use pullcord.Config.Build.Sound.{Keeping}
use pullcord.Trigger.Handler.{Object, shell, compound, ratelimit, foreign}
use pullcord.Trigger.Definitions.{DelayTrigger}
use pullcord.Trigger.Handler.Store.{Below}
use pullcord.Monitor.Service.Outcome.{Known}
use pullcord.Util.Router.{ExactPathRouter}
use pullcord.Gateway.{
  Filter, standard_response, landing, passthru, service, login, cookiemask, conditional,
}
use pullcord.Program.Store.{Store}

-- The filter at `a` calls filters before it, and its triggers, session handler and password checker
-- are in the store.
abbrev pub Leads : Store → ℕ → Filter → Type 0
Leads s a (standard_response t) = Unit
Leads s a landing = Unit
Leads s a (passthru p) = Unit
Leads s a (service svc) =
    Known (length s.objects) svc.on_down
    × Known (length s.objects) svc.on_up
    × Known (length s.objects) svc.always
Leads s a (login i c d) = c < length s.checkers × d < a
Leads s a (cookiemask h m) = h < length s.handlers × m < a
Leads s a (conditional t x y z) = x < a × y < a × z < a

-- The trigger at `a` calls triggers before it, but for the nil handlers of a compound one.
abbrev pub Calls : Store → ℕ → Object → Type 0
Calls s a (shell command args) = Unit
Calls s a (compound ts) = All (Known a) ts
Calls s a (ratelimit r) = Below a r.guarded_trigger
Calls s a (foreign i) = i < length s.delays

abbrev pub Waits : Store → ℕ → DelayTrigger → Type 0
Waits s i d = Known (length s.objects) d.delayed_trigger

abbrev pub Routes : Store → ℕ → ExactPathRouter → Type 0
Routes s i r = All (λ p. p.1 < length s.filters) (entries r.routes)

pub record IsPlaced (s : Store) : Type 0 where
  pub filters : AllAt (Leads s) 0 s.filters
  pub objects : AllAt (Calls s) 0 s.objects
  pub delays : AllAt (Waits s) 0 s.delays
  pub routers : AllAt (Routes s) 0 s.routers

-- What a store has made since: nothing that was there has changed.
abbrev pub Since : {A : Type 0} → List A → List A → Type 0
Since {A} xs ys = (new : List A) × (ys ≡ xs ++ new)

pub record Grows (s t : Store) : Type 0 where
  pub filters : Since s.filters t.filters
  pub routers : Since s.routers t.routers
  pub handlers : Since s.handlers t.handlers
  pub checkers : Since s.checkers t.checkers
  pub objects : Since s.objects t.objects
  pub delays : Since s.delays t.delays

module _ {A : Type 0} where
  abbrev pub Since-refl : (xs : List A) → Since xs xs
  Since-refl xs = ([], sym (append-nil xs))

  Since-trans : (xs ys zs : List A) → Since xs ys → Since ys zs → Since xs zs
  Since-trans xs ys zs (new, e) (newer, f) =
      (new ++ newer, f ∙ ap (λ l. l ++ newer) e ∙ append_assoc xs new newer)

  length-Since : (xs ys : List A) → Since xs ys → length xs ≤ length ys
  length-Since xs ys (new, e) = omega (arith, length-append xs new, ap length e)

pub Grows-refl : (s : Store) → Grows s s
Grows-refl s = record {
  filters = Since-refl s.filters;
  routers = Since-refl s.routers;
  handlers = Since-refl s.handlers;
  checkers = Since-refl s.checkers;
  objects = Since-refl s.objects;
  delays = Since-refl s.delays;
}

pub Grows-trans : (s t u : Store) → Grows s t → Grows t u → Grows s u
Grows-trans s t u g h = record {
  filters = Since-trans _ _ _ g.filters h.filters;
  routers = Since-trans _ _ _ g.routers h.routers;
  handlers = Since-trans _ _ _ g.handlers h.handlers;
  checkers = Since-trans _ _ _ g.checkers h.checkers;
  objects = Since-trans _ _ _ g.objects h.objects;
  delays = Since-trans _ _ _ g.delays h.delays;
}

pub Known-mono : (m n : ℕ) (h : Option ℕ) → m ≤ n → Known m h → Known n h
Known-mono m n none l k = tt
Known-mono m n (some a) l k = omega arith

module _ (s t : Store) (g : Grows s t) where
  pub Leads-Grows : (a : ℕ) (f : Filter) → Leads s a f → Leads t a f
  Leads-Grows a (standard_response r) h = tt
  Leads-Grows a landing h = tt
  Leads-Grows a (passthru p) h = tt
  Leads-Grows a (service svc) (down, up, always) =
      let l = length-Since s.objects t.objects g.objects in
      (
        Known-mono _ _ svc.on_down l down,
        Known-mono _ _ svc.on_up l up,
        Known-mono _ _ svc.always l always,
      )
  Leads-Grows a (login i c d) (k, l) =
      (omega (arith, k, length-Since s.checkers t.checkers g.checkers), l)
  Leads-Grows a (cookiemask h m) (k, l) =
      (omega (arith, k, length-Since s.handlers t.handlers g.handlers), l)
  Leads-Grows a (conditional b x y z) h = h

  pub Calls-Grows : (a : ℕ) (o : Object) → Calls s a o → Calls t a o
  Calls-Grows a (shell command args) h = tt
  Calls-Grows a (compound ts) h = h
  Calls-Grows a (ratelimit r) h = h
  Calls-Grows a (foreign i) h = omega (arith, h, length-Since s.delays t.delays g.delays)

  pub Waits-Grows : (i : ℕ) (d : DelayTrigger) → Waits s i d → Waits t i d
  Waits-Grows i d =
      Known-mono (length s.objects) (length t.objects) d.delayed_trigger
        (length-Since s.objects t.objects g.objects)

  -- A store that has grown is placed if what is new in it is.
  pub grown-IsPlaced :
      IsPlaced s
      → AllAt (Leads t) (length s.filters) g.filters.0
      → AllAt (Calls t) (length s.objects) g.objects.0
      → AllAt (Waits t) (length s.delays) g.delays.0
      → AllAt (Routes t) (length s.routers) g.routers.0
      → IsPlaced t
  grown-IsPlaced p f o d r = record {
    filters = subst (AllAt (Leads t) 0) (sym g.filters.1) (
        append-AllAt_first (Leads t) s.filters g.filters.0
          (map-AllAt (Leads s) (Leads t) Leads-Grows 0 s.filters p.filters) f);
    objects = subst (AllAt (Calls t) 0) (sym g.objects.1) (
        append-AllAt_first (Calls t) s.objects g.objects.0
          (map-AllAt (Calls s) (Calls t) Calls-Grows 0 s.objects p.objects) o);
    delays = subst (AllAt (Waits t) 0) (sym g.delays.1) (
        append-AllAt_first (Waits t) s.delays g.delays.0
          (map-AllAt (Waits s) (Waits t) Waits-Grows 0 s.delays p.delays) d);
    routers = subst (AllAt (Routes t) 0) (sym g.routers.1) (
        append-AllAt_first (Routes t) s.routers g.routers.0
          (map-AllAt (Routes s) (Routes t)
            (λ i x.
              map-All (λ p. p.1 < length s.filters) (λ p. p.1 < length t.filters)
                (λ p l. omega (arith, l, length-Since s.filters t.filters g.filters))
                (entries x.routes))
            0 s.routers p.routers)
          r);
  }

-- A resource that is in the store.
abbrev pub Valid : Store → Unmarshaled → Type 0
Valid s nil = Unit
Valid s (trigger a) = a < length s.objects
Valid s (filter a) = a < length s.filters
Valid s (router a) = a < length s.routers
Valid s (session_handler a) = a < length s.handlers
Valid s (password_checker a) = a < length s.checkers
Valid s (plain a) = ⊥

pub Valid-Grows : (s t : Store) (u : Unmarshaled) → Grows s t → Valid s u → Valid t u
Valid-Grows s t nil g v = tt
Valid-Grows s t (trigger a) g v = omega (arith, v, length-Since s.objects t.objects g.objects)
Valid-Grows s t (filter a) g v = omega (arith, v, length-Since s.filters t.filters g.filters)
Valid-Grows s t (router a) g v = omega (arith, v, length-Since s.routers t.routers g.routers)
Valid-Grows s t (session_handler a) g v =
    omega (arith, v, length-Since s.handlers t.handlers g.handlers)
Valid-Grows s t (password_checker a) g v =
    omega (arith, v, length-Since s.checkers t.checkers g.checkers)
Valid-Grows s t (plain a) g v = elim v [ ]

abbrev pub placing : Keeping Store
placing = record {
  holds = IsPlaced;
  grows = Grows;
  valid = Valid;
  grows_refl = Grows-refl;
  grows_trans = Grows-trans;
  valid_nil = λ s. tt;
  valid_grows = Valid-Grows;
}
