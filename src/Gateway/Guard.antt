-- ===== src/Gateway/Guard.antt =====
-- The filters together: filters behind a login, and what requests without good credentials do.
use pullcord.Base.{
  ℕ, ◌+◌, true, ◌≡◌, ◌≢◌, refl, ◌∙◌, ◌⊎◌, inl, inr, some, List, [], ◌∷◌, String, get_elem?,
}
use pullcord.Authentication.Session.{Cookie, Handler, Rand, bool, string}
use pullcord.Authentication.Session.Values.{set_value-Each}
use pullcord.Authentication.Login
use pullcord.Authentication.Login.{session, auth_key, xsrf_key}
use pullcord.Authentication.Login.Keys.{
  min_session, min_session-SessionLaws, xsrf_key-ne-auth_key, auth_key_injective,
}
use pullcord.Authentication.Login.State.{Admissible, filter_request-IsLeft}
use pullcord.Authentication.CookieFilter.{add_cookies}
use pullcord.Authentication.CookieFilter.Flags.{IsUnset, NoFlag, login-NoFlag, downstream-NoFlag}
use pullcord.Gateway.{
  Filter, standard_response, landing, passthru, service, login, cookiemask, conditional, Request,
  State, Env, html, login_page, service_page, proxied, Reply, response, as_served, of_masked,
  set_handler, standard_page, after_login, login_request,
}
use pullcord.Gateway.Mask.{EachOf, set_handler-EachOf}

-- A reply of the program's own: no answer of an upstream server, and no page of a service.
abbrev pub IsOwn : Reply → Type 0
IsOwn (response (html status text) cookies) = Unit
IsOwn (response (login_page x y z t) cookies) = Unit
IsOwn (response (service_page status p) cookies) = ⊥
IsOwn (response (proxied p) cookies) = ⊥
IsOwn Reply.no_response = Unit
IsOwn Reply.masking_panicked = Unit
IsOwn Reply.masking_out_of_fuel = Unit
IsOwn Reply.panicked = Unit
IsOwn Reply.out_of_fuel = Unit

pub masked-IsOwn :
    (r : Reply) (cookies : List Cookie)
    → IsOwn r
    → IsOwn (of_masked (add_cookies (as_served r) cookies))
unfolding add_cookies
masked-IsOwn (response (html status text) inner) cookies h = tt
masked-IsOwn (response (login_page x y z t) inner) cookies h = tt
masked-IsOwn (response (service_page status p) inner) cookies h = h
masked-IsOwn (response (proxied p) inner) cookies h = h
masked-IsOwn Reply.no_response [] h = tt
masked-IsOwn Reply.no_response (c ∷ cs) h = tt
masked-IsOwn Reply.masking_panicked cookies h = tt
masked-IsOwn Reply.masking_out_of_fuel cookies h = tt
masked-IsOwn Reply.panicked cookies h = tt
masked-IsOwn Reply.out_of_fuel cookies h = tt

-- The filters with `P` reach a proxy or a service only through a login handler with this identifier
-- and a password checker with `C`, and no other login handler among them has that identifier.
abbrev pub Guarded : String → (ℕ → Type 0) → (ℕ → Type 0) → Filter → Type 0
Guarded i C P (standard_response t) = Unit
Guarded i C P landing = Unit
Guarded i C P (passthru p) = ⊥
Guarded i C P (service svc) = ⊥
Guarded i C P (login j k d) = ((i ≡ j) × C k) ⊎ ((j ≢ i) × P d)
Guarded i C P (cookiemask h m) = P m
Guarded i C P (conditional test x y z) = P x × P y × P z

pub record IsGuard (i : String) (C P : ℕ → Type 0) (filters : List Filter) : Type 0 where
  pub guarded : (a : ℕ) (f : Filter) → P a → get_elem? filters a ≡ some f → Guarded i C P f

module _ (env : Env) (i : String) (C : ℕ → Type 0) where
  -- No session has the flag, the services and what they see are untouched, and the reply is the
  -- program's own.
  pub record Unmoved (s : State) (x : Reply × State) : Type 0 where
    pub unset : EachOf (IsUnset i) x.1
    pub filters : x.1.filters ≡ s.filters
    pub net : x.1.net ≡ s.net
    pub own : IsOwn x.0

  abbrev pub Good : Request → Type 0
  Good req = (c : ℕ) × C c × Admissible (env.check_password c) i req.form

  abbrev pub Held : Request → State → Reply × State → Type 0
  Held req s x = Unmoved s x ⊎ Good req

  pub Held-from :
      (req : Request) (s s' : State) (x : Reply × State)
      → s'.filters ≡ s.filters
      → s'.net ≡ s.net
      → Held req s' x
      → Held req s x
  Held-from req s s' x e n (inl u) =
      inl (record { unset = u.unset; filters = u.filters ∙ e; net = u.net ∙ n; own = u.own })
  Held-from req s s' x e n (inr g) = inr g

  pub still :
      (req : Request) (s : State) (r : Reply) → IsOwn r → EachOf (IsUnset i) s → Held req s (r, s)
  still req s r own w = inl (record { unset = w; filters = refl; net = refl; own = own })

  module _ (P : ℕ → Type 0) where
    abbrev pub NextHolds : (ℕ → Request → State → Reply × State) → Type 0
    NextHolds next =
        (b : ℕ) (req : Request) (s : State)
        → P b
        → IsGuard i C P s.filters
        → EachOf (IsUnset i) s
        → Held req s (next b req s)

    -- The guarding login handler: a reply other than the downstream filter's is its own.
    guard_reply :
        (next : ℕ → Request → State → Reply × State) (d : ℕ) (req : Request) (r : Login.Reply)
        (s : State)
        → (r ≡ Login.Reply.downstream → Good req)
        → EachOf (IsUnset i) s
        → Held req s (after_login env next i d req r s)
    unfolding standard_page
    guard_reply next d req Login.Reply.downstream s g w = inr (g refl)
    guard_reply next d req Login.Reply.internal_server_error s g w = still req s _ tt w
    guard_reply next d req (Login.Reply.login_page x y z) s g w = still req s _ tt w
    guard_reply next d req Login.Reply.panicked s g w = still req s _ tt w

    pub guard-Held :
        (next : ℕ → Request → State → Reply × State) (c d : ℕ) (req : Request) (h b : ℕ) (s : State)
        → C c
        → EachOf (IsUnset i) s
        → Held req s (login_request env next i c d req (h, b) s)
    unfolding login_request
    guard-Held next c d req h b s hc w =
        let lreq : Login.Request = record { context = session; form = req.form; path = req.path } in
        let rand = env.lib.read s.reads 64 in
        let (r, h') =
          Login.filter_request (min_session b) (env.check_password c) i rand lreq (s.handlers h) in
        let s' = record (set_handler h h' s) { reads = s.reads + 1 } in
        elim (login-NoFlag i (env.check_password c) b rand lreq (s.handlers h) (w h)) [
          | inr good ↦ inr (c, hc, good)
          | inl unset ↦ Held-from req s s' (after_login env next i d req r s') refl refl (
              guard_reply next d req r s'
                (λ e. (
                  c,
                  hc,
                  downstream-NoFlag i (env.check_password c) b rand lreq (s.handlers h) (w h) e,
                ))
                (set_handler-EachOf (IsUnset i) h h' s w unset))
        ]

    -- Another login handler.
    other_unset :
        (j : String) (k b : ℕ) (rand : Rand) (req : Login.Request) (h : Handler)
        → j ≢ i
        → NoFlag i h
        → NoFlag i (Login.filter_request (min_session b) (env.check_password k) j rand req h).1
    other_unset j k b rand req h ne w =
        elim (filter_request-IsLeft (min_session b) (min_session-SessionLaws b)
          (env.check_password k) j h rand req) [
            | inl same ↦ rw same w
            | inr (inl (set, good)) ↦ rw set (
                set_value-Each (IsUnset i) b (auth_key j) (bool true) h w
                  (λ e. absurd (ne (auth_key_injective j i e))))
            | inr (inr (t, set)) ↦ rw set (
                set_value-Each (IsUnset i) b (xsrf_key j) (string t) h w
                  (λ e. absurd (xsrf_key-ne-auth_key j i e)))
          ]

    other_reply :
        (next : ℕ → Request → State → Reply × State) (j : String) (d : ℕ) (req : Request)
        (r : Login.Reply) (s : State)
        → NextHolds next
        → P d
        → IsGuard i C P s.filters
        → EachOf (IsUnset i) s
        → Held req s (after_login env next j d req r s)
    unfolding standard_page
    other_reply next j d req Login.Reply.downstream s ih p g w = ih d req s p g w
    other_reply next j d req Login.Reply.internal_server_error s ih p g w = still req s _ tt w
    other_reply next j d req (Login.Reply.login_page x y z) s ih p g w = still req s _ tt w
    other_reply next j d req Login.Reply.panicked s ih p g w = still req s _ tt w

    pub other-Held :
        (next : ℕ → Request → State → Reply × State) (j : String) (k d : ℕ) (req : Request)
        (h b : ℕ) (s : State)
        → NextHolds next
        → j ≢ i
        → P d
        → IsGuard i C P s.filters
        → EachOf (IsUnset i) s
        → Held req s (login_request env next j k d req (h, b) s)
    unfolding login_request
    other-Held next j k d req h b s ih ne p g w =
        let lreq : Login.Request = record { context = session; form = req.form; path = req.path } in
        let rand = env.lib.read s.reads 64 in
        let (r, h') =
          Login.filter_request (min_session b) (env.check_password k) j rand lreq (s.handlers h) in
        let s' = record (set_handler h h' s) { reads = s.reads + 1 } in
        Held-from req s s' (after_login env next j d req r s') refl refl (
          other_reply next j d req r s' ih p g (
            set_handler-EachOf (IsUnset i) h h' s w
              (other_unset j k b rand lreq (s.handlers h) ne (w h))))
