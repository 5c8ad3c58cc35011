-- ===== src/Authentication/CookieFilter/Lasting.antt =====
-- authentication/cookiemask.go, minsession.go and login_handler.go together: requests after a login.
use pullcord.Base.{
  ℕ, true, ◌≡◌, refl, sym, ap, ◌∙◌, inl, inr, Option, none, some, [], ◌∷◌, String, Error, eq_iff,
  arith,
}
use pullcord.Authentication.Session.{
  Value, bool, Cookie, Handler, Library, Rand, Masked, get_session, get_value, adopt,
}
use pullcord.Authentication.Session.Allocation.{IsAllocated}
use pullcord.Authentication.Session.Revisit.{Opens, mask_one, adopted_values, get_session-Opens}
use pullcord.Authentication.Login
use pullcord.Authentication.Login.{
  Got, got, SessionOps, Context, session, Form, Request, downstream, auth_key,
}
use pullcord.Authentication.Login.Keys.{SessionLaws, min_session, min_session-SessionLaws}
use pullcord.Authentication.Login.Access.{
  IsLetThrough, filter_request-downstream_iff, try_login-Grant,
}
use pullcord.Authentication.CookieFilter.{
  Served, served, nothing, panicked, Reply, response, filter_request, min_handler, add_cookies,
  as_served, masked_login, as_outcome,
}
use pullcord.Authentication.CookieFilter
use pullcord.Authentication.CookieFilter.Sharing.{Shares, masked-Shares, login-Shares}

module _ {S : Type 0} (ops : SessionOps S) (laws : SessionLaws ops)
    (checker : String → String → Option Error) (i : String) (s : S) where
  flag_by_way :
      (rand : Rand) (req : Request)
      → req.context ≡ session
      → IsLetThrough ops checker i s req.form
      → ops.get_value (Login.filter_request ops checker i rand req s).1 (auth_key i)
        ≡ got (bool true)
  unfolding Login.filter_request
  flag_by_way rand req c (inl known) = rw (c, Login.filter_request, known) known
  flag_by_way rand req c (inr (new, g)) =
      rw (c, Login.filter_request, new, try_login-Grant ops checker i s req.form g)
        (ground (
          arith,
          laws.get-set s (auth_key i) (auth_key i) (bool true),
          eq_iff (auth_key i) (auth_key i),
        ))

  -- A request that is let through leaves the flag set.
  downstream_flag :
      (rand : Rand) (req : Request)
      → (Login.filter_request ops checker i rand req s).0 ≡ downstream
      → ops.get_value (Login.filter_request ops checker i rand req s).1 (auth_key i)
        ≡ got (bool true)
  downstream_flag rand req e =
      let (c, way) = (filter_request-downstream_iff ops checker i s rand req).0 e in
      flag_by_way rand req c way

-- What the filter does with a request that brings the cookie of an established session.
unfoldable pub login_of :
    Handler → ℕ → (String → String → Option Error) → String → Rand → Request → Login.Reply × Handler
login_of h a checker i rand req =
    Login.filter_request (min_session (get_session h).0) checker i rand req
      (adopt (get_session h).0 a (get_session h).1)

module _ (lib : Library) (fuel : ℕ) (checker : String → String → Option Error) (i : String) where
  -- The filter, once `CookieMask` has returned.
  abbrev pub after_mask :
      ℕ → Rand → Form → String → Masked × Handler × ℕ → Reply Login.Reply × (Handler × ℕ)
  after_mask b rand form path x = elim (as_outcome x.0) [
    | CookieFilter.Outcome.panicked ↦ (Reply.masking_panicked, (x.1, x.2))
    | CookieFilter.Outcome.out_of_fuel ↦ (Reply.masking_out_of_fuel, (x.1, x.2))
    | CookieFilter.Outcome.outcome f set err ↦ elim err [
      | some e ↦ (Reply.internal_server_error set, (x.1, x.2))
      | none ↦
          let (r, s) = masked_login checker i rand form path b f (x.1, x.2) in
          (add_cookies r set, s)
    ]
  ]

  pub filter_one :
      (a : ℕ) (c : Cookie) (h : Handler) (k : ℕ) (rand : Rand) (form : Form) (path : String)
      → IsAllocated h
      → Opens lib h a c
      → filter_request
          (min_handler lib fuel)
          (masked_login checker i rand form path)
          (c ∷ [])
          (h, k)
        ≡ (let (r, h') =
              login_of h a checker i rand
                (record { context = session; form = form; path = path }) in
            (add_cookies (as_served r) [], (h', k)))
  unfolding filter_request min_handler login_of
  filter_one a c h k rand form path v o =
      let b = (get_session h).0 in
      ap (λ (x : Masked × Handler × ℕ). after_mask b rand form path x)
        (mask_one lib fuel a b c (get_session h).1 k (get_session-Opens lib h a c v o))

  served_downstream :
      (r : Login.Reply) → add_cookies (as_served r) [] ≡ response downstream [] → r ≡ downstream
  unfolding add_cookies
  served_downstream downstream e = refl
  served_downstream Login.Reply.internal_server_error e = absurd (cc)
  served_downstream (Login.Reply.login_page x y z) e = absurd (cc)
  served_downstream Login.Reply.panicked e = absurd (cc)

  -- The flag that a request leaves is what the established session reads.
  established_flag :
      (a b : ℕ) (c : Cookie) (h : Handler)
      → Shares lib h a b c
      → get_value a (auth_key i) h ≡ get_value b (auth_key i) h
  unfolding get_value
  established_flag a b c h s = rw s.same_core refl

  flag_value :
      (b : ℕ) (h : Handler)
      → (min_session b).get_value h (auth_key i) ≡ got (bool true)
      → get_value b (auth_key i) h ≡ some (bool true)
  flag_value b h e = by_value (get_value b (auth_key i) h) refl
    where
      by_value : (o : Option Value) → get_value b (auth_key i) h ≡ o → o ≡ some (bool true)
      by_value none q = absurd (cc (rw (min_session, q) at e))
      by_value (some v) q = ap (λ (x : Value). some x) (cc (rw (min_session, q) at e))

  -- A session whose flag is set lets a request through that brings its cookie.
  let_in_by_flag :
      (a : ℕ) (c : Cookie) (h : Handler) (k : ℕ) (rand : Rand) (form : Form) (path : String)
      → IsAllocated h
      → Opens lib h a c
      → get_value a (auth_key i) h ≡ some (bool true)
      → (filter_request
          (min_handler lib fuel)
          (masked_login checker i rand form path)
          (c ∷ [])
          (h, k)).0
        ≡ response downstream []
  unfolding login_of add_cookies
  let_in_by_flag a c h k rand form path v o flag =
      let b = (get_session h).0 in
      let h₂ = adopt b a (get_session h).1 in
      let req : Request = record { context = session; form = form; path = path } in
      let known : get_value b (auth_key i) h₂ ≡ some (bool true) =
        adopted_values h a (auth_key i) v (v.listed c.name a o.listed) ∙ flag in
      let through =
        (filter_request-downstream_iff (min_session b) checker i h₂ rand req).1
          (refl, inl (rw (min_session, known) refl)) in
      rw (filter_one a c h k rand form path v o, through) refl

  -- A login lasts: after a request with the cookie of an established session was let through to the
  -- masked login handler's downstream filter, so is the next request with that cookie,
  -- whatever its form and path and the random bytes. Both are let through without a new cookie.
  pub login_lasts :
      (a : ℕ) (c : Cookie) (h : Handler) (k : ℕ) (rand rand' : Rand) (form form' : Form)
      (path path' : String) (s : Handler × ℕ)
      → IsAllocated h
      → Opens lib h a c
      → filter_request
          (min_handler lib fuel)
          (masked_login checker i rand form path)
          (c ∷ [])
          (h, k)
        ≡ (response downstream [], s)
      → (filter_request
          (min_handler lib fuel)
          (masked_login checker i rand' form' path')
          (c ∷ [])
          s).0
        ≡ response downstream []
  unfolding login_of
  login_lasts a c h k rand rand' form form' path path' s v o e =
      let b = (get_session h).0 in
      let h₂ = adopt b a (get_session h).1 in
      let req : Request = record { context = session; form = form; path = path } in
      let out = Login.filter_request (min_session b) checker i rand req h₂ in
      let same = sym (filter_one a c h k rand form path v o) ∙ e in
      let through : out.0 ≡ downstream =
        served_downstream out.0 (ap (λ (x : Reply Login.Reply × (Handler × ℕ)). x.0) same) in
      let left : (out.1, k) ≡ s = ap (λ (x : Reply Login.Reply × (Handler × ℕ)). x.1) same in
      let shared =
        login-Shares lib h₂ a b c checker i rand req (masked-Shares lib fuel a c h k v o) in
      let flag =
        established_flag a b c out.1 shared
        ∙ flag_value b out.1 (
            downstream_flag (min_session b) (min_session-SessionLaws b) checker i h₂ rand req
              through) in
      rw (← left) (let_in_by_flag a c out.1 k rand' form' path' shared.allocated shared.opens flag)
