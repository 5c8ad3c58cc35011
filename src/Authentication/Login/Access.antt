-- ===== src/Authentication/Login/Access.antt =====
-- authentication/login_handler.go: who is let through to the downstream filter.
use text.Mathlib.Text.{◌==◌ as str_eq}
use pullcord.Base.{
  Bool, true, false, ◌≡◌, ◌↔◌, ◌⊎◌, ◌≢◌, refl, sym, ap, ◌∙◌, inl, inr, Option, none, some, List, [],
  ◌∷◌, String, Map, lookup, Error, no_such_session_value, Option-cases, Bool-cases, if◌then◌else◌,
  eq_iff, arith,
}
use pullcord.Authentication.Session.{Value, bool, string, opaque, Rand, bytes, unreadable}
use pullcord.Authentication.Login.{
  Got, got, missing, SessionOps, Context, absent, not_session, session, Form, bad_form, posted,
  Request, Reply, downstream, auth_key, xsrf_key, username_key, password_key,
  is_no_such_session_value, Step, show_login, reply_now, try_password, try_credentials, try_token,
  try_login, login_form, finish, filter_request,
}

no_such_of_test : (x : Error) → is_no_such_session_value x ≡ true → x ≡ no_such_session_value
no_such_of_test x h = ground arith

module _ (checker : String → String → Option Error) (identifier : String) where
  -- The form carries one user name and one password, which the checker accepts.
  pub record Credentials (form : Map (List String)) : Type 0 where
    pub user : String
    pub pass : String
    pub has_user : lookup (username_key identifier) form ≡ some (user ∷ [])
    pub has_pass : lookup (password_key identifier) form ≡ some (pass ∷ [])
    pub accepted : checker user pass ≡ none

module _ {S : Type 0} (ops : SessionOps S) (checker : String → String → Option Error)
    (identifier : String) (s : S) where
  -- The session can record that the user is authenticated.
  abbrev pub CanRecord : Type 0
  CanRecord = (ops.set_value s (auth_key identifier) (bool true)).0 ≡ none

  -- The form carries the session's token, once, and good credentials.
  pub record Grant (form : Form) : Type 0 where
    pub fields : Map (List String)
    pub parsed : form ≡ posted fields
    pub token : String
    pub stored : ops.get_value s (xsrf_key identifier) ≡ got (string token)
    pub sent : lookup (xsrf_key identifier) fields ≡ some (token ∷ [])
    pub credentials : Credentials checker identifier fields
    pub recorded : CanRecord

  password_grants :
      (user pass : String) (s' : S)
      → try_password ops checker identifier user pass s ≡ reply_now downstream s'
      → (checker user pass ≡ none) × CanRecord
  unfolding try_password
  password_grants user pass s' e = (ground arith, ground arith)

  accepted_lists :
      (form : Map (List String)) (users passes : List String) (s' : S)
      → lookup (username_key identifier) form ≡ some users
      → lookup (password_key identifier) form ≡ some passes
      → try_credentials ops checker identifier form s ≡ reply_now downstream s'
      → Credentials checker identifier form × CanRecord
  unfolding try_credentials
  accepted_lists form (u ∷ []) (p ∷ []) s' q r e =
      let (a, c) = password_grants u p s' (rw (q, r, try_credentials) at e) in
      (record { user = u; pass = p; has_user = q; has_pass = r; accepted = a }, c)
  accepted_lists form [] passes s' q r e = absurd (ground arith)
  accepted_lists form (u ∷ []) [] s' q r e = absurd (ground arith)
  accepted_lists form (u ∷ []) (p ∷ p' ∷ ps) s' q r e = absurd (ground arith)
  accepted_lists form (u ∷ u' ∷ us) [] s' q r e = absurd (ground arith)
  accepted_lists form (u ∷ u' ∷ us) (p ∷ ps) s' q r e = absurd (ground arith)

  accepted_form :
      (form : Map (List String)) (s' : S)
      → try_credentials ops checker identifier form s ≡ reply_now downstream s'
      → Credentials checker identifier form × CanRecord
  unfolding try_credentials
  accepted_form form s' e = elim (Option-cases (lookup (username_key identifier) form)) [
    | inl no_user ↦ absurd (cc (rw (no_user, try_credentials) at e))
    | inr (users, q) ↦ elim (Option-cases (lookup (password_key identifier) form)) [
      | inl no_pass ↦ absurd (cc (rw (q, no_pass, try_credentials) at e))
      | inr (passes, r) ↦ accepted_lists form users passes s' q r e
    ]
  ]

  token_grants :
      (stored : Value) (form : Map (List String)) (received : List String) (s' : S)
      → try_token ops checker identifier stored form received s ≡ reply_now downstream s'
      → (t : String) × (stored ≡ string t)
        × (received ≡ t ∷ [])
        × (Credentials checker identifier form × CanRecord)
  unfolding try_token
  token_grants stored form [] s' e = absurd (cc)
  token_grants (bool b) form (x ∷ []) s' e = absurd (cc)
  token_grants (opaque i) form (x ∷ []) s' e = absurd (cc)
  token_grants stored form (x ∷ y ∷ more) s' e = absurd (cc)
  token_grants (string t) form (x ∷ []) s' e = elim (Bool-cases (str_eq t x)) [
    | inr other ↦ absurd (cc (rw (other, try_token) at e))
    | inl same ↦ (
      t,
      refl,
      ap (λ y. y ∷ []) (sym ((eq_iff t x).0 same)),
      accepted_form form s' (rw (same, try_token) at e),
    )
  ]

  received_grants :
      (stored : Value) (form : Form) (fields : Map (List String)) (received : Option (List String))
      (s' : S)
      → ops.get_value s (xsrf_key identifier) ≡ got stored
      → form ≡ posted fields
      → lookup (xsrf_key identifier) fields ≡ received
      → try_login ops checker identifier (posted fields) s ≡ reply_now downstream s'
      → Grant form
  unfolding try_login
  received_grants stored form fields none s' q p r e = absurd (cc (rw (q, try_login, r) at e))
  received_grants stored form fields (some received) s' q p r e =
      let (t, is_t, one, (good, c)) =
        token_grants stored fields received s' (rw (q, try_login, r) at e) in
      record {
        fields = fields;
        parsed = p;
        token = t;
        stored = q ∙ ap got is_t;
        sent = r ∙ ap some one;
        credentials = good;
        recorded = c;
      }

  pub login_grants :
      (form : Form) (g : Got) (s' : S)
      → ops.get_value s (xsrf_key identifier) ≡ g
      → try_login ops checker identifier form s ≡ reply_now downstream s'
      → Grant form
  unfolding try_login
  login_grants form (missing x) s' q e =
      absurd (by_error (is_no_such_session_value x) (rw (q, try_login) at e))
    where
      by_error :
          (b : Bool)
          → (if b then show_login "" else reply_now Reply.internal_server_error s)
            ≡ reply_now downstream s'
          → ⊥
      by_error true h = cc
      by_error false h = cc
  login_grants (bad_form x) (got stored) s' q e = absurd (cc (rw (q, try_login) at e))
  login_grants (posted fields) (got stored) s' q e =
      received_grants stored (posted fields) fields (lookup (xsrf_key identifier) fields) s' q refl
        refl e

  login_form-ne-downstream :
      (rand : Rand) (path error : String)
      → (login_form ops checker identifier rand path error s).0 ≢ downstream
  unfolding login_form
  login_form-ne-downstream (unreadable x) path error = ground arith
  login_form-ne-downstream (bytes raw) path error = ground arith

  finish_grants :
      (rand : Rand) (path : String) (form : Form) (step : Step S)
      → try_login ops checker identifier form s ≡ step
      → (finish ops checker identifier rand path step s).0 ≡ downstream
      → Grant form
  finish_grants rand path form (show_login error) q e =
      absurd (login_form-ne-downstream rand path error e)
  finish_grants rand path form (reply_now reply s') q e =
      login_grants form (ops.get_value s (xsrf_key identifier)) s' refl
        (q ∙ ap (λ (r : Reply). reply_now r s') e)

  -- Who is let through.
  abbrev pub IsLetThrough : Form → Type 0
  IsLetThrough form =
      (ops.get_value s (auth_key identifier) ≡ got (bool true))
      ⊎ ((ops.get_value s (auth_key identifier) ≡ missing no_such_session_value) × Grant form)

  by_status :
      (rand : Rand) (path : String) (form : Form) (g : Got)
      → ops.get_value s (auth_key identifier) ≡ g
      → (filter_request ops checker identifier rand
          (record { context = session; form = form; path = path })
          s).0
        ≡ downstream
      → IsLetThrough form
  unfolding filter_request
  by_status rand path form (got (bool true)) q e = inl q
  by_status rand path form (got (bool false)) q e = absurd (cc (rw (q, filter_request) at e))
  by_status rand path form (got (string x)) q e = absurd (cc (rw (q, filter_request) at e))
  by_status rand path form (got (opaque i)) q e = absurd (cc (rw (q, filter_request) at e))
  by_status rand path form (missing x) q e = elim (Bool-cases (is_no_such_session_value x)) [
    | inr other ↦ absurd (cc (rw (q, filter_request, other) at e))
    | inl same ↦ inr (
      q ∙ ap missing (no_such_of_test x same),
      finish_grants rand path form (try_login ops checker identifier form s) refl
          (rw (q, filter_request, same) at e),
    )
  ]

  by_context :
      (rand : Rand) (context : Context) (form : Form) (path : String)
      → (filter_request ops checker identifier rand
          (record { context = context; form = form; path = path })
          s).0
        ≡ downstream
      → (context ≡ session) × IsLetThrough form
  unfolding filter_request
  by_context rand absent form path e = absurd (cc)
  by_context rand not_session form path e = absurd (cc)
  by_context rand session form path e =
      (refl, by_status rand path form (ops.get_value s (auth_key identifier)) refl e)

  -- Good credentials are let through.
  pub try_login-Grant :
      (form : Form)
      → Grant form
      → try_login ops checker identifier form s
        ≡ reply_now downstream (ops.set_value s (auth_key identifier) (bool true)).1
  unfolding try_login try_token try_credentials try_password
  try_login-Grant form g =
      let c = g.credentials in
      rw (
        try_login,
        g.stored,
        g.parsed,
        g.sent,
        (eq_iff g.token g.token).1 refl,
        try_credentials,
        c.has_user,
        c.has_pass,
        try_password,
        c.accepted,
        g.recorded,
      )

  let_through :
      (rand : Rand) (req : Request)
      → req.context ≡ session
      → IsLetThrough req.form
      → (filter_request ops checker identifier rand req s).0 ≡ downstream
  unfolding filter_request
  let_through rand req c (inl known) = rw (c, filter_request, known)
  let_through rand req c (inr (new, g)) = rw (c, filter_request, new, try_login-Grant req.form g)

  -- A request reaches the downstream filter exactly when its context holds a session in which either
  -- the handler's flag is `true` already, or the flag is absent and the form carries, each once, the
  -- token that the session stores and a user name and password that the checker accepts, and the
  -- session can record the flag.
  pub filter_request-downstream_iff :
      (rand : Rand) (req : Request)
      → ((filter_request ops checker identifier rand req s).0 ≡ downstream)
        ↔ ((req.context ≡ session) × IsLetThrough req.form)
  filter_request-downstream_iff rand req =
      (by_context rand req.context req.form req.path, λ h. let_through rand req h.0 h.1)
