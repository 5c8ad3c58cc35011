-- ===== src/Authentication/Login/State.antt =====
-- authentication/login_handler.go: what a request leaves in a session that never fails.
use text.Mathlib.Text.{◌==◌ as str_eq}
use pullcord.Base.{
  true, ◌≡◌, ◌⊎◌, refl, ap, ◌∙◌, inl, inr, Option, some, List, [], ◌∷◌, String, Map, lookup, Error,
  Option-cases, Bool-cases, length, ◌==◌,
}
use pullcord.Authentication.Names.{hex}
use pullcord.Authentication.Session.{Value, bool, string, opaque, Rand, bytes, unreadable}
use pullcord.Authentication.Login.{
  Got, got, missing, SessionOps, Context, absent, not_session, session, Form, bad_form, posted,
  Request, Reply, downstream, auth_key, xsrf_key, username_key, password_key,
  is_no_such_session_value, is_refusal, is_true, Step, show_login, reply_now, try_password,
  try_credentials, try_token, try_login, login_form, finish, filter_request,
}
use pullcord.Authentication.Login.Keys.{SessionLaws}
use pullcord.Authentication.Login.Access.{Credentials, login_grants}

-- The form carries credentials that the checker accepts.
abbrev pub Admissible : (String → String → Option Error) → String → Form → Type 0
Admissible checker identifier form =
    (fields : Map (List String)) × (form ≡ posted fields) × Credentials checker identifier fields

module _ {S : Type 0} (ops : SessionOps S) (laws : SessionLaws ops)
    (checker : String → String → Option Error) (identifier : String) (s : S) where
  abbrev recorded : S
  recorded = (ops.set_value s (auth_key identifier) (bool true)).1

  -- A test leaves the session, or records the flag and lets the request through.
  abbrev IsStep : Step S → Type 0
  IsStep (show_login error) = Unit
  IsStep (reply_now reply s') = (s' ≡ s) ⊎ ((s' ≡ recorded) × (reply ≡ downstream))

  password-IsStep : (u p : String) → IsStep (try_password ops checker identifier u p s)
  unfolding try_password
  password-IsStep u p = elim (Option-cases (checker u p)) [
    | inl good ↦
        rw (IsStep, try_password, good, laws.never_fails s (auth_key identifier) (bool true))
          (inr (refl, refl))
    | inr (x, bad) ↦ elim (Bool-cases (is_refusal x)) [
      | inl refusal ↦ rw (IsStep, try_password, bad, refusal) tt
      | inr failure ↦ rw (IsStep, try_password, bad, failure) (inl refl)
    ]
  ]

  lists-IsStep :
      (form : Map (List String)) (users passes : List String)
      → lookup (username_key identifier) form ≡ some users
      → lookup (password_key identifier) form ≡ some passes
      → IsStep (try_credentials ops checker identifier form s)
  unfolding try_credentials
  lists-IsStep form (u ∷ []) (p ∷ []) q r = rw (IsStep, try_credentials, q, r) (password-IsStep u p)
  lists-IsStep form [] passes q r = rw (IsStep, try_credentials, q, r) tt
  lists-IsStep form (u ∷ []) [] q r = rw (IsStep, try_credentials, q, r) tt
  lists-IsStep form (u ∷ []) (p ∷ p' ∷ ps) q r = rw (IsStep, try_credentials, q, r) tt
  lists-IsStep form (u ∷ u' ∷ us) [] q r = rw (IsStep, try_credentials, q, r) tt
  lists-IsStep form (u ∷ u' ∷ us) (p ∷ ps) q r = rw (IsStep, try_credentials, q, r) tt

  credentials-IsStep :
      (form : Map (List String)) → IsStep (try_credentials ops checker identifier form s)
  unfolding try_credentials
  credentials-IsStep form = elim (Option-cases (lookup (username_key identifier) form)) [
    | inl no_user ↦ rw (IsStep, try_credentials, no_user) tt
    | inr (users, q) ↦ elim (Option-cases (lookup (password_key identifier) form)) [
      | inl no_pass ↦ rw (IsStep, try_credentials, q, no_pass) tt
      | inr (passes, r) ↦ lists-IsStep form users passes q r
    ]
  ]

  token-IsStep :
      (stored : Value) (form : Map (List String)) (received : List String)
      → IsStep (try_token ops checker identifier stored form received s)
  unfolding try_token
  token-IsStep stored form [] = tt
  token-IsStep (bool b) form (x ∷ []) = inl refl
  token-IsStep (opaque i) form (x ∷ []) = inl refl
  token-IsStep stored form (x ∷ y ∷ more) = tt
  token-IsStep (string t) form (x ∷ []) = elim (Bool-cases (str_eq t x)) [
    | inl same ↦ rw (IsStep, try_token, same) (credentials-IsStep form)
    | inr other ↦ rw (IsStep, try_token, other) tt
  ]

  login-IsStep :
      (form : Form) (g : Got)
      → ops.get_value s (xsrf_key identifier) ≡ g
      → IsStep (try_login ops checker identifier form s)
  unfolding try_login
  login-IsStep form (missing x) q = elim (Bool-cases (is_no_such_session_value x)) [
    | inl none_yet ↦ rw (IsStep, try_login, q, none_yet) tt
    | inr failure ↦ rw (IsStep, try_login, q, failure) (inl refl)
  ]
  login-IsStep (bad_form x) (got stored) q = rw (IsStep, try_login, q) tt
  login-IsStep (posted m) (got stored) q = elim (Option-cases (lookup (xsrf_key identifier) m)) [
    | inl unsent ↦ rw (IsStep, try_login, q, unsent) tt
    | inr (received, r) ↦ rw (IsStep, try_login, q, r) (token-IsStep stored m received)
  ]

  -- What a request may leave: the session as it was, or with the flag, and then the form carried good
  -- credentials, or with a new token.
  abbrev pub IsLeft : Form → S → Type 0
  IsLeft form s' =
      (s' ≡ s)
      ⊎ ((s' ≡ (ops.set_value s (auth_key identifier) (bool true)).1)
          × Admissible checker identifier form)
      ⊎ ((t : String) × (s' ≡ (ops.set_value s (xsrf_key identifier) (string t)).1))

  login_form-IsLeft :
      (rand : Rand) (path error : String) (form : Form)
      → IsLeft form (login_form ops checker identifier rand path error s).1
  unfolding login_form
  login_form-IsLeft (unreadable x) path error form = inl refl
  login_form-IsLeft (bytes raw) path error form = elim (Bool-cases (length raw == 64)) [
    | inr short ↦ rw short (inl refl)
    | inl full ↦
        rw (full, laws.never_fails s (xsrf_key identifier) (string (hex raw)))
          (inr (inr (hex raw, refl)))
  ]

  finish-IsLeft :
      (rand : Rand) (path : String) (form : Form) (step : Step S)
      → try_login ops checker identifier form s ≡ step
      → IsStep step
      → IsLeft form (finish ops checker identifier rand path step s).1
  finish-IsLeft rand path form (show_login error) q i = login_form-IsLeft rand path error form
  finish-IsLeft rand path form (reply_now reply s') q (inl same) = inl same
  finish-IsLeft rand path form (reply_now reply s') q (inr (set, through)) =
      let g =
        login_grants ops checker identifier s form (ops.get_value s (xsrf_key identifier)) s' refl
          (q ∙ ap (λ (r : Reply). reply_now r s') through) in
      inr (inl (set, (g.fields, g.parsed, g.credentials)))

  known-IsLeft :
      (rand : Rand) (path : String) (form : Form) (g : Got)
      → ops.get_value s (auth_key identifier) ≡ g
      → IsLeft form
          (filter_request ops checker identifier rand
            (record { context = session; form = form; path = path })
            s).1
  unfolding filter_request
  known-IsLeft rand path form (got v) q = elim (Bool-cases (is_true v)) [
    | inl through ↦ rw (q, filter_request, through) (inl refl)
    | inr other ↦ rw (q, filter_request, other) (inl refl)
  ]
  known-IsLeft rand path form (missing x) q = elim (Bool-cases (is_no_such_session_value x)) [
    | inr failure ↦ rw (q, filter_request, failure) (inl refl)
    | inl new ↦
        rw (q, filter_request, new)
          (finish-IsLeft rand path form (try_login ops checker identifier form s) refl
            (login-IsStep form (ops.get_value s (xsrf_key identifier)) refl))
  ]

  context-IsLeft :
      (rand : Rand) (context : Context) (form : Form) (path : String)
      → IsLeft form
          (filter_request ops checker identifier rand
            (record { context = context; form = form; path = path })
            s).1
  unfolding filter_request
  context-IsLeft rand absent form path = inl refl
  context-IsLeft rand not_session form path = inl refl
  context-IsLeft rand session form path =
      known-IsLeft rand path form (ops.get_value s (auth_key identifier)) refl

  pub filter_request-IsLeft :
      (rand : Rand) (req : Request)
      → IsLeft req.form (filter_request ops checker identifier rand req s).1
  filter_request-IsLeft rand req = context-IsLeft rand req.context req.form req.path
