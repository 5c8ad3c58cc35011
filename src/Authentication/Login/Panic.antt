-- ===== src/Authentication/Login/Panic.antt =====
-- authentication/login_handler.go: why no request panics in a session whose tokens are texts.
use text.Mathlib.Text.{◌==◌ as str_eq}
use pullcord.Base.{
  true, ◌≡◌, refl, ap, ◌∙◌, inl, inr, Option, some, List, [], ◌∷◌, String, Map, lookup, Error,
  Option-cases, Bool-cases, length, ◌==◌,
}
use pullcord.Authentication.Names.{hex}
use pullcord.Authentication.Session.{Value, bool, string, Rand, bytes, unreadable}
use pullcord.Authentication.Login.{
  Got, got, missing, SessionOps, session, Form, bad_form, posted, Reply, panicked, auth_key,
  xsrf_key, username_key, password_key, is_no_such_session_value, is_refusal, is_true, Step,
  show_login, reply_now, try_password, try_credentials, try_token, try_login, login_form, finish,
  filter_request,
}

-- A reply that is no panic.
abbrev pub IsCalm : Reply → Type 0
IsCalm Reply.downstream = Unit
IsCalm Reply.internal_server_error = Unit
IsCalm (Reply.login_page error path token) = Unit
IsCalm panicked = ⊥

module _ {S : Type 0} (ops : SessionOps S) (checker : String → String → Option Error)
    (identifier : String) (s : S) where
  abbrev IsCalmStep : Step S → Type 0
  IsCalmStep (show_login error) = Unit
  IsCalmStep (reply_now reply s') = IsCalm reply

  password-IsCalmStep : (u p : String) → IsCalmStep (try_password ops checker identifier u p s)
  unfolding try_password
  password-IsCalmStep u p = elim (Option-cases (checker u p)) [
    | inl good ↦ elim (Option-cases (ops.set_value s (auth_key identifier) (bool true)).0) [
      | inl kept ↦ rw (IsCalmStep, try_password, good, kept) tt
      | inr (x, lost) ↦ rw (IsCalmStep, try_password, good, lost) tt
    ]
    | inr (x, bad) ↦ elim (Bool-cases (is_refusal x)) [
      | inl refusal ↦ rw (IsCalmStep, try_password, bad, refusal) tt
      | inr failure ↦ rw (IsCalmStep, try_password, bad, failure) tt
    ]
  ]

  lists-IsCalmStep :
      (form : Map (List String)) (users passes : List String)
      → lookup (username_key identifier) form ≡ some users
      → lookup (password_key identifier) form ≡ some passes
      → IsCalmStep (try_credentials ops checker identifier form s)
  unfolding try_credentials
  lists-IsCalmStep form (u ∷ []) (p ∷ []) q r =
      rw (IsCalmStep, try_credentials, q, r) (password-IsCalmStep u p)
  lists-IsCalmStep form [] passes q r = rw (IsCalmStep, try_credentials, q, r) tt
  lists-IsCalmStep form (u ∷ []) [] q r = rw (IsCalmStep, try_credentials, q, r) tt
  lists-IsCalmStep form (u ∷ []) (p ∷ p' ∷ ps) q r = rw (IsCalmStep, try_credentials, q, r) tt
  lists-IsCalmStep form (u ∷ u' ∷ us) [] q r = rw (IsCalmStep, try_credentials, q, r) tt
  lists-IsCalmStep form (u ∷ u' ∷ us) (p ∷ ps) q r = rw (IsCalmStep, try_credentials, q, r) tt

  credentials-IsCalmStep :
      (form : Map (List String)) → IsCalmStep (try_credentials ops checker identifier form s)
  unfolding try_credentials
  credentials-IsCalmStep form = elim (Option-cases (lookup (username_key identifier) form)) [
    | inl no_user ↦ rw (IsCalmStep, try_credentials, no_user) tt
    | inr (users, q) ↦ elim (Option-cases (lookup (password_key identifier) form)) [
      | inl no_pass ↦ rw (IsCalmStep, try_credentials, q, no_pass) tt
      | inr (passes, r) ↦ lists-IsCalmStep form users passes q r
    ]
  ]

  token-IsCalmStep :
      (t : String) (form : Map (List String)) (received : List String)
      → IsCalmStep (try_token ops checker identifier (string t) form received s)
  unfolding try_token
  token-IsCalmStep t form [] = tt
  token-IsCalmStep t form (x ∷ y ∷ more) = tt
  token-IsCalmStep t form (x ∷ []) = elim (Bool-cases (str_eq t x)) [
    | inl same ↦ rw (IsCalmStep, try_token, same) (credentials-IsCalmStep form)
    | inr other ↦ rw (IsCalmStep, try_token, other) tt
  ]

  -- What the session has for a token, if anything, is a text.
  abbrev pub HasTextToken : Type 0
  HasTextToken =
      (v : Value) → ops.get_value s (xsrf_key identifier) ≡ got v → (t : String) × (v ≡ string t)

  login-IsCalmStep :
      (form : Form) (g : Got)
      → ops.get_value s (xsrf_key identifier) ≡ g
      → HasTextToken
      → IsCalmStep (try_login ops checker identifier form s)
  unfolding try_login
  login-IsCalmStep form (missing x) q h = elim (Bool-cases (is_no_such_session_value x)) [
    | inl none_yet ↦ rw (IsCalmStep, try_login, q, none_yet) tt
    | inr failure ↦ rw (IsCalmStep, try_login, q, failure) tt
  ]
  login-IsCalmStep (bad_form x) (got stored) q h = rw (IsCalmStep, try_login, q) tt
  login-IsCalmStep (posted m) (got stored) q h =
      let (t, text) = h stored q in
      let found : ops.get_value s (xsrf_key identifier) ≡ got (string t) = q ∙ ap got text in
      elim (Option-cases (lookup (xsrf_key identifier) m)) [
        | inl unsent ↦ rw (IsCalmStep, try_login, found, unsent) tt
        | inr (received, r) ↦ rw (IsCalmStep, try_login, found, r) (token-IsCalmStep t m received)
      ]

  login_form-IsCalm :
      (rand : Rand) (path error : String)
      → IsCalm (login_form ops checker identifier rand path error s).0
  unfolding login_form
  login_form-IsCalm (unreadable x) path error = tt
  login_form-IsCalm (bytes raw) path error = elim (Bool-cases (length raw == 64)) [
    | inr short ↦ rw (IsCalm, short) tt
    | inl full ↦ elim (Option-cases (ops.set_value s (xsrf_key identifier) (string (hex raw))).0) [
      | inl kept ↦ rw (IsCalm, full, kept) tt
      | inr (x, lost) ↦ rw (IsCalm, full, lost) tt
    ]
  ]

  finish-IsCalm :
      (rand : Rand) (path : String) (step : Step S)
      → IsCalmStep step
      → IsCalm (finish ops checker identifier rand path step s).0
  finish-IsCalm rand path (show_login error) h = login_form-IsCalm rand path error
  finish-IsCalm rand path (reply_now reply s') h = h

  pub filter_request-IsCalm :
      (rand : Rand) (form : Form) (path : String)
      → HasTextToken
      → IsCalm
          (filter_request ops checker identifier rand
            (record { context = session; form = form; path = path })
            s).0
  unfolding filter_request
  filter_request-IsCalm rand form path h = by_flag (ops.get_value s (auth_key identifier)) refl
    where
      by_flag :
          (g : Got)
          → ops.get_value s (auth_key identifier) ≡ g
          → IsCalm
              (filter_request ops checker identifier rand
                (record { context = session; form = form; path = path })
                s).0
      by_flag (got v) q = elim (Bool-cases (is_true v)) [
        | inl through ↦ rw (IsCalm, filter_request, q, through) tt
        | inr other ↦ rw (IsCalm, filter_request, q, other) tt
      ]
      by_flag (missing x) q = elim (Bool-cases (is_no_such_session_value x)) [
        | inr failure ↦ rw (IsCalm, filter_request, q, failure) tt
        | inl new ↦
            rw (filter_request, q, new)
              (finish-IsCalm rand path (try_login ops checker identifier form s)
                (login-IsCalmStep form (ops.get_value s (xsrf_key identifier)) refl h))
      ]
