-- ===== src/Authentication/CookieFilter/Flags.antt =====
-- authentication/minsession.go and login_handler.go together: the cores that have the flag of a login
-- handler.
use pullcord.Base.{ℕ, true, ◌≡◌, ◌≢◌, ◌⊎◌, refl, inl, inr, Option, none, some, String, Error}
use pullcord.Authentication.Session.{Value, bool, string, Handler, Rand, get_value}
use pullcord.Authentication.Session.Values.{Each, set_value-Each, get_value-Each}
use pullcord.Authentication.Login
use pullcord.Authentication.Login.{
  Got, got, missing, Form, Request, downstream, session, auth_key, xsrf_key,
}
use pullcord.Authentication.Login.Keys.{min_session, min_session-SessionLaws, xsrf_key-ne-auth_key}
use pullcord.Authentication.Login.Access.{filter_request-downstream_iff}
use pullcord.Authentication.Login.State.{Admissible, filter_request-IsLeft}

-- The entry is not the flag.
abbrev pub IsUnset : String → String → Value → Type 0
IsUnset i j x = j ≡ auth_key i → x ≢ bool true

-- No core has the flag.
abbrev pub NoFlag : String → Handler → Type 0
NoFlag i = Each (IsUnset i)

module _ (i : String) where
  -- A request to the login handler sets the flag only with good credentials, and is let through
  -- without the flag only with them.
  pub login-NoFlag :
      (checker : String → String → Option Error) (b : ℕ) (rand : Rand) (req : Request) (h : Handler)
      → NoFlag i h
      → NoFlag i (Login.filter_request (min_session b) checker i rand req h).1
        ⊎ Admissible checker i req.form
  login-NoFlag checker b rand req h v =
      elim (filter_request-IsLeft (min_session b) (min_session-SessionLaws b) checker i h rand
        req) [
          | inl same ↦ inl (rw same v)
          | inr (inl (_, good)) ↦ inr good
          | inr (inr (t, set)) ↦ inl (
              rw set (
                set_value-Each (IsUnset i) b (xsrf_key i) (string t) h v
                  (λ e. absurd (xsrf_key-ne-auth_key i i e))))
        ]

  flag_of_session :
      (b : ℕ) (h : Handler)
      → NoFlag i h
      → (min_session b).get_value h (auth_key i) ≢ got (bool true)
  unfolding get_value
  flag_of_session b h v e = by_value (get_value b (auth_key i) h) refl
    where
      by_value : (o : Option Value) → get_value b (auth_key i) h ≡ o → ⊥
      by_value none q = cc (rw (min_session, q) at e)
      by_value (some x) q =
          get_value-Each (IsUnset i) b (auth_key i) x h v q refl (cc (rw (min_session, q) at e))

  pub downstream-NoFlag :
      (checker : String → String → Option Error) (b : ℕ) (rand : Rand) (req : Request) (h : Handler)
      → NoFlag i h
      → (Login.filter_request (min_session b) checker i rand req h).0 ≡ downstream
      → Admissible checker i req.form
  downstream-NoFlag checker b rand req h v e =
      elim ((filter_request-downstream_iff (min_session b) checker i h rand req).0 e).1 [
        | inl known ↦ absurd (flag_of_session b h v known)
        | inr (_, g) ↦ (g.fields, g.parsed, g.credentials)
      ]
