-- ===== src/Authentication/Login/Trace.antt =====
-- authentication/login_handler.go: sequences of requests in one session.
use pullcord.Base.{
  Any, true, ◌≡◌, ◌≢◌, sym, ap, ◌∙◌, inl, inr, Option, List, [], ◌∷◌, String, Error, eq_iff, arith,
}
use pullcord.Authentication.Session.{bool, string, Rand}
use pullcord.Authentication.Login.{
  got, SessionOps, Request, Reply, downstream, auth_key, xsrf_key, filter_request,
}
use pullcord.Authentication.Login.Keys.{SessionLaws, xsrf_key-ne-auth_key, auth_key_injective}
use pullcord.Authentication.Login.Access.{filter_request-downstream_iff}
use pullcord.Authentication.Login.State.{Admissible, filter_request-IsLeft}

module _ {S : Type 0} (ops : SessionOps S) where
  -- Requests to one handler in one session, each with its read of random bytes.
  unfoldable pub run :
      (String → String → Option Error) → String → List (Rand × Request) → S → List Reply × S
  unfolding filter_request
  run checker identifier [] s = ([], s)
  run checker identifier ((rand, req) ∷ later) s =
      let (reply, s') = filter_request ops checker identifier rand req s in
      let (replies, s'') = run checker identifier later s' in (reply ∷ replies, s'')

module _ {S : Type 0} (ops : SessionOps S) (laws : SessionLaws ops) where
  get_renewed :
      (s : S) (i j t : String)
      → ops.get_value (ops.set_value s (xsrf_key i) (string t)).1 (auth_key j)
        ≡ ops.get_value s (auth_key j)
  get_renewed s i j t = ground (
    arith,
    laws.get-set s (xsrf_key i) (auth_key j) (string t),
    eq_iff (xsrf_key i) (auth_key j),
    xsrf_key-ne-auth_key i j,
  )

  get_recorded :
      (s : S) (i j : String)
      → i ≢ j
      → ops.get_value (ops.set_value s (auth_key i) (bool true)).1 (auth_key j)
        ≡ ops.get_value s (auth_key j)
  get_recorded s i j n = ground (
    arith,
    laws.get-set s (auth_key i) (auth_key j) (bool true),
    eq_iff (auth_key i) (auth_key j),
    auth_key_injective i j,
  )

  -- A request to one handler leaves the flag of every handler with another identifier as it was.
  pub other_flag :
      (checker : String → String → Option Error) (i j : String) (rand : Rand) (req : Request)
      (s : S)
      → i ≢ j
      → ops.get_value (filter_request ops checker i rand req s).1 (auth_key j)
        ≡ ops.get_value s (auth_key j)
  other_flag checker i j rand req s n = elim (filter_request-IsLeft ops laws checker i s rand req) [
    | inl same ↦ rw same
    | inr (inl (set, _)) ↦ rw set (get_recorded s i j n)
    | inr (inr (t, set)) ↦ rw set (get_renewed s i j t)
  ]

  -- In a session in which a handler's flag is not `true`, whatever the requests, none of them reaches
  -- the handler's downstream filter unless one of them carries a user name and password, once each,
  -- that the checker accepts.
  pub run_needs_password :
      (checker : String → String → Option Error) (i : String) (reqs : List (Rand × Request)) (s : S)
      → ops.get_value s (auth_key i) ≢ got (bool true)
      → Any (λ r. r ≡ downstream) (run ops checker i reqs s).0
      → Any (λ p. Admissible checker i p.1.form) reqs
  unfolding run
  run_needs_password checker i [] s n h = h
  run_needs_password checker i ((rand, req) ∷ later) s n (inl through) =
      elim ((filter_request-downstream_iff ops checker i s rand req).0 through).1 [
        | inl known ↦ absurd (n known)
        | inr (_, g) ↦ inl (g.fields, g.parsed, g.credentials)
      ]
  run_needs_password checker i ((rand, req) ∷ later) s n (inr h) =
      let s' = (filter_request ops checker i rand req s).1 in
      elim (filter_request-IsLeft ops laws checker i s rand req) [
        | inl same ↦ inr (
            run_needs_password checker i later s'
              (λ e. n (sym (ap (λ (t : S). ops.get_value t (auth_key i)) same) ∙ e)) h)
        | inr (inl (_, good)) ↦ inl good
        | inr (inr (t, set)) ↦ inr (
            run_needs_password checker i later s'
              (λ e. n (
                sym (get_renewed s i i t)
                ∙ sym (ap (λ (u : S). ops.get_value u (auth_key i)) set)
                ∙ e))
              h)
      ]
