-- ===== src/Authentication/Login/Keys.antt =====
-- authentication/login_handler.go: the keys under which a handler keeps its flag and its token, and a
-- `MinSession` as the session of a login.
use Prim.Native.Char.{code}
use text.Mathlib.TextLemmas
use text.Mathlib.Text.{◌==◌ as str_eq}
use pullcord.Base.{
  ℕ, ◌≡◌, ◌≢◌, refl, ap, none, some, String, no_such_session_value, lookup-insert, if◌then◌else◌,
  arith,
}
use pullcord.Authentication.Session
use pullcord.Authentication.Session.{Value, Handler}
use pullcord.Authentication.Login.{got, missing, SessionOps, auth_key, xsrf_key}

-- What a session that never fails promises of its values.
pub record SessionLaws {S : Type 0} (ops : SessionOps S) : Type 0 where
  pub never_fails : (s : S) (k : String) (v : Value) → (ops.set_value s k v).0 ≡ none
  pub get-set :
      (s : S) (k j : String) (v : Value)
      → ops.get_value (ops.set_value s k v).1 j ≡ (if str_eq k j then got v else ops.get_value s j)

-- The session at an address, over the state of its handler.
abbrev pub min_session : ℕ → SessionOps Handler
min_session a = record {
  get_value = λ h key. elim (Session.get_value a key h) [
    | some v ↦ got v
    | none ↦ missing no_such_session_value
  ];
  set_value = λ h key v. (none, Session.set_value a key v h);
}

-- A `MinSession` keeps the promise.
pub min_session-SessionLaws : (a : ℕ) → SessionLaws (min_session a)
unfolding Session.get_value Session.set_value
min_session-SessionLaws a = record {
  never_fails = λ h k v. refl;
  get-set = λ h k j v. ground (arith, lookup-insert k j v (h.core (h.core_of a)).values);
}

first : String → ℕ
first String.[] = 0
first (String.◌∷◌ c s) = code c

first-auth_key : (i : String) → first (auth_key i) ≡ 97
unfolding first auth_key
first-auth_key i = rw TextLemmas.cons-append

first-xsrf_key : (i : String) → first (xsrf_key i) ≡ 120
unfolding first xsrf_key
first-xsrf_key i = rw TextLemmas.cons-append

-- No handler's token goes where a handler's flag is.
pub xsrf_key-ne-auth_key : (i j : String) → xsrf_key i ≢ auth_key j
xsrf_key-ne-auth_key i j e = ground (arith, ap first e, first-auth_key j, first-xsrf_key i)

-- Handlers with different identifiers have different flags.
pub auth_key_injective : (i j : String) → auth_key i ≡ auth_key j → i ≡ j
unfolding auth_key
auth_key_injective i j e = TextLemmas.append_cancel_left "authenticated-" i j e
