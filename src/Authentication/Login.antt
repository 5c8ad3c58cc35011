-- ===== src/Authentication/Login.antt =====
-- authentication/login_handler.go: `LoginHandler.FilterRequest`, over any session. What the session,
-- the password checker and `crypto/rand` answer are parameters.
pub mod Access
pub mod Keys
pub mod State
pub mod Trace
pub mod Panic
pub mod FirstPage
mod Tests
use text.Mathlib.Text.{◌==◌ as str_eq}
use pullcord.Base.{
  ℕ, Bool, true, false, Option, none, some, List, [], ◌∷◌, String, Map, lookup, Error,
  no_such_session_value, no_such_identifier, bad_password, length, ◌==◌, if◌then◌else◌,
}
use pullcord.Authentication.Names.{hex, ◌<+>◌}
use pullcord.Authentication.Session.{Value, bool, string, opaque, Rand, bytes, unreadable}

-- `value, err := sesh.GetValue(key)`
pub data Got : Type 0 where
  got : Value → Got
  missing : Error → Got

-- The interface `Session`, over the state that a session has.
pub record SessionOps (S : Type 0) : Type 0 where
  pub get_value : S → String → Got
  pub set_value : S → String → Value → Option Error × S

-- What the request's context holds under "session".
pub data Context : Type 0 where
  absent : Context
  not_session : Context
  session : Context

-- What `ParseForm` makes of the request.
pub data Form : Type 0 where
  bad_form : Error → Form
  posted : Map (List String) → Form

pub record Request : Type 0 where
  pub context : Context
  pub form : Form
  pub path : String

-- How `FilterRequest` ends: the downstream filter's response, the server's error page, the login
-- page with its error text, path and token, or a panic.
pub data Reply : Type 0 where
  downstream : Reply
  internal_server_error : Reply
  login_page : String → String → String → Reply
  panicked : Reply

abbrev pub xsrf_token_length : ℕ
xsrf_token_length = 64

unfoldable pub auth_key : String → String
auth_key identifier = "authenticated-" <+> identifier

unfoldable pub xsrf_key : String → String
xsrf_key identifier = "xsrf-" <+> identifier

unfoldable pub username_key : String → String
username_key identifier = "username-" <+> identifier

unfoldable pub password_key : String → String
password_key identifier = "password-" <+> identifier

-- `err == NoSuchSessionValueError`
abbrev pub is_no_such_session_value : Error → Bool
is_no_such_session_value no_such_session_value = true
is_no_such_session_value _ = false

-- `err == NoSuchIdentifierError`, `err == BadPasswordError`
abbrev pub is_refusal : Error → Bool
is_refusal no_such_identifier = true
is_refusal bad_password = true
is_refusal _ = false

-- `authd == true`
abbrev pub is_true : Value → Bool
is_true (bool b) = b
is_true _ = false

-- The end of the ladder of tests: the login page with an error text, or a reply at once.
pub data Step (S : Type 0) : Type 0 where
  show_login : String → Step S
  reply_now : Reply → S → Step S

module _ {S : Type 0} (ops : SessionOps S) (checker : String → String → Option Error)
    (identifier : String) where
  -- The tests from `CheckPassword` on.
  pub try_password : String → String → S → Step S
  try_password user pass s = elim (checker user pass) [
    | some e ↦
        if is_refusal e then show_login "Invalid credentials" else reply_now internal_server_error s
    | none ↦
        let (e, s') = ops.set_value s (auth_key identifier) (bool true) in
        elim e [ some x ↦ reply_now internal_server_error s' | none ↦ reply_now downstream s' ]
  ]

  -- The tests of the user names and the passwords that were received.
  pub try_credentials : Map (List String) → S → Step S
  unfolding try_password
  try_credentials form s = elim (lookup (username_key identifier) form) [
    | none ↦ show_login "Invalid credentials"
    | some users ↦ elim (lookup (password_key identifier) form) [
      | none ↦ show_login "Invalid credentials"
      | some passes ↦ elim users [
        | user ∷ more ↦ elim passes [
          | pass ∷ others ↦ elim more [
            | [] ↦ elim others [ [] ↦ try_password user pass s | _ ∷ _ ↦ show_login "Bad request" ]
            | _ ∷ _ ↦ show_login "Bad request"
          ]
          | [] ↦ show_login "Bad request"
        ]
        | [] ↦ show_login "Bad request"
      ]
    ]
  ]

  -- The test of the token: a list of one, which equals the stored one. A stored value that is no
  -- string panics, but only if there is one token to compare.
  pub try_token : Value → Map (List String) → List String → S → Step S
  unfolding try_credentials
  try_token stored form [] s = show_login "Invalid credentials"
  try_token (string t) form (x ∷ []) s =
      if str_eq t x then try_credentials form s else show_login "Invalid credentials"
  try_token (bool b) form (x ∷ []) s = reply_now panicked s
  try_token (opaque i) form (x ∷ []) s = reply_now panicked s
  try_token stored form (x ∷ y ∷ more) s = show_login "Invalid credentials"

  -- The tests from the retrieval of the token on.
  pub try_login : Form → S → Step S
  unfolding try_token
  try_login form s = elim (ops.get_value s (xsrf_key identifier)) [
    | missing e ↦
        if is_no_such_session_value e then show_login "" else reply_now internal_server_error s
    | got stored ↦ elim form [
      | bad_form e ↦ show_login "Bad request"
      | posted m ↦ elim (lookup (xsrf_key identifier) m) [
        | none ↦ show_login "Invalid credentials"
        | some received ↦ try_token stored m received s
      ]
    ]
  ]

  -- The login page with a new token, which the session keeps.
  pub login_form : Rand → String → String → S → Reply × S
  login_form rand path error s = elim rand [
    | unreadable e ↦ (internal_server_error, s)
    | bytes raw ↦
        if length raw == xsrf_token_length
        then (let (e, s') = ops.set_value s (xsrf_key identifier) (string (hex raw)) in
            elim e [
              | some x ↦ (internal_server_error, s')
              | none ↦ (login_page error path (hex raw), s')
            ])
        else (internal_server_error, s)
  ]

  abbrev pub finish : Rand → String → Step S → S → Reply × S
  finish rand path (show_login error) s = login_form rand path error s
  finish rand path (reply_now reply s') s = (reply, s')

  -- `FilterRequest`; the read of the random bytes of a new token is an argument.
  unfoldable pub filter_request : Rand → Request → S → Reply × S
  unfolding try_login login_form
  filter_request rand req s = elim req.context [
    | absent ↦ (internal_server_error, s)
    | not_session ↦ (panicked, s)
    | session ↦ elim (ops.get_value s (auth_key identifier)) [
      | got v ↦ if is_true v then (downstream, s) else (internal_server_error, s)
      | missing e ↦
          if is_no_such_session_value e
          then finish rand req.path (try_login req.form s) s
          else (internal_server_error, s)
    ]
  ]
