-- ===== src/Config/Resource.antt =====
-- config/config.go: what a `Resource` holds, as the type switches of the program see it.
use pullcord.Base.{ℕ, Option, none, some}

-- The value behind `Unmarshaled` by the interface that it has, a pointer to it in each case. No type
-- of the program has two of these interfaces; `plain` has none of them.
pub data Unmarshaled : Type 0 where
  nil : Unmarshaled
  trigger filter router session_handler password_checker plain : ℕ → Unmarshaled

-- `case trigger.TriggerHandler:`
unfoldable pub as_trigger : Unmarshaled → Option ℕ
as_trigger (trigger a) = some a
as_trigger _ = none

-- `case falcore.RequestFilter:`
unfoldable pub as_filter : Unmarshaled → Option ℕ
as_filter (filter a) = some a
as_filter _ = none

-- `case SessionHandler:`
unfoldable pub as_session_handler : Unmarshaled → Option ℕ
as_session_handler (session_handler a) = some a
as_session_handler _ = none

-- `case PasswordChecker:`
unfoldable pub as_password_checker : Unmarshaled → Option ℕ
as_password_checker (password_checker a) = some a
as_password_checker _ = none
