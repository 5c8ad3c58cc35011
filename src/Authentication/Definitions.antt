-- ===== src/Authentication/Definitions.antt =====
-- authentication/login_handler.go, cookiemask.go and minsession.go: the decoders, after the JSON decoder
-- has filled the definition. What was assigned before an error stays.
use pullcord.Base.{ℕ, Option, none, some, String, Error, unexpected_resource_type}
use pullcord.Config.Resource.{Unmarshaled, as_filter, as_session_handler, as_password_checker}
use pullcord.Authentication.Session.{Handler, empty_core}

-- The password checker and the downstream filter are addresses, and `none` is nil.
pub record LoginHandler : Type 0 where
  pub identifier : String
  pub password_checker : Option ℕ
  pub downstream : Option ℕ

pub record LoginDef : Type 0 where
  pub identifier : String
  pub password_checker : Unmarshaled
  pub downstream : Unmarshaled

-- `LoginHandler.UnmarshalJSON`
unfoldable pub unmarshal_login : LoginDef → LoginHandler → LoginHandler × Option Error
unmarshal_login t h = elim (as_password_checker t.password_checker) [
  | none ↦ (h, some unexpected_resource_type)
  | some p ↦ elim (as_filter t.downstream) [
    | none ↦ (record h { password_checker = some p }, some unexpected_resource_type)
    | some d ↦ (
      record h { password_checker = some p; downstream = some d; identifier = t.identifier },
      none,
    )
  ]
]

pub record CookiemaskFilter : Type 0 where
  pub handler : Option ℕ
  pub masked : Option ℕ

pub record CookiemaskDef : Type 0 where
  pub handler : Unmarshaled
  pub masked : Unmarshaled

-- `CookiemaskFilter.UnmarshalJSON`
unfoldable pub unmarshal_cookiemask :
    CookiemaskDef → CookiemaskFilter → CookiemaskFilter × Option Error
unmarshal_cookiemask t f = elim (as_session_handler t.handler) [
  | none ↦ (f, some unexpected_resource_type)
  | some h ↦ elim (as_filter t.masked) [
    | none ↦ (record f { handler = some h }, some unexpected_resource_type)
    | some m ↦ (record f { handler = some h; masked = some m }, none)
  ]
]

pub record SessionHandlerDef : Type 0 where
  pub name : String
  pub path : String
  pub domain : String

-- `new(MinSessionHandler)`, whose table is nil.
abbrev pub zero_handler : Handler
zero_handler = record {
  name = "";
  path = "";
  domain = "";
  table = none;
  core_of = λ a. 0;
  core = λ a. empty_core;
  next = 0;
}

-- `MinSessionHandler.UnmarshalJSON`, which leaves the table as it is.
unfoldable pub unmarshal_min_session_handler : SessionHandlerDef → Handler → Handler
unmarshal_min_session_handler t h = record h { name = t.name; path = t.path; domain = t.domain }
