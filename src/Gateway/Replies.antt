-- ===== src/Gateway/Replies.antt =====
-- The filters together: which replies answer a request, and the tokens that a login leaves.
use pullcord.Base.{
  ℕ, Bool, true, ◌≡◌, refl, sym, inl, inr, Option, none, some, List, String, Error, set,
}
use pullcord.Monitor.Service
use pullcord.Monitor.Service.{Service, Passthru, status}
use pullcord.Monitor.Service.Outcome.{IsJustified}
use pullcord.Authentication.Session.{Value, bool, string, Cookie, Handler, Rand, get_value}
use pullcord.Authentication.Session.{Library, set_value}
use pullcord.Authentication.Session.Calm.{Compiles}
use pullcord.Authentication.Session.Values.{Each, set_value-Each, get_value-Each}
use pullcord.Authentication.Login
use pullcord.Authentication.Login.{got, session, auth_key, xsrf_key}
use pullcord.Authentication.Login.Keys.{min_session, min_session-SessionLaws, xsrf_key-ne-auth_key}
use pullcord.Authentication.Login.State.{filter_request-IsLeft}
use pullcord.Authentication.Login.Panic.{HasTextToken}
use pullcord.Authentication.CookieFilter.{add_cookies}
use pullcord.Gateway.{Reply, response, of_service, as_served, of_masked}
use pullcord.Gateway.Sound.{IsToken}

-- A response; or `CookieMask` found no new name for its cookie, as often as it drew one.
abbrev pub IsAnswered : Reply → Type 0
IsAnswered (response r cookies) = Unit
IsAnswered Reply.masking_out_of_fuel = Unit
IsAnswered Reply.no_response = ⊥
IsAnswered Reply.masking_panicked = ⊥
IsAnswered Reply.panicked = ⊥
IsAnswered Reply.out_of_fuel = ⊥

pub service-IsAnswered :
    (st : Bool × Option Error) (p : Passthru) (r : Service.Reply)
    → IsJustified st p r
    → IsAnswered (of_service r)
service-IsAnswered st p (Service.Reply.page code text) j = tt
service-IsAnswered st p (Service.Reply.proxied q) j = tt
service-IsAnswered st p Service.Reply.panic j = j
service-IsAnswered st p Service.Reply.exhausted j = j

pub masked-IsAnswered :
    (r : Reply) (cookies : List Cookie)
    → IsAnswered r
    → IsAnswered (of_masked (add_cookies (as_served r) cookies))
unfolding add_cookies
masked-IsAnswered (response r inner) cookies h = tt
masked-IsAnswered Reply.masking_out_of_fuel cookies h = h
masked-IsAnswered Reply.no_response cookies h = absurd h
masked-IsAnswered Reply.masking_panicked cookies h = h
masked-IsAnswered Reply.panicked cookies h = h
masked-IsAnswered Reply.out_of_fuel cookies h = h

-- A login keeps the tokens texts.
pub login-tokens :
    (checker : String → String → Option Error) (i : String) (b : ℕ) (rand : Rand)
    (req : Login.Request) (h : Handler)
    → Each IsToken h
    → Each IsToken (Login.filter_request (min_session b) checker i rand req h).1
login-tokens checker i b rand req h w =
    elim (filter_request-IsLeft (min_session b) (min_session-SessionLaws b) checker i h rand req) [
      | inl same ↦ rw same w
      | inr (inl (set, good)) ↦ rw set (
          set_value-Each IsToken b (auth_key i) (bool true) h w
            (λ j e. absurd (xsrf_key-ne-auth_key j i (sym e))))
      | inr (inr (t, set)) ↦
          rw set (set_value-Each IsToken b (xsrf_key i) (string t) h w (λ j e. (t, refl)))
    ]

pub has_text_token :
    (i : String) (b : ℕ) (h : Handler)
    → Each IsToken h
    → HasTextToken (min_session b) (λ u p. none) i h
unfolding get_value
has_text_token i b h w v e = by_value (get_value b (xsrf_key i) h) refl
  where
    by_value : (o : Option Value) → get_value b (xsrf_key i) h ≡ o → (t : String) × (v ≡ string t)
    by_value none q = absurd (cc (rw (min_session, q) at e))
    by_value (some x) q =
        let (t, text) = get_value-Each IsToken b (xsrf_key i) x h w q i refl in
        (t, cc (text, rw (min_session, q) at e))

-- And it keeps the pattern.
pub login-Compiles :
    (lib : Library) (checker : String → String → Option Error) (i : String) (b : ℕ) (rand : Rand)
    (req : Login.Request) (h : Handler)
    → Compiles lib h
    → Compiles lib (Login.filter_request (min_session b) checker i rand req h).1
unfolding set_value
login-Compiles lib checker i b rand req h d =
    elim (filter_request-IsLeft (min_session b) (min_session-SessionLaws b) checker i h rand req) [
      | inl same ↦ rw same d
      | inr (inl (set, good)) ↦ rw set d
      | inr (inr (t, set)) ↦ rw set d
    ]
