-- ===== src/Program/Serving.antt =====
-- A server that a configuration made, from its first request on.
use mathlib.Core.Path.{subst}
use pullcord.Base.{
  ℕ, zero, suc, sym, ◌≡◌, refl, inl, inr, Option, none, some, List, [], ◌∷◌, String, Map, Error,
  get_elem?, All, Option-cases,
}
use pullcord.Authentication.Session
use pullcord.Authentication.Session.{Value}
use pullcord.Authentication.Session.Values.{Each}
use pullcord.Authentication.Definitions.{zero_handler, unmarshal_min_session_handler}
use pullcord.Authentication.Password.{Kdf, Pbkdf2Hash, check_password}
use pullcord.Gateway.{State}
use pullcord.Program.Store.{Store, empty_store}
use pullcord.Program.Placed.{IsPlaced}
use pullcord.Program.Opening.{IsDecoded}

-- The session handler at an address.
abbrev pub handler_at : List Session.Handler → ℕ → Session.Handler
handler_at handlers a = elim (get_elem? handlers a) [ some h ↦ h | none ↦ zero_handler ]

-- The program before the first request.
abbrev pub start : Store → State
start s = record {
  filters = s.filters;
  handlers = handler_at s.handlers;
  net = record { world = record { objects = s.objects; readings = 0; effects = [] }; dialled = [] };
  reads = 0;
  tests = 0;
}

-- The password checkers of the store.
abbrev pub checker_at : List (Map Pbkdf2Hash) → ℕ → Map Pbkdf2Hash
checker_at checkers a = elim (get_elem? checkers a) [ some c ↦ c | none ↦ [] ]

abbrev pub check_passwords : Kdf → Store → ℕ → String → String → Option Error
check_passwords kdf s c = check_password kdf (checker_at s.checkers c)

pub All-get_elem? :
    {A : Type 0} (P : A → Type 0) (xs : List A) (i : ℕ) (x : A)
    → All P xs
    → get_elem? xs i ≡ some x
    → P x
All-get_elem? P [] i x h e = absurd (cc)
All-get_elem? P (y ∷ xs) zero x h e = let same : y ≡ x = cc in subst P same h.0
All-get_elem? P (y ∷ xs) (suc i) x h e = All-get_elem? P xs i x h.1 e

pub decoded-Each : (P : String → Value → Type 0) (h : Session.Handler) → IsDecoded h → Each P h
unfolding unmarshal_min_session_handler
decoded-Each P h (t, e) = subst (Each P) (sym e) (record { each = λ k. tt })

-- What holds of decoded handlers holds of the handler at every address.
pub handler_at-Holds :
    (P : Session.Handler → Type 0) (handlers : List Session.Handler)
    → ((h : Session.Handler) → IsDecoded h → P h)
    → All IsDecoded handlers
    → (a : ℕ) → P (handler_at handlers a)
unfolding unmarshal_min_session_handler
handler_at-Holds P handlers each all a = elim (Option-cases (get_elem? handlers a)) [
  | inl missing ↦
      rw (handler_at, missing)
        (each zero_handler (record { name = ""; path = ""; domain = "" }, refl))
  | inr (h, q) ↦ rw (handler_at, q) (each h (All-get_elem? IsDecoded handlers a h all q))
]

pub empty-IsPlaced : IsPlaced empty_store
empty-IsPlaced = record { filters = tt; objects = tt; delays = tt; routers = tt }
