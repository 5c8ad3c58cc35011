-- ===== src/Authentication/CookieFilter/Sharing.antt =====
-- authentication/cookiemask.go, minsession.go and login_handler.go together: sessions that share the
-- core of an established one.
use pullcord.Base.{ℕ, ◌<◌, true, ◌≡◌, inl, inr, Option, [], ◌∷◌, String, Error, arith}
use pullcord.Authentication.Session.{
  Value, bool, Cookie, Handler, Library, Rand, get_session, set_value, adopt,
}
use pullcord.Authentication.Session.Allocation.{
  IsAllocated, get_session-IsAllocated, set_value-IsAllocated, cookie_mask-IsAllocated,
}
use pullcord.Authentication.Session.Revisit.{Opens, mask_one, get_session-Opens}
use pullcord.Authentication.Login
use pullcord.Authentication.Login.{
  Got, got, SessionOps, Context, session, Form, Request, downstream, auth_key,
}
use pullcord.Authentication.Login.Keys.{min_session, min_session-SessionLaws}
use pullcord.Authentication.Login.State.{filter_request-IsLeft}

-- The session at `b` shares the core of the established session at `a`, which a cookie opens.
pub record Shares (lib : Library) (h : Handler) (a b : ℕ) (c : Cookie) : Type 0 where
  pub allocated : IsAllocated h
  pub opens : Opens lib h a c
  pub same_core : h.core_of a ≡ h.core_of b

adopt-Opens :
    (lib : Library) (h : Handler) (a b : ℕ) (c : Cookie)
    → a < b
    → Opens lib h a c
    → Opens lib (adopt b a h) a c
unfolding adopt
adopt-Opens lib h a b c l o = record {
  regex = o.regex;
  compiled = o.compiled;
  recognised = o.recognised;
  listed = o.listed;
  value = ground (arith, o.value);
  not_empty = o.not_empty;
}

adopt_same : (h : Handler) (a b : ℕ) → a < b → (adopt b a h).core_of a ≡ (adopt b a h).core_of b
unfolding adopt
adopt_same h a b l = ground arith

pub masked-Shares :
    (lib : Library) (fuel a : ℕ) (c : Cookie) (h : Handler) (k : ℕ)
    → IsAllocated h
    → Opens lib h a c
    → Shares lib (adopt (get_session h).0 a (get_session h).1) a (get_session h).0 c
masked-Shares lib fuel a c h k v o =
    let b = (get_session h).0 in
    let h' = (get_session h).1 in
    let o' = get_session-Opens lib h a c v o in
    let older : a < b = unfold get_session in v.listed c.name a o.listed in
    let in_use : b < h'.next = unfold get_session in omega arith in
    record {
      allocated =
          cookie_mask-IsAllocated lib fuel b (c ∷ []) h' k [] [] (adopt b a h') k in_use
            (get_session-IsAllocated h v) (mask_one lib fuel a b c h' k o');
      opens = adopt-Opens lib h' a b c older o';
      same_core = adopt_same h' a b older;
    }

set_shared-Opens :
    (lib : Library) (h : Handler) (a b : ℕ) (c : Cookie) (key : String) (x : Value)
    → Opens lib h a c
    → Opens lib (set_value b key x h) a c
unfolding set_value
set_shared-Opens lib h a b c key x o = record {
  regex = o.regex;
  compiled = o.compiled;
  recognised = o.recognised;
  listed = o.listed;
  value = ground (arith, o.value);
  not_empty = o.not_empty;
}

set_value-Shares :
    (lib : Library) (h : Handler) (a b : ℕ) (c : Cookie) (key : String) (x : Value)
    → Shares lib h a b c
    → Shares lib (set_value b key x h) a b c
set_value-Shares lib h a b c key x s = record {
  allocated = set_value-IsAllocated b key x h s.allocated;
  opens = set_shared-Opens lib h a b c key x s.opens;
  same_core = unfold set_value in s.same_core;
}

pub login-Shares :
    (lib : Library) (h : Handler) (a b : ℕ) (c : Cookie) (checker : String → String → Option Error)
    (i : String) (rand : Rand) (req : Request)
    → Shares lib h a b c
    → Shares lib (Login.filter_request (min_session b) checker i rand req h).1 a b c
login-Shares lib h a b c checker i rand req s =
    elim (filter_request-IsLeft (min_session b) (min_session-SessionLaws b) checker i h rand req) [
      | inl same ↦ rw same s
      | inr (inl (set, _)) ↦ rw set (set_value-Shares lib h a b c (auth_key i) (bool true) s)
      | inr (inr (t, set)) ↦
          rw set (set_value-Shares lib h a b c (Login.xsrf_key i) (Value.string t) s)
    ]
