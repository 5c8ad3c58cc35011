-- ===== src/Authentication/Session/Allocation.antt =====
-- authentication/minsession.go: the addresses that a handler's table and sessions lead to.
use pullcord.Base.{
  ℕ, ◌<◌, ◌≡◌, refl, ◌∙◌, inl, inr, some, List, [], ◌∷◌, String, lookup, lookup-insert,
  lookup-delete, lookup-empty, entries, arith,
}
use pullcord.Authentication.Session.{
  Cookie, Handler, Masking, Library, masked, mask_cookie, mask_cookies, cookie_mask, start, adopt,
  get_session, set_value, new_min_session_handler, Value, register, assure_table_initialized,
}
use pullcord.Authentication.Session.Mask.{
  Case, forwards, unknown, rejects, adopts, mask_cookie-Case, cookie_mask-Returned,
}
use pullcord.Authentication.Session.Isolation.{IsFresh}

pub record IsAllocated (h : Handler) : Type 0 where
  pub listed : (name : String) (b : ℕ) → lookup name (entries h.table) ≡ some b → b < h.next
  pub cores : (b : ℕ) → b < h.next → h.core_of b < h.next

pub new_handler-IsAllocated :
    (name path domain : String) → IsAllocated (new_min_session_handler name path domain)
unfolding new_min_session_handler
new_handler-IsAllocated name path domain = record {
  listed = λ j b e. absurd (cc (lookup-empty {V = ℕ} j));
  cores = λ b l. absurd (omega arith);
}

pub get_session-IsAllocated : (h : Handler) → IsAllocated h → IsAllocated (get_session h).1
unfolding get_session
get_session-IsAllocated h v = record {
  listed = λ j b e. omega (arith, v.listed j b e);
  cores = λ b l. ground (arith, v.cores b);
}

-- A new session is not in the table.
pub get_session-IsFresh :
    (h : Handler) → IsAllocated h → IsFresh (get_session h).0 (get_session h).1
unfolding get_session
get_session-IsFresh h v name b e = omega (arith, v.listed name b e)

pub set_value-IsAllocated :
    (a : ℕ) (key : String) (x : Value) (h : Handler)
    → IsAllocated h
    → IsAllocated (set_value a key x h)
unfolding set_value
set_value-IsAllocated a key x h v = record { listed = v.listed; cores = v.cores }

IsAllocated-Case :
    (a : ℕ) (c : Cookie) (m : Masking) {m' : Masking}
    → Case a c m m'
    → a < m.handler.next
    → IsAllocated m.handler
    → IsAllocated m'.handler × (m'.handler.next ≡ m.handler.next)
unfolding adopt
IsAllocated-Case a c m (forwards _) l v = (v, refl)
IsAllocated-Case a c m (unknown _ _) l v = (v, refl)
IsAllocated-Case a c m (rejects _ _ _ _) l v = (
  record {
    listed =
        λ j b e. v.listed j b (ground (arith, lookup-delete c.name j (entries m.handler.table)));
    cores = v.cores;
  },
  refl,
)
IsAllocated-Case a c m (adopts b _ known _) l v = (
  record {
    listed = v.listed;
    cores = λ d less. ground (arith, v.cores d, v.cores b, v.listed c.name b known);
  },
  refl,
)

mask_cookies-IsAllocated :
    (a : ℕ) (cs : List Cookie) (m : Masking)
    → a < m.handler.next
    → IsAllocated m.handler
    → IsAllocated (mask_cookies a cs m).handler
      × ((mask_cookies a cs m).handler.next ≡ m.handler.next)
unfolding mask_cookies
mask_cookies-IsAllocated a [] m l v = (v, refl)
mask_cookies-IsAllocated a (c ∷ cs) m l v =
    let (v', same) = IsAllocated-Case a c m (mask_cookie-Case a c m) l v in
    let (v'', same') = mask_cookies-IsAllocated a cs (mask_cookie a c m) (omega arith) v' in
    (v'', same' ∙ same)

register-IsAllocated :
    (a : ℕ) (c : Cookie) (h : Handler) → a < h.next → IsAllocated h → IsAllocated (register a c h)
register-IsAllocated a c h l v = record {
  listed = λ j b e. ground (arith, lookup-insert c.name j a (entries h.table), v.listed j b);
  cores = v.cores;
}

-- The addresses in use stay in use: `CookieMask`, when it returns, leaves a table whose every entry
-- leads to a session in use, and every session in use has a core in use.
pub cookie_mask-IsAllocated :
    (lib : Library) (fuel a : ℕ) (incoming : List Cookie) (h : Handler) (k : ℕ) (f s : List Cookie)
    (h' : Handler) (k' : ℕ)
    → a < h.next
    → IsAllocated h
    → cookie_mask lib fuel a incoming h k ≡ (masked f s, h', k')
    → IsAllocated h'
cookie_mask-IsAllocated lib fuel a incoming h k f s h' k' l v e =
    let (re, _, returned) = cookie_mask-Returned lib fuel a incoming h k f s h' k' e in
    let (v', same) = mask_cookies-IsAllocated a incoming (start re h) l v in
    elim returned [
      | inl (_, _, _, left) ↦ rw left v'
      | inr (c, _, _, _, _, _, left) ↦ rw left (
          register-IsAllocated a c
            (assure_table_initialized (mask_cookies a incoming (start re h)).handler) (omega arith)
            (record { listed = v'.listed; cores = v'.cores }))
    ]
