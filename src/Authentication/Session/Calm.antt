-- ===== src/Authentication/Session/Calm.antt =====
-- authentication/minsession.go: when `CookieMask` does not panic.
use pullcord.Base.{
  Bool, ℕ, zero, suc, true, ◌≡◌, ◌≢◌, refl, sym, ap, ◌∙◌, inl, inr, Option, none, some, List,
  String, Error, rng_collision, lookup, entries, Bool-cases, Option-cases,
}
use pullcord.Authentication.Names.{cookie_name, cookie_name_pattern}
use pullcord.Authentication.Session.{
  Cookie, Handler, Library, Generated, generated, gen_cookie, Masked, mask_cookies, mask_with,
  cookie_mask, start,
}
use pullcord.Authentication.Session.Return.{IsReadable, free_made, loop-Keeps}

-- The pattern of the handler's name compiles.
abbrev pub Compiles : Library → Handler → Type 0
Compiles lib h = (re : String → Bool) × (lib.compile (cookie_name_pattern h.name) ≡ some re)

-- `genCookie` fails only where a read does.
gen_cookie-readable :
    (lib : Library) (fuel : ℕ) (h : Handler) (o : Option Error) (k : ℕ) (x : Error)
    → IsReadable lib
    → (gen_cookie lib fuel h o k).0 ≢ Generated.unreadable x
unfolding gen_cookie
gen_cookie-readable lib zero h o k x reads e = absurd (cc)
gen_cookie-readable lib (suc fuel) h o k x reads e =
    let (ns, r) = reads k 32 in
    elim (Option-cases (lookup (cookie_name h.name ns) (entries h.table))) [
      | inl free ↦
          let (vs, made) = free_made lib reads fuel h o k ns r free in
          absurd (cc (sym (ap (λ (g : Generated × ℕ). g.0) made) ∙ e))
      | inr (b, taken) ↦
          gen_cookie-readable lib fuel h (some rng_collision) (suc k) x reads
            (rw (r, gen_cookie, taken) at e)
    ]

module _ (lib : Library) (fuel a : ℕ) (incoming : List Cookie) (h : Handler) (k : ℕ) where
  mask_with-name :
      (re : String → Bool)
      → (g : Generated)
      → (gen_cookie lib fuel (mask_cookies a incoming (start re h)).handler none k).0 ≡ g
      → (mask_with re lib fuel a incoming h k).1.name ≡ h.name
  unfolding mask_with
  mask_with-name re g q =
      let m = mask_cookies a incoming (start re h) in
      let (keeps, name) = loop-Keeps a incoming (start re h) in
      elim (Bool-cases m.new_cookie_needed) [
        | inr done ↦ rw (mask_with, done) name
        | inl need ↦ by_cookie g need name q
      ]
    where
      by_cookie :
          (g : Generated)
          → (mask_cookies a incoming (start re h)).new_cookie_needed ≡ true
          → (mask_cookies a incoming (start re h)).handler.name ≡ h.name
          → (gen_cookie lib fuel (mask_cookies a incoming (start re h)).handler none k).0 ≡ g
          → (mask_with re lib fuel a incoming h k).1.name ≡ h.name
      by_cookie (generated c e) need name q = rw (mask_with, need, q) name
      by_cookie (Generated.unreadable e) need name q = rw (mask_with, need, q) name
      by_cookie Generated.out_of_fuel need name q = rw (mask_with, need, q) name

  -- `CookieMask` leaves its handler's name, and so the pattern.
  pub cookie_mask-Compiles : Compiles lib h → Compiles lib (cookie_mask lib fuel a incoming h k).1
  unfolding cookie_mask
  cookie_mask-Compiles (re, q) =
      let g = (gen_cookie lib fuel (mask_cookies a incoming (start re h)).handler none k).0 in
      rw (cookie_mask, q)
        (re, ap (λ n. lib.compile (cookie_name_pattern n)) (mask_with-name re g refl) ∙ q)

  mask_with-calm :
      (re : String → Bool) (g : Generated)
      → (gen_cookie lib fuel (mask_cookies a incoming (start re h)).handler none k).0 ≡ g
      → IsReadable lib
      → (mask_with re lib fuel a incoming h k).0 ≢ Masked.panicked
  unfolding mask_with
  mask_with-calm re g q reads e =
      elim (Bool-cases (mask_cookies a incoming (start re h)).new_cookie_needed) [
        | inr done ↦ absurd (cc (rw (mask_with, done) at e))
        | inl need ↦ by_cookie g need q
      ]
    where
      by_cookie :
          (g : Generated)
          → (mask_cookies a incoming (start re h)).new_cookie_needed ≡ true
          → (gen_cookie lib fuel (mask_cookies a incoming (start re h)).handler none k).0 ≡ g
          → ⊥
      by_cookie (generated c x) need q = absurd (cc (rw (mask_with, need, q) at e))
      by_cookie (Generated.unreadable x) need q =
          gen_cookie-readable lib fuel (mask_cookies a incoming (start re h)).handler none k x reads
            q
      by_cookie Generated.out_of_fuel need q = absurd (cc (rw (mask_with, need, q) at e))

  -- `CookieMask` does not panic, if the pattern compiles and every read succeeds.
  pub cookie_mask-calm :
      Compiles lib h → IsReadable lib → (cookie_mask lib fuel a incoming h k).0 ≢ Masked.panicked
  unfolding cookie_mask
  cookie_mask-calm (re, q) reads e =
      mask_with-calm re
        (gen_cookie lib fuel (mask_cookies a incoming (start re h)).handler none k).0 refl reads
        (rw (q, cookie_mask) at e)
