-- ===== src/Authentication/Session/Values.antt =====
-- authentication/minsession.go: a property that every value of every session has, as long as only values
-- that have it are set.
use text.Mathlib.Text.{◌==◌ as str_eq}
use pullcord.Base.{
  ℕ, true, ◌≡◌, refl, inl, inr, none, some, List, [], ◌∷◌, String, Map, lookup, insert, Bool-cases,
  eq_iff, All, delete, ◌==◌, Bool, Option-cases,
}
use pullcord.Authentication.Names.{cookie_name_pattern}
use pullcord.Authentication.Session.{
  Value, Cookie, Handler, Masking, Library, Generated, copy_values, new_min_session_handler,
  get_session, get_value, set_value, cookie_mask, mask_with, mask_cookie, mask_cookies, gen_cookie,
  start, adopt, generated, register, assure_table_initialized,
}
use pullcord.Authentication.Session.Mask.{
  Case, forwards, unknown, rejects, adopts, mask_cookie-Case,
}

module _ (P : String → Value → Type 0) where
  -- Every entry of a map has the property.
  abbrev Entries : Map Value → Type 0
  Entries m = All (λ p. P p.0 p.1) m

  -- Every entry of every core has it.
  pub record Each (h : Handler) : Type 0 where
    pub each : (k : ℕ) → Entries (h.core k).values

  lookup-Entries :
      (key : String) (x : Value) (m : Map Value) → Entries m → lookup key m ≡ some x → P key x
  unfolding lookup
  lookup-Entries key x [] l e = absurd (cc)
  lookup-Entries key x ((j, y) ∷ m) l e = elim (Bool-cases (str_eq j key)) [
    | inl same ↦
        let at_key : j ≡ key = (eq_iff j key).0 same in
        let value : y ≡ x = cc (rw (lookup, same) at e) in rw (← at_key, ← value) l.0
    | inr other ↦ lookup-Entries key x m l.1 (rw (lookup, other) at e)
  ]

  delete-Entries : (j : String) (m : Map Value) → Entries m → Entries (delete j m)
  unfolding delete
  delete-Entries j [] l = tt
  delete-Entries j ((n, x) ∷ m) l =
      let rest = delete-Entries j m l.1 in
      elim (Bool-cases (str_eq n j)) [
        | inl same ↦ rw (delete, same) rest
        | inr other ↦ rw (delete, other) (l.0, rest)
      ]

  insert-Entries :
      (j : String) (x : Value) (m : Map Value) → Entries m → P j x → Entries (insert j x m)
  unfolding insert
  insert-Entries j x m l n = (n, delete-Entries j m l)

  copy-Entries :
      (from into : Map Value) → Entries from → Entries into → Entries (copy_values from into)
  unfolding copy_values
  copy-Entries [] into f l = l
  copy-Entries ((j, x) ∷ from) into f l =
      copy-Entries from (insert j x into) f.1 (insert-Entries j x into l f.0)

  pub new-Each : (name path domain : String) → Each (new_min_session_handler name path domain)
  unfolding new_min_session_handler
  new-Each name path domain = record { each = λ k. tt }

  pub get_session-Each : (h : Handler) → Each h → Each (get_session h).1
  unfolding get_session
  get_session-Each h v = record {
    each =
        λ k. elim (Bool-cases (h.next == k)) [ inl new ↦ rw new tt | inr old ↦ rw old (v.each k) ];
  }

  pub set_value-Each :
      (a : ℕ) (key : String) (x : Value) (h : Handler)
      → Each h
      → P key x
      → Each (set_value a key x h)
  unfolding set_value
  set_value-Each a key x h v n = record {
    each = λ k. elim (Bool-cases (h.core_of a == k)) [
      | inl here ↦
          rw here (insert-Entries key x (h.core (h.core_of a)).values (v.each (h.core_of a)) n)
      | inr other ↦ rw other (v.each k)
    ];
  }

  adopt-Each : (a b : ℕ) (h : Handler) → Each h → Each (adopt a b h)
  unfolding adopt
  adopt-Each a b h v = record {
    each = λ k. elim (Bool-cases (h.core_of b == k)) [
      | inl here ↦ rw here (
          copy-Entries (h.core (h.core_of a)).values (h.core (h.core_of b)).values
            (v.each (h.core_of a)) (v.each (h.core_of b)))
      | inr other ↦ rw other (v.each k)
    ];
  }

  Each-Case :
      (a : ℕ) (c : Cookie) (m : Masking) {m' : Masking}
      → Case a c m m'
      → Each m.handler
      → Each m'.handler
  Each-Case a c m (forwards _) v = v
  Each-Case a c m (unknown _ _) v = v
  Each-Case a c m (rejects _ _ _ _) v = record { each = v.each }
  Each-Case a c m (adopts b _ _ _) v = adopt-Each a b m.handler v

  loop-Each :
      (a : ℕ) (cs : List Cookie) (m : Masking) → Each m.handler → Each (mask_cookies a cs m).handler
  unfolding mask_cookies
  loop-Each a [] m v = v
  loop-Each a (c ∷ cs) m v =
      loop-Each a cs (mask_cookie a c m) (Each-Case a c m (mask_cookie-Case a c m) v)

  register-Each : (a : ℕ) (c : Cookie) (h : Handler) → Each h → Each (register a c h)
  register-Each a c h v = record {
    each = λ k. elim (Bool-cases (h.core_of a == k)) [
      | inl here ↦ rw here (v.each (h.core_of a))
      | inr other ↦ rw other (v.each k)
    ];
  }

  mask_with-Each :
      (re : String → Bool) (lib : Library) (fuel a : ℕ) (incoming : List Cookie) (h : Handler)
      (k : ℕ)
      → Each h
      → Each (mask_with re lib fuel a incoming h k).1
  unfolding mask_with
  mask_with-Each re lib fuel a incoming h k v =
      let m = mask_cookies a incoming (start re h) in
      let w = loop-Each a incoming (start re h) v in
      elim (Bool-cases m.new_cookie_needed) [
        | inr done ↦ rw (mask_with, done) w
        | inl need ↦ by_cookie w need (gen_cookie lib fuel m.handler none k).0 refl
      ]
    where
      by_cookie :
          Each (mask_cookies a incoming (start re h)).handler
          → (mask_cookies a incoming (start re h)).new_cookie_needed ≡ true
          → (g : Generated)
          → (gen_cookie lib fuel (mask_cookies a incoming (start re h)).handler none k).0 ≡ g
          → Each (mask_with re lib fuel a incoming h k).1
      by_cookie w need (generated c e) q =
          rw (mask_with, need, q)
            (register-Each a c
              (assure_table_initialized (mask_cookies a incoming (start re h)).handler)
              (record { each = w.each }))
      by_cookie w need (Generated.unreadable e) q =
          rw (mask_with, need, q) (record { each = w.each })
      by_cookie w need Generated.out_of_fuel q = rw (mask_with, need, q) w

  -- `CookieMask`, however it ends, only moves values.
  pub cookie_mask-Each :
      (lib : Library) (fuel a : ℕ) (incoming : List Cookie) (h : Handler) (k : ℕ)
      → Each h
      → Each (cookie_mask lib fuel a incoming h k).1
  unfolding cookie_mask
  cookie_mask-Each lib fuel a incoming h k v =
      elim (Option-cases (lib.compile (cookie_name_pattern h.name))) [
        | inl broken ↦ rw (cookie_mask, broken) v
        | inr (re, q) ↦ rw (cookie_mask, q) (mask_with-Each re lib fuel a incoming h k v)
      ]

  pub get_value-Each :
      (a : ℕ) (key : String) (x : Value) (h : Handler)
      → Each h
      → get_value a key h ≡ some x
      → P key x
  unfolding get_value
  get_value-Each a key x h v =
      lookup-Entries key x (h.core (h.core_of a)).values (v.each (h.core_of a))
