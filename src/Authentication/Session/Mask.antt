-- ===== src/Authentication/Session/Mask.antt =====
-- authentication/minsession.go: the four things that `CookieMask` does with a cookie.
use pullcord.Base.{
  ℕ, true, false, ◌≡◌, refl, inl, inr, Option, none, some, List, [], ◌∷◌, ◌++◌, lookup, delete,
  entries, ◌⊎◌, String, Bool, Error, Bool-cases, Option-cases,
}
use pullcord.Authentication.Names.{cookie_name_pattern}
use pullcord.Authentication.Session.{
  Cookie, Handler, Masking, Masked, masked, Library, Generated, generated, start, register,
  gen_cookie, assure_table_initialized, cookie_mask, mask_with, mask_cookies, bad_cookie, is_valid,
  adopt, mask_cookie,
}

-- The body of the loop by cases, each with its tests and its result.
pub data Case (a : ℕ) (c : Cookie) (m : Masking) : Masking → Type 0 where
  forwards : m.regex c.name ≡ false → Case a c m (record m { forwarded = m.forwarded ++ c ∷ [] })
  unknown :
      m.regex c.name ≡ true
      → lookup c.name (entries m.handler.table) ≡ none
      → Case a c m (record m { set = m.set ++ bad_cookie c ∷ [] })
  rejects :
      (b : ℕ)
      → m.regex c.name ≡ true
      → lookup c.name (entries m.handler.table) ≡ some b
      → is_valid c b m.handler ≡ false
      → Case a c m (record m {
        handler = record m.handler { table = some (delete c.name (entries m.handler.table)) };
        set = m.set ++ bad_cookie c ∷ [];
      })
  adopts :
      (b : ℕ)
      → m.regex c.name ≡ true
      → lookup c.name (entries m.handler.table) ≡ some b
      → is_valid c b m.handler ≡ true
      → Case a c m (record m { handler = adopt a b m.handler; new_cookie_needed = false })

pub mask_cookie-Case : (a : ℕ) (c : Cookie) (m : Masking) → Case a c m (mask_cookie a c m)
unfolding mask_cookie
mask_cookie-Case a c m = elim (Bool-cases (m.regex c.name)) [
  | inr other ↦ rw other (forwards other)
  | inl ours ↦ elim (Option-cases (lookup c.name (entries m.handler.table))) [
    | inl missing ↦ rw (ours, missing) (unknown ours missing)
    | inr (b, known) ↦ elim (Bool-cases (is_valid c b m.handler)) [
      | inl good ↦ rw (ours, known, good) (adopts b ours known good)
      | inr bad ↦ rw (ours, known, bad) (rejects b ours known bad)
    ]
  ]
]

module _ (lib : Library) (re : String → Bool) (fuel a : ℕ) (incoming : List Cookie) (h : Handler)
    (k : ℕ) where
  -- The variables after the loop.
  abbrev pub looped : Masking
  looped = mask_cookies a incoming (start re h)

  -- What is left when `CookieMask` returns: no new cookie was needed, or one was made.
  abbrev pub Returned : List Cookie → List Cookie → Handler → Type 0
  Returned f s h' =
      ((looped.new_cookie_needed ≡ false)
        × (f ≡ looped.forwarded)
        × (s ≡ looped.set)
        × (h' ≡ looped.handler))
      ⊎ ((c : Cookie) × (err : Option Error) × (looped.new_cookie_needed ≡ true)
          × ((gen_cookie lib fuel looped.handler none k).0 ≡ generated c err)
          × (f ≡ looped.forwarded)
          × (s ≡ looped.set ++ c ∷ [])
          × (h' ≡ register a c (assure_table_initialized looped.handler)))

  made-Returned :
      (g : Generated) (f s : List Cookie) (h' : Handler) (k' : ℕ)
      → looped.new_cookie_needed ≡ true
      → (gen_cookie lib fuel looped.handler none k).0 ≡ g
      → mask_with re lib fuel a incoming h k ≡ (masked f s, h', k')
      → Returned f s h'
  unfolding mask_with
  made-Returned (generated c err) f s h' k' need q e =
      let r : (◌≡◌ {A = Masked × Handler × ℕ}
          (
            masked looped.forwarded (looped.set ++ c ∷ []),
            register a c (assure_table_initialized looped.handler),
            (gen_cookie lib fuel looped.handler none k).1,
          )
          (masked f s, h', k')) =
        rw (need, q, mask_with) at e in
      inr (c, err, need, q, cc, cc, cc)
  made-Returned (Generated.unreadable x) f s h' k' need q e =
      absurd (cc (rw (need, q, mask_with) at e))
  made-Returned Generated.out_of_fuel f s h' k' need q e =
      absurd (cc (rw (need, q, mask_with) at e))

  mask_with-Returned :
      (f s : List Cookie) (h' : Handler) (k' : ℕ)
      → mask_with re lib fuel a incoming h k ≡ (masked f s, h', k')
      → Returned f s h'
  unfolding mask_with
  mask_with-Returned f s h' k' e = elim (Bool-cases looped.new_cookie_needed) [
    | inl need ↦ made-Returned (gen_cookie lib fuel looped.handler none k).0 f s h' k' need refl e
    | inr done ↦
        let r : (◌≡◌ {A = Masked × Handler × ℕ}
            (masked looped.forwarded looped.set, looped.handler, k) (masked f s, h', k')) =
          rw (done, mask_with) at e in
        inl (done, cc, cc, cc)
  ]

-- When `CookieMask` returns, its pattern has compiled.
pub cookie_mask-Returned :
    (lib : Library) (fuel a : ℕ) (incoming : List Cookie) (h : Handler) (k : ℕ) (f s : List Cookie)
    (h' : Handler) (k' : ℕ)
    → cookie_mask lib fuel a incoming h k ≡ (masked f s, h', k')
    → (re : String → Bool) × (lib.compile (cookie_name_pattern h.name) ≡ some re)
      × Returned lib re fuel a incoming h k f s h'
unfolding cookie_mask
cookie_mask-Returned lib fuel a incoming h k f s h' k' e =
    elim (Option-cases (lib.compile (cookie_name_pattern h.name))) [
      | inl broken ↦ absurd (cc (rw (broken, cookie_mask) at e))
      | inr (re, q) ↦ (
        re,
        q,
        mask_with-Returned lib re fuel a incoming h k f s h' k' (rw (q, cookie_mask) at e),
      )
    ]
