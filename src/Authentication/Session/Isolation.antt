-- ===== src/Authentication/Session/Isolation.antt =====
-- authentication/minsession.go: how a request comes to the values of a session.
use pullcord.Base.{
  Any, ℕ, true, ◌≡◌, ◌≢◌, refl, sym, ◌∙◌, ◌⊎◌, inl, inr, some, List, [], ◌∷◌, String, lookup,
  delete, lookup-delete, entries, eq_iff, arith,
}
use pullcord.Authentication.Session.{
  Cookie, Handler, Masking, Library, masked, mask_cookie, mask_cookies, cookie_mask, start, adopt,
  is_valid,
}
use pullcord.Authentication.Session.Mask.{
  Case, forwards, unknown, rejects, adopts, mask_cookie-Case, cookie_mask-Returned,
}

-- No name of the table leads to the session at `a`.
abbrev pub IsFresh : ℕ → Handler → Type 0
IsFresh a h = (name : String) (b : ℕ) → lookup name (entries h.table) ≡ some b → b ≢ a

-- A cookie carries the name of an entry of the table, and the value of the core at `k` of that
-- entry's session, which is not empty.
pub record Unlocks (h : Handler) (k : ℕ) (c : Cookie) : Type 0 where
  pub session : ℕ
  pub listed : lookup c.name (entries h.table) ≡ some session
  pub has_core : h.core_of session ≡ k
  pub value : c.value ≡ (h.core k).cvalue
  pub not_empty : c.value ≢ ""

-- What the loop of the session at `a` leaves as it was at the start.
pub record Keeps (a : ℕ) (h h' : Handler) : Type 0 where
  others : (b : ℕ) → b ≢ a → h'.core_of b ≡ h.core_of b
  cvalues : (k : ℕ) → (h'.core k).cvalue ≡ (h.core k).cvalue
  pub listed :
      (name : String) (b : ℕ)
      → lookup name (entries h'.table) ≡ some b
      → lookup name (entries h.table) ≡ some b

pub Keeps-trans : (a : ℕ) (h h' h'' : Handler) → Keeps a h h' → Keeps a h' h'' → Keeps a h h''
Keeps-trans a h h' h'' s t = record {
  others = λ b n. t.others b n ∙ s.others b n;
  cvalues = λ k. t.cvalues k ∙ s.cvalues k;
  listed = λ name b e. s.listed name b (t.listed name b e);
}

pub Keeps-refl : (a : ℕ) (h : Handler) → Keeps a h h
Keeps-refl a h = record { others = λ b n. refl; cvalues = λ k. refl; listed = λ name b e. e }

adopt-Keeps : (a b : ℕ) (h : Handler) → Keeps a h (adopt a b h)
unfolding adopt
adopt-Keeps a b h = record {
  others = λ c n. ground arith;
  cvalues = λ k. ground arith;
  listed = λ name c e. e;
}

delete-Keeps :
    (a : ℕ) (name : String) (h : Handler)
    → Keeps a h (record h { table = some (delete name (entries h.table)) })
delete-Keeps a name h = record {
  others = λ b n. refl;
  cvalues = λ k. refl;
  listed = λ j b e. ground (arith, lookup-delete name j (entries h.table));
}

pub Keeps-Case :
    (a : ℕ) (c : Cookie) (m : Masking) {m' : Masking} → Case a c m m' → Keeps a m.handler m'.handler
Keeps-Case a c m (forwards _) = Keeps-refl a m.handler
Keeps-Case a c m (unknown _ _) = Keeps-refl a m.handler
Keeps-Case a c m (rejects _ _ _ _) = delete-Keeps a c.name m.handler
Keeps-Case a c m (adopts b _ _ _) = adopt-Keeps a b m.handler

is_valid_value :
    (c : Cookie) (b : ℕ) (h : Handler)
    → is_valid c b h ≡ true
    → (c.value ≡ (h.core (h.core_of b)).cvalue) × (c.value ≢ "")
is_valid_value c b h v = (
  ground (arith, eq_iff c.value (h.core (h.core_of b)).cvalue),
  λ e. ground (arith, eq_iff c.value ""),
)

adopted_core : (a b : ℕ) (h : Handler) → (adopt a b h).core_of a ≡ h.core_of b
unfolding adopt
adopted_core a b h = ground arith

-- One cookie leaves the core of the session at `a`, or unlocks the one that it brings.
core-Case :
    (a : ℕ) (c : Cookie) (m : Masking) {m' : Masking}
    → Case a c m m'
    → (m'.handler.core_of a ≡ m.handler.core_of a) ⊎ Unlocks m.handler (m'.handler.core_of a) c
core-Case a c m (forwards _) = inl refl
core-Case a c m (unknown _ _) = inl refl
core-Case a c m (rejects _ _ _ _) = inl refl
core-Case a c m (adopts b _ known good) =
    let (value, not_empty) = is_valid_value c b m.handler good in
    let same = adopted_core a b m.handler in
    inr (record {
      session = b;
      listed = known;
      has_core = sym same;
      value = rw same value;
      not_empty = not_empty;
    })

-- What unlocks a core later unlocked it at the start.
Unlocks-Keeps :
    (a : ℕ) (h h' : Handler) (k : ℕ) (c : Cookie)
    → IsFresh a h
    → Keeps a h h'
    → Unlocks h' k c
    → Unlocks h k c
Unlocks-Keeps a h h' k c fresh s u =
    let listed = s.listed c.name u.session u.listed in
    record {
      session = u.session;
      listed = listed;
      has_core = sym (s.others u.session (fresh c.name u.session listed)) ∙ u.has_core;
      value = u.value ∙ s.cvalues k;
      not_empty = u.not_empty;
    }

Any-Unlocks :
    (a : ℕ) (h h' : Handler) (k : ℕ) (cs : List Cookie)
    → IsFresh a h
    → Keeps a h h'
    → Any (Unlocks h' k) cs
    → Any (Unlocks h k) cs
Any-Unlocks a h h' k [] fresh s u = u
Any-Unlocks a h h' k (c ∷ cs) fresh s (inl u) = inl (Unlocks-Keeps a h h' k c fresh s u)
Any-Unlocks a h h' k (c ∷ cs) fresh s (inr u) = inr (Any-Unlocks a h h' k cs fresh s u)

mask_cookies-Unlocks :
    (a : ℕ) (cs : List Cookie) (m : Masking)
    → IsFresh a m.handler
    → ((mask_cookies a cs m).handler.core_of a ≡ m.handler.core_of a)
      ⊎ Any (Unlocks m.handler ((mask_cookies a cs m).handler.core_of a)) cs
unfolding mask_cookies
mask_cookies-Unlocks a [] m fresh = inl refl
mask_cookies-Unlocks a (c ∷ cs) m fresh =
    let m' = mask_cookie a c m in
    let one = mask_cookie-Case a c m in
    let s = Keeps-Case a c m one in
    let fresh' = λ (name : String) (b : ℕ) (e : lookup name (entries m'.handler.table) ≡ some b).
      fresh name b (s.listed name b e) in
    let k = (mask_cookies a cs m').handler.core_of a in
    elim (mask_cookies-Unlocks a cs m' fresh') [
      | inr later ↦ inr (inr (Any-Unlocks a m.handler m'.handler k cs fresh s later))
      | inl same ↦ elim (core-Case a c m one) [
        | inl still ↦ inl (same ∙ still)
        | inr u ↦ inr (inl (rw same u))
      ]
    ]

-- When `CookieMask` of a session that no name leads to returns, the session has the core that it
-- had, or one that a cookie of the request unlocked: the cookie has the name of an entry of the
-- table as it was, and the value, which is not empty, of the core of that entry's session.
pub cookie_mask-Unlocks :
    (lib : Library) (fuel a : ℕ) (incoming : List Cookie) (h : Handler) (k : ℕ) (f s : List Cookie)
    (h' : Handler) (k' : ℕ)
    → IsFresh a h
    → cookie_mask lib fuel a incoming h k ≡ (masked f s, h', k')
    → (h'.core_of a ≡ h.core_of a) ⊎ Any (Unlocks h (h'.core_of a)) incoming
cookie_mask-Unlocks lib fuel a incoming h k f s h' k' fresh e =
    let (re, _, returned) = cookie_mask-Returned lib fuel a incoming h k f s h' k' e in
    let known = mask_cookies-Unlocks a incoming (start re h) fresh in
    elim returned [
      | inl (_, _, _, same) ↦ rw same known
      | inr (_, _, _, _, _, _, same) ↦ rw same known
    ]
