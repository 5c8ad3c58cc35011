-- ===== src/Authentication/Session/Forwarding.antt =====
-- authentication/minsession.go: which cookies `CookieMask` forwards.
use mathlib.Core.List.{append-nil, append_assoc}
use pullcord.Base.{
  ℕ, Bool, not, some, ◌≡◌, refl, sym, ap, ◌∙◌, inl, inr, List, [], ◌∷◌, ◌++◌, String, keep,
  Bool-cases,
}
use pullcord.Authentication.Names.{cookie_name_pattern}
use pullcord.Authentication.Session.{
  Cookie, Handler, Masking, Library, masked, mask_cookie, mask_cookies, cookie_mask, start, adopt,
}
use pullcord.Authentication.Session.Mask.{
  Case, forwards, unknown, rejects, adopts, mask_cookie-Case, cookie_mask-Returned,
}

-- Whether a cookie is not one of the handler's.
abbrev pub is_foreign : (String → Bool) → Cookie → Bool
is_foreign re c = not (re c.name)

pub name-Case :
    (a : ℕ) (c : Cookie) (m : Masking) {m' : Masking}
    → Case a c m m'
    → m'.handler.name ≡ m.handler.name
unfolding adopt
name-Case a c m (forwards _) = refl
name-Case a c m (unknown _ _) = refl
name-Case a c m (rejects _ _ _ _) = refl
name-Case a c m (adopts _ _ _ _) = refl

-- The loop keeps the pattern.
regex-Case : (a : ℕ) (c : Cookie) (m : Masking) {m' : Masking} → Case a c m m' → m'.regex ≡ m.regex
regex-Case a c m (forwards _) = refl
regex-Case a c m (unknown _ _) = refl
regex-Case a c m (rejects _ _ _ _) = refl
regex-Case a c m (adopts _ _ _ _) = refl

forwarded-Case :
    (a : ℕ) (c : Cookie) (m : Masking) {m' : Masking}
    → Case a c m m'
    → m'.forwarded ≡ m.forwarded ++ keep (is_foreign m.regex) (c ∷ [])
forwarded-Case a c m (forwards other) = rw other
forwarded-Case a c m (unknown ours _) = rw ours (sym (append-nil m.forwarded))
forwarded-Case a c m (rejects _ ours _ _) = rw ours (sym (append-nil m.forwarded))
forwarded-Case a c m (adopts _ ours _ _) = rw ours (sym (append-nil m.forwarded))

keep-cons {ℓ} :
    {A : Type ℓ} (p : A → Bool) (x : A) (xs : List A)
    → keep p (x ∷ []) ++ keep p xs ≡ keep p (x ∷ xs)
keep-cons p x xs = elim (Bool-cases (p x)) [ inl h ↦ rw h | inr h ↦ rw h ]

forwarded-mask_cookies :
    (a : ℕ) (cs : List Cookie) (m : Masking)
    → (mask_cookies a cs m).forwarded ≡ m.forwarded ++ keep (is_foreign m.regex) cs
unfolding mask_cookies
forwarded-mask_cookies a [] m = sym (append-nil m.forwarded)
forwarded-mask_cookies a (c ∷ cs) m =
    let m' = mask_cookie a c m in
    let one = mask_cookie-Case a c m in
    forwarded-mask_cookies a cs m'
    ∙ ap (λ n. m'.forwarded ++ keep (is_foreign n) cs) (regex-Case a c m one)
    ∙ ap (λ l. l ++ keep (is_foreign m.regex) cs) (forwarded-Case a c m one)
    ∙ append_assoc m.forwarded (keep (is_foreign m.regex) (c ∷ [])) (keep (is_foreign m.regex) cs)
    ∙ ap (λ l. m.forwarded ++ l) (keep-cons (is_foreign m.regex) c cs)

-- `CookieMask`, when it returns, has compiled the pattern of its handler's name, and forwards the
-- cookies whose names that does not match, all of them and in their order, and no other.
pub forwarded-cookie_mask :
    (lib : Library) (fuel a : ℕ) (incoming : List Cookie) (h : Handler) (k : ℕ) (f s : List Cookie)
    (h' : Handler) (k' : ℕ)
    → cookie_mask lib fuel a incoming h k ≡ (masked f s, h', k')
    → (re : String → Bool) × (lib.compile (cookie_name_pattern h.name) ≡ some re)
      × (f ≡ keep (is_foreign re) incoming)
forwarded-cookie_mask lib fuel a incoming h k f s h' k' e =
    let (re, q, r) = cookie_mask-Returned lib fuel a incoming h k f s h' k' e in
    (
      re,
      q,
      elim r [
        | inl (done, same, _, _) ↦ same ∙ forwarded-mask_cookies a incoming (start re h)
        | inr (c, err, need, made, same, _, _) ↦
            same ∙ forwarded-mask_cookies a incoming (start re h)
      ],
    )
