-- ===== src/Trigger/RateLimit/Window.antt =====
-- trigger/ratelimit.go: `RateLimitTrigger` against a sliding window over the times that it let
-- through.
use pullcord.Base.{
  ℕ, suc, Bool, true, not, ◌≡◌, refl, sym, ap, inl, inr, List, [], ◌∷◌, ◌++◌, Time, Duration, after,
  ◌+ℤ◌, ◌≤ℤ◌, +ℤ_parts, ltb, if◌then◌else◌, length, replicate, keep, arith, Bool-cases,
}
use pullcord.Trigger.RateLimit.{expire}

-- Whether a time is still inside the period at `now`.
abbrev pub fresh : Duration → Time → Time → Bool
fresh period now t = not (after now (t +ℤ period))

-- The specification: a call passes if fewer than `max` of the times that were let through are still
-- inside the period.
abbrev pub allows : ℕ → Duration → List Time → Time → Bool
allows max period passed now = ltb (length (keep (fresh period now) passed)) max

-- The times that the specification has let through, oldest first, and its verdicts.
unfoldable pub window_all : ℕ → Duration → List Time → List Time → List Time × List Bool
window_all max period passed [] = (passed, [])
window_all max period passed (now ∷ later) =
    let ok = allows max period passed now in
    let (passed', rest) = window_all max period (if ok then passed ++ now ∷ [] else passed) later in
    (passed', ok ∷ rest)

-- The times of the calls do not decrease, from `start` on.
abbrev pub Follow : Time → List Time → Type 0
Follow start [] = Unit
Follow start (t ∷ ts) = (start ≤ℤ t) × Follow t ts

-- `ts` does not decrease, and lies between `a` and `b`.
abbrev pub Chain : Time → List Time → Time → Type 0
Chain a [] b = a ≤ℤ b
Chain a (t ∷ ts) b = (a ≤ℤ t) × Chain t ts b

pub Chain-le : (a : Time) (ts : List Time) (b : Time) → Chain a ts b → a ≤ℤ b
Chain-le a [] b h = h
Chain-le a (t ∷ ts) b h = omega (arith, Chain-le t ts b h.1)

pub Chain-weaken :
    (a a' : Time) (ts : List Time) (b : Time) → a' ≤ℤ a → Chain a ts b → Chain a' ts b
Chain-weaken a a' [] b h c = omega arith
Chain-weaken a a' (t ∷ ts) b h c = (omega arith, c.1)

pub Chain-append :
    (a : Time) (ts : List Time) (b now : Time)
    → Chain a ts b
    → b ≤ℤ now
    → Chain a (ts ++ now ∷ []) now
Chain-append a [] b now c h = (omega arith, omega arith)
Chain-append a (t ∷ ts) b now c h = (c.0, Chain-append t ts b now c.1 h)

pub Chain-right : (a : Time) (ts : List Time) (b c : Time) → Chain a ts b → b ≤ℤ c → Chain a ts c
Chain-right a [] b c h k = omega arith
Chain-right a (t ∷ ts) b c h k = (h.0, Chain-right t ts b c h.1 k)

pub Chain-keep :
    (p : Time → Bool) (a : Time) (ts : List Time) (b : Time) → Chain a ts b → Chain a (keep p ts) b
Chain-keep p a [] b c = c
Chain-keep p a (t ∷ ts) b c = elim (Bool-cases (p t)) [
  | inl kept ↦ rw kept (c.0, Chain-keep p t ts b c.1)
  | inr dropped ↦ rw dropped (Chain-keep p a ts b (Chain-weaken t a ts b c.0 c.1))
]

pub Chain-replicate : (n : ℕ) (a b : Time) → a ≤ℤ b → Chain a (replicate n a) b
Chain-replicate ℕ.zero a b h = h
Chain-replicate (suc n) a b h = (omega arith, Chain-replicate n a b h)

-- What is no earlier than a fresh time is fresh.
fresh_mono :
    (period now s t : Time) → s ≤ℤ t → fresh period now s ≡ true → fresh period now t ≡ true
fresh_mono period now s t h f = ground (arith, +ℤ_parts s period, +ℤ_parts t period)

pub fresh_earlier :
    (period now later t : Time)
    → now ≤ℤ later
    → fresh period later t ≡ true
    → fresh period now t ≡ true
fresh_earlier period now later t h f = ground (arith, +ℤ_parts t period)

keep-fresh_all :
    (period now a : Time) (ts : List Time) (b : Time)
    → Chain a ts b
    → fresh period now a ≡ true
    → keep (fresh period now) ts ≡ ts
keep-fresh_all period now a [] b c f = refl
keep-fresh_all period now a (t ∷ ts) b c f =
    let here = fresh_mono period now a t c.0 f in
    rw here (ap (λ l. t ∷ l) (keep-fresh_all period now t ts b c.1 here))

-- On times that do not decrease, dropping from the front drops every time that is too old.
pub expire-eq-keep :
    (period now a : Time) (ts : List Time) (b : Time)
    → Chain a ts b
    → expire now period ts ≡ keep (fresh period now) ts
unfolding expire
expire-eq-keep period now a [] b c = refl
expire-eq-keep period now a (t ∷ ts) b c = elim (Bool-cases (after now (t +ℤ period))) [
  | inl old ↦ rw old (expire-eq-keep period now t ts b c.1)
  | inr young ↦
      let here : fresh period now t ≡ true = rw young in
      rw young (ap (λ l. t ∷ l) (sym (keep-fresh_all period now t ts b c.1 here)))
]
