-- ===== src/Trigger/RateLimit/Bound.antt =====
-- trigger/ratelimit.go: how many calls any period of time can see pass.
use pullcord.Base.{
  ℕ, ◌≤◌, ◌<◌, Bool, true, not, ◌&&◌, ◌≡◌, inl, inr, List, [], ◌∷◌, ◌++◌, Time, Duration, zero_time,
  after, ◌+ℤ◌, ◌≤ℤ◌, ◌<ℤ◌, +ℤ_parts, if◌then◌else◌, length, keep, length-append, keep-append, arith,
  Bool-cases,
}
use mathlib.Core.List.{append_assoc, append-nil}
use pullcord.Trigger.RateLimit.{new_rate_limit_trigger, admit_all}
use pullcord.Trigger.RateLimit.Window.{fresh, allows, window_all, Follow}
use pullcord.Trigger.RateLimit.Refinement.{admit_all-eq-window_all}

-- The calls that were let through, by the verdicts.
abbrev pub let_through : List Time → List Bool → List Time
let_through [] verdicts = []
let_through (t ∷ ts) [] = []
let_through (t ∷ ts) (v ∷ vs) = if v then t ∷ let_through ts vs else let_through ts vs

-- Whether `s` lies in the period that begins at `t`, both ends included.
abbrev pub inside : Duration → Time → Time → Bool
inside period t s = not (after t s) && not (after s (t +ℤ period))

module _ (max : ℕ) (period : Duration) where
  abbrev count_inside : Time → List Time → ℕ
  count_inside t l = length (keep (inside period t) l)

  -- At a call inside the period of `t`, what passed inside it is still fresh.
  fresh-inside :
      (t now s : Time)
      → inside period t now ≡ true
      → inside period t s ≡ true
      → fresh period now s ≡ true
  fresh-inside t now s h k = ground (arith, +ℤ_parts t period, +ℤ_parts s period)

  count_inside-le :
      (t now : Time) (l : List Time)
      → inside period t now ≡ true
      → count_inside t l ≤ length (keep (fresh period now) l)
  count_inside-le t now [] h = omega arith
  count_inside-le t now (s ∷ l) h = elim (Bool-cases (inside period t s)) [
    | inl here ↦ rw (here, fresh-inside t now s h here) (omega (arith, count_inside-le t now l h))
    | inr there ↦ elim (Bool-cases (fresh period now s)) [
      | inl young ↦ rw (there, young) (omega (arith, count_inside-le t now l h))
      | inr old ↦ rw (there, old) (count_inside-le t now l h)
    ]
  ]

  allows_room :
      (t now : Time) (passed : List Time)
      → inside period t now ≡ true
      → allows max period passed now ≡ true
      → count_inside t passed < max
  allows_room t now passed h a =
      let below = count_inside-le t now passed h in
      let room : length (keep (fresh period now) passed) < max = ground (arith) in omega arith

  count_inside-append :
      (t now : Time) (passed : List Time)
      → allows max period passed now ≡ true
      → count_inside t passed ≤ max
      → count_inside t (passed ++ now ∷ []) ≤ max
  count_inside-append t now passed a h = elim (Bool-cases (inside period t now)) [
    | inl here ↦
        rw
          (
            keep-append (inside period t) passed (now ∷ []),
            here,
            length-append (keep (inside period t) passed) (now ∷ []),
          )
          (omega (arith, allows_room t now passed here a))
    | inr there ↦ rw (keep-append (inside period t) passed (now ∷ []), there, append-nil) h
  ]

  window_bound :
      (t : Time) (passed times : List Time)
      → count_inside t passed ≤ max
      → count_inside t (passed ++ let_through times (window_all max period passed times).1) ≤ max
  unfolding window_all
  window_bound t passed [] h = rw append-nil h
  window_bound t passed (now ∷ times) h = elim (Bool-cases (allows max period passed now)) [
    | inl grant ↦ rw grant (
        rw
          (← append_assoc passed (now ∷ [])
            (let_through times (window_all max period (passed ++ now ∷ []) times).1))
          (window_bound t (passed ++ now ∷ []) times (count_inside-append t now passed grant h)))
    | inr deny ↦ rw deny (window_bound t passed times h)
  ]

-- A trigger with a positive limit, called at times that do not decrease and lie past the period,
-- lets at most `max` calls through in any period of time.
pub rate_bound {ℓ} :
    {H : Type ℓ} (g : H) (max : ℕ) (period : Duration) (start : Time) (times : List Time) (t : Time)
    → 0 < max
    → zero_time +ℤ period <ℤ start
    → zero_time ≤ℤ start
    → Follow start times
    → length (
        keep
          (inside period t)
          (let_through times (admit_all (new_rate_limit_trigger g max period) times).1))
      ≤ max
rate_bound g max period start times t m h z f =
    rw (admit_all-eq-window_all g max period start times m h z f)
      (window_bound max period t [] times (omega arith))
