-- ===== src/Trigger/RateLimit/Refinement.antt =====
-- trigger/ratelimit.go: `RateLimitTrigger` against the sliding window, call by call.
use pullcord.Base.{
  ℕ, suc, ◌<◌, true, false, ◌≡◌, refl, sym, ap, ◌∙◌, inl, inr, Option, none, some, List, [], ◌∷◌,
  ◌++◌, Time, Duration, zero_time, ◌+ℤ◌, ◌≤ℤ◌, ◌<ℤ◌, leb, if◌then◌else◌, length, replicate, keep,
  length-append, keep-append, arith, Bool-cases,
}
use pullcord.Trigger.RateLimit.{RateLimitTrigger, expire, new_rate_limit_trigger, admit, admit_all}
use pullcord.Trigger.RateLimit.Window.{
  fresh, allows, window_all, Follow, Chain, Chain-append, Chain-right, Chain-keep, Chain-replicate,
  fresh_earlier, expire-eq-keep,
}

-- The stored slice and the times that were let through look the same from `last` on.
abbrev Tracks : Duration → Option (List Time) → List Time → Time → Type 0
Tracks period none passed last = passed ≡ []
Tracks period (some ts) passed last =
    (0 < length passed)
    × Chain zero_time ts last
    × ((now : Time) → last ≤ℤ now → keep (fresh period now) ts ≡ keep (fresh period now) passed)

-- A second selection at a later time sees no difference.
keep-fresh_twice :
    (period now later : Time) (ts : List Time)
    → now ≤ℤ later
    → keep (fresh period later) (keep (fresh period now) ts) ≡ keep (fresh period later) ts
keep-fresh_twice period now later [] h = refl
keep-fresh_twice period now later (t ∷ ts) h =
    ground (arith, keep-fresh_twice period now later ts h, fresh_earlier period now later t h)

keep-fresh_zeros :
    (period now : Time) (n : ℕ)
    → zero_time +ℤ period <ℤ now
    → keep (fresh period now) (replicate n zero_time) ≡ []
keep-fresh_zeros period now ℕ.zero h = refl
keep-fresh_zeros period now (suc n) h = ground (arith, keep-fresh_zeros period now n h)

-- Dropping the old times keeps the slice in step.
expire-Tracks :
    (period : Duration) (ts passed : List Time) (last now : Time)
    → Tracks period (some ts) passed last
    → last ≤ℤ now
    → Tracks period (some (expire now period ts)) passed now
expire-Tracks period ts passed last now (n, c, same) le =
    rw (expire-eq-keep period now zero_time ts last c) (
      n,
      Chain-keep (fresh period now) zero_time ts now (Chain-right zero_time ts last now c le),
      λ later h. keep-fresh_twice period now later ts h ∙ same later (omega arith),
    )

-- So does storing the time of a call.
append-Tracks :
    (period : Duration) (ts passed : List Time) (now : Time)
    → Tracks period (some ts) passed now
    → Tracks period (some (ts ++ now ∷ [])) (passed ++ now ∷ []) now
append-Tracks period ts passed now (n, c, same) = (
  omega (arith, length-append passed (now ∷ [])),
  Chain-append zero_time ts now now c (omega arith),
  λ later h.
      keep-append (fresh period later) ts (now ∷ [])
      ∙ ap (λ l. l ++ keep (fresh period later) (now ∷ [])) (same later h)
      ∙ sym (keep-append (fresh period later) passed (now ∷ [])),
)

-- The number of times that the code compares with the limit is the window's.
length-expire :
    (period : Duration) (ts passed : List Time) (last now : Time)
    → Tracks period (some ts) passed last
    → last ≤ℤ now
    → length (expire now period ts) ≡ length (keep (fresh period now) passed)
length-expire period ts passed last now (n, c, same) le =
    rw (expire-eq-keep period now zero_time ts last c) (ap length (same now le))

module _ {ℓ} {H : Type ℓ} (g : H) (max : ℕ) (period : Duration) where
  abbrev limiter : Option (List Time) → RateLimitTrigger H
  limiter o = record {
    guarded_trigger = g;
    max_allowed = max;
    period = period;
    previous_triggers = o;
  }

  -- What one call does: its verdict is the window's, and the new slice tracks the new times.
  abbrev Follows : Option (List Time) → List Time → Time → Type ℓ
  Follows o passed now =
      (o' : Option (List Time)) × ((admit now (limiter o)).0 ≡ limiter o')
      × ((admit now (limiter o)).1 ≡ allows max period passed now)
      × Tracks period o' (if allows max period passed now then passed ++ now ∷ [] else passed) now

  first-Follows :
      (now : Time) → 0 < max → zero_time +ℤ period <ℤ now → zero_time ≤ℤ now → Follows none [] now
  unfolding admit
  first-Follows now m h z =
      let grant : allows max period [] now ≡ true = ground arith in
      (
        some (replicate max zero_time ++ now ∷ []),
        refl,
        sym grant,
        rw grant (
          omega arith,
          Chain-append zero_time (replicate max zero_time) now now
              (Chain-replicate max zero_time now z) (omega arith),
          λ later le.
              keep-append (fresh period later) (replicate max zero_time) (now ∷ [])
              ∙ ap (λ l. l ++ keep (fresh period later) (now ∷ []))
                  (keep-fresh_zeros period later max (omega arith)),
        ),
      )

  refused-Follows :
      (ts passed : List Time) (last now : Time)
      → Tracks period (some ts) passed last
      → last ≤ℤ now
      → leb max (length (expire now period ts)) ≡ true
      → Follows (some ts) passed now
  unfolding admit
  refused-Follows ts passed last now t le full =
      let deny : allows max period passed now ≡ false =
        ground (arith, length-expire period ts passed last now t le) in
      (
        some (expire now period ts),
        rw full,
        rw (full, deny),
        rw deny (expire-Tracks period ts passed last now t le),
      )

  passed-Follows :
      (ts passed : List Time) (last now : Time)
      → Tracks period (some ts) passed last
      → last ≤ℤ now
      → leb max (length (expire now period ts)) ≡ false
      → Follows (some ts) passed now
  unfolding admit
  passed-Follows ts passed last now t le room =
      let grant : allows max period passed now ≡ true =
        ground (arith, length-expire period ts passed last now t le) in
      (
        some (expire now period ts ++ now ∷ []),
        rw room,
        rw (room, grant),
        rw grant (
            append-Tracks period (expire now period ts) passed now
              (expire-Tracks period ts passed last now t le)),
      )

  admit-Follows :
      (o : Option (List Time)) (passed : List Time) (last now : Time)
      → 0 < max
      → zero_time +ℤ period <ℤ last
      → zero_time ≤ℤ last
      → last ≤ℤ now
      → Tracks period o passed last
      → Follows o passed now
  admit-Follows none [] last now m h z le t = first-Follows now m (omega arith) (omega arith)
  admit-Follows none (x ∷ passed) last now m h z le t = absurd (cc)
  admit-Follows (some ts) passed last now m h z le t =
      elim (Bool-cases (leb max (length (expire now period ts)))) [
        | inl full ↦ refused-Follows ts passed last now t le full
        | inr room ↦ passed-Follows ts passed last now t le room
      ]

  admit_all-Tracks :
      (o : Option (List Time)) (passed : List Time) (last : Time) (times : List Time)
      → 0 < max
      → zero_time +ℤ period <ℤ last
      → zero_time ≤ℤ last
      → Tracks period o passed last
      → Follow last times
      → (admit_all (limiter o) times).1 ≡ (window_all max period passed times).1
  unfolding admit_all window_all
  admit_all-Tracks o passed last [] m h z t f = refl
  admit_all-Tracks o passed last (now ∷ times) m h z t f =
      let (o', state, verdict, t') = admit-Follows o passed last now m h z f.0 t in
      let ih =
        admit_all-Tracks o' (if allows max period passed now then passed ++ now ∷ [] else passed)
          now times m (omega arith) (omega arith) t' f.1 in
      rw (state, verdict) (ap (λ l. allows max period passed now ∷ l) ih)

-- From a new trigger with a positive limit on, called at times that do not decrease and lie past
-- the period, each call is let through exactly when the sliding window allows it: when fewer times
-- than the limit, of those let through, are still inside the period.
pub admit_all-eq-window_all {ℓ} :
    {H : Type ℓ} (g : H) (max : ℕ) (period : Duration) (start : Time) (times : List Time)
    → 0 < max
    → zero_time +ℤ period <ℤ start
    → zero_time ≤ℤ start
    → Follow start times
    → (admit_all (new_rate_limit_trigger g max period) times).1 ≡ (window_all max period [] times).1
unfolding new_rate_limit_trigger
admit_all-eq-window_all g max period start times m h z f =
    admit_all-Tracks g max period none [] start times m h z refl f
