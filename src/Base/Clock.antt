-- ===== src/Base/Clock.antt =====
-- Go's `time`: a `Time` is the nanoseconds since the zero `Time`, and a `Duration` is signed.
use mathlib.Core.Bool.{Bool}
use pullcord.Base.Errors.{Error}
use pullcord.Base.Int.{ℤ, pos, ltb_ℤ}

abbrev pub Time : Type 0
Time = ℤ

abbrev pub Duration : Type 0
Duration = ℤ

-- `time.Time{}`
abbrev pub zero_time : Time
zero_time = pos 0

-- `t.After(u)`
abbrev pub after : Time → Time → Bool
after t u = ltb_ℤ u t

-- What `time.ParseDuration` returns.
pub data Parsed : Type 0 where
  parsed : Duration → Parsed
  bad_duration : Error → Parsed
