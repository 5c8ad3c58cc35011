-- ===== src/Config/Build/Results.antt =====
-- config/config.go: what holds of the result of an action and of the state that it leaves.
use pullcord.Base.{Error}
use pullcord.Config.Loader.{Loaded, loaded, failed, out_of_fuel}
use pullcord.Config.Build.{Action, and_then}

-- What holds of the result of the first action passes to the whole: over what comes after, or as it
-- is on an error.
pub and_then-Holds :
    {S A B : Type 0} (P : Loaded A × S → Type 0) (Q : Loaded B × S → Type 0) (x : Loaded A × S)
    (f : A → Action S B)
    → P x
    → ((a : A) (s : S) → P (loaded a, s) → Q (f a s))
    → ((e : Error) (s : S) → P (failed e, s) → Q (failed e, s))
    → ((s : S) → P (out_of_fuel, s) → Q (out_of_fuel, s))
    → Q (and_then x f)
and_then-Holds P Q (loaded a, s) f p after on_error on_end = after a s p
and_then-Holds P Q (failed e, s) f p after on_error on_end = on_error e s p
and_then-Holds P Q (out_of_fuel, s) f p after on_error on_end = on_end s p
