-- ===== src/Trigger/Handler/Decode.antt =====
-- trigger/compound.go: `CompoundTrigger.UnmarshalJSON`, after the JSON decoder has decoded the list
-- of resources, and what becomes of a trigger that it made.
use mathlib.Core.List.{append-nil, append_assoc}
use pullcord.Base.{
  ℕ, suc, ◌≡◌, sym, ◌∙◌, ap, Option, none, some, List, [], ◌∷◌, ◌++◌, map, Error,
  unexpected_resource_type, length, replicate, get_elem?, All, replicate-All, append-All,
  Option-cases, inl, inr,
}
use pullcord.Config.Resource.{Unmarshaled, as_trigger}
use pullcord.Trigger.Handler.{Handler, compound, World, Env, panicked, trigger_compound, trigger}

-- The loop: each trigger goes to the end of the slice, and any other resource ends the loop.
append_triggers : List Handler → List Unmarshaled → List Handler × Option Error
append_triggers ts [] = (ts, none)
append_triggers ts (u ∷ us) = elim (as_trigger u) [
  | some a ↦ append_triggers (ts ++ some a ∷ []) us
  | none ↦ (ts, some unexpected_resource_type)
]

-- The slice is made with the length of the list, so it begins with that many nil handlers.
pub unmarshal_compound : List Unmarshaled → List Handler × Option Error
unfolding append_triggers as_trigger
unmarshal_compound us = append_triggers (replicate (length us) none) us

append_triggers_all :
    (ts : List Handler) (refs : List ℕ)
    → append_triggers ts (map Unmarshaled.trigger refs) ≡ (ts ++ map some refs, none)
unfolding append_triggers as_trigger
append_triggers_all ts [] = ap (λ (l : List Handler). (l, none)) (sym (append-nil ts))
append_triggers_all ts (a ∷ refs) =
    append_triggers_all (ts ++ some a ∷ []) refs
    ∙ ap (λ (l : List Handler). (l, none)) (append_assoc ts (some a ∷ []) (map some refs))

-- A compound trigger decoded from one or more resources, all of them triggers, is decoded without
-- error, and its every call panics before any trigger is called.
pub decoded_compound_panics :
    (env : Env) (fuel a b : ℕ) (refs : List ℕ) (w : World)
    → get_elem? w.objects a
      ≡ some (compound (unmarshal_compound (map Unmarshaled.trigger (b ∷ refs))).0)
    → ((unmarshal_compound (map Unmarshaled.trigger (b ∷ refs))).1 ≡ none)
      × (trigger env (suc (suc fuel)) (some a) w ≡ (panicked, w))
unfolding unmarshal_compound trigger trigger_compound
decoded_compound_panics env fuel a b refs w h =
    let made =
      append_triggers_all (replicate (length (map Unmarshaled.trigger (b ∷ refs))) none)
        (b ∷ refs) in
    (ap (λ (r : List Handler × Option Error). r.1) made, rw (h, made))

append_triggers-All :
    (P : Handler → Type 0) (ts : List Handler) (us : List Unmarshaled)
    → All P ts
    → All (λ u. (a : ℕ) → as_trigger u ≡ some a → P (some a)) us
    → All P (append_triggers ts us).0
unfolding append_triggers
append_triggers-All P ts [] h each = h
append_triggers-All P ts (u ∷ us) h each = elim (Option-cases (as_trigger u)) [
  | inl other ↦ rw (append_triggers, other) h
  | inr (a, q) ↦
      rw (append_triggers, q)
        (append_triggers-All P (ts ++ some a ∷ []) us
          (append-All P ts (some a ∷ []) h (each.0 a q, tt)) each.1)
]

-- What holds of nil and of every trigger of the list holds of the handlers of a decoded compound
-- trigger.
pub unmarshal_compound-All :
    (P : Handler → Type 0) (us : List Unmarshaled)
    → P none
    → All (λ u. (a : ℕ) → as_trigger u ≡ some a → P (some a)) us
    → All P (unmarshal_compound us).0
unfolding unmarshal_compound
unmarshal_compound-All P us nil each =
    append_triggers-All P (replicate (length us) none) us (replicate-All P (length us) none nil)
      each
