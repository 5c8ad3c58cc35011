-- ===== src/Authentication/Session/Revisit.antt =====
-- authentication/minsession.go: a first request, and the next one with the cookie that it was given.
use pullcord.Base.{
  ℕ, ◌<◌, Bool, true, false, ◌≡◌, ◌≢◌, refl, sym, ap, ◌∙◌, inl, inr, none, some, List, [], ◌∷◌,
  ◌++◌, String, lookup, lookup-insert, entries, eq_iff, arith, All,
}
use pullcord.Authentication.Names.{
  cookie_name_pattern, is_literal, matches_cookie_name, matches-cookie_name, size-hex_pos,
}
use pullcord.Authentication.Session.{
  Cookie, Handler, Masking, Library, Masked, masked, mask_cookie, mask_cookies, mask_with,
  cookie_mask, start, adopt, is_valid, get_session, get_value, set_value, Value, register,
  assure_table_initialized,
}
use pullcord.Authentication.Session.Pattern.{MatchesLiterals}
use pullcord.Authentication.Session.Mask.{looped, cookie_mask-Returned}
use pullcord.Authentication.Session.Generation.{FillsSlices, IsGenerated, gen_cookie-IsGenerated}
use pullcord.Authentication.Session.Allocation.{
  IsAllocated, get_session-IsAllocated, set_value-IsAllocated, cookie_mask-IsAllocated,
}

-- A cookie that opens the session at `a`: the handler's pattern compiles, and matches its name.
pub record Opens (lib : Library) (h : Handler) (a : ℕ) (c : Cookie) : Type 0 where
  pub regex : String → Bool
  pub compiled : lib.compile (cookie_name_pattern h.name) ≡ some regex
  pub recognised : regex c.name ≡ true
  pub listed : lookup c.name (entries h.table) ≡ some a
  pub value : c.value ≡ (h.core (h.core_of a)).cvalue
  pub not_empty : c.value ≢ ""

valid_of_Opens :
    (lib : Library) (h : Handler) (a : ℕ) (c : Cookie) → Opens lib h a c → is_valid c a h ≡ true
valid_of_Opens lib h a c o =
    ground
      (arith, o.value, o.not_empty, eq_iff c.value "", eq_iff c.value (h.core (h.core_of a)).cvalue)

pub get_session-Opens :
    (lib : Library) (h : Handler) (a : ℕ) (c : Cookie)
    → IsAllocated h
    → Opens lib h a c
    → Opens lib (get_session h).1 a c
unfolding get_session
get_session-Opens lib h a c v o = record {
  regex = o.regex;
  compiled = o.compiled;
  recognised = o.recognised;
  listed = o.listed;
  value = ground (arith, o.value, v.listed c.name a o.listed, v.cores a);
  not_empty = o.not_empty;
}

pub mask_one :
    (lib : Library) (fuel a b : ℕ) (c : Cookie) (h : Handler) (k : ℕ)
    → Opens lib h a c
    → cookie_mask lib fuel b (c ∷ []) h k ≡ (masked [] [], adopt b a h, k)
unfolding cookie_mask mask_with mask_cookies mask_cookie
mask_one lib fuel a b c h k o =
    rw (cookie_mask, o.compiled, mask_with, o.recognised, o.listed, valid_of_Opens lib h a c o) refl

pub adopted_values :
    (h : Handler) (a : ℕ) (key : String)
    → IsAllocated h
    → a < h.next
    → get_value (get_session h).0 key (adopt (get_session h).0 a (get_session h).1)
      ≡ get_value a key h
unfolding get_value get_session adopt
adopted_values h a key v l = ground (arith, v.cores a)

-- A new session that is given the cookie of an established one reads the established values under
-- every key. No cookie is forwarded and none is set.
pub revisit :
    (lib : Library) (fuel a : ℕ) (c : Cookie) (h : Handler) (k : ℕ) (key : String)
    → IsAllocated h
    → Opens lib h a c
    → let (b, h') = get_session h in
      let (r, h'', k') = cookie_mask lib fuel b (c ∷ []) h' k in
      (r ≡ masked [] []) × (get_value b key h'' ≡ get_value a key h)
revisit lib fuel a c h k key v o =
    let (b, h') = get_session h in
    let once = mask_one lib fuel a b c h' k (get_session-Opens lib h a c v o) in
    (
      ap (λ (r : Masked × Handler × ℕ). r.0) once,
      ap (λ (r : Masked × Handler × ℕ). get_value b key r.1) once
          ∙ adopted_values h a key v (v.listed c.name a o.listed),
    )

-- The loop over cookies that are not the handler's.
record Untouched (re : String → Bool) (h : Handler) (m : Masking) : Type 0 where
  handler : m.handler ≡ h
  regex : m.regex ≡ re
  needed : m.new_cookie_needed ≡ true
  set : m.set ≡ []

mask_cookies-Untouched :
    (re : String → Bool) (a : ℕ) (cs : List Cookie) (h : Handler) (m : Masking)
    → Untouched re h m
    → All (λ c. re c.name ≡ false) cs
    → Untouched re h (mask_cookies a cs m)
unfolding mask_cookies mask_cookie
mask_cookies-Untouched re a [] h m u f = u
mask_cookies-Untouched re a (c ∷ cs) h m u f =
    let other : m.regex c.name ≡ false = ap (λ (r : String → Bool). r c.name) u.regex ∙ f.0 in
    mask_cookies-Untouched re a cs h (mask_cookie a c m)
      (rw other (record { handler = u.handler; regex = u.regex; needed = u.needed; set = u.set }))
      f.1

register-Opens :
    (lib : Library) (h : Handler) (a : ℕ) (c : Cookie) (re : String → Bool)
    → lib.compile (cookie_name_pattern h.name) ≡ some re
    → ((s : String) → re s ≡ matches_cookie_name h.name s)
    → IsGenerated h c
    → Opens lib (register a c (assure_table_initialized h)) a c
register-Opens lib h a c re q exact g = record {
  regex = re;
  compiled = q;
  recognised =
      exact c.name ∙ rw g.name (matches-cookie_name h.name g.name_bytes g.name_range g.name_length);
  listed = ground (arith, lookup-insert c.name c.name a (entries h.table), eq_iff c.name c.name);
  value = ground arith;
  not_empty = rw g.value (size-hex_pos g.value_bytes (omega (arith, g.value_length)));
}

-- The pattern of a literal name that has compiled.
compiled_exact :
    (lib : Library) (h : Handler) (re : String → Bool)
    → MatchesLiterals lib
    → is_literal h.name ≡ true
    → lib.compile (cookie_name_pattern h.name) ≡ some re
    → (s : String) → re s ≡ matches_cookie_name h.name s
compiled_exact lib h re law plain q s =
    let (re', q', exact) = law.matches h.name plain in
    let same : re ≡ re' = cc (q, q') in ap (λ (r : String → Bool). r s) same ∙ exact s

foreign_to :
    (re : String → Bool) (name : String) (cs : List Cookie)
    → ((s : String) → re s ≡ matches_cookie_name name s)
    → All (λ c. matches_cookie_name name c.name ≡ false) cs
    → All (λ c. re c.name ≡ false) cs
foreign_to re name [] exact f = tt
foreign_to re name (c ∷ cs) exact f = (exact c.name ∙ f.0, foreign_to re name cs exact f.1)

start-Untouched :
    (re : String → Bool) (a : ℕ) (cs : List Cookie) (h : Handler)
    → ((s : String) → re s ≡ matches_cookie_name h.name s)
    → All (λ c. matches_cookie_name h.name c.name ≡ false) cs
    → Untouched re h (mask_cookies a cs (start re h))
start-Untouched re a cs h exact f =
    mask_cookies-Untouched re a cs h (start re h)
      (record { handler = refl; regex = refl; needed = refl; set = refl })
      (foreign_to re h.name cs exact f)

-- A request to a handler with a literal name that brings no cookie of the handler's, when its
-- `CookieMask` returns, is given exactly one cookie, and that opens its session, over a source that
-- fills slices and a `regexp` that matches literal names as documented.
pub first_visit :
    (lib : Library) (fuel a : ℕ) (incoming : List Cookie) (h : Handler) (k : ℕ) (f s : List Cookie)
    (h' : Handler) (k' : ℕ)
    → MatchesLiterals lib
    → is_literal h.name ≡ true
    → FillsSlices lib.read
    → All (λ c. matches_cookie_name h.name c.name ≡ false) incoming
    → cookie_mask lib fuel a incoming h k ≡ (masked f s, h', k')
    → (c : Cookie) × (s ≡ c ∷ []) × Opens lib h' a c
first_visit lib fuel a incoming h k f s h' k' law plain fills foreign e =
    let (re, q, returned) = cookie_mask-Returned lib fuel a incoming h k f s h' k' e in
    let exact = compiled_exact lib h re law plain q in
    let u = start-Untouched re a incoming h exact foreign in
    elim returned [
      | inl (done, _, _, _) ↦ absurd (cc u.needed)
      | inr (c, err, _, made, _, set, left) ↦
          let g =
            gen_cookie-IsGenerated lib fills fuel (looped lib re fuel a incoming h k).handler none k
              c err made in
          (
            c,
            set ∙ ap (λ l. l ++ c ∷ []) u.set,
            rw left (
                register-Opens lib (looped lib re fuel a incoming h k).handler a c re
                  (ap (λ (x : Handler). lib.compile (cookie_name_pattern x.name)) u.handler ∙ q)
                  (λ n.
                    exact n ∙ ap (λ (x : Handler). matches_cookie_name x.name n) (sym u.handler))
                  g),
          )
    ]

-- And its session keeps the values that it has.
pub first_visit_values :
    (lib : Library) (fuel a : ℕ) (incoming : List Cookie) (h : Handler) (k : ℕ) (f s : List Cookie)
    (h' : Handler) (k' : ℕ) (key : String)
    → MatchesLiterals lib
    → is_literal h.name ≡ true
    → All (λ c. matches_cookie_name h.name c.name ≡ false) incoming
    → cookie_mask lib fuel a incoming h k ≡ (masked f s, h', k')
    → get_value a key h' ≡ get_value a key h
unfolding get_value
first_visit_values lib fuel a incoming h k f s h' k' key law plain foreign e =
    let (re, q, returned) = cookie_mask-Returned lib fuel a incoming h k f s h' k' e in
    let u = start-Untouched re a incoming h (compiled_exact lib h re law plain q) foreign in
    elim returned [
      | inl (done, _, _, _) ↦ absurd (cc u.needed)
      | inr (c, err, _, made, _, set, left) ↦ rw (left, u.handler) (ground arith)
    ]

-- A new session has no values.
pub get_value-get_session :
    (h : Handler) (key : String) → get_value (get_session h).0 key (get_session h).1 ≡ none
unfolding get_value get_session lookup
get_value-get_session h key = ground arith

pub get_value-set_value_other :
    (h : Handler) (a : ℕ) (key j : String) (x : Value)
    → key ≢ j
    → get_value a j (set_value a key x h) ≡ get_value a j h
unfolding get_value set_value
get_value-set_value_other h a key j x ne =
    ground (arith, lookup-insert key j x (h.core (h.core_of a)).values, eq_iff key j, ne)

pub set_value-Opens :
    (lib : Library) (h : Handler) (a : ℕ) (key : String) (x : Value) (c : Cookie)
    → Opens lib h a c
    → Opens lib (set_value a key x h) a c
unfolding set_value
set_value-Opens lib h a key x c o = record {
  regex = o.regex;
  compiled = o.compiled;
  recognised = o.recognised;
  listed = o.listed;
  value = ground (arith, o.value);
  not_empty = o.not_empty;
}

pub get_value-set_value_self :
    (h : Handler) (a : ℕ) (key : String) (x : Value)
    → get_value a key (set_value a key x h) ≡ some x
unfolding get_value set_value
get_value-set_value_self h a key x =
    ground (arith, lookup-insert key key x (h.core (h.core_of a)).values, eq_iff key key)

-- In a handler with a literal name and sessions that are in use, a value set after a first request,
-- which brings no cookie of the handler's, is what the session of a second request reads, if that
-- brings the cookies that the first one was given, over a source that fills slices and a `regexp`
-- that matches literal names as documented.
pub set_then_revisit :
    (lib : Library) (fuel fuel' : ℕ) (incoming : List Cookie) (h : Handler) (k i : ℕ)
    (f s : List Cookie) (h' : Handler) (k' : ℕ) (key : String) (x : Value)
    → MatchesLiterals lib
    → is_literal h.name ≡ true
    → FillsSlices lib.read
    → IsAllocated h
    → All (λ c. matches_cookie_name h.name c.name ≡ false) incoming
    → cookie_mask lib fuel (get_session h).0 incoming (get_session h).1 k ≡ (masked f s, h', k')
    → let (b, again) = get_session (set_value (get_session h).0 key x h') in
      let (r, last, i') = cookie_mask lib fuel' b s again i in
      (r ≡ masked [] []) × (get_value b key last ≡ some x)
set_then_revisit lib fuel fuel' incoming h k i f s h' k' key x law plain fills v foreign e =
    let a = (get_session h).0 in
    let h₁ = (get_session h).1 in
    let (c, one, opens) =
      first_visit lib fuel a incoming h₁ k f s h' k' law (unfold get_session in plain) fills
        (unfold get_session in foreign) e in
    let v' = set_value-IsAllocated a key x h' (
      cookie_mask-IsAllocated lib fuel a incoming h₁ k f s h' k' (unfold get_session in omega arith)
        (get_session-IsAllocated h v) e) in
    let (r, values) =
      revisit lib fuel' a c (set_value a key x h') i key v'
        (set_value-Opens lib h' a key x c opens) in
    rw one (r, values ∙ get_value-set_value_self h' a key x)
