-- ===== src/Authentication/Session/Return.antt =====
-- authentication/minsession.go: when `genCookie` and `CookieMask` return.
use pullcord.Base.{
  Bool, ℕ, zero, suc, ◌+◌, ◌<◌, ◌++◌, pos, true, false, ◌≡◌, refl, ap, ◌∙◌, inl, inr, Option, none,
  some, List, [], ◌∷◌, String, Error, rng_collision, lookup, entries, Bool-cases, Option-cases,
  arith,
}
use pullcord.Authentication.Names.{cookie_name, cookie_name_pattern, hex}
use pullcord.Authentication.Session.{
  Cookie, Handler, Masking, Library, Generated, bytes, generated, gen_value, gen_cookie, masked,
  mask_cookie, mask_cookies, mask_with, cookie_mask, start,
}
use pullcord.Authentication.Session.Mask.{mask_cookie-Case}
use pullcord.Authentication.Session.Forwarding.{name-Case}
use pullcord.Authentication.Session.Isolation.{Keeps, Keeps-Case, Keeps-refl, Keeps-trans}

-- Every read succeeds.
abbrev pub IsReadable : Library → Type 0
IsReadable lib = (k size : ℕ) → (bs : List ℕ) × (lib.read k size ≡ bytes bs)

-- The read `j` reads after the k-th gives a name that is not in the table.
abbrev pub IsFree : Library → Handler → ℕ → ℕ → Type 0
IsFree lib h k j =
    (bs : List ℕ) × (lib.read (k + j) 32 ≡ bytes bs)
    × (lookup (cookie_name h.name bs) (entries h.table) ≡ none)

abbrev pub fresh_cookie : Handler → String → List ℕ → Cookie
fresh_cookie h fresh vs = record {
  name = fresh;
  value = hex vs;
  path = h.path;
  domain = h.domain;
  max_age = pos 7200;
  secure = false;
  http_only = true;
}

module _ (lib : Library) (reads : IsReadable lib) where
  value_made :
      (h : Handler) (fresh : String) (o : Option Error) (k : ℕ)
      → (vs : List ℕ) × (gen_value lib h fresh o k ≡ generated (fresh_cookie h fresh vs) o)
  unfolding gen_value
  value_made h fresh o k = let (vs, q) = reads k 128 in (vs, rw (gen_value, q) refl)

  -- A name that is free is used at once.
  pub free_made :
      (fuel : ℕ) (h : Handler) (o : Option Error) (k : ℕ) (ns : List ℕ)
      → lib.read k 32 ≡ bytes ns
      → lookup (cookie_name h.name ns) (entries h.table) ≡ none
      → (vs : List ℕ) × (gen_cookie lib (suc fuel) h o k
          ≡ (generated (fresh_cookie h (cookie_name h.name ns) vs) o, suc (suc k)))
  unfolding gen_cookie
  free_made fuel h o k ns r good =
      let (vs, made) = value_made h (cookie_name h.name ns) o (suc k) in
      (vs, rw (gen_cookie, r, good, made) refl)

  gen_cookie_returns :
      (fuel j : ℕ) (h : Handler) (o : Option Error) (k : ℕ)
      → j < fuel
      → IsFree lib h k j
      → (c : Cookie) × (err : Option Error) × ((gen_cookie lib fuel h o k).0 ≡ generated c err)
  unfolding gen_cookie
  gen_cookie_returns zero j h o k l f = absurd (omega arith)
  gen_cookie_returns (suc fuel) zero h o k l (bs, q, free) =
      let same : k + 0 ≡ k = omega arith in
      let (vs, made) = free_made fuel h o k bs (rw (← same) q) free in
      (fresh_cookie h (cookie_name h.name bs) vs, o, ap (λ (g : Generated × ℕ). g.0) made)
  gen_cookie_returns (suc fuel) (suc j) h o k l (bs, q, free) =
      let (ns, r) = reads k 32 in
      elim (Option-cases (lookup (cookie_name h.name ns) (entries h.table))) [
        | inl good ↦
            let (vs, made) = free_made fuel h o k ns r good in
            (fresh_cookie h (cookie_name h.name ns) vs, o, ap (λ (g : Generated × ℕ). g.0) made)
        | inr (b, taken) ↦
            let same : k + suc j ≡ suc k + j = omega arith in
            let (c, err, made) =
              gen_cookie_returns fuel j h (some rng_collision) (suc k) (omega arith)
                (bs, rw (← same) q, free) in
            (c, err, rw (gen_cookie, r, taken) made)
      ]

-- The loop leaves the name and adds nothing to the table.
pub loop-Keeps :
    (a : ℕ) (cs : List Cookie) (m : Masking)
    → Keeps a m.handler (mask_cookies a cs m).handler
      × ((mask_cookies a cs m).handler.name ≡ m.handler.name)
unfolding mask_cookies
loop-Keeps a [] m = (Keeps-refl a m.handler, refl)
loop-Keeps a (c ∷ cs) m =
    let m' = mask_cookie a c m in
    let one = mask_cookie-Case a c m in
    let (rest, name) = loop-Keeps a cs m' in
    (
      Keeps-trans a m.handler m'.handler (mask_cookies a cs m').handler (Keeps-Case a c m one) rest,
      name ∙ name-Case a c m one,
    )

still_free :
    (h h' : Handler) (name : String)
    → ((b : ℕ) → lookup name (entries h'.table) ≡ some b → lookup name (entries h.table) ≡ some b)
    → lookup name (entries h.table) ≡ none
    → lookup name (entries h'.table) ≡ none
still_free h h' name sub free = elim (Option-cases (lookup name (entries h'.table))) [
  | inl none_there ↦ none_there
  | inr (b, there) ↦ absurd (cc (sub b there))
]

still-IsFree :
    (lib : Library) (a : ℕ) (h h' : Handler) (k j : ℕ)
    → Keeps a h h'
    → h'.name ≡ h.name
    → IsFree lib h k j
    → IsFree lib h' k j
still-IsFree lib a h h' k j s n (bs, q, free) =
    (bs, q, rw n (still_free h h' (cookie_name h.name bs) (s.listed (cookie_name h.name bs)) free))

-- `CookieMask` returns, if the pattern of its handler's name compiles, every read succeeds and one
-- of the first reads, of which there are as many as its fuel, gives a name that is not in the table
-- at the start.
pub cookie_mask_returns :
    (lib : Library) (fuel a : ℕ) (incoming : List Cookie) (h : Handler) (k j : ℕ)
    (re : String → Bool)
    → lib.compile (cookie_name_pattern h.name) ≡ some re
    → IsReadable lib
    → j < fuel
    → IsFree lib h k j
    → (f : List Cookie) × (s : List Cookie) × ((cookie_mask lib fuel a incoming h k).0 ≡ masked f s)
unfolding cookie_mask mask_with
cookie_mask_returns lib fuel a incoming h k j re q reads l free =
    let m = mask_cookies a incoming (start re h) in
    let (keeps, name) = loop-Keeps a incoming (start re h) in
    elim (Bool-cases m.new_cookie_needed) [
      | inr done ↦ (m.forwarded, m.set, rw (cookie_mask, q, mask_with, done) refl)
      | inl need ↦
          let (c, err, made) =
            gen_cookie_returns lib reads fuel j m.handler none k l
              (still-IsFree lib a h m.handler k j keeps name free) in
          (m.forwarded, m.set ++ c ∷ [], rw (cookie_mask, q, mask_with, need, made) refl)
    ]
