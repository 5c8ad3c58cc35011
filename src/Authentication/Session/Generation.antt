-- ===== src/Authentication/Session/Generation.antt =====
-- authentication/minsession.go: what `genCookie` generates, given that `crypto/rand` fills what it
-- reads into.
use pullcord.Base.{
  ℕ, zero, suc, ◌≡◌, refl, sym, inl, inr, Option, none, some, List, Error, rng_collision, lookup,
  entries, Option-cases, length, All, replicate, length-replicate, replicate-All, ap, ◌∙◌,
}
use pullcord.Authentication.Names.{cookie_name, hex, IsByte}
use pullcord.Authentication.Session.{
  Cookie, Handler, Library, Reads, Rand, bytes, generated, unreadable, gen_value, gen_cookie,
}

-- What `crypto/rand` documents: a read that succeeds fills the whole slice.
pub record FillsSlices (reads : Reads) : Type 0 where
  pub filled :
      (k size : ℕ) (bs : List ℕ) → reads k size ≡ bytes bs → (length bs ≡ size) × All IsByte bs

-- A source that fills each slice with one byte.
pub repeated-FillsSlices :
    (f : ℕ → ℕ) → ((k : ℕ) → IsByte (f k)) → FillsSlices (λ k size. bytes (replicate size (f k)))
repeated-FillsSlices f h = record {
  filled = λ k size bs e.
      let same : replicate size (f k) ≡ bs = cc in
      (
        ap length (sym same) ∙ length-replicate size (f k),
        rw (← same) (replicate-All IsByte size (f k) (h k)),
      );
}

-- What a generated cookie looks like.
pub record IsGenerated (h : Handler) (c : Cookie) : Type 0 where
  pub name_bytes : List ℕ
  pub name : c.name ≡ cookie_name h.name name_bytes
  pub name_length : length name_bytes ≡ 32
  pub name_range : All IsByte name_bytes
  pub value_bytes : List ℕ
  pub value : c.value ≡ hex value_bytes
  pub value_length : length value_bytes ≡ 128
  pub is_free : lookup c.name (entries h.table) ≡ none

cookie_fields :
    {c c' : Cookie} {e e' : Option Error}
    → generated c e ≡ generated c' e'
    → (c.name ≡ c'.name) × (c.value ≡ c'.value)
cookie_fields h = (cc, cc)

module _ (lib : Library) (fills : FillsSlices lib.read) where
  gen_value-IsGenerated :
      (h : Handler) (nbytes : List ℕ) (o : Option Error) (k : ℕ) (c : Cookie) (err : Option Error)
      (r : Rand)
      → lib.read k 128 ≡ r
      → length nbytes ≡ 32
      → All IsByte nbytes
      → lookup (cookie_name h.name nbytes) (entries h.table) ≡ none
      → gen_value lib h (cookie_name h.name nbytes) o k ≡ generated c err
      → IsGenerated h c
  unfolding gen_value
  gen_value-IsGenerated h nbytes o k c err (unreadable x) q l b free e =
      absurd (cc (rw (q, gen_value) at e))
  gen_value-IsGenerated h nbytes o k c err (bytes vbytes) q l b free e =
      let r = rw (q, gen_value) at e in
      let (vl, vb) = fills.filled k 128 vbytes q in
      let named : c.name ≡ cookie_name h.name nbytes = sym (cookie_fields r).0 in
      record {
        name_bytes = nbytes;
        name = named;
        name_length = l;
        name_range = b;
        value_bytes = vbytes;
        value = sym (cookie_fields r).1;
        value_length = vl;
        is_free = rw named free;
      }

  gen_cookie-step :
      (fuel : ℕ) (h : Handler) (o : Option Error) (k : ℕ) (c : Cookie) (err : Option Error)
      (r : Rand)
      → lib.read k 32 ≡ r
      → ((gen_cookie lib fuel h (some rng_collision) (suc k)).0 ≡ generated c err → IsGenerated h c)
      → (gen_cookie lib (suc fuel) h o k).0 ≡ generated c err
      → IsGenerated h c
  unfolding gen_cookie
  gen_cookie-step fuel h o k c err (unreadable x) q ih e = absurd (cc (rw (q, gen_cookie) at e))
  gen_cookie-step fuel h o k c err (bytes nbytes) q ih e =
      let (l, b) = fills.filled k 32 nbytes q in
      elim (Option-cases (lookup (cookie_name h.name nbytes) (entries h.table))) [
        | inr (x, taken) ↦ ih (rw (q, gen_cookie, taken) at e)
        | inl free ↦
            gen_value-IsGenerated h nbytes o (suc k) c err (lib.read (suc k) 128) refl l b free
              (rw (q, gen_cookie, free) at e)
      ]

  pub gen_cookie-IsGenerated :
      (fuel : ℕ) (h : Handler) (o : Option Error) (k : ℕ) (c : Cookie) (err : Option Error)
      → (gen_cookie lib fuel h o k).0 ≡ generated c err
      → IsGenerated h c
  unfolding gen_cookie
  gen_cookie-IsGenerated zero h o k c err e = absurd (cc)
  gen_cookie-IsGenerated (suc fuel) h o k c err e =
      gen_cookie-step fuel h o k c err (lib.read k 32) refl
        (gen_cookie-IsGenerated fuel h (some rng_collision) (suc k) c err) e
