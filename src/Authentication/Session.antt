-- ===== src/Authentication/Session.antt =====
-- authentication/minsession.go: `MinSessionHandler`, `MinSession` and the cores that sessions share.
-- Sessions and cores are pointers: a session is an address, a core is an address, and a session that
-- adopts an established one comes to share its core.
pub mod Mask
pub mod Pattern
pub mod Forwarding
pub mod Isolation
pub mod Generation
pub mod Allocation
pub mod Revisit
pub mod Return
pub mod Calm
pub mod Values
use text.Mathlib.Text.{◌==◌ as str_eq}
use pullcord.Base.{
  ℕ, zero, suc, ◌+◌, Bool, true, false, not, ◌&&◌, Option, none, some, List, [], ◌∷◌, ◌++◌, String,
  ℤ, pos, negsuc, Map, lookup, insert, delete, entries, Error, rng_collision, if◌then◌else◌, ◌==◌,
}
use pullcord.Authentication.Names.{cookie_name_pattern, cookie_name, hex}

-- A Go value of type `interface{}`, as far as the program looks.
pub data Value : Type 0 where
  bool : Bool → Value
  string : String → Value
  opaque : ℕ → Value

pub record Core : Type 0 where
  pub cvalue : String
  pub values : Map Value

abbrev pub empty_core : Core
empty_core = record { cvalue = ""; values = [] }

pub record Cookie : Type 0 where
  pub name : String
  pub value : String
  pub path : String
  pub domain : String
  pub max_age : ℤ
  pub secure : Bool
  pub http_only : Bool

-- The handler with what its sessions point to: the core of each session, and each core. The
-- addresses below `next` are in use; `none` is a nil table.
pub record Handler : Type 0 where
  pub name : String
  pub path : String
  pub domain : String
  pub table : Option (Map ℕ)
  pub core_of : ℕ → ℕ
  pub core : ℕ → Core
  pub next : ℕ

-- What `crypto/rand` gives: the outcome of its k-th read of a number of bytes.
pub data Rand : Type 0 where
  bytes : List ℕ → Rand
  unreadable : Error → Rand

abbrev pub Reads : Type 0
Reads = ℕ → ℕ → Rand

-- What `regexp.Compile` makes of a pattern: nothing, if it does not parse, or `MatchString`.
abbrev pub Compile : Type 0
Compile = String → Option (String → Bool)

-- What this code uses of Go's library: the reads of `crypto/rand`, and `regexp`.
pub record Library : Type 0 where
  pub read : Reads
  pub compile : Compile

abbrev pub update {ℓ} : {A : Type ℓ} → (ℕ → A) → ℕ → A → ℕ → A
update f a x b = if a == b then x else f b

abbrev pub min_session_cookie_name_rand_size : ℕ
min_session_cookie_name_rand_size = 32

abbrev pub min_session_cookie_value_rand_size : ℕ
min_session_cookie_value_rand_size = 128

abbrev pub min_session_cookie_max_age : ℕ
min_session_cookie_max_age = 7200

unfoldable pub new_min_session_handler : String → String → String → Handler
new_min_session_handler name path domain = record {
  name = name;
  path = path;
  domain = domain;
  table = some [];
  core_of = λ a. 0;
  core = λ a. empty_core;
  next = 0;
}

abbrev pub assure_table_initialized : Handler → Handler
assure_table_initialized h = record h { table = some (entries h.table) }

-- `GetSession`: a new session with a new core, at the same new address.
unfoldable pub get_session : Handler → ℕ × Handler
get_session h = (
  h.next,
  record (assure_table_initialized h) {
    core_of = update h.core_of h.next h.next;
    core = update h.core h.next empty_core;
    next = suc h.next;
  },
)

-- `GetValue`: `none` is `NoSuchSessionValueError`.
unfoldable pub get_value : ℕ → String → Handler → Option Value
get_value a key h = lookup key (h.core (h.core_of a)).values

pub get_values : ℕ → Handler → Map Value
get_values a h = (h.core (h.core_of a)).values

abbrev pub set_core_value : String → Value → Core → Core
set_core_value key v c = record c { values = insert key v c.values }

unfoldable pub set_value : ℕ → String → Value → Handler → Handler
set_value a key v h =
    let c = h.core_of a in record h { core = update h.core c (set_core_value key v (h.core c)) }

-- How `genCookie` ends: a cookie, with the collision error if a name collided on the way; or no
-- cookie and the error of `rand.Read`.
pub data Generated : Type 0 where
  generated : Cookie → Option Error → Generated
  unreadable : Error → Generated
  out_of_fuel : Generated

module _ (lib : Library) where
  -- The rest of `genCookie`, once the name is free, at the next read.
  gen_value : Handler → String → Option Error → ℕ → Generated
  gen_value h fresh other_err k = elim (lib.read k min_session_cookie_value_rand_size) [
    | unreadable e ↦ unreadable e
    | bytes vbytes ↦
        generated
          (record {
            name = fresh;
            value = hex vbytes;
            path = h.path;
            domain = h.domain;
            max_age = pos min_session_cookie_max_age;
            secure = false;
            http_only = true;
          })
          other_err
  ]

  -- The loop of `genCookie`, from the k-th read on: a name that collides is drawn again.
  unfoldable pub gen_cookie : ℕ → Handler → Option Error → ℕ → Generated × ℕ
  unfolding gen_value
  gen_cookie zero h other_err k = (out_of_fuel, k)
  gen_cookie (suc fuel) h other_err k = elim (lib.read k min_session_cookie_name_rand_size) [
    | unreadable e ↦ (unreadable e, suc k)
    | bytes nbytes ↦ elim (lookup (cookie_name h.name nbytes) (entries h.table)) [
      | some b ↦ gen_cookie fuel h (some rng_collision) (suc k)
      | none ↦ (gen_value h (cookie_name h.name nbytes) other_err (suc k), suc (suc k))
    ]
  ]

-- `for key, val := range sesh.core.data { sesh2.core.data[key] = val }`
pub copy_values : Map Value → Map Value → Map Value
copy_values [] into = into
copy_values ((key, v) ∷ from) into = copy_values from (insert key v into)

-- The variables of the loop of `CookieMask`.
pub record Masking : Type 0 where
  pub handler : Handler
  pub regex : String → Bool
  pub new_cookie_needed : Bool
  pub forwarded : List Cookie
  pub set : List Cookie

abbrev pub bad_cookie : Cookie → Cookie
bad_cookie c = record {
  name = c.name;
  value = c.value;
  path = "";
  domain = "";
  max_age = negsuc 0;
  secure = false;
  http_only = false;
}

-- Whether a cookie with the name of the session at `b` has its value.
abbrev pub is_valid : Cookie → ℕ → Handler → Bool
is_valid c b h = not (str_eq c.value "") && str_eq c.value (h.core (h.core_of b)).cvalue

-- The session at `a` gives its values to the core of the session at `b`, and adopts that core.
unfoldable pub adopt : ℕ → ℕ → Handler → Handler
unfolding copy_values
adopt a b h =
    let c = h.core_of b in
    record h {
      core = update h.core c (record (h.core c) {
        values = copy_values (h.core (h.core_of a)).values (h.core c).values;
      });
      core_of = update h.core_of a c;
    }

-- The body of the loop of `CookieMask` of the session at `a`.
unfoldable pub mask_cookie : ℕ → Cookie → Masking → Masking
unfolding adopt
mask_cookie a c m =
    let h = m.handler in
    let bad = m.set ++ bad_cookie c ∷ [] in
    if m.regex c.name
    then (elim (lookup c.name (entries h.table)) [
      | none ↦ record m { set = bad }
      | some b ↦
          if is_valid c b h
          then record m { handler = adopt a b h; new_cookie_needed = false }
          else record m {
            handler = record h { table = some (delete c.name (entries h.table)) };
            set = bad;
          }
    ])
    else record m { forwarded = m.forwarded ++ c ∷ [] }

unfoldable pub mask_cookies : ℕ → List Cookie → Masking → Masking
unfolding mask_cookie
mask_cookies a [] m = m
mask_cookies a (c ∷ cs) m = mask_cookies a cs (mask_cookie a c m)

-- How `CookieMask` ends: its two lists of cookies, its error being nil always. It panics if the pattern
-- made of the handler's name does not compile, and without a new cookie, since it uses the name of the
-- nil cookie.
pub data Masked : Type 0 where
  masked : List Cookie → List Cookie → Masked
  panicked : Masked
  out_of_fuel : Masked

abbrev pub start : (String → Bool) → Handler → Masking
start re h = record { handler = h; regex = re; new_cookie_needed = true; forwarded = []; set = [] }

-- The new cookie's value goes to the core, and its name to the table.
abbrev pub register : ℕ → Cookie → Handler → Handler
register a c h =
    let k = h.core_of a in
    record h {
      core = update h.core k (record (h.core k) { cvalue = c.value });
      table = some (insert c.name a (entries h.table));
    }

-- The rest of `CookieMask` of the session at `a`, once the pattern is compiled, with fuel for the names
-- that collide, from the k-th read on.
unfoldable pub mask_with :
    (String → Bool) → Library → ℕ → ℕ → List Cookie → Handler → ℕ → Masked × Handler × ℕ
unfolding mask_cookies gen_cookie
mask_with re lib fuel a incoming h k =
    let m = mask_cookies a incoming (start re h) in
    if m.new_cookie_needed
    then (let (g, k') = gen_cookie lib fuel m.handler none k in
        elim g [
          | generated c err ↦ (
            masked m.forwarded (m.set ++ c ∷ []),
            register a c (assure_table_initialized m.handler),
            k',
          )
          | unreadable e ↦ (panicked, assure_table_initialized m.handler, k')
          | out_of_fuel ↦ (out_of_fuel, m.handler, k')
        ])
    else (masked m.forwarded m.set, m.handler, k)

-- `CookieMask`, from `regexp.MustCompile` on.
unfoldable pub cookie_mask : Library → ℕ → ℕ → List Cookie → Handler → ℕ → Masked × Handler × ℕ
unfolding mask_with
cookie_mask lib fuel a incoming h k = elim (lib.compile (cookie_name_pattern h.name)) [
  | none ↦ (panicked, h, k)
  | some re ↦ mask_with re lib fuel a incoming h k
]
