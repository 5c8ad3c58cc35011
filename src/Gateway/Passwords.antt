-- ===== src/Gateway/Passwords.antt =====
-- The filters together with authentication/inmempwdstore.go: the passwords that get behind a login.
use pullcord.Base.{
  Any, ℕ, ◌≡◌, sym, ◌∙◌, ◌⊎◌, inl, inr, none, some, List, [], ◌∷◌, String, Map, lookup,
  Option-cases, All,
}
use pullcord.Authentication.Password.{Pbkdf2Hash, Kdf, check_password}
use pullcord.Authentication.Password.Store.{check-none_iff}
use pullcord.Authentication.Login.{posted, username_key, password_key}
use pullcord.Authentication.CookieFilter.Flags.{IsUnset}
use pullcord.Gateway.{Request, State, Env, filter_all}
use pullcord.Gateway.Mask.{EachOf}
use pullcord.Gateway.Guard.{IsOwn, IsGuard, Good}
use pullcord.Gateway.Behind.{filter_all_needs_password}

-- The request's form carries one user name and one password, and the user has a stored hash which is
-- the key that the password derives.
pub record ShowsPassword (kdf : Kdf) (table : Map Pbkdf2Hash) (i : String) (req : Request)
    : Type 0 where
  pub fields : Map (List String)
  pub parsed : req.form ≡ posted fields
  pub user : String
  pub pass : String
  pub has_user : lookup (username_key i) fields ≡ some (user ∷ [])
  pub has_pass : lookup (password_key i) fields ≡ some (pass ∷ [])
  pub stored : Pbkdf2Hash
  pub listed : lookup user table ≡ some stored
  pub derived : stored.hash ≡ kdf pass stored.salt stored.iterations 64

-- What a store of hashes accepts.
accepted :
    (kdf : Kdf) (table : Map Pbkdf2Hash) (user pass : String)
    → check_password kdf table user pass ≡ none
    → (h : Pbkdf2Hash) × (lookup user table ≡ some h) × (h.hash ≡ kdf pass h.salt h.iterations 64)
unfolding check_password
accepted kdf table user pass e = elim (Option-cases (lookup user table)) [
  | inl unknown ↦ absurd (cc (rw (check_password, unknown) at e))
  | inr (h, q) ↦ (h, q, (check-none_iff kdf h pass).0 (rw (check_password, q) at e))
]

module _ (env : Env) (i : String) (C : ℕ → Type 0) (kdf : Kdf) (table : Map Pbkdf2Hash) where
  -- The password checkers are `InMemPwdStore`s with this table.
  abbrev pub IsStore : Type 0
  IsStore =
      (c : ℕ) (user pass : String)
      → C c
      → env.check_password c user pass ≡ check_password kdf table user pass

  accepted-ShowsPassword :
      IsStore → (req : Request) → Good env i C req → ShowsPassword kdf table i req
  accepted-ShowsPassword store req (c, hc, (fields, parsed, g)) =
      let (h, listed, derived) =
        accepted kdf table g.user g.pass (sym (store c g.user g.pass hc) ∙ g.accepted) in
      record {
        fields = fields;
        parsed = parsed;
        user = g.user;
        pass = g.pass;
        has_user = g.has_user;
        has_pass = g.has_pass;
        stored = h;
        listed = listed;
        derived = derived;
      }

  any-ShowsPassword :
      IsStore
      → (reqs : List Request) → Any (Good env i C) reqs
      → Any (ShowsPassword kdf table i) reqs
  any-ShowsPassword store [] g = g
  any-ShowsPassword store (req ∷ reqs) (inl g) = inl (accepted-ShowsPassword store req g)
  any-ShowsPassword store (req ∷ reqs) (inr g) = inr (any-ShowsPassword store reqs g)

  -- Behind login handlers of one identifier whose password checkers are stores of the same hashes,
  -- from sessions without the handlers' flag on, nothing is dialled, triggered or forwarded by requests
  -- to a filter that reaches proxies and services only through these handlers, unless one of the
  -- requests carries a user name and password, once each, such that the user's stored hash is the key
  -- that the password derives.
  pub filter_all_needs_stored_password :
      (P : ℕ → Type 0) (fuel a : ℕ) (reqs : List Request) (s : State)
      → IsStore
      → P a
      → IsGuard i C P s.filters
      → EachOf (IsUnset i) s
      → ((filter_all env fuel a reqs s).1.net ≡ s.net × All IsOwn (filter_all env fuel a reqs s).0)
        ⊎ Any (ShowsPassword kdf table i) reqs
  filter_all_needs_stored_password P fuel a reqs s store p g w =
      elim (filter_all_needs_password env i C P fuel a reqs s p g w) [
        | inl (net, filters, own) ↦ inl (net, own)
        | inr good ↦ inr (any-ShowsPassword store reqs good)
      ]
