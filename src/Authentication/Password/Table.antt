-- ===== src/Authentication/Password/Table.antt =====
-- authentication/inmempwdstore.go: what a store from a configuration accepts.
use text.Mathlib.Text.{◌==◌ as str_eq}
use pullcord.Base.{
  ℕ, ◌≡◌, refl, ◌⊎◌, inl, inr, none, some, List, [], ◌∷◌, String, Map, lookup, insert,
  lookup-insert, lookup-empty, length, Any, Bool-cases, Option-cases, eq_iff,
}
use pullcord.Authentication.Password.{
  Pbkdf2Hash, Kdf, Result, ok, err, HashDef, check_password, unmarshal_hash, fill_table,
  unmarshal_store,
}
use pullcord.Authentication.Password.Store.{IsSound, check-none_iff, unmarshal_hash-IsSound}

module _ (decode : String → Result (List ℕ)) where
  -- An entry of the definition that gives a user a hash.
  abbrev Gives : String → Pbkdf2Hash → String × HashDef → Type 0
  Gives id h p = (p.0 ≡ id) × (unmarshal_hash decode p.1 ≡ ok h)

  lookup-fill_table :
      (t : Map HashDef) (table : Map Pbkdf2Hash) (id : String) (h : Pbkdf2Hash)
      → lookup id (fill_table decode t table).0 ≡ some h
      → (lookup id table ≡ some h) ⊎ Any (Gives id h) t
  unfolding fill_table
  lookup-fill_table [] table id h e = inl e
  lookup-fill_table ((j, d) ∷ more) table id h e =
      by_hash (unmarshal_hash decode d) refl (λ g. lookup-fill_table more (insert j g table) id h)
    where
      by_hash :
          (o : Result Pbkdf2Hash)
          → unmarshal_hash decode d ≡ o
          → ((g : Pbkdf2Hash)
              → lookup id (fill_table decode more (insert j g table)).0 ≡ some h
              → (lookup id (insert j g table) ≡ some h) ⊎ Any (Gives id h) more)
          → (lookup id table ≡ some h) ⊎ Any (Gives id h) ((j, d) ∷ more)
      by_hash (err x) q again = inl (rw (fill_table, q) at e)
      by_hash (ok g) q again = elim (again g (rw (fill_table, q) at e)) [
        | inr later ↦ inr (inr later)
        | inl there ↦
            let inserted = lookup-insert j id g table in
            elim (Bool-cases (str_eq j id)) [
              | inl same ↦ inr (inl ((eq_iff j id).0 same, cc (q, there, rw same at inserted)))
              | inr other ↦ inl (cc (there, rw other at inserted))
            ]
      ]

  -- An entry of the definition with this user and a hash that can be decoded, of 64 bytes of hash and
  -- of salt and no fewer iterations than the program asks of its own, which the password derives.
  pub record Backs (kdf : Kdf) (id pass : String) (p : String × HashDef) : Type 0 where
    pub user : p.0 ≡ id
    pub hash : Pbkdf2Hash
    pub decoded : unmarshal_hash decode p.1 ≡ ok hash
    pub derived : hash.hash ≡ kdf pass hash.salt hash.iterations 64
    pub hash_length : length hash.hash ≡ 64
    pub sound : IsSound hash

  Gives-Backs :
      (kdf : Kdf) (id pass : String) (h : Pbkdf2Hash) (t : Map HashDef)
      → h.hash ≡ kdf pass h.salt h.iterations 64
      → Any (Gives id h) t
      → Any (Backs kdf id pass) t
  Gives-Backs kdf id pass h [] d g = g
  Gives-Backs kdf id pass h (p ∷ t) d (inr g) = inr (Gives-Backs kdf id pass h t d g)
  Gives-Backs kdf id pass h (p ∷ t) d (inl (user, decoded)) =
      let (hash_length, sound, _, _) = unmarshal_hash-IsSound decode p.1 h decoded in
      inl (record {
        user = user;
        hash = h;
        decoded = decoded;
        derived = d;
        hash_length = hash_length;
        sound = sound;
      })

  -- A store from a configuration, decoded wholly or up to an error, accepts a user name and a password
  -- only if the configuration has an entry of that user, with a hash and a salt of 64 bytes and no
  -- fewer iterations than the program asks of its own, such that the password derives the hash.
  pub check_password-unmarshal_store :
      (kdf : Kdf) (t : Map HashDef) (id pass : String)
      → check_password kdf (unmarshal_store decode t).0 id pass ≡ none
      → Any (Backs kdf id pass) t
  unfolding check_password unmarshal_store
  check_password-unmarshal_store kdf t id pass e =
      elim (Option-cases (lookup id (unmarshal_store decode t).0)) [
        | inl unknown ↦ absurd (cc (rw (check_password, unknown) at e))
        | inr (h, q) ↦
            let derived = (check-none_iff kdf h pass).0 (rw (check_password, q) at e) in
            elim (lookup-fill_table t [] id h q) [
              | inl never ↦ absurd (cc (never, lookup-empty {V = Pbkdf2Hash} id))
              | inr given ↦ Gives-Backs kdf id pass h t derived given
            ]
      ]
