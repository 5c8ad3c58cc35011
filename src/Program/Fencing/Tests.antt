-- ===== src/Program/Fencing/Tests.antt =====
-- The configuration of Program.Tests: its proxy stands behind a login.
use mathlib.Core.Path.{subst}
use text.Mathlib.Text.{◌==◌ as str_eq}
use pullcord.Base.{
  Any, ℕ, false, ◌≡◌, refl, ap, ◌⊎◌, inl, some, [], ◌∷◌, String, Map, lookup, lookup-All, All,
  replicate, if◌then◌else◌,
}
use pullcord.Config.Loader.{Def, Defs, no_more}
use pullcord.Authentication.Password.{Pbkdf2Hash, HashDef, Kdf, unmarshal_store}
use pullcord.Gateway.{Env, filter_all}
use pullcord.Gateway.Guard.{IsOwn}
use pullcord.Gateway.Passwords.{ShowsPassword}
use pullcord.Gateway.Tests.{env as gateway_env, first_visit}
use pullcord.Program.Serving.{start, check_passwords}
use pullcord.Program.Tests.{
  users, json, decode, login_parts, login_def, web_parts, pages_parts, resources, pipeline, server,
  built_as,
}
use pullcord.Program.Fencing.{
  Policy, IsClosed, IsKeyed, IsFencedType, IsFencedDef, IsPromised, def_at,
}
use pullcord.Program.Types.{Field}
use pullcord.Program.Fencing.Secrecy.{built_server_needs_password}

abbrev table : Map Pbkdf2Hash
table = (unmarshal_store decode users).0

-- Every name is one of no proxy.
abbrev policy : Policy
policy = record {
  json = json;
  decode = decode;
  identifier = "web";
  table = table;
  closed = λ name. Unit;
  keyed = λ name. ⊥;
}

promised : IsPromised policy resources
promised = record {
  closed = λ name d e c.
      lookup-All (λ n b. IsClosed policy b) name d resources
        ((refl, refl), ((refl, refl), ((refl, refl), tt))) e;
  keyed = λ name d e k. elim k [ ];
}

abbrev Fenced : Def → Type 0
Fenced = IsFencedDef policy

-- A type of neither login handlers nor cookie masking filters.
other_type :
    (type : String) (n : ℕ) (ds : Defs)
    → str_eq type "loginhandler" ≡ false
    → str_eq type "cookiemaskfilter" ≡ false
    → IsFencedType policy type n ds
other_type type n ds l c = (λ is. absurd (cc), λ is. absurd (cc))

users-IsKeyed : IsKeyed policy (def_at login_parts (some 0))
users-IsKeyed t e =
    let same : t ≡ users = cc in ap (λ (u : Map HashDef). (unmarshal_store decode u).0) same

login-Fenced : Fenced login_def
unfolding IsFencedDef
login-Fenced = (
  (
    λ is j c d e.
        let web : "web" ≡ j = cc in
        let at_c : ◌≡◌ {A = Field} (some 0) c = cc in
        inl (web, subst (λ f. IsKeyed policy (def_at login_parts f)) at_c users-IsKeyed),
    λ is. absurd (cc is),
  ),
  (
    (other_type "inmempwdstore" 1 no_more refl refl, tt),
    ((other_type "passthrufilter" 2 no_more refl refl, tt), tt),
  ),
)

-- A cookie masking filter whose masked part is closed.
mask_type :
    (n : ℕ) (ds : Defs)
    → IsClosed policy (def_at ds (some 1))
    → IsFencedType policy "cookiemaskfilter" n ds
mask_type n ds closed = (
  λ is. absurd (cc is),
  λ is h m e.
      let at_m : ◌≡◌ {A = Field} (some 1) m = cc in
      subst (λ f. IsClosed policy (def_at ds f)) at_m closed,
)

fenced : (name : String) (d : Def) → lookup name resources ≡ some d → Fenced d
unfolding IsFencedDef
fenced name d =
    lookup-All (λ n b. Fenced b) name d resources
      (
        (mask_type 3 web_parts (refl, refl), (tt, (login-Fenced, tt))),
        (
          (
            mask_type 4 pages_parts (refl, refl),
            (tt, ((other_type "landingfilter" 5 no_more refl refl, tt), tt)),
          ),
          ((other_type "minsessionhandler" 6 no_more refl refl, tt), tt),
        ),
      )

abbrev kdf : Kdf
kdf password salt iterations size = replicate size (if str_eq password "secret" then 1 else 2)

abbrev env : Env
env = record gateway_env { check_password = check_passwords kdf server }

-- The filter behind the pipeline's first name.
built_server_needs_password_example :
    ((filter_all env 5 2 (first_visit ∷ first_visit ∷ []) (start server)).1.net ≡ (start server).net
      × All IsOwn (filter_all env 5 2 (first_visit ∷ first_visit ∷ []) (start server)).0)
    ⊎ Any (ShowsPassword kdf table "web") (first_visit ∷ first_visit ∷ [])
built_server_needs_password_example =
    built_server_needs_password policy resources promised fenced env kdf 4 5
      ("web" ∷ "pages" ∷ "sessions" ∷ []) pipeline (2 ∷ 4 ∷ []) server 0 2
      (first_visit ∷ first_visit ∷ []) (tt, (tt, tt)) built_as (λ c user pass. refl) refl
