-- ===== src/Program/Tests.antt =====
-- A configuration of a proxy behind a login behind a cookie mask, loaded in two orders, and the server
-- that it makes.
use text.Mathlib.Text.{◌==◌ as str_eq}
use pullcord.Base.{
  ℕ, ◌<◌, ◌≤◌, ◌≡◌, ◌≢◌, refl, inl, inr, none, some, List, [], ◌∷◌, String, pos, Map, Error, lookup,
  insert, delete, lookup-All, lookup-empty, sym, ◌∙◌, length, if◌then◌else◌, replicate, arith,
}
use pullcord.Config.Resource.{
  Unmarshaled, session_handler, as_filter, as_session_handler, as_password_checker,
}
use pullcord.Config.Loader.{
  Def, Defs, ref, typed, no_more, also, Entry, complete, Loaded, loaded, register_resource_type,
  fill_pipeline,
}
use pullcord.Config.Loader.Acyclic.{height, RefsBelow, IsEnd, IsAcyclic}
use pullcord.Config.Build.{build, build_all, build_by_name, build_registry, build_server}
use pullcord.Config.Build.Sound.{Kept}
use pullcord.Config.Build.Server.{ValidFilters}
use pullcord.Config.Build.Ends.{build_server-IsEnd}
use pullcord.Authentication.Password.{
  HashDef, Result, ok, unmarshal_store, fill_table, unmarshal_hash,
}
use pullcord.Authentication.Definitions.{
  unmarshal_login, unmarshal_cookiemask, unmarshal_min_session_handler,
}
use pullcord.Util.Passthru.{unmarshal_passthru}
use pullcord.Gateway.{Filter, cookiemask}
use pullcord.Program.Store.{Store, empty_store}
use pullcord.Program.Types.{
  Json, resource_types, register_types, types, make_login, make_cookiemask, make_session_handler,
  make_password_store, make_landing, make_passthru, add_login, add_cookiemask,
}
use pullcord.Program.Placed.{placing}
use pullcord.Program.Loading.{build_server-IsPlaced}
use pullcord.Program.Sharing.{repeated_ref}
use pullcord.Program.Serving.{empty-IsPlaced}

abbrev pub unread : Error
unread = Error.other 0

-- One user, whose hash and salt the decoder below decodes.
abbrev pub users : Map HashDef
users = ("ada", record { hash = "hash"; salt = "salt"; iterations = 4096 }) ∷ []

abbrev pub json : Json
json = record {
  compound = λ n. none;
  ratelimit = λ n. inr unread;
  delay = λ n. inr unread;
  shell = λ n. inl (record { command = "true"; args = [] });
  service = λ n. inr unread;
  login = λ n. inl ("web", some 0, some 1);
  cookiemask = λ n. inl (some 0, some 1);
  session_handler = λ n. inl (record { name = "s"; path = "/"; domain = "example" });
  password_store = λ n. inl users;
  standard_response = λ n. inl (pos 404);
  passthru = λ n. inl (record { host = "app"; port = pos 80 });
  router = λ n. inl [];
}

abbrev pub decode : String → Result (List ℕ)
decode t = ok (replicate 64 1)

abbrev pub login_parts : Defs
login_parts =
    also (typed "inmempwdstore" 1 no_more) (also (typed "passthrufilter" 2 no_more) no_more)

abbrev pub login_def : Def
login_def = typed "loginhandler" 0 login_parts

abbrev pub web_parts : Defs
web_parts = also (ref "sessions") (also login_def no_more)

abbrev pub pages_parts : Defs
pages_parts = also (ref "sessions") (also (typed "landingfilter" 5 no_more) no_more)

-- Two masks that refer to one session handler.
abbrev pub resources : Map Def
resources =
    ("web", typed "cookiemaskfilter" 3 web_parts)
    ∷ ("pages", typed "cookiemaskfilter" 4 pages_parts)
    ∷ ("sessions", typed "minsessionhandler" 6 no_more)
    ∷ []

abbrev pub pipeline : List String
pipeline = "web" ∷ "pages" ∷ []

abbrev pub built : List String → Loaded (List ℕ) × Store
built order = build_server (types json decode) resources 4 order pipeline empty_store

-- The calls of `RegisterResourceType` all succeed.
registered : length (types json decode) ≡ length (resource_types json decode)
unfolding types register_types register_resource_type lookup insert delete
registered = refl

-- The session handlers of the masks, by the order of registration: one, or one each besides the one
-- that is registered.
abbrev handlers_of : List Filter → List ℕ
handlers_of [] = []
handlers_of (cookiemask h m ∷ more) = h ∷ handlers_of more
handlers_of (f ∷ more) = handlers_of more

shared : handlers_of (built ("sessions" ∷ "web" ∷ "pages" ∷ [])).1.filters ≡ 0 ∷ 0 ∷ []
unfolding build_server types register_types register_resource_type build build_registry
    build_by_name build_all make_login make_cookiemask make_session_handler make_password_store
    make_landing make_passthru unmarshal_login unmarshal_cookiemask unmarshal_passthru
    unmarshal_store fill_table unmarshal_hash unmarshal_min_session_handler add_login add_cookiemask
    fill_pipeline lookup insert delete as_password_checker as_filter as_session_handler
shared = refl

apart : handlers_of (built ("web" ∷ "pages" ∷ "sessions" ∷ [])).1.filters ≡ 0 ∷ 1 ∷ []
unfolding build_server types register_types register_resource_type build build_registry
    build_by_name build_all make_login make_cookiemask make_session_handler make_password_store
    make_landing make_passthru unmarshal_login unmarshal_cookiemask unmarshal_passthru
    unmarshal_store fill_table unmarshal_hash unmarshal_min_session_handler add_login add_cookiemask
    fill_pipeline lookup insert delete as_password_checker as_filter as_session_handler
apart = refl

build_server-IsPlaced_example :
    Kept placing (ValidFilters placing) empty_store (built ("web" ∷ "pages" ∷ "sessions" ∷ []))
build_server-IsPlaced_example =
    build_server-IsPlaced json decode resources 4 ("web" ∷ "pages" ∷ "sessions" ∷ []) pipeline
      empty_store empty-IsPlaced

abbrev rank : String → ℕ
rank name = if str_eq "sessions" name then 0 else 1

acyclic : IsAcyclic resources rank 2 5
unfolding height RefsBelow
acyclic = record {
  lower = λ name d.
      lookup-All (λ n c. RefsBelow rank (rank n) c × (rank n < 2) × (height c ≤ 5)) name d resources
        (
          ((omega arith, ((tt, (tt, tt)), tt)), omega arith, omega arith),
          (
            ((omega arith, (tt, tt)), omega arith, omega arith),
            ((tt, omega arith, omega arith), tt),
          ),
        );
}

build_server-IsEnd_example :
    IsEnd (build_server (types json decode) resources 10 ("web" ∷ []) pipeline empty_store).0
build_server-IsEnd_example =
    build_server-IsEnd (types json decode) resources rank 2 5 acyclic 10 (omega arith) ("web" ∷ [])
      pipeline empty_store

abbrev of_sessions : Store → Loaded Unmarshaled × Store
of_sessions s = build (types json decode) resources 2 [] (ref "sessions") s

first_of_sessions :
    of_sessions empty_store ≡ (loaded (session_handler 0), (of_sessions empty_store).1)
unfolding build types register_types register_resource_type build_all make_session_handler
    unmarshal_min_session_handler lookup insert delete
first_of_sessions = refl

second_of_sessions :
    of_sessions (of_sessions empty_store).1
    ≡ (loaded (session_handler 1), (of_sessions (of_sessions empty_store).1).1)
unfolding build types register_types register_resource_type build_all make_session_handler
    unmarshal_min_session_handler lookup insert delete
second_of_sessions = refl

not_yet : lookup {V = Entry} "sessions" [] ≡ none
unfolding lookup
not_yet = refl

listed : lookup "sessions" resources ≡ some (typed "minsessionhandler" 6 no_more)
unfolding lookup
listed = refl

repeated_ref_example :
    (session_handler 0 ≢ session_handler 1)
    × (build
          (types json decode)
          resources
          2
          (insert "sessions" (complete (session_handler 0)) [])
          (ref "sessions")
          (of_sessions (of_sessions empty_store).1).1
        ≡ (loaded (session_handler 0), (of_sessions (of_sessions empty_store).1).1))
repeated_ref_example =
    repeated_ref json decode resources [] 0 "sessions" "minsessionhandler" 6 no_more empty_store
      (of_sessions empty_store).1 (of_sessions (of_sessions empty_store).1).1 (session_handler 0)
      (session_handler 1) empty-IsPlaced
      (λ name u e. absurd (cc (sym (lookup-empty {V = Entry} name) ∙ e))) not_yet listed
      first_of_sessions second_of_sessions

abbrev pub server : Store
server = (built ("web" ∷ "pages" ∷ "sessions" ∷ [])).1

pub built_as : built ("web" ∷ "pages" ∷ "sessions" ∷ []) ≡ (loaded (2 ∷ 4 ∷ []), server)
unfolding build_server types register_types register_resource_type build build_registry
    build_by_name build_all make_login make_cookiemask make_session_handler make_password_store
    make_landing make_passthru unmarshal_login unmarshal_cookiemask unmarshal_passthru
    unmarshal_store fill_table unmarshal_hash unmarshal_min_session_handler add_login add_cookiemask
    fill_pipeline lookup insert delete as_password_checker as_filter as_session_handler
built_as = refl
