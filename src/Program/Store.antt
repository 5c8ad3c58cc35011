-- ===== src/Program/Store.antt =====
-- The objects that a configuration makes, behind the addresses of its resources. An object gets its
-- address when it is decoded, after the resources in its data.
use pullcord.Base.{◌⊎◌, inl, inr, Option, none, some, List, [], ◌∷◌, ◌++◌, Map, Error, length}
use pullcord.Config.Resource.{Unmarshaled, filter, router, session_handler, password_checker}
use pullcord.Config.Loader.{Made, made, refused}
use pullcord.Trigger.Handler.{Object, foreign}
use pullcord.Trigger.Definitions.{DelayTrigger}
use pullcord.Authentication.Session
use pullcord.Authentication.Password.{Pbkdf2Hash}
use pullcord.Util.Router.{ExactPathRouter}
use pullcord.Gateway.{Filter}

-- The objects of each interface. A delayed trigger stands among the triggers as a foreign one with
-- its number among `delays`.
pub record Store : Type 0 where
  pub filters : List Filter
  pub routers : List ExactPathRouter
  pub handlers : List Session.Handler
  pub checkers : List (Map Pbkdf2Hash)
  pub objects : List Object
  pub delays : List DelayTrigger

abbrev pub empty_store : Store
empty_store = record {
  filters = [];
  routers = [];
  handlers = [];
  checkers = [];
  objects = [];
  delays = [];
}

-- The decoded data, or the error of the JSON decoder.
abbrev pub with_data : {A : Type 0} → A ⊎ Error → (A → Store → Made × Store) → Store → Made × Store
with_data (inl a) f s = f a s
with_data (inr e) f s = (refused e, s)

-- The object that a decoder leaves, or its error.
abbrev pub unless_error :
    {A : Type 0} → A × Option Error → (A → Store → Made × Store) → Store → Made × Store
unless_error (a, none) f s = f a s
unless_error (a, some e) f s = (refused e, s)

abbrev pub add_filter : Filter → Store → Made × Store
add_filter f s = (made (filter (length s.filters)), record s { filters = s.filters ++ f ∷ [] })

abbrev pub add_trigger : Object → Store → Made × Store
add_trigger o s =
    (made (Unmarshaled.trigger (length s.objects)), record s { objects = s.objects ++ o ∷ [] })

abbrev pub add_delay : DelayTrigger → Store → Made × Store
add_delay d s = add_trigger (foreign (length s.delays)) (record s { delays = s.delays ++ d ∷ [] })

abbrev pub add_handler : Session.Handler → Store → Made × Store
add_handler h s =
    (made (session_handler (length s.handlers)), record s { handlers = s.handlers ++ h ∷ [] })

abbrev pub add_checker : Map Pbkdf2Hash → Store → Made × Store
add_checker c s =
    (made (password_checker (length s.checkers)), record s { checkers = s.checkers ++ c ∷ [] })

abbrev pub add_router : ExactPathRouter → Store → Made × Store
add_router r s = (made (router (length s.routers)), record s { routers = s.routers ++ r ∷ [] })
