-- ===== src/Gateway.antt =====
-- The filters of the program together: conditional.go, util/landing.go and the `FilterRequest` of
-- every filter, over a store of filters and of session handlers that point to each other.
pub mod Sound
pub mod Mask
pub mod Replies
pub mod Calls
pub mod Guard
pub mod Behind
pub mod Passwords
pub mod Answers
pub mod Tests
use pullcord.Base.{
  ℕ, zero, suc, ◌+◌, Bool, true, false, ◌⊎◌, inl, inr, Option, none, some, List, [], ◌∷◌, ◌++◌,
  String, ℤ, pos, Error, get_elem?, set,
}
use pullcord.Util.StandardResponse
use pullcord.Util.StandardResponse.{StandardResponse}
use pullcord.Util.Passthru
use pullcord.Util.Passthru.{PassthruFilter}
use pullcord.Monitor.Service
use pullcord.Monitor.Service.{Service, Net, NetEnv, Page, Passthru}
use pullcord.Authentication.Session
use pullcord.Authentication.Session.{Cookie, Handler, Library, update}
use pullcord.Authentication.Login
use pullcord.Authentication.Login.{Form, session}
use pullcord.Authentication.Login.Keys.{min_session}
use pullcord.Authentication.CookieFilter
use pullcord.Authentication.CookieFilter.{HandlerOps, Served, served, nothing, as_outcome}

-- A filter, with the addresses of those that it calls: a login handler with its identifier, its
-- password checker and its downstream filter; a cookie masking filter with its session handler and
-- the filter that it masks; a conditional filter with its test and the filters for true, for false
-- and for an error.
pub data Filter : Type 0 where
  standard_response : StandardResponse → Filter
  landing : Filter
  passthru : PassthruFilter → Filter
  service : Service → Filter
  login : String → ℕ → ℕ → Filter
  cookiemask : ℕ → ℕ → Filter
  conditional : ℕ → ℕ → ℕ → ℕ → Filter

-- A request as a filter gets it. `context` is what it holds under "session": the address of a session
-- handler, and that of a session of it.
pub record Request : Type 0 where
  pub cookies : List Cookie
  pub context : Option (ℕ × ℕ)
  pub form : Form
  pub path : String

-- The filters, the session handlers, the world of the services, how often `crypto/rand` was read, and
-- how often a test was made.
pub record State : Type 0 where
  pub filters : List Filter
  pub handlers : ℕ → Handler
  pub net : Net
  pub reads : ℕ
  pub tests : ℕ

-- What the program does not decide, the fuel for names of cookies and that for triggers.
pub record Env : Type 0 where
  pub net : NetEnv
  pub lib : Library
  pub check_password : ℕ → String → String → Option Error
  pub test : ℕ → ℕ → Request → Bool ⊎ Error
  pub name_fuel : ℕ
  pub trigger_fuel : ℕ

-- A response: a page of a status and a text, a login page with its identifier, error text, path and
-- token, a page of a monitored service, or what an upstream server answers.
pub data Response : Type 0 where
  html : ℤ → String → Response
  login_page : String → String → String → String → Response
  service_page : ℕ → Page → Response
  proxied : Passthru → Response

-- How `FilterRequest` ends: with a response and the cookies that it sets, without one, in a panic of
-- `CookieMask` or the endless loop of its random names, in another panic, or out of fuel.
pub data Reply : Type 0 where
  response : Response → List Cookie → Reply
  no_response masking_panicked masking_out_of_fuel panicked out_of_fuel : Reply

pub standard_page : StandardResponse → Response
standard_page s = let (status, text) = StandardResponse.filter_request s in html status text

-- `LandingFilter.FilterRequest`
pub landing_page : Response
landing_page =
    html (pos 200)
      "<html><head><title>Pullcord Landing Page</title></head><body><h1>Pullcord Landing Page</h1><p>This is the landing page for Pullcord, a reverse proxy for cloud-based web apps that allows the servers the web apps run on to be turned off when not in use.</p><p>If you are unsure of how to proceed, please contact the site administrator.</p></body></html>"

abbrev pub of_service : Service.Reply → Reply
of_service (Service.Reply.page status p) = response (service_page status p) []
of_service (Service.Reply.proxied p) = response (proxied p) []
of_service Service.Reply.panic = panicked
of_service Service.Reply.exhausted = out_of_fuel

-- A reply as that of the filter behind a cookie masking filter, and the reply of the whole.
abbrev pub as_served : Reply → Served (Response × List Cookie)
as_served (response r cookies) = served (r, cookies)
as_served no_response = nothing
as_served masking_panicked = Served.masking_panicked
as_served masking_out_of_fuel = Served.masking_out_of_fuel
as_served panicked = Served.panicked
as_served out_of_fuel = Served.out_of_fuel

abbrev pub of_masked : CookieFilter.Reply (Response × List Cookie) → Reply
of_masked (CookieFilter.Reply.internal_server_error cookies) =
    response (standard_page StandardResponse.internal_server_error) cookies
of_masked (CookieFilter.Reply.response (r, inner) cookies) = response r (inner ++ cookies)
of_masked CookieFilter.Reply.no_response = no_response
of_masked CookieFilter.Reply.masking_panicked = masking_panicked
of_masked CookieFilter.Reply.masking_out_of_fuel = masking_out_of_fuel
of_masked CookieFilter.Reply.panicked = panicked
of_masked CookieFilter.Reply.out_of_fuel = out_of_fuel

abbrev pub set_handler : ℕ → Handler → State → State
set_handler a h s = record s { handlers = update s.handlers a h }

module _ (env : Env) where
  -- The `MinSessionHandler` at `a`, over the state of the program.
  abbrev pub handler_ops : ℕ → HandlerOps State ℕ
  handler_ops a = record {
    get_session =
        λ s. let (b, h) = Session.get_session (s.handlers a) in (inl b, set_handler a h s);
    cookie_mask = λ b cookies s.
        let (m, h, k) =
          Session.cookie_mask env.lib env.name_fuel b cookies (s.handlers a) s.reads in
        (as_outcome m, record (set_handler a h s) { reads = k });
  }

  -- The end of `LoginHandler.FilterRequest`: the downstream filter is called, or the response sent.
  abbrev pub after_login :
      (ℕ → Request → State → Reply × State)
      → String
      → ℕ
      → Request
      → Login.Reply
      → State
      → Reply × State
  after_login next identifier downstream req Login.Reply.downstream s = next downstream req s
  after_login next identifier downstream req Login.Reply.internal_server_error s =
      (response (standard_page StandardResponse.internal_server_error) [], s)
  after_login next identifier downstream req (Login.Reply.login_page error path token) s =
      (response (login_page identifier error path token) [], s)
  after_login next identifier downstream req Login.Reply.panicked s = (panicked, s)

  -- `LoginHandler.FilterRequest` of a request with a session: the read of random bytes that a new
  -- token takes has its number whether it is made or not.
  pub login_request :
      (ℕ → Request → State → Reply × State)
      → String
      → ℕ
      → ℕ
      → Request
      → ℕ × ℕ
      → State
      → Reply × State
  login_request next identifier checker downstream req (a, b) s =
      let (r, h) =
        Login.filter_request (min_session b) (env.check_password checker) identifier
          (env.lib.read s.reads 64) (record { context = session; form = req.form; path = req.path })
          (s.handlers a) in
      after_login next identifier downstream req r
        (record (set_handler a h s) { reads = s.reads + 1 })

  -- `NewConditionalFilter`'s filter.
  pub conditional_request :
      (ℕ → Request → State → Reply × State) → ℕ → ℕ → ℕ → ℕ → Request → State → Reply × State
  conditional_request next test on_true on_false on_error req s =
      let s' = record s { tests = s.tests + 1 } in
      elim (env.test test s.tests req) [
        | inr e ↦ next on_error req s'
        | inl b ↦ elim b [ true ↦ next on_true req s' | false ↦ next on_false req s' ]
      ]

  -- The dynamic dispatch of `FilterRequest` on the filter at `a`; none is a dangling pointer.
  pub dispatch :
      (ℕ → Request → State → Reply × State) → ℕ → Option Filter → Request → State → Reply × State
  unfolding login_request conditional_request
  dispatch next a none req s = (panicked, s)
  dispatch next a (some (standard_response t)) req s = (response (standard_page t) [], s)
  dispatch next a (some landing) req s = (response landing_page [], s)
  dispatch next a (some (passthru p)) req s =
      let (u, p') = Passthru.filter_request p in
      (response (proxied u) [], record s { filters = set s.filters a (passthru p') })
  dispatch next a (some (service svc)) req s =
      let (r, svc', n) = Service.filter_request env.net env.trigger_fuel svc s.net in
      (of_service r, record s { filters = set s.filters a (service svc'); net = n })
  dispatch next a (some (login identifier checker downstream)) req s = elim req.context [
    | none ↦ (response (standard_page StandardResponse.internal_server_error) [], s)
    | some c ↦ login_request next identifier checker downstream req c s
  ]
  dispatch next a (some (cookiemask handler masked)) req s =
      let (r, s') =
        CookieFilter.filter_request (handler_ops handler)
          (λ b forwarded s₁.
            let (r', s₂) =
              next masked (record req { cookies = forwarded; context = some (handler, b) }) s₁ in
            (as_served r', s₂))
          req.cookies s in
      (of_masked r, s')
  dispatch next a (some (conditional test on_true on_false on_error)) req s =
      conditional_request next test on_true on_false on_error req s

  -- `FilterRequest` of the filter at `a`, with fuel for the depth of nested calls.
  unfoldable pub filter_request : ℕ → ℕ → Request → State → Reply × State
  unfolding dispatch
  filter_request zero a req s = (out_of_fuel, s)
  filter_request (suc fuel) a req s = dispatch (filter_request fuel) a (get_elem? s.filters a) req s

  -- Requests one after the other to the filter at `a`.
  pub filter_all : ℕ → ℕ → List Request → State → List Reply × State
  unfolding filter_request
  filter_all fuel a [] s = ([], s)
  filter_all fuel a (req ∷ reqs) s =
      let (r, s') = filter_request fuel a req s in
      let (rs, s'') = filter_all fuel a reqs s' in (r ∷ rs, s'')
