-- ===== src/Lib.antt =====
-- Pullcord: an HTTP gateway that keeps visitors in sessions behind a login, monitors the services
-- behind it, and triggers what starts them.
--
-- The parts and how they interact. A request runs through filters. A cookie masking filter asks a
-- session handler for a session and has the session mask the request's cookies; a login handler
-- finds that session in the request's context, keeps its token and its flag in it, and asks a
-- password checker; a monitored service behind the login is probed, its triggers are called, and
-- the request is forwarded to it or answered with a page. A configuration names the filters, and how
-- they point to each other.
--
-- Base                    library names passed on, Boolean tests, lists and integers over the native
--                         numbers, Go's maps, Go's time, the error values of all packages
-- Config.Resource         config/config.go: what a `Resource` holds, as type switches see it
-- Config.Loader           config/config.go: `RegisterResourceType`, `Resource.UnmarshalJSON` (`load`),
--                         `unmarshalByName` and the pipeline of `ServerFromReader`; Cycles is about
--                         references to themselves, Acyclic about references without cycles
-- Config.Build            config/config.go: the same (`build`, `build_by_name`, `build_server`) over a state
--                         of the objects that decoders make; Sound and Server are about what loading
--                         keeps, Meaning and Named about what a resource has to do with its
--                         definition, Ends about termination
-- Config.Validator        config/util/validator.go: `GenerateValidator` and `ConfigTest.Run` (`run`)
-- Trigger.Definitions     trigger/ratelimit.go, delay.go, shelltrigger.go: `UnmarshalJSON`, and the stub
--                         of trigger/sqstrigger.go
-- Trigger.RateLimit       trigger/ratelimit.go: `NewRateLimitTrigger` (`new_rate_limit_trigger`) and
--                         the decision of `Trigger` (`admit`, with its loop `expire`); Window is the
--                         sliding window, Refinement and Bound the proofs against it
-- Trigger.Handler         trigger/trigger.go, compound.go, shelltrigger.go, ratelimit.go: `Trigger` of
--                         each kind of handler (`trigger_compound`, `trigger_shell`,
--                         `trigger_ratelimit`) over a store of handlers that may be shared; Decode is
--                         `UnmarshalJSON` of compound.go
-- Trigger.Delay           trigger/delay.go: `DelayTrigger`, its goroutine and its timer, as a relation
--                         of steps whose order nothing fixes
-- Monitor.Service         monitor/minmonitor.go: `MinMonitorredService` with `Reprobe`, `Status`,
--                         `SetStatusUp` and `FilterRequest`; History holds the history of events as
--                         the specification of the cache, Decode is `UnmarshalJSON`
-- Monitor.Table           monitor/minmonitor.go: `MinMonitor`, whose table has names of services
-- Authentication.Names    authentication/minsession.go: names of session cookies and the regular
--                         expression that recognises them
-- Authentication.Session  authentication/minsession.go: `GetSession`, `GetValue`, `GetValues`,
--                         `SetValue`, `genCookie` and `CookieMask` over a handler with addresses of
--                         sessions and of the cores that sessions share
-- Authentication.CookieFilter  authentication/cookiemask.go: `FilterRequest`; FirstLogin, Lasting and
--                         Visitors run it with minimal sessions in front of a login handler
-- Authentication.Definitions   authentication/login_handler.go, cookiemask.go, minsession.go:
--                         `UnmarshalJSON`
-- Authentication.Password authentication/inmempwdstore.go: `GetPbkdf2Hash`, `Check`, `CheckPassword`
--                         and the decoder of hashes
-- Authentication.Login    authentication/login_handler.go: `FilterRequest` over any session; Keys has
--                         the laws that a session keeps and that a `MinSession` satisfies
-- Util.StandardResponse   util/standard_responses.go: the pages of a status
-- Util.Router             util/path_route_adapter.go: `ExactPathRouter`
-- Util.Passthru           proxy/passthru.go: `PassthruFilter`
-- Gateway                 conditional.go, util/landing.go, and `FilterRequest` of every filter, in a
--                         store of filters that call each other and share session handlers; Mask,
--                         Sound, Replies, Calls and Answers are about the responses to requests,
--                         Guard, Behind and Passwords about filters behind a login
-- Program                 every call of `RegisterResourceType` with the constructor and the decoder that
--                         it registers, over one store; Placed, Keepers, Decoders and Loading are about
--                         what a configuration leaves in it, Sharing about references, Opening and
--                         Serving about the server that it makes, Fencing about a configuration whose
--                         proxies stand behind logins
--
-- What the source calls and does not hold is a parameter: the readings of the clock, `net.Dial`, the
-- commands that are run, `crypto/rand`, `regexp`, PBKDF2, the base64 decoder, `ParseForm`. Readings of the
-- clock are nanoseconds since Go's zero time, unbounded, where Go's saturate or wrap around far from
-- it.
--
-- Fuel. A call of a trigger, and a request to a filter, have fuel for the depth of nested calls; on a
-- store whose handlers point to lower addresses, fuel above the address is enough. The names that
-- `genCookie` draws have fuel for the names that collide, since nothing bounds how often `crypto/rand`
-- repeats itself; fuel for the reads up to the first free name is enough. The loader has fuel for the depth
-- of its recursion: the ranks of the names times the depth of a definition, where references go down
-- in rank; other references can make it endless.
--
-- Not modelled: requests that run at the same time, since a request is one step here (the code has a
-- lock for loading a configuration only); log messages; the JSON decoder; falcore,
-- which runs the pipeline of a server, and its upstream filter, for which its host and port stand; and
-- the assertions of the tests' package, of which the outcomes stand here. The error pages of a monitored
-- service, which differ in the case of one letter, are one symbol.
--
-- The name of a session handler stands unescaped in the pattern of its cookies' names. `regexp` is
-- any function that compiles a pattern or does not: where it does not, `CookieMask` panics. Theorems
-- about recognising a generated cookie take names of letters, digits, dashes and underscores only, and
-- what `regexp` documents of their patterns (Session.Pattern).
pub mod Base
pub mod Config
pub mod Trigger
pub mod Util
pub mod Monitor
pub mod Authentication
pub mod Gateway
pub mod Program
