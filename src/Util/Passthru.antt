-- ===== src/Util/Passthru.antt =====
-- proxy/passthru.go: `PassthruFilter`, around falcore's upstream filter, which `Passthru` stands for.
use pullcord.Base.{◌≡◌, refl, Option, none, some, String, ℤ}
use pullcord.Monitor.Service.{Passthru}

pub record PassthruFilter : Type 0 where
  pub host : String
  pub port : ℤ
  pub upstream_filter : Option Passthru

pub record PassthruDef : Type 0 where
  pub host : String
  pub port : ℤ

-- `filter.NewUpstream(filter.NewUpstreamTransport(host, port, 0, nil))`
abbrev new_upstream : String → ℤ → Passthru
new_upstream host port = record { host = host; port = port }

-- `NewPassthruFilter`
unfoldable pub new_passthru_filter : String → ℤ → PassthruFilter
new_passthru_filter host port = record {
  host = host;
  port = port;
  upstream_filter = some (new_upstream host port);
}

-- `PassthruFilter.UnmarshalJSON`
unfoldable pub unmarshal_passthru : PassthruDef → PassthruFilter → PassthruFilter
unmarshal_passthru t f = record f {
  host = t.host;
  port = t.port;
  upstream_filter = some (new_upstream t.host t.port);
}

-- `PassthruFilter.FilterRequest`: the upstream filter that is called.
unfoldable pub filter_request : PassthruFilter → Passthru × PassthruFilter
filter_request f = elim f.upstream_filter [
  | some u ↦ (u, f)
  | none ↦ let u = new_upstream f.host f.port in (u, record f { upstream_filter = some u })
]

-- The upstream filter, if there is one, goes to the host and the port of the filter.
pub record IsPointed (f : PassthruFilter) : Type 0 where
  pub target : (u : Passthru) → f.upstream_filter ≡ some u → u ≡ new_upstream f.host f.port

-- A passthru filter, made by the constructor, by the decoder or as a value with no upstream filter
-- yet, forwards every request to the upstream filter of its host and port, keeps these, and stays
-- such a filter.
pub filter_request-IsPointed :
    (f : PassthruFilter)
    → IsPointed f
    → ((filter_request f).0 ≡ new_upstream f.host f.port)
      × IsPointed (filter_request f).1
      × ((filter_request f).1.host ≡ f.host)
      × ((filter_request f).1.port ≡ f.port)
unfolding filter_request
filter_request-IsPointed f p = by_filter f.upstream_filter refl
  where
    by_filter :
        (o : Option Passthru)
        → f.upstream_filter ≡ o
        → ((filter_request f).0 ≡ new_upstream f.host f.port)
          × IsPointed (filter_request f).1
          × ((filter_request f).1.host ≡ f.host)
          × ((filter_request f).1.port ≡ f.port)
    by_filter none q = rw (filter_request, q) (refl, record { target = λ u e. cc }, refl, refl)
    by_filter (some u) q = rw (filter_request, q) (p.target u q, p, refl, refl)

-- The constructor and the decoder make such filters.
pub made-IsPointed :
    (t : PassthruDef) (f : PassthruFilter)
    → IsPointed (new_passthru_filter t.host t.port) × IsPointed (unmarshal_passthru t f)
unfolding new_passthru_filter unmarshal_passthru
made-IsPointed t f = (record { target = λ u e. cc }, record { target = λ u e. cc })
