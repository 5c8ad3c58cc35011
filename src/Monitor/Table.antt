-- ===== src/Monitor/Table.antt =====
-- monitor/minmonitor.go: `MinMonitor`, whose table names services that others may point to as well.
pub mod Names
use pullcord.Base.{
  ℕ, Bool, true, false, Option, none, some, List, String, Map, lookup, insert, entries, Error,
  duplicate_service_registration, unknown_service, get_elem?, set,
}
use pullcord.Monitor.Service
use pullcord.Monitor.Service.{Service, Net, NetEnv}

-- The services by their addresses, and the table of names; `none` is a nil map.
pub record Monitor : Type 0 where
  pub services : List Service
  pub table : Option (Map ℕ)

-- `NewMinMonitor`, in a store of services.
unfoldable pub new_min_monitor : List Service → Monitor
new_min_monitor services = record { services = services; table = some List.[] }

unfoldable pub add : String → ℕ → Monitor → Option Error × Monitor
add name service m = elim (lookup name (entries m.table)) [
  | some osvc ↦ (some duplicate_service_registration, m)
  | none ↦ (none, record m { table = some (insert name service (entries m.table)) })
]

-- A method call on the service at an address: its result, the service stored, and the world. No
-- service at the address is a nil pointer, and the call panics: `none`.
abbrev pub on_service {ℓ} :
    {A : Type ℓ}
    → (Service → Net → A × Service × Net)
    → ℕ
    → Monitor
    → Net
    → Option A × Monitor × Net
on_service method a m n = elim (get_elem? m.services a) [
  | none ↦ (none, m, n)
  | some svc ↦
      let (r, svc', n') = method svc n in
      (some r, record m { services = set m.services a svc' }, n')
]

module _ (e : NetEnv) where
  unfoldable pub reprobe : String → Monitor → Net → Option (Bool × Option Error) × Monitor × Net
  reprobe name m n = elim (lookup name (entries m.table)) [
    | none ↦ (some (false, some unknown_service), m, n)
    | some a ↦ on_service (Service.reprobe e) a m n
  ]

  unfoldable pub status : String → Monitor → Net → Option (Bool × Option Error) × Monitor × Net
  status name m n = elim (lookup name (entries m.table)) [
    | none ↦ (some (false, some unknown_service), m, n)
    | some a ↦ on_service (Service.status e) a m n
  ]

  unfoldable pub set_status_up : String → Monitor → Net → Option (Option Error) × Monitor × Net
  set_status_up name m n = elim (lookup name (entries m.table)) [
    | none ↦ (some (some unknown_service), m, n)
    | some a ↦ on_service (Service.set_status_up e) a m n
  ]

-- `NewMinMonitorFilter`: the filter is the service itself.
pub new_min_monitor_filter : String → Monitor → Option ℕ × Option Error
new_min_monitor_filter name m = elim (lookup name (entries m.table)) [
  | none ↦ (none, some unknown_service)
  | some a ↦ (some a, none)
]
