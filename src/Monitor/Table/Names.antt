-- ===== src/Monitor/Table/Names.antt =====
-- monitor/minmonitor.go: the names of `MinMonitor`.
use pullcord.Base.{
  ℕ, Bool, true, false, ◌≡◌, none, some, String, lookup, insert, entries, lookup-insert,
  if◌then◌else◌, eq_iff, arith, duplicate_service_registration,
}
use text.Mathlib.Text.{◌==◌ as str_eq}
use pullcord.Monitor.Table.{Monitor, add, new_min_monitor_filter}

-- Whether a name can still be added.
abbrev pub is_free : String → Monitor → Bool
is_free name m = elim (lookup name (entries m.table)) [ none ↦ true | some a ↦ false ]

-- `Add` fails exactly on a name that is taken. Afterwards every name has the service that it had,
-- but that a name which was free has the new one; the services are as they were.
pub add_lem :
    (name j : String) (service : ℕ) (m : Monitor)
    → ((add name service m).0
        ≡ (if is_free name m then none else some duplicate_service_registration))
      × (lookup j (entries (add name service m).1.table) ≡ (
          if is_free name m
          then if str_eq name j then some service else lookup j (entries m.table)
          else lookup j (entries m.table)))
      × ((add name service m).1.services ≡ m.services)
unfolding add
add_lem name j service m =
    (ground arith, ground (arith, lookup-insert name j service (entries m.table)), ground arith)

-- The filter of a name is the service that `Add` gave it, also after further names are added.
pub filter-add-add :
    (name other : String) (service s : ℕ) (m : Monitor)
    → is_free name m ≡ true
    → new_min_monitor_filter name (add other s (add name service m).1).1 ≡ (some service, none)
unfolding new_min_monitor_filter add
filter-add-add name other service s m free = ground (
  arith,
  lookup-insert name name service (entries m.table),
  lookup-insert other name s (insert name service (entries m.table)),
  lookup-insert name other service (entries m.table),
  eq_iff name name,
  eq_iff other name,
  eq_iff name other,
)
