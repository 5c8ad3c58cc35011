-- ===== src/Monitor/Tests.antt =====
-- Runs of the monitor on small inputs, and the theorems at such inputs.
use pullcord.Base.{
  parsed, ◌+◌, ◌≡◌, refl, true, false, none, some, List, [], ◌∷◌, pos, ◌+ℤ◌, Error, arith, entries,
  lookup, insert, delete, length,
}
use pullcord.Config.Resource.{Unmarshaled}
use pullcord.Trigger.Handler.{foreign, Env, called, returned, trigger, trigger_compound}
use pullcord.Trigger.Handler.Store.{IsOrdered, AllAt-IsOrdered}
use pullcord.Monitor.Service.{
  Endpoint, Dial, connected, op_error, Passthru, Service, Net, NetEnv, new_service, page, panic,
  service_not_ready, reprobe, status, filter_request, run_trigger,
}
use pullcord.Monitor.Service.History.{check, probe, inform, answered, run_ops, spec_ops}
use pullcord.Monitor.Service.History.Refinement.{run_ops-eq-spec_ops}
use pullcord.Monitor.Service.Filter.{hooks, fire}
use pullcord.Monitor.Service.Outcome.{IsReady, Decides, filter_request-Decides}
use pullcord.Monitor.Service.Decode.{
  ServiceDef, zero_service, unmarshal_service, decoded_service_panics,
}
use pullcord.Monitor.Table.{Monitor, new_min_monitor, add}
use pullcord.Monitor.Table.Names.{add_lem}

-- A clock that advances by one at each reading, and a service that accepts every connection but the
-- first.
abbrev env : Env
env = record {
  now = λ n. pos (n + 20);
  run = λ effects command args. none;
  call = λ effects i. none;
}

abbrev refused_once : List Endpoint → Dial
refused_once [] = op_error true (Error.other 1)
refused_once (_ ∷ _) = connected

abbrev net_env : NetEnv
net_env = record { env = env; dial = λ dialled p. refused_once dialled }

abbrev net : Net
net = record {
  world = record { objects = foreign 1 ∷ foreign 2 ∷ foreign 3 ∷ []; readings = 0; effects = [] };
  dialled = [];
}

abbrev service : Service
service = new_service "web" (pos 80) "tcp" (pos 2) (some 0) (some 1) (some 2)

abbrev proxy : Passthru
proxy = record { host = "web"; port = pos 80 }

-- Down, then up by a probe, then up from the cache twice, then probed again after the grace period.
checks :
    (run_ops net_env (check ∷ check ∷ check ∷ check ∷ check ∷ []) service net).0
    ≡ answered false none
      ∷ answered true none
      ∷ answered true none
      ∷ answered true none
      ∷ answered true none
      ∷ []
unfolding run_ops new_service ◌+ℤ◌ status reprobe
checks = refl

probes :
    length (run_ops net_env (check ∷ check ∷ check ∷ check ∷ check ∷ []) service net).1.dialled ≡ 3
unfolding run_ops new_service ◌+ℤ◌ status reprobe
probes = refl

run_ops-eq-spec_ops_example :
    run_ops net_env (check ∷ inform ∷ check ∷ probe ∷ []) service net
    ≡ spec_ops net_env
        (record { protocol = "tcp"; address = "web"; port = pos 80 })
        (pos 2)
        (check ∷ inform ∷ check ∷ probe ∷ [])
        []
        net
run_ops-eq-spec_ops_example =
    run_ops-eq-spec_ops net_env "web" (pos 80) "tcp" (pos 2) (some 0) (some 1) (some 2)
      (check ∷ inform ∷ check ∷ probe ∷ []) net

net-IsOrdered : IsOrdered net.world.objects
net-IsOrdered = AllAt-IsOrdered net.world.objects (omega arith)

service-IsReady : IsReady 3 service proxy
unfolding new_service
service-IsReady = record {
  always = omega arith;
  on_up = omega arith;
  on_down = omega arith;
  proxy = refl;
}

-- A down service: the trigger for every request, then the one for a down service.
down_request :
    ((filter_request net_env 3 service net).0 ≡ page 503 service_not_ready)
    × ((filter_request net_env 3 service net).2.world.effects ≡ called 3 ∷ called 1 ∷ [])
unfolding filter_request run_trigger status reprobe new_service trigger
down_request = (refl, refl)

filter_request-Decides_example :
    Decides net_env 3
      (status net_env service net).0
      (status net_env service net).1
      proxy
      (status net_env service net).2.world
      (filter_request net_env 3 service net).0
      (filter_request net_env 3 service net).2.world
filter_request-Decides_example =
    filter_request-Decides net_env 3 service proxy net net-IsOrdered (omega arith) service-IsReady

abbrev definition : ServiceDef
definition = record {
  address = "web";
  port = pos 80;
  protocol = "tcp";
  grace_period = parsed (pos 2);
  on_down = some (Unmarshaled.trigger 0);
  on_up = none;
  always = some (Unmarshaled.trigger 2);
}

-- The world after one dial, in which the service is up.
abbrev dialled_net : Net
dialled_net = record net {
  dialled = record { protocol = "tcp"; address = "web"; port = pos 80 } ∷ [];
}

definition_up :
    (status net_env (unmarshal_service definition zero_service).0 dialled_net).0 ≡ (true, none)
unfolding status reprobe unmarshal_service
definition_up = refl

definition_fires :
    (fire net_env 3
      (hooks true (status net_env (unmarshal_service definition zero_service).0 dialled_net).1)
      (status net_env (unmarshal_service definition zero_service).0 dialled_net).2.world).0
    ≡ returned none
unfolding status reprobe unmarshal_service trigger trigger_compound
definition_fires = refl

decoded_service_panics_example :
    (filter_request net_env 3 (unmarshal_service definition zero_service).0 dialled_net).0 ≡ panic
decoded_service_panics_example =
    decoded_service_panics net_env 3 definition dialled_net definition_up definition_fires

abbrev one_name : Monitor
one_name = (add "a" 0 (new_min_monitor (service ∷ []))).1

add_lem_example :
    ((add "b" 1 one_name).0 ≡ none)
    × (lookup "a" (entries (add "b" 1 one_name).1.table) ≡ lookup "a" (entries one_name.table))
    × ((add "b" 1 one_name).1.services ≡ one_name.services)
unfolding add lookup insert delete new_min_monitor
add_lem_example = add_lem "b" "a" 1 one_name

free_name : (add "b" 1 (new_min_monitor (service ∷ []))).0 ≡ none
unfolding add lookup new_min_monitor
free_name = refl
