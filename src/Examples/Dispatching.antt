-- ===== src/Examples/Dispatching.antt =====
-- A dispatcher with one agent, whose backend counts its processes.
use drigs.Prelude.{ℕ, suc, refl, true, false, contains, dec_text, some, List, [], ◌∷◌}
use drigs.Models.{DeviceState, JobStatus}
use drigs.Result.{ok}
use drigs.Workers.Agent.{ExecutionBackend, Machine, WorkerAgent}
use drigs.Workers.Dispatcher.{
  RemoteDispatcher, new_dispatcher, Call, registers, unregisters, dispatches, stops, polls, lists,
  run, dispatch,
}
use drigs.Workers.Dispatcher.Dispatch.{IsDispatched, dispatch-IsDispatched}
use drigs.Workers.Dispatcher.Paired.{IsPaired, run-IsPaired}
use drigs.Examples.Data.{whole}
use drigs.Examples.Watching.{registry}
use drigs.Examples.Executing.{train}
use drigs.Examples.Isolating.{allocation}

abbrev counting : ExecutionBackend ℕ ℕ
counting = record {
  launch = λ job a b. (suc b, ok b);
  stop = λ h b. (b, ok true);
  get_status = λ h b. (b, ok JobStatus.running);
}

abbrev agent : WorkerAgent ℕ ℕ
agent = record {
  worker_id = "w1";
  hostname = "node1";
  ip_address = "10.0.0.1";
  execution_backend = 0;
  status = DeviceState.healthy;
  active_handles = [];
  running = false;
  heartbeat_count = 0;
  last_heartbeat = some 20;
}

abbrev machine : Machine
machine = record { devices = []; cpu_count = some 8; total_memory = 1000 }

abbrev calls : List (Call ℕ ℕ)
calls =
    registers machine 20 agent
    ∷ dispatches 21 train allocation
    ∷ polls 22 "j1"
    ∷ lists 22
    ∷ stops "j1"
    ∷ unregisters "w1"
    ∷ []

run-IsPaired_example : IsPaired (run whole counting calls (new_dispatcher registry))
run-IsPaired_example = run-IsPaired whole counting calls registry

-- At time 10 no worker is late.
abbrev ready : RemoteDispatcher whole.F ℕ ℕ
ready = record {
  registry = registry;
  agents = ("w1", agent) ∷ [];
  handles = [];
  job_worker_map = [];
}

dispatch-IsDispatched_example :
    let (d', answer) = dispatch whole counting 10 train allocation ready in
    IsDispatched whole counting 10 train allocation ready d' answer
dispatch-IsDispatched_example =
    dispatch-IsDispatched whole counting 10 train allocation ready
      (unfold contains dec_text in (refl, (refl, tt)))
