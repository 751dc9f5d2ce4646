-- ===== src/Examples/Executing.antt =====
-- A native process that ends, and a distributed job of two ranks.
use drigs.Prelude.{ℕ, zero, suc, refl, dec_text, none, some, List, [], ◌∷◌, ◌≡◌, ◌≢◌}
use drigs.Prelude.Int.{pos}
use drigs.Dict.{lookup, put}
use drigs.Models.{Job}
use drigs.Models.JobStatus.{running, completed}
use drigs.Result.{ok, raise, external_error}
use drigs.Execution.Process.{ExecutionHandle, Poll, command}
use drigs.Execution.Native.{
  new_native, Launching, Call, launches, polls, stops, step, run, launch, start_process, get_status,
  exit_status, new_handle,
}
use drigs.Execution.Native.Settled.{Persistent, settled_stays}
use drigs.Execution.Native.Accounts.{IsSettled}
use drigs.Execution.Distributed
use drigs.Execution.Distributed.{DistributedBackend, DistributedProcessRecord, rank_env}
use drigs.Execution.Distributed.Launch.{IsLaunched, launch-IsLaunched}
use drigs.Execution.Distributed.Rank.{IsRank, rank_env-IsRank}
use drigs.Execution.Distributed.Status.{IsVerdict, poll_times, get_status-IsVerdict}
use drigs.Examples.Data.{job, requires}
use drigs.Examples.Isolating.{plain, allocation}

abbrev pub train : Job
train = job "j1" 0 10 (requires 2 10 2 100)

-- Process 7 has ended with code 0 at time 1.
abbrev ends : ℕ → Poll
ends zero pid = none
ends (suc n) pid = some (pos 0)

ends-Persistent : Persistent ends
ends-Persistent zero pid code e = cc
ends-Persistent (suc n) pid code e = e

abbrev pub os : Launching
os = record {
  environ = [];
  cwd = "/home";
  make_dir = λ d. ok tt;
  open_log = λ path. ok tt;
  spawn = λ cmd dir env. ok 7;
  hex = "ab";
}

abbrev pub handle : ExecutionHandle
handle = new_handle "exec_j1_ab" "j1" 7

abbrev before : List Call
before = launches os train allocation ∷ polls handle ∷ []

settled : IsSettled "exec_j1_ab" completed (run plain ends 0 before (new_native "/logs")).processes
unfolding run step launch start_process command get_status exit_status lookup put dec_text
settled = (_, (refl, refl))

settled_stays_example :
    (get_status
      (λ pid. none)
      handle
      (run plain ends 2 (stops handle ∷ []) (run plain ends 0 before (new_native "/logs")))).1
    ≡ completed
settled_stays_example =
    settled_stays plain ends ends-Persistent "/logs" before (stops handle ∷ []) handle completed
      settled tt (λ pid. none)

-- The second rank cannot be started.
abbrev ranks : Distributed.Launching
ranks = record {
  environ = [];
  cwd = "/home";
  free_port = 29500;
  open_log = λ path. none;
  spawn = λ rank cmd dir env. elim rank [ zero ↦ ok 7 | suc n ↦ raise (external_error "memory") ];
  uuid = "h1";
}

abbrev empty : DistributedBackend
empty = record { log_dir = "/logs"; records = [] }

launch-IsLaunched_example :
    IsLaunched ranks train allocation empty
      (Distributed.launch plain ranks train allocation empty)
      (Distributed.launch plain ranks train allocation empty).answer
launch-IsLaunched_example = launch-IsLaunched plain ranks train allocation empty

rank_env-IsRank_example :
    IsRank plain ranks train allocation 0 (rank_env plain ranks train allocation 0)
rank_env-IsRank_example = rank_env-IsRank plain ranks train allocation 0 tt

abbrev two : DistributedProcessRecord
two = record {
  handle = handle;
  processes = 7 ∷ 8 ∷ [];
  log_filepaths = [];
  completed_status = none;
}

abbrev one_record : DistributedBackend
one_record = record { log_dir = "/logs"; records = ("exec_j1_ab", two) ∷ [] }

get_status-IsVerdict_example :
    let (b', s) = Distributed.get_status (ends 1) handle one_record in
    IsVerdict (ends 1) (7 ∷ 8 ∷ []) s
    × (s ≢ running
        → (Distributed.get_status
            (ends 0)
            handle
            (poll_times ((ends 0, handle) ∷ (ends 2, handle) ∷ []) b')).1
          ≡ s)
get_status-IsVerdict_example =
    get_status-IsVerdict (ends 1) (ends 0) ((ends 0, handle) ∷ (ends 2, handle) ∷ []) handle
      one_record two (unfold lookup dec_text in refl) refl
