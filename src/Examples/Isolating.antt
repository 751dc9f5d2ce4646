-- ===== src/Examples/Isolating.antt =====
-- Two jobs that reserve GPUs of one worker, and the environment of one of them.
use drigs.Prelude.{String, refl, true, false, contains, dec_text, List, [], ◌∷◌, ◌≡◌, Distinct}
use drigs.Dict.{Dict, keys, lookup}
use drigs.Models.{ResourceAllocation}
use drigs.Result.{ok}
use drigs.Execution.Text.{Text}
use drigs.Execution.Isolation.{
  GpuIsolationManager, new_isolation, Call, registers, reserves, releases, run, reserve_gpus,
  release_gpus, first_reserved, set_owners, build_isolated_environment, format_cuda_visible_devices,
}
use drigs.Execution.Isolation.Reservations.{IsExact, run-IsExact}
use drigs.Execution.Isolation.Refinement.{view, promised_all, run-promised_all, release-reserve}
use drigs.Execution.Isolation.Environment.{IsIsolated, build-IsIsolated}
use drigs.Examples.Data.{gpu}

abbrev pub plain : Text
plain = record {
  strip = λ s. s;
  lower = λ s. s;
  mentions = λ part s. true;
  is_digit = λ s. false;
  without = λ part s. s;
  split = λ s. ok (s ∷ []);
  show = λ n. "n";
  is_bus_id = λ s. false;
}

-- The second reservation is refused: `gpu-1` is taken.
abbrev history : List Call
history =
    registers (gpu "gpu-1" 24 "" ∷ [])
    ∷ reserves "j1" ("gpu-0" ∷ "gpu-1" ∷ [])
    ∷ reserves "j2" ("gpu-1" ∷ [])
    ∷ reserves "j3" ("gpu-2" ∷ [])
    ∷ releases "j1"
    ∷ reserves "j2" ("gpu-1" ∷ [])
    ∷ []

abbrev used : GpuIsolationManager
used = run plain history (new_isolation false)

run-IsExact_example : IsExact used
run-IsExact_example = run-IsExact plain false history

run-promised_all_example : view used ≡ promised_all history (view (new_isolation false))
run-promised_all_example = run-promised_all plain false history

abbrev holding : GpuIsolationManager
holding = (reserve_gpus plain "j1" ("gpu-0" ∷ []) (new_isolation false)).0

granted :
    reserve_gpus plain "j1" ("gpu-0" ∷ []) (new_isolation false)
    ≡ (holding, ok (format_cuda_visible_devices plain ("gpu-0" ∷ []) false []))
unfolding reserve_gpus first_reserved set_owners lookup
granted = refl

release-reserve_example :
    ((release_gpus "j1" holding).1 ≡ "gpu-0" ∷ [])
    × (view (release_gpus "j1" holding).0 ≡ view (new_isolation false))
release-reserve_example =
    release-reserve plain "j1" ("gpu-0" ∷ []) (new_isolation false) holding
      (format_cuda_visible_devices plain ("gpu-0" ∷ []) false []) granted

abbrev pub allocation : ResourceAllocation
allocation = record {
  allocation_id = "a1";
  job_id = "j1";
  worker_id = "w1";
  assigned_device_ids = "gpu-0" ∷ [];
  assigned_cpu_cores = 0 ∷ 1 ∷ [];
  memory_bytes = 10;
  allocated_at = 5;
}

-- The user sets a variable of the allocation, and one of his own.
abbrev base : Dict String
base = ("DRIGS_JOB_ID", "other") ∷ ("MODE", "fast") ∷ []

base-Distinct : Distinct (keys base)
unfolding contains dec_text
base-Distinct = (refl, (refl, tt))

build-IsIsolated_example :
    IsIsolated plain [] allocation base [] false
      (build_isolated_environment plain [] allocation base [] false)
build-IsIsolated_example = build-IsIsolated plain [] allocation base [] false base-Distinct
