-- ===== src/Examples/Docking.antt =====
-- The command of one container, and a job that falls back to a native process.
use drigs.Prelude.{String, refl, false, dec_text, some, List, [], ◌∷◌, ◌≡◌}
use drigs.Dict.{put}
use drigs.Result.{ok, raise, external_error}
use drigs.Execution.Text.{comma_join}
use drigs.Execution.Process.{Poll, command, gpu_ids}
use drigs.Execution.Native.{NativeBackend, new_native, start_process}
use drigs.Execution.Native
use drigs.Execution.Docker.{
  DockerBackend, Launching, image_of, entry_words, build_docker_cmd, gpu_flags, cpu_flags,
  memory_flags, env_flags, volume_flags, dir_flags, container_env, launch, get_status, stop,
}
use drigs.Execution.Docker.Fallback.{launch-IsNative}
use drigs.Examples.Isolating.{plain, allocation}
use drigs.Examples.Executing.{train, os, handle}

abbrev words_of_train : List String
words_of_train =
    "docker" ∷ "run" ∷ "--rm" ∷ "--name" ∷ "c1" ∷ "--gpus" ∷ "device=gpu-0" ∷ "--cpus" ∷ "n"
    ∷ "--memory" ∷ "nb" ∷ "-e" ∷ "DRIGS_JOB_ID=j1" ∷ "-e" ∷ "DRIGS_ALLOCATION_ID=a1" ∷ "-e"
    ∷ "DRIGS_WORKER_ID=w1" ∷ "python:3.10-slim" ∷ "python3" ∷ "train.py" ∷ []

built : build_docker_cmd plain "docker" train allocation "c1" ≡ ok words_of_train
unfolding build_docker_cmd entry_words gpu_flags cpu_flags memory_flags env_flags volume_flags
    dir_flags container_env put dec_text gpu_ids comma_join image_of
built = refl

abbrev without_daemon : DockerBackend
without_daemon = record {
  docker_cmd = "docker";
  log_dir = "/logs";
  native_backend = some (new_native "/logs");
  processes = [];
}

abbrev no_daemon : Launching
no_daemon = record {
  available = false;
  natively = os;
  open_log = λ path. ok tt;
  spawn = λ cmd. raise (external_error "docker");
  name_hex = "cd";
  id_hex = "ef";
}

abbrev fallen : NativeBackend
fallen = record {
  log_dir = "/logs";
  processes = ("exec_j1_ab", Native.new_record handle 7 "/logs/exec_j1_ab.log") ∷ [];
}

started : Native.launch plain os train allocation (new_native "/logs") ≡ ok (fallen, handle)
unfolding Native.launch start_process command put
started = refl

launch-IsNative_example :
    let b' = record without_daemon { native_backend = some fallen } in
    (launch plain no_daemon train allocation without_daemon ≡ ok (b', handle))
    × ((poll : Poll)
        → ((get_status poll handle b').1 ≡ (Native.get_status poll handle fallen).1)
          × ((stop poll handle b').1 ≡ (Native.stop poll handle fallen).1))
launch-IsNative_example =
    launch-IsNative plain no_daemon train allocation without_daemon (new_native "/logs") fallen
      handle refl refl started
