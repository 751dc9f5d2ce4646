-- ===== src/Examples/Simulating.antt =====
-- A simulated machine with three GPUs, two of them in one group.
use drigs.Prelude.{zero, suc, ◌-◌, min, String, refl, dec_text, [], ◌∷◌, ◌≡◌, ◌≢◌}
use drigs.Prelude.Int.{pos}
use drigs.Dict.{Dict, lookup, put}
use drigs.Models.{DeviceState}
use drigs.Result.{ok}
use drigs.Execution.Text.{Text}
use drigs.Hardware.Topology.{get_link_type, load_raw_topology}
use drigs.Hardware.Simulated.{
  SimulatedBackend, initialize_simulated_devices, simulated_device, update_simulated_state,
  get_device_status, get_topology,
}
use drigs.Hardware.Simulated.Memory.{get-update}
use drigs.Hardware.Simulated.Links.{expected_link, get_link_type-get_topology}
use drigs.Examples.Isolating.{plain}

-- Numbers up to 1 are shown apart.
abbrev pub counted : Text
counted = record plain {
  show = λ n. elim n [ zero ↦ "0" | suc m ↦ elim m [ zero ↦ "1" | suc k ↦ "more" ] ];
}

abbrev empty : SimulatedBackend
empty = record {
  num_gpus = 3;
  vram_per_gpu_bytes = 24;
  model_name = "RTX";
  vendor = "NVIDIA";
  compute_capability = "8.9";
  devices = [];
}

abbrev machine : SimulatedBackend
machine = record empty {
  devices =
      ("gpu-0", simulated_device counted empty 0)
      ∷ ("gpu-1", simulated_device counted empty 1)
      ∷ ("gpu-more", simulated_device counted empty 2)
      ∷ [];
}

initialized : initialize_simulated_devices counted empty ≡ machine
unfolding initialize_simulated_devices simulated_device put dec_text
initialized = refl

get-update_example :
    let b' = update_simulated_state "gpu-1" (pos 30) machine in
    (get_device_status "gpu-1" b'
      ≡ ok (record {
        device_id = "gpu-1";
        state = DeviceState.healthy;
        memory_used_bytes = min 30 (simulated_device counted empty 1).total_memory_bytes;
        memory_free_bytes = (simulated_device counted empty 1).total_memory_bytes - 30;
      }))
    × ((other : String)
        → "gpu-1" ≢ other
        → get_device_status other b' ≡ get_device_status other machine)
get-update_example =
    get-update "gpu-1" 30 machine (simulated_device counted empty 1)
      (unfold lookup dec_text in refl)

abbrev printed : Dict String → String
printed links = "{...}"

get_link_type-get_topology_example :
    let loaded = load_raw_topology printed (get_topology machine) [] in
    (get_link_type "gpu-0" "gpu-1" loaded ≡ expected_link machine "gpu-0" "gpu-1")
    × (get_link_type "gpu-0" "gpu-1" loaded ≡ get_link_type "gpu-1" "gpu-0" loaded)
get_link_type-get_topology_example =
    get_link_type-get_topology machine printed [] "gpu-0" "gpu-1" (unfold lookup dec_text in refl)
      (unfold lookup dec_text in refl)
