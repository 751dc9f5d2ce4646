-- ===== src/Hardware/Simulated.antt =====
-- drigs/hardware/simulated.py: the simulated GPUs of a machine. The readings that ComputeDevice is
-- modelled without, utilization and temperature, are left out here too.
pub mod Links
pub mod Memory
use Prim.Native.String.{◌++◌ as join}
use drigs.Prelude.{
  ℕ, zero, suc, ◌+◌, ◌-◌, ◌*◌, ◌/◌, ◌%◌, ◌≤◌, min, String, ◌≡◌, ◌≢◌, refl, sym, ◌∙◌, Bool, true,
  false, Option, none, some, List, [], ◌∷◌, map, leb, range_from, arith, ite, dec_text, contains,
  if◌then◌else◌, Option-cases, inl, inr, if_pos, if_neg,
}
use drigs.Prelude.Int.{ℤ, pos, negsuc}
use drigs.Dict.{Dict, lookup, put, has, keys, values, lookup-put, contains-keys}
use drigs.Models.{ComputeDevice, DeviceState, DeviceType}
use drigs.Result.{Result, ok, raise, validation_error, ◌>>=◌}
use drigs.Execution.Text.{Text}
use drigs.Hardware.Topology.{RawValue, matrix_value}

pub record SimulatedBackend : Type 0 where
  pub num_gpus : ℕ
  pub vram_per_gpu_bytes : ℕ
  pub model_name : String
  pub vendor : String
  pub compute_capability : String
  pub devices : Dict ComputeDevice

pub record DeviceStatus : Type 0 where
  pub device_id : String
  pub state : DeviceState
  pub memory_used_bytes : ℕ
  pub memory_free_bytes : ℕ

module _ (t : Text) where
  unfoldable pub simulated_device : SimulatedBackend → ℕ → ComputeDevice
  simulated_device b i = record {
    device_id = join "gpu-" (t.show i);
    device_type = DeviceType.gpu;
    vendor = b.vendor;
    model_name = b.model_name;
    total_memory_bytes = b.vram_per_gpu_bytes;
    available_memory_bytes = b.vram_per_gpu_bytes;
    compute_capability = some b.compute_capability;
    pcie_bus_id = some (join "0000:0" (join (t.show (i + 1)) ":00.0"));
    numa_node = some (pos (i % 2));
    topology_tags = ("nvlink_group", join "group_" (t.show (i / 2))) ∷ [];
  }

  add_simulated : SimulatedBackend → List ℕ → Dict ComputeDevice → Dict ComputeDevice
  add_simulated b [] found = found
  add_simulated b (i ∷ is) found =
      let d = simulated_device b i in add_simulated b is (put d.device_id d found)

  unfoldable pub initialize_simulated_devices : SimulatedBackend → SimulatedBackend
  unfolding add_simulated
  initialize_simulated_devices b = record b {
    devices = add_simulated b (range_from 0 b.num_gpus) b.devices;
  }

-- max(0, total - used)
unfoldable pub remaining : ℕ → ℤ → ℕ
remaining total (pos used) = total - used
remaining total (negsuc n) = total + suc n

unfoldable pub update_simulated_state : String → ℤ → SimulatedBackend → SimulatedBackend
unfolding remaining
update_simulated_state id used b = elim (lookup id b.devices) [
  | none ↦ b
  | some d ↦ record b {
    devices =
        put id (record d { available_memory_bytes = remaining d.total_memory_bytes used })
          b.devices;
  }
]

abbrev pub discover_devices : SimulatedBackend → List ComputeDevice
discover_devices b = values b.devices

-- total - available: a status with a negative number is not valid.
unfoldable pub used_memory : ℕ → ℕ → Result ℕ
used_memory total available =
    if leb available total then ok (total - available) else raise validation_error

unfoldable pub get_device_status : String → SimulatedBackend → Result DeviceStatus
unfolding used_memory
get_device_status id b = elim (lookup id b.devices) [
  | none ↦ ok (record {
    device_id = id;
    state = DeviceState.unavailable;
    memory_used_bytes = 0;
    memory_free_bytes = 0;
  })
  | some d ↦ used_memory d.total_memory_bytes d.available_memory_bytes >>= λ used. ok (record {
    device_id = id;
    state = DeviceState.healthy;
    memory_used_bytes = used;
    memory_free_bytes = d.available_memory_bytes;
  })
]

-- self._devices[id].topology_tags.get("nvlink_group")
abbrev pub group_of : String → SimulatedBackend → Option String
group_of id b = elim (lookup id b.devices) [
  | none ↦ none
  | some d ↦ lookup "nvlink_group" d.topology_tags
]

abbrev pub same_group : Option String → Option String → Bool
same_group none none = true
same_group (some s) (some u) = ite (dec_text s u) true false
same_group _ _ = false

unfoldable pub link : SimulatedBackend → String → String → String
link b x y =
    ite (dec_text x y) "SELF"
      (if same_group (group_of x b) (group_of y b) then "NVLINK" else "PCIE")

-- One row of the matrix, and its rows.
unfoldable pub row_of : SimulatedBackend → String → List String → Dict String
unfolding link
row_of b x [] = []
row_of b x (y ∷ ids) = (y, link b x y) ∷ row_of b x ids

unfoldable pub rows_of : SimulatedBackend → List String → List String → Dict (Dict String)
unfolding row_of
rows_of b ids [] = []
rows_of b ids (x ∷ more) = (x, row_of b x ids) ∷ rows_of b ids more

unfoldable pub topology_matrix : SimulatedBackend → Dict (Dict String)
unfolding rows_of
topology_matrix b = rows_of b (keys b.devices) (keys b.devices)

unfoldable pub get_topology : SimulatedBackend → Dict RawValue
unfolding topology_matrix
get_topology b = ("topology_matrix", matrix_value (topology_matrix b)) ∷ []
