-- ===== src/Hardware/Simulated/Memory.antt =====
-- update_simulated_state and get_device_status in drigs/hardware/simulated.py.
use drigs.Prelude.{ℕ, ◌-◌, min, String, ◌≡◌, ◌≢◌, refl, true, some, leb, arith}
use drigs.Prelude.Int.{pos}
use drigs.Dict.{lookup, lookup-put_self, lookup-put_other}
use drigs.Models.{ComputeDevice, DeviceState}
use drigs.Result.{ok}
use drigs.Hardware.Simulated.{
  SimulatedBackend, remaining, update_simulated_state, used_memory, get_device_status,
}

used_memory-remaining : (total used : ℕ) → used_memory total (total - used) ≡ ok (min used total)
unfolding used_memory
used_memory-remaining total used =
    let within : leb (total - used) total ≡ true = ground arith in
    let same : total - (total - used) ≡ min used total = omega arith in
    rw (used_memory, within, same) refl

-- After the memory in use of a device has been set, which is not negative, its status is HEALTHY
-- with that memory used, at most all that there is, and the rest free; the status of every other
-- device is as before.
pub get-update :
    (id : String) (used : ℕ) (b : SimulatedBackend) (d : ComputeDevice)
    → lookup id b.devices ≡ some d
    → let b' = update_simulated_state id (pos used) b in
      (get_device_status id b'
        ≡ ok (record {
          device_id = id;
          state = DeviceState.healthy;
          memory_used_bytes = min used d.total_memory_bytes;
          memory_free_bytes = d.total_memory_bytes - used;
        }))
      × ((other : String) → id ≢ other → get_device_status other b' ≡ get_device_status other b)
unfolding update_simulated_state get_device_status remaining
get-update id used b d e =
    let d' = record d { available_memory_bytes = d.total_memory_bytes - used } in
    (
      rw
          (
            update_simulated_state,
            e,
            get_device_status,
            lookup-put_self id d' b.devices,
            used_memory-remaining d.total_memory_bytes used,
          )
          refl,
      λ other n.
          rw
            (update_simulated_state, e, get_device_status, lookup-put_other id other d' b.devices n)
            refl,
    )
