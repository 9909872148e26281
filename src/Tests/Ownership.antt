-- ===== src/Tests/Ownership.antt =====
-- A core that owns an OLT and gives it up (rw_core/core/device_ownership.go).
use vol_2619_voltha_go.Prelude.{
  true, false, some, [], ◌∷◌, ◌≡◌, arith, refl, lookup, insert, string_key,
}
use vol_2619_voltha_go.Status.{ok}
use vol_2619_voltha_go.Status.{panicked}
use vol_2619_voltha_go.Ownership.{
  Ownership, DeviceOwnership, KvClient, Managers, held_by, device_id, tick, starting,
  monitor_ownership, has_ticker, new_device_ownership, owned_by_me, get_ownership_key,
  try_to_reserve_key, abandon_device, stop, abandon_all_devices, close_all, close_channel,
}
use vol_2619_voltha_go.Ownership.Invariant.{
  Returns, own_request, abandon_request, monitor_request, serve, serve-IsConsistent, handle,
}
use vol_2619_voltha_go.Ownership.Tables.{IsConsistent}
use vol_2619_voltha_go.Ownership.Reservation.{owned_by_me-owned_by_me}
use vol_2619_voltha_go.Ownership.Abandonment.{
  IsAbandoned, abandon_device-IsAbandoned, abandon_device-stop,
}

-- A store in which the asking core gets every reservation, and one in which another core has it.
abbrev free_store : KvClient
free_store = record { reserve = λ prefix id me t. held_by me }

abbrev taken_store : KvClient
taken_store = record { reserve = λ prefix id me t. held_by "core2" }

abbrev managers : Managers
managers = record {
  get_device = λ id. some (record { id = id; root = false; parent_id = "olt" });
  get_root_device_id = λ id. some "olt";
}

abbrev fresh : DeviceOwnership
fresh = new_device_ownership "core1" "own" 60

abbrev owning : DeviceOwnership
owning = (owned_by_me free_store managers (device_id "onu") fresh).0

serve-IsConsistent_example : Returns IsConsistent (
    serve
      (own_request free_store managers (device_id "onu")
        ∷ monitor_request taken_store "olt" starting
        ∷ monitor_request taken_store "olt" tick
        ∷ abandon_request "olt"
        ∷ abandon_request "olt"
        ∷ [])
      (new_device_ownership "core1" "own" 60))
serve-IsConsistent_example =
    serve-IsConsistent "core1" "own" 60
      (own_request free_store managers (device_id "onu")
        ∷ monitor_request taken_store "olt" starting
        ∷ monitor_request taken_store "olt" tick
        ∷ abandon_request "olt"
        ∷ abandon_request "olt"
        ∷ [])
      (omega arith) (omega arith)

owned_by_me-owned_by_me_example :
    owned_by_me taken_store managers (device_id "onu") owning ≡ (owning, ok true)
unfolding owned_by_me get_ownership_key new_device_ownership try_to_reserve_key lookup
owned_by_me-owned_by_me_example =
    owned_by_me-owned_by_me free_store taken_store managers managers (device_id "onu") fresh true
      refl

owning-IsConsistent : IsConsistent owning
unfolding serve handle
owning-IsConsistent =
    serve-IsConsistent "core1" "own" 60 (own_request free_store managers (device_id "onu") ∷ [])
      (omega arith) (omega arith)

abbrev olt_entry : Ownership
olt_entry = record { id = "olt"; owned = true; chnl = 0 }

abandon_device-IsAbandoned_example :
    Returns (IsAbandoned "olt" owning) (abandon_device "olt" owning)
unfolding owned_by_me get_ownership_key new_device_ownership try_to_reserve_key lookup insert
abandon_device-IsAbandoned_example =
    abandon_device-IsAbandoned "olt" owning olt_entry owning-IsConsistent (λ e. cc) refl

abbrev stopped : DeviceOwnership
stopped = record owning { exit_signals = 1; closed = 0 ∷ []; device_to_key_map = [] }

abandon_device-stop_example : abandon_device "olt" stopped ≡ panicked
unfolding owned_by_me get_ownership_key new_device_ownership try_to_reserve_key lookup insert stop
    abandon_all_devices close_all close_channel
abandon_device-stop_example = abandon_device-stop owning stopped "olt" olt_entry (λ e. cc) refl refl

-- With a time-out of two seconds, the first monitoring routine that starts brings the core down.
short_timeout :
    monitor_ownership free_store "olt" starting (new_device_ownership "core1" "own" 2) ≡ panicked
unfolding monitor_ownership has_ticker new_device_ownership
short_timeout = refl
