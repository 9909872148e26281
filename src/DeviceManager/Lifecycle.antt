-- ===== src/DeviceManager/Lifecycle.antt =====
-- rw_core/core/device_manager.go: the creation, the end and the list of devices.
use vol_2619_voltha_go.Prelude.{
  ℕ, suc, String, str_eq, Bool, true, Option, none, some, List, [], ◌∷◌, ◌&&◌, ◌||◌, not,
  if◌then◌else◌, any, string_key, is_empty, length, ◌==◌,
}
use vol_2619_voltha_go.Status.{
  Code, invalid_argument, other, Result, ok, err, Run, returned, panicked, and_then,
}
use vol_2619_voltha_go.Transitions.{preprovisioned}
use vol_2619_voltha_go.DeviceManager.{
  ManagedDevice, DeviceManager, Surroundings, add_device_agent_to_map, delete_device_agent_from_map,
  is_device_in_cache, is_root_device, agent_id, started, load, levels,
}

abbrev is_same_parent : ManagedDevice → ManagedDevice → Bool
is_same_parent new d =
    d.root
    && ((not (str_eq new.host_and_port "") && str_eq new.host_and_port d.host_and_port)
        || (not (str_eq new.mac_address "") && str_eq new.mac_address d.mac_address))

unfoldable pub is_parent_device_exist : ManagedDevice → List ManagedDevice → Bool
is_parent_device_exist new ds = any (is_same_parent new) ds

-- The agent is in the map before it starts, and stays there if it does not.
abbrev pub create_with :
    Surroundings
    → ManagedDevice
    → Result (List ManagedDevice)
    → DeviceManager
    → DeviceManager × Option Code
create_with E d (err c) m = (m, some c)
create_with E d (ok ds) m =
    let new = record d { root = true; id = agent_id E d; admin_state = preprovisioned } in
    if is_parent_device_exist d ds then (m, some other) else (
      add_device_agent_to_map (agent_id E d) (record { device = new; is_root_device = true }) m,
      E.start_new new,
    )

unfoldable pub create_device :
    Surroundings → ManagedDevice → DeviceManager → DeviceManager × Option Code
create_device E d m = create_with E d E.list_nodes m

abbrev abandon : String → DeviceManager → DeviceManager
abandon id m = record m { abandoned = id ∷ m.abandoned }

abbrev pub stop_logical : Surroundings → String → DeviceManager → DeviceManager
stop_logical E id m =
    let lid = E.stop_logical_device id in
    if is_root_device id m && not (str_eq lid "") then abandon lid m else m

unfoldable pub stop_managing_device : Surroundings → String → DeviceManager → DeviceManager
stop_managing_device E id m =
    if is_device_in_cache id m
    then abandon id (delete_device_agent_from_map id (stop_logical E id m))
    else m

-- The loop of the list, which sets up an agent for each device that has none.
unfoldable pub set_up_all : Surroundings → List ManagedDevice → DeviceManager → Run DeviceManager
set_up_all E [] m = returned m
set_up_all E (d ∷ ds) m =
    let set_up = started E d (E.start_existing (agent_id E d)) m in
    and_then (if is_device_in_cache d.id m then returned m else set_up) (set_up_all E ds)

abbrev pub listed :
    Surroundings
    → Result (List ManagedDevice)
    → DeviceManager
    → Run (DeviceManager × Result (List ManagedDevice))
listed E (err c) m = returned (m, err c)
listed E (ok ds) m = and_then (set_up_all E ds m) (λ n. returned (n, ok ds))

unfoldable pub list_devices :
    Surroundings → DeviceManager → Run (DeviceManager × Result (List ManagedDevice))
list_devices E m = listed E E.list_nodes m

abbrev pub reconciled_with :
    (DeviceManager → ℕ → Run (DeviceManager × ℕ))
    → ℕ
    → Option (Run (DeviceManager × Option Code))
    → Run (DeviceManager × ℕ)
reconciled_with rest n none = panicked
reconciled_with rest n (some panicked) = panicked
reconciled_with rest n (some (returned (m, none))) = rest m (suc n)
reconciled_with rest n (some (returned (m, some c))) = rest m n

-- The loop that counts the devices that are loaded.
unfoldable pub reconcile_all :
    Surroundings → List String → DeviceManager → ℕ → Run (DeviceManager × ℕ)
reconcile_all E [] m n = returned (m, n)
reconcile_all E (id ∷ ids) m n = reconciled_with (reconcile_all E ids) n (load E levels id m)

unfoldable pub reconcile_devices :
    Surroundings → List String → DeviceManager → Run (DeviceManager × Option Code)
reconcile_devices E ids m =
    if is_empty ids
    then returned (m, some invalid_argument)
    else and_then (reconcile_all E ids m 0)
        (λ (l, reconciled). returned (l, if length ids == reconciled then none else some other))
