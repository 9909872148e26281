-- ===== src/DeviceManager/Detection.antt =====
-- rw_core/core/device_manager.go: the detection of a child device, `childDeviceDetected`.
use vol_2619_voltha_go.Prelude.{
  ℕ, ◌%◌, ◌^◌, String, str_eq, false, Option, none, some, List, [], ◌∷◌, ◌&&◌, not, if◌then◌else◌,
  any,
}
use vol_2619_voltha_go.Status.{
  Code, not_found, other, Result, ok, err, Run, returned, panicked, and_then,
}
use vol_2619_voltha_go.Transitions.{preprovisioned}
use vol_2619_voltha_go.DeviceManager.{
  ManagedDevice, ManagedAgent, DeviceManager, enable, Surroundings, add_device_agent_to_map,
  get_device_agent, get_device,
}
use vol_2619_voltha_go.DeviceManager.Dispatch.{called}
use vol_2619_voltha_go.DeviceManager.Children.{get_child_device}

-- A device type of the data model.
pub record VendorType : Type 0 where
  pub adapter : String
  pub vendor_ids : List String

-- What an adapter reports of a child device.
pub record Detected : Type 0 where
  pub parent_id : String
  pub parent_port_no : ℕ
  pub device_type : String
  pub vendor_id : String
  pub serial_number : String
  pub onu_id : ℕ

-- The loops over the device types and their vendors; empty if no vendor matches.
unfoldable pub adapter_of_vendor : String → List VendorType → String
adapter_of_vendor vendor_id [] = ""
adapter_of_vendor vendor_id (t ∷ ts) =
    let rest = adapter_of_vendor vendor_id ts in
    if any (λ v. str_eq v vendor_id) t.vendor_ids then t.adapter else rest

abbrev adapter_of : String → Result (List VendorType) → Result String
adapter_of vendor_id (err c) = err c
adapter_of vendor_id (ok ts) = ok (adapter_of_vendor vendor_id ts)

unfoldable pub detected_type : Result (List VendorType) → Detected → Result String
detected_type types new =
    if str_eq new.device_type "" && not (str_eq new.vendor_id "")
    then adapter_of new.vendor_id types
    else ok new.device_type

-- The device of the new agent, as it starts. Its identifier is a fresh one, since it has none; an agent
-- that fails to start may still miss the identifier and the state of its device, but keeps its place.
abbrev pub child_device : Surroundings → Detected → ManagedDevice
child_device E new = record {
  id = E.fresh_device_id;
  root = false;
  parent_id = new.parent_id;
  parent_port_no = new.parent_port_no % 2 ^ 32;
  adapter = "";
  admin_state = preprovisioned;
  serial_number = new.serial_number;
  onu_id = new.onu_id % 2 ^ 32;
  host_and_port = "";
  mac_address = "";
  ports = [];
}

-- The device and the error that a detection answers with.
abbrev pub Answer : Type 0
Answer = Option ManagedDevice × Option Code

-- The agent is enabled in a routine of its own, whose error is only logged. Without an agent, the
-- routine that tells of the discovery reads the identifier of nil.
abbrev pub activated :
    Surroundings
    → ManagedDevice
    → DeviceManager × Option ManagedAgent
    → Run (DeviceManager × Answer)
activated E d (m, none) = panicked
activated E d (m, some a) =
    returned ((called d.id a (E.agent_call enable a.device) m).0, (some d, none))

-- After the start of the agent; the core claims the ownership of the device.
abbrev pub child_started :
    Surroundings → ManagedDevice → Option Code → DeviceManager → Run (DeviceManager × Answer)
child_started E d (some c) m = returned (m, (none, some c))
child_started E d none m =
    and_then (get_device_agent E d.id (record m { claimed = d.id ∷ m.claimed })) (activated E d)

abbrev pub with_new_child :
    Surroundings
    → ManagedDevice
    → Run (DeviceManager × Result ManagedDevice)
    → Run (DeviceManager × Answer)
with_new_child E d panicked = panicked
with_new_child E d (returned (m, ok found)) = returned (m, (some found, some other))
with_new_child E d (returned (m, err c)) =
    child_started E d (E.start_new d)
      (add_device_agent_to_map d.id (record { device = d; is_root_device = false }) m)

abbrev pub with_parent :
    Surroundings
    → Detected
    → Run (DeviceManager × Result ManagedDevice)
    → Run (DeviceManager × Answer)
with_parent E new panicked = panicked
with_parent E new (returned (m, err c)) = returned (m, (none, some not_found))
with_parent E new (returned (m, ok parent)) =
    with_new_child E (child_device E new)
      (get_child_device E new.parent_id new.serial_number new.onu_id new.parent_port_no m)

abbrev pub with_type :
    Surroundings → Detected → DeviceManager → Result String → Run (DeviceManager × Answer)
with_type E new m (err c) = returned (m, (none, some c))
with_type E new m (ok device_type) =
    if str_eq device_type ""
    then returned (m, (none, some not_found))
    else with_parent E new (get_device E new.parent_id m)

unfoldable pub child_device_detected :
    Surroundings
    → Result (List VendorType)
    → Detected
    → DeviceManager
    → Run (DeviceManager × Answer)
child_device_detected E types new m = with_type E new m (detected_type types new)
