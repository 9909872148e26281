-- ===== src/Tests/DeviceManager.antt =====
-- An OLT with two ONUs (rw_core/core/device_manager.go).
use mathlib.Core.Bool.{true≢false}
use vol_2619_voltha_go.Prelude.{
  String, str_eq, Bool, true, false, none, some, List, [], ◌∷◌, insert, ◌≡◌, refl, sym, ap, ◌∙◌,
  subst, inl, inr, if◌then◌else◌, lookup, string_key, is_some, Bool-cases,
}
use vol_2619_voltha_go.Status.{
  unavailable, Result, ok, err, Run, returned, and_then, IfReturns, ReturnsWith,
}
use vol_2619_voltha_go.Transitions.{AdminState, OperStatus, same_admin}
use vol_2619_voltha_go.DeviceManager.{
  load_device, is_device_in_cache, get_device_from_model, get_device,
  load_root_device_parent_and_children, load_children, get_all_child_device_ids, ids_of_peers,
  add_device_agent_to_map, ManagedDevice, ManagedAgent, DeviceManager, remove, Surroundings, load,
  get_device_agent,
}
use vol_2619_voltha_go.DeviceManager.Requests.{detect, serve}
use vol_2619_voltha_go.DeviceManager.Detection.{
  VendorType, Detected, detected_type, adapter_of_vendor, child_device_detected,
}
use vol_2619_voltha_go.DeviceManager.Dispatch.{update_port_state}
use vol_2619_voltha_go.DeviceManager.Children.{
  call_all, at_start, get_child_device, find_child, is_child,
}
use vol_2619_voltha_go.DeviceManager.Agreement.{Agree}
use vol_2619_voltha_go.DeviceManager.Served.{serve-Agree}
use vol_2619_voltha_go.DeviceManager.Loading.{HasTwoLevels, load_lem}
use vol_2619_voltha_go.DeviceManager.Answers.{
  port_state_error, update_port_state_lem, call_all-append,
}

abbrev device : String → Bool → String → ManagedDevice
device id root parent_id = record {
  id = id;
  root = root;
  parent_id = parent_id;
  parent_port_no = 1;
  adapter = "adapter";
  admin_state = AdminState.enabled;
  serial_number = id;
  onu_id = 1;
  host_and_port = "";
  mac_address = "";
  ports = [];
}

abbrev start : String → Result ManagedDevice
start id = if str_eq id "olt" then ok (device "olt" true "") else ok (device "onu" false "olt")

abbrev surroundings : (String → Result ManagedDevice) → Surroundings
surroundings starts = record {
  get_node = λ id. elim (start id) [ err c ↦ err c | ok d ↦ ok (some d) ];
  list_nodes = ok [];
  start_existing = starts;
  start_new = λ d. none;
  fresh_device_id = "fresh";
  agent_call = λ c d. (d, if str_eq d.id "onu1" then some unavailable else none);
  stop_logical_device = λ id. "";
}

abbrev empty : DeviceManager
empty = record { device_agents = []; root_devices = []; claimed = []; abandoned = [] }

-- An ONU of a vendor that has an adapter.
abbrev new_onu : Detected
new_onu = record {
  parent_id = "olt";
  parent_port_no = 1;
  device_type = "";
  vendor_id = "vendor";
  serial_number = "onu3";
  onu_id = 3;
}

abbrev types : Result (List VendorType)
types = ok (record { adapter = "openonu"; vendor_ids = "vendor" ∷ [] } ∷ [])

serve-Agree_example : IfReturns Agree (serve (surroundings start) (detect types new_onu) empty)
unfolding lookup
serve-Agree_example = serve-Agree (surroundings start) (detect types new_onu) empty (λ k. refl)

-- The OLT is loaded, and the new ONU gets an agent that the core owns.
abbrev root_devices_after : Run DeviceManager → Run (List (String × Bool))
root_devices_after r = and_then r (λ m. returned m.root_devices)

onu_detected :
    root_devices_after (serve (surroundings start) (detect types new_onu) empty)
    ≡ returned (("olt", true) ∷ ("fresh", false) ∷ [])
unfolding serve child_device_detected detected_type adapter_of_vendor get_child_device find_child
    is_child get_device get_device_agent load load_device is_device_in_cache get_device_from_model
    load_root_device_parent_and_children load_children get_all_child_device_ids ids_of_peers
    add_device_agent_to_map same_admin lookup insert
onu_detected = refl

value : Result ManagedDevice → ManagedDevice
value (err c) = device "" true ""
value (ok d) = d

two_levels : HasTwoLevels (surroundings start) empty
unfolding lookup value
two_levels id d (inl (a, found, same)) child p seen = cc
two_levels id d (inr e) child p (inl (a, found, same)) = cc
two_levels id d (inr e) child p (inr f) = elim (Bool-cases (str_eq id "olt")) [
  | inl c ↦
      elim (true≢false (
        ap (λ r. (value r).root)
          (subst
            (λ b. (if b then ok (device "olt" true "") else ok (device "onu" false "olt")) ≡ ok d) c
            e)
        ∙ child)) [ ]
  | inr c ↦
      let onu = ap value (
        subst (λ b. (if b then ok (device "olt" true "") else ok (device "onu" false "olt")) ≡ ok d)
          c e) in
      sym (ap (λ r. (value r).root) (subst (λ x. start x.parent_id ≡ ok p) (sym onu) f))
]

load_lem_example : is_some (load (surroundings start) 2 "onu" empty) ≡ true
load_lem_example = load_lem (surroundings start) 0 "onu" empty two_levels

-- An agent for each of two children; the first one refuses its requests.
abbrev agent : String → ManagedAgent
agent id = record { device = device id false "olt"; is_root_device = false }

abbrev loaded : DeviceManager
loaded = record {
  device_agents = ("onu1", agent "onu1") ∷ ("onu2", agent "onu2") ∷ [];
  root_devices = ("onu1", false) ∷ ("onu2", false) ∷ [];
  claimed = [];
  abandoned = [];
}

update_port_state_lem_example :
    and_then
      (update_port_state (surroundings start) "onu2" 1 1 OperStatus.active loaded)
      (λ p. returned p.1)
    ≡ and_then
        (get_device_agent (surroundings start) "onu2" loaded)
        (λ p. returned (some (port_state_error (surroundings start) 1 1 OperStatus.active p.1)))
update_port_state_lem_example =
    update_port_state_lem (surroundings start) "onu2" 1 1 OperStatus.active loaded

-- The first child refuses its request, and the answer has no error.
call_all-append_example :
    ReturnsWith
      (λ p. p.1 ≡ none)
      (call_all
        (surroundings start)
        remove
        ("onu1" ∷ "onu2" ∷ [])
        (loaded, at_start (surroundings start)))
unfolding lookup
call_all-append_example =
    call_all-append (surroundings start) remove ("onu1" ∷ []) "onu2"
      (loaded, at_start (surroundings start)) (agent "onu2") (refl, tt) refl refl refl
