-- ===== src/DeviceManager/Requests.antt =====
-- rw_core/core/device_manager.go: the requests of the manager that change its state.
use vol_2619_voltha_go.Prelude.{ℕ, String, Option, List}
use vol_2619_voltha_go.Status.{Code, Result, Run, returned, and_then}
use vol_2619_voltha_go.Transitions.{OperStatus, ConnectStatus}
use vol_2619_voltha_go.DeviceAgent.{Port}
use vol_2619_voltha_go.DeviceManager.{
  ManagedDevice, DeviceManager, AgentCall, Surroundings, get_device,
}
use vol_2619_voltha_go.DeviceManager.Lifecycle.{
  create_device, stop_managing_device, list_devices, reconcile_devices,
}
use vol_2619_voltha_go.DeviceManager.Dispatch.{
  on_agent, add_port, delete_all_ports, update_port_state, update_ports_state,
}
use vol_2619_voltha_go.DeviceManager.Children.{
  disable_all_child_devices, delete_all_child_devices, child_devices_lost, child_devices_detected,
  update_children_status, get_child_device,
}
use vol_2619_voltha_go.DeviceManager.Detection.{VendorType, Detected, child_device_detected}

pub data ManagerRequest : Type 0 where
  call : AgentCall → String → ManagerRequest
  create : ManagedDevice → ManagerRequest
  stop_managing : String → ManagerRequest
  list : ManagerRequest
  reconcile : List String → ManagerRequest
  get : String → ManagerRequest
  join_port : String → Port → ManagerRequest
  drop_ports : String → ManagerRequest
  set_port : String → (port_type port_no : ℕ) → OperStatus → ManagerRequest
  set_ports : Option Code → String → OperStatus → ManagerRequest
  disable_children delete_children : ManagedDevice → ManagerRequest
  children_lost children_detected : String → ManagerRequest
  set_children : String → OperStatus → ConnectStatus → ManagerRequest
  get_child : String → String → (onu_id parent_port_no : ℕ) → ManagerRequest
  detect : Result (List VendorType) → Detected → ManagerRequest

abbrev pub state : {A : Type 0} → Run (DeviceManager × A) → Run DeviceManager
state r = and_then r (λ p. returned p.0)

-- The state that a request leaves.
unfoldable pub serve : Surroundings → ManagerRequest → DeviceManager → Run DeviceManager
serve E (call c id) m = state (on_agent E c id m)
serve E (create d) m = returned (create_device E d m).0
serve E (stop_managing id) m = returned (stop_managing_device E id m)
serve E list m = state (list_devices E m)
serve E (reconcile ids) m = state (reconcile_devices E ids m)
serve E (get id) m = state (get_device E id m)
serve E (join_port id port) m = state (add_port E id port m)
serve E (drop_ports id) m = state (delete_all_ports E id m)
serve E (set_port id t n oper) m = state (update_port_state E id t n oper m)
serve E (set_ports logical id oper) m = state (update_ports_state E logical id oper m)
serve E (disable_children d) m = state (disable_all_child_devices E d m)
serve E (delete_children d) m = state (delete_all_child_devices E d m)
serve E (children_lost id) m = state (child_devices_lost E id m)
serve E (children_detected id) m = state (child_devices_detected E id m)
serve E (set_children id oper conn) m = state (update_children_status E id oper conn m)
serve E (get_child id serial onu_id port_no) m =
    state (get_child_device E id serial onu_id port_no m)
serve E (detect types new) m = state (child_device_detected E types new m)
