-- ===== src/DeviceAgent.antt =====
-- rw_core/core/device_agent.go: the requests of a device agent that change the administrative state and
-- the ports of its device. Every operation holds the lock of the device from its start to its end, and
-- changes a copy of the device, which replaces the agent's own one when it is stored. The data model
-- and the adapters are parameters.
pub mod Lifecycle
pub mod Ports
pub mod Updates
pub mod History
use vol_2619_voltha_go.Prelude.{
  ℕ, String, Bool, true, false, Option, none, some, List, [], ◌∷◌, ◌++◌, ◌==◌, ◌&&◌, ◌||◌, not,
  if◌then◌else◌, is_empty, any,
}
use vol_2619_voltha_go.Status.{Code, failed_precondition, internal, Result, ok, err, ◌▸◌}
use vol_2619_voltha_go.Transitions.{
  AdminState, enabled, disabled, deleted, preprovisioned, same_admin, OperStatus,
}
use vol_2619_voltha_go.Route.{PeerPort}

-- The type of a port is its number in the messages.
pub record Port : Type 0 where
  pub port_type : ℕ
  pub port_no : ℕ
  pub admin_state : AdminState
  pub oper_status : OperStatus
  pub peers : List PeerPort

pub data ConnectStatus : Type 0 where
  unknown unreachable reachable : ConnectStatus

pub record Device : Type 0 where
  pub id : String
  pub adapter : String
  pub admin_state : AdminState
  pub oper_status : OperStatus
  pub connect_status : ConnectStatus
  pub parent_id : String
  pub reason : String
  pub ports : List Port

pub data AdapterCall : Type 0 where
  adopt_device re_enable_device disable_device reboot_device delete_device : AdapterCall
  disable_port enable_port : Port → AdapterCall

-- The agent, with the calls of the adapter that it has made, the last one first.
pub record DeviceAgent : Type 0 where
  pub device : Device
  pub calls : List (AdapterCall × Device)

-- The adapter's name for the type of the device, the answers of the adapter, and whether the data
-- model has an updated node.
pub record Surroundings : Type 0 where
  pub get_adapter_name : Result String
  pub call : AdapterCall → Device → Option Code
  pub update : Device → Result Bool

abbrev pub stored : Result Bool → Device → DeviceAgent → DeviceAgent × Option Code
stored (err c) d a = (a, some internal)
stored (ok false) d a = (a, some internal)
stored (ok true) d a = (record a { device = d }, none)

unfoldable pub update_device_in_store :
    Surroundings → Device → DeviceAgent → DeviceAgent × Option Code
update_device_in_store E d a = stored (E.update d) d a

-- A call of the adapter, with its error.
unfoldable pub call_adapter :
    Surroundings → AdapterCall → Device → DeviceAgent → DeviceAgent × Option Code
call_adapter E c d a = (record a { calls = (c, d) ∷ a.calls }, E.call c d)

abbrev pub enable_with : Surroundings → DeviceAgent → Result String → DeviceAgent × Option Code
enable_with E a (err c) = (a, some c)
enable_with E a (ok adapter_name) =
    let d = a.device in
    let cloned = record d {
      adapter = adapter_name;
      admin_state = enabled;
      oper_status = OperStatus.activating;
    } in
    if same_admin d.admin_state enabled
    then (a, none)
    else if same_admin d.admin_state deleted
    then (a, some failed_precondition)
    else update_device_in_store E cloned a
      ▸ call_adapter E
          (if same_admin d.admin_state preprovisioned then adopt_device else re_enable_device)
          cloned

unfoldable pub enable_device : Surroundings → DeviceAgent → DeviceAgent × Option Code
enable_device E a = enable_with E a E.get_adapter_name

unfoldable pub disable_device_request : Surroundings → DeviceAgent → DeviceAgent × Option Code
disable_device_request E a =
    let d = a.device in
    let cloned = record d { admin_state = disabled; oper_status = OperStatus.unknown } in
    if same_admin d.admin_state disabled
    then (a, none)
    else if same_admin d.admin_state preprovisioned || same_admin d.admin_state deleted
    then (a, some failed_precondition)
    else update_device_in_store E cloned a ▸ call_adapter E disable_device cloned

unfoldable pub reboot_device_request : Surroundings → DeviceAgent → DeviceAgent × Option Code
reboot_device_request E a = call_adapter E reboot_device a.device a

unfoldable pub delete_device_request : Surroundings → DeviceAgent → DeviceAgent × Option Code
delete_device_request E a =
    let d = a.device in
    if same_admin d.admin_state deleted
    then (a, none)
    else (if same_admin d.admin_state preprovisioned
        then (a, none)
        else call_adapter E delete_device d a)
      ▸ update_device_in_store E (record d { admin_state = deleted })

unfoldable pub delete_all_ports : Surroundings → DeviceAgent → DeviceAgent × Option Code
delete_all_ports E a =
    let d = a.device in
    if not (same_admin d.admin_state disabled) && not (same_admin d.admin_state deleted)
    then (a, some failed_precondition)
    else if is_empty d.ports
    then (a, none)
    else update_device_in_store E (record d { ports = [] }) a

unfoldable pub is_same_port : Port → Port → Bool
is_same_port p q = p.port_type == q.port_type && p.port_no == q.port_no

unfoldable pub add_port : Surroundings → Port → DeviceAgent → DeviceAgent × Option Code
add_port E port a =
    let d = a.device in
    let cp = record port { admin_state = enabled } in
    if any (is_same_port port) d.ports
    then (a, none)
    else update_device_in_store E (record d { ports = d.ports ++ cp ∷ [] }) a

-- The loop over the ports, up to the first one of the number.
unfoldable pub with_peer : ℕ → PeerPort → List Port → List Port
with_peer port_no peer [] = []
with_peer port_no peer (p ∷ ps) =
    let rest = with_peer port_no peer ps in
    if p.port_no == port_no then record p { peers = p.peers ++ peer ∷ [] } ∷ ps else p ∷ rest

unfoldable pub add_peer_port : Surroundings → PeerPort → DeviceAgent → DeviceAgent × Option Code
add_peer_port E peer a =
    let d = a.device in
    update_device_in_store E (record d { ports = with_peer peer.port_no peer d.ports }) a

pub data Request : Type 0 where
  enable disable reboot delete delete_ports : Request
  add : Port → Request
  add_peer : PeerPort → Request

unfoldable pub serve : Surroundings → Request → DeviceAgent → DeviceAgent × Option Code
serve E enable a = enable_device E a
serve E disable a = disable_device_request E a
serve E reboot a = reboot_device_request E a
serve E delete a = delete_device_request E a
serve E delete_ports a = delete_all_ports E a
serve E (add port) a = add_port E port a
serve E (add_peer peer) a = add_peer_port E peer a
