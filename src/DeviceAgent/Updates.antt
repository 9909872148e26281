-- ===== src/DeviceAgent/Updates.antt =====
-- rw_core/core/device_agent.go: the updates of the status of a device, of the states and peers of its ports,
-- of its parent and of its reason. A number that is not one of an enumeration is none here.
use vol_2619_voltha_go.Prelude.{
  ℕ, String, str_eq, Bool, Option, none, some, List, [], ◌∷◌, ◌==◌, ◌&&◌, not, map, if◌then◌else◌,
  reject, find_first, ltb,
}
use vol_2619_voltha_go.Status.{Code, invalid_argument, ◌▸◌}
use vol_2619_voltha_go.Transitions.{AdminState, enabled, disabled, same_admin, OperStatus}
use vol_2619_voltha_go.DeviceAgent.{
  Device, DeviceAgent, Port, ConnectStatus, Surroundings, AdapterCall, disable_port, enable_port,
  update_device_in_store, call_adapter,
}

abbrev with_connect_status : Option ConnectStatus → Device → Device
with_connect_status none d = d
with_connect_status (some s) d = record d { connect_status = s }

abbrev with_oper_status : Option OperStatus → Device → Device
with_oper_status none d = d
with_oper_status (some s) d = record d { oper_status = s }

unfoldable pub update_device_status :
    Surroundings
    → Option OperStatus
    → Option ConnectStatus
    → DeviceAgent
    → DeviceAgent × Option Code
update_device_status E oper conn a =
    update_device_in_store E (with_oper_status oper (with_connect_status conn a.device)) a

abbrev pub set_oper_status : OperStatus → Port → Port
set_oper_status s p = record p { oper_status = s }

unfoldable pub update_ports_oper_state :
    Surroundings → OperStatus → DeviceAgent → DeviceAgent × Option Code
update_ports_oper_state E s a =
    let d = a.device in
    update_device_in_store E (record d { ports = map (set_oper_status s) d.ports }) a

-- The types of ports are the numbers from 0 to 6.
abbrev pub is_port_type : ℕ → Bool
is_port_type n = ltb n 7

abbrev pub set_if_port : ℕ → ℕ → OperStatus → Port → Port
set_if_port port_type port_no s p =
    if p.port_type == port_type && p.port_no == port_no then record p { oper_status = s } else p

unfoldable pub update_port_state :
    Surroundings → ℕ → ℕ → OperStatus → DeviceAgent → DeviceAgent × Option Code
update_port_state E port_type port_no s a =
    let d = a.device in
    if not (is_port_type port_type)
    then (a, some invalid_argument)
    else update_device_in_store E
        (record d { ports = map (set_if_port port_type port_no s) d.ports }) a

abbrev pub without_peer : String → Port → Port
without_peer id p = record p { peers = reject (λ peer. str_eq peer.device_id id) p.peers }

unfoldable pub delete_peer_ports : Surroundings → String → DeviceAgent → DeviceAgent × Option Code
delete_peer_ports E id a =
    let d = a.device in
    update_device_in_store E (record d { ports = map (without_peer id) d.ports }) a

unfoldable pub update_admin_state :
    Surroundings → AdminState → DeviceAgent → DeviceAgent × Option Code
update_admin_state E s a =
    let d = a.device in
    if same_admin d.admin_state s
    then (a, none)
    else update_device_in_store E (record d { admin_state = s }) a

unfoldable pub set_parent_id : Surroundings → String → DeviceAgent → DeviceAgent × Option Code
set_parent_id E id a = update_device_in_store E (record (a.device) { parent_id = id }) a

unfoldable pub update_device_reason :
    Surroundings → String → DeviceAgent → DeviceAgent × Option Code
update_device_reason E s a = update_device_in_store E (record (a.device) { reason = s }) a

abbrev pub pon_olt : ℕ
pon_olt = 3

-- The loop over the ports up to the first one of the number, which it changes.
unfoldable pub with_admin_state : AdminState → ℕ → List Port → List Port
with_admin_state s port_no [] = []
with_admin_state s port_no (p ∷ ps) =
    let rest = with_admin_state s port_no ps in
    if p.port_no == port_no then record p { admin_state = s } ∷ ps else p ∷ rest

abbrev pub change_port :
    Surroundings
    → (Port → AdapterCall)
    → AdminState
    → ℕ
    → Option Port
    → DeviceAgent
    → DeviceAgent × Option Code
change_port E request s port_no none a = (a, some invalid_argument)
change_port E request s port_no (some p) a =
    let cp = record p { admin_state = s } in
    let d = record (a.device) { ports = with_admin_state s port_no a.device.ports } in
    if not (cp.port_type == pon_olt)
    then (a, some invalid_argument)
    else update_device_in_store E d a ▸ call_adapter E (request cp) d

unfoldable pub disable_port_request : Surroundings → ℕ → DeviceAgent → DeviceAgent × Option Code
disable_port_request E port_no a =
    change_port E disable_port disabled port_no
      (find_first (λ p. p.port_no == port_no) a.device.ports) a

unfoldable pub enable_port_request : Surroundings → ℕ → DeviceAgent → DeviceAgent × Option Code
enable_port_request E port_no a =
    change_port E enable_port enabled port_no
      (find_first (λ p. p.port_no == port_no) a.device.ports) a

-- The ports of a type, of the device that the device manager finds.
unfoldable pub get_ports : Option Device → ℕ → List Port
get_ports none port_type = []
get_ports (some d) port_type = reject (λ p. not (p.port_type == port_type)) d.ports

pub data Update : Type 0 where
  status : Option OperStatus → Option ConnectStatus → Update
  ports_state : OperStatus → Update
  port_state : ℕ → ℕ → OperStatus → Update
  remove_peers : String → Update
  admin : AdminState → Update
  parent : String → Update
  reason : String → Update
  disable_port_no enable_port_no : ℕ → Update

unfoldable pub apply_update : Surroundings → Update → DeviceAgent → DeviceAgent × Option Code
apply_update E (status oper conn) a = update_device_status E oper conn a
apply_update E (ports_state s) a = update_ports_oper_state E s a
apply_update E (port_state t n s) a = update_port_state E t n s a
apply_update E (remove_peers id) a = delete_peer_ports E id a
apply_update E (admin s) a = update_admin_state E s a
apply_update E (parent id) a = set_parent_id E id a
apply_update E (reason s) a = update_device_reason E s a
apply_update E (disable_port_no n) a = disable_port_request E n a
apply_update E (enable_port_no n) a = enable_port_request E n a
