-- ===== src/Tests/DeviceAgent.antt =====
-- Requests to the agent of a device with one port (rw_core/core/device_agent.go).
use vol_2619_voltha_go.Prelude.{true, none, some, List, [], ◌∷◌, ◌≡◌, refl}
use vol_2619_voltha_go.Status.{ok, err, failed_precondition, internal, aborted, ◌▸◌}
use vol_2619_voltha_go.Transitions.{AdminState, OperStatus, same_admin}
use vol_2619_voltha_go.DeviceAgent.{
  DeviceAgent, Port, ConnectStatus, Surroundings, enable, add, serve, enable_device, Device,
  disable_port, update_device_in_store, call_adapter,
}
use vol_2619_voltha_go.DeviceAgent.Lifecycle.{may_change, serve-may_change}
use vol_2619_voltha_go.DeviceAgent.Updates.{
  status, enable_port_no, disable_port_no, disable_port_request, with_admin_state, pon_olt,
}
use vol_2619_voltha_go.DeviceAgent.History.{Step, request, update, history, history-AreDistinct}
use vol_2619_voltha_go.DeviceAgent.Ports.{AreDistinct}

abbrev port : Port
port = record {
  port_type = 1;
  port_no = 16;
  admin_state = AdminState.enabled;
  oper_status = OperStatus.active;
  peers = [];
}

abbrev agent : AdminState → DeviceAgent
agent admin = record {
  device = record {
    id = "d";
    adapter = "olt";
    admin_state = admin;
    oper_status = OperStatus.unknown;
    connect_status = ConnectStatus.reachable;
    parent_id = "";
    reason = "";
    ports = port ∷ [];
  };
  calls = [];
}

abbrev surroundings : Surroundings
surroundings = record { get_adapter_name = ok "olt"; call = λ c d. none; update = λ d. ok true }

serve-may_change_example :
    may_change AdminState.preprovisioned
      (serve surroundings enable (agent AdminState.preprovisioned)).0.device.admin_state
    ≡ true
serve-may_change_example = serve-may_change surroundings (agent AdminState.preprovisioned) enable

abbrev day : List Step
day =
    request surroundings enable
    ∷ request surroundings (add (record port { port_no = 17 }))
    ∷ update surroundings (status (some OperStatus.active) (some ConnectStatus.reachable))
    ∷ update (record surroundings { update = λ d. err internal }) (enable_port_no 17)
    ∷ update surroundings (disable_port_no 17)
    ∷ []

history-AreDistinct_example :
    AreDistinct (history day (agent AdminState.preprovisioned)).device.ports
history-AreDistinct_example = history-AreDistinct day (agent AdminState.preprovisioned) (refl, tt)

abbrev pon_agent : DeviceAgent
pon_agent = record (agent AdminState.enabled) {
  device = record ((agent AdminState.enabled).device) {
    ports = record port { port_type = pon_olt } ∷ [];
  };
}

abbrev refused : Device
refused = record (pon_agent.device) {
  ports = record port { port_type = pon_olt; admin_state = AdminState.disabled } ∷ [];
}

-- The port stays disabled in the data model when the adapter refuses.
disable_refused :
    disable_port_request (record surroundings { call = λ c d. some aborted }) 16 pon_agent ≡ (
      record pon_agent {
        device = refused;
        calls =
            (
              disable_port (record port { port_type = pon_olt; admin_state = AdminState.disabled }),
              refused,
            )
            ∷ [];
      },
      some aborted,
    )
unfolding disable_port_request with_admin_state update_device_in_store call_adapter ◌▸◌
disable_refused = refl

enable_deleted :
    enable_device surroundings (agent AdminState.deleted)
    ≡ (agent AdminState.deleted, some failed_precondition)
unfolding enable_device same_admin
enable_deleted = refl
