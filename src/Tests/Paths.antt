-- ===== src/Tests/Paths.antt =====
-- Routes for two ports and the map of port numbers (rw_core/core/logical_device_agent.go).
use vol_2619_voltha_go.Prelude.{
  lookup, ◌==◌, ◌&&◌, ◌||◌, true, false, List, [], ◌∷◌, ◌≡◌, refl, any,
}
use vol_2619_voltha_go.Status.{ok, returned}
use vol_2619_voltha_go.Openflow.{ofpp_controller, is_controller_bound}
use vol_2619_voltha_go.Route.{Hop, LogicalPort}
use vol_2619_voltha_go.Paths.{
  PathAgent, get_route, empty_hop, add_logical_ports_to_map, is_nni_port, get_first_nni_port,
  route_between, upstream_route, first_route,
}
use vol_2619_voltha_go.Paths.HalfRoutes.{GivesTwoHops, get_route-GivesTwoHops}
use vol_2619_voltha_go.Paths.PortsNo.{is_nni_port-add_logical_ports}

abbrev onu : Hop
onu = record { device_id = "onu"; ingress = 1; egress = 2 }

abbrev olt : Hop
olt = record { device_id = "olt"; ingress = 3; egress = 65536 }

abbrev agent : PathAgent
agent = record {
  root_device_id = "olt";
  device_routes = record {
    logical_device_id = "ld";
    logical_ports = [];
    root_ports = (65536, 65536) ∷ [];
    routes = (record { ingress = 16; egress = 65536 }, onu ∷ olt ∷ []) ∷ [];
    devices_pon_ports = [];
  };
  logical_ports_no = (65536, true) ∷ (16, false) ∷ [];
  ports = [];
}

get_route-GivesTwoHops_example : GivesTwoHops (get_route agent 0 ofpp_controller)
get_route-GivesTwoHops_example = get_route-GivesTwoHops agent (refl, tt) 0 ofpp_controller

-- A trap flow for every port takes the second hop of a route to the NNI port.
wildcard_route : get_route agent 0 ofpp_controller ≡ returned (ok (empty_hop ∷ olt ∷ []))
unfolding get_route is_controller_bound is_nni_port get_first_nni_port route_between upstream_route
    first_route lookup
wildcard_route = refl

abbrev new_ports : List LogicalPort
new_ports =
    record { device_id = "olt"; device_port_no = 16; ofp_port_no = 16; root_port = true }
    ∷ record { device_id = "olt"; device_port_no = 65536; ofp_port_no = 65536; root_port = false }
    ∷ []

is_nni_port-add_logical_ports_example :
    is_nni_port 65536 (add_logical_ports_to_map new_ports agent.logical_ports_no) ≡ (
      is_nni_port 65536 agent.logical_ports_no
      || any (λ lp. lp.device_port_no == 65536 && lp.root_port) new_ports)
is_nni_port-add_logical_ports_example =
    is_nni_port-add_logical_ports 65536 new_ports agent.logical_ports_no
