-- ===== src/Tests/Route.antt =====
-- An OLT with one ONU: its routes are computed, and ports are added (rw_core/route/device_route.go).
use vol_2619_voltha_go.Prelude.{
  ℕ, String, true, false, some, List, [], ◌∷◌, ◌≡◌, refl, str_eq, if◌then◌else◌, Map, lookup,
  insert,
}
use vol_2619_voltha_go.Status.{Result, ok, err, not_found, for_each, ◌▸◌}
use vol_2619_voltha_go.Route.{
  Hop, Device, LogicalPort, DeviceRoutes, ethernet_uni, pon_olt, pon_onu, new_device_routes,
  get_reverse_route, reverse_from, get_device, get_device_pon_ports, pon_ports_of, ports_with_peer,
  cache_pon_ports, add_route_pair, path_id_same, path_id_key, path, reset,
}
use vol_2619_voltha_go.Route.Compute.{
  PortKey, compute_routes, all_nnis, later_nnis, add_nni, add_root_device_port, add_peer,
  add_uni_routes, phys_port_map, nni_ports, root_port_map, reset_on_error, port_key_same,
}
use vol_2619_voltha_go.Route.Add.{add_port}
use vol_2619_voltha_go.Route.Hops.{HasTwoHops}
use vol_2619_voltha_go.Route.Invariant.{compute, add, run, run-HasTwoHops}
use vol_2619_voltha_go.Route.Clearing.{IsCleared, add_port-IsCleared, all_nnis-third_ignored}

abbrev nni : ℕ → LogicalPort
nni n = record { device_id = "olt"; device_port_no = n; ofp_port_no = n; root_port = true }

abbrev uni : LogicalPort
uni = record { device_id = "onu"; device_port_no = 16; ofp_port_no = 100; root_port = false }

abbrev olt : Device
olt = record {
  id = "olt";
  ports =
      record {
        port_no = 1;
        port_type = pon_olt;
        peers = record { device_id = "onu"; port_no = 7 } ∷ [];
      }
      ∷ [];
}

abbrev onu : Device
onu = record {
  id = "onu";
  ports =
      record {
        port_no = 7;
        port_type = pon_onu;
        peers = record { device_id = "olt"; port_no = 1 } ∷ [];
      }
      ∷ record { port_no = 16; port_type = ethernet_uni; peers = [] }
      ∷ [];
}

model : String → Result Device
model id = if str_eq id "olt" then ok olt else if str_eq id "onu" then ok onu else err not_found

abbrev down : List Hop
down =
    record { device_id = "olt"; ingress = 2; egress = 1 }
    ∷ record { device_id = "onu"; ingress = 7; egress = 16 }
    ∷ []

-- The route from the NNI port to the UNI port.
compute_down_route :
    lookup (path 2 100) (compute_routes model (nni 2 ∷ uni ∷ []) (new_device_routes "ld")).0.routes
    ≡ some down
unfolding compute_routes new_device_routes all_nnis later_nnis add_nni add_root_device_port add_peer
    add_uni_routes phys_port_map nni_ports root_port_map reset_on_error get_device
    get_device_pon_ports pon_ports_of ports_with_peer cache_pon_ports add_route_pair
    get_reverse_route reverse_from path_id_same port_key_same reset for_each ◌▸◌ lookup insert model
compute_down_route = refl

run-HasTwoHops_example :
    HasTwoHops
      (run (compute model (nni 2 ∷ uni ∷ []) ∷ add model (nni 3) [] ∷ []) (new_device_routes "ld"))
run-HasTwoHops_example =
    run-HasTwoHops "ld" (compute model (nni 2 ∷ uni ∷ []) ∷ add model (nni 3) [] ∷ [])

add_port-IsCleared_example : IsCleared (add_port model uni (uni ∷ []) (new_device_routes "ld"))
unfolding reset new_device_routes
add_port-IsCleared_example =
    add_port-IsCleared model uni (uni ∷ []) (new_device_routes "ld") (λ _ _. refl)

abbrev phys : Map PortKey ℕ
phys = phys_port_map (nni 2 ∷ nni 3 ∷ nni 4 ∷ uni ∷ []) []

first_nni : DeviceRoutes
first_nni = (add_nni model phys (nni 2) (new_device_routes "ld")).0

all_nnis-third_ignored_example :
    all_nnis model phys (nni 2 ∷ nni 3 ∷ nni 4 ∷ []) (new_device_routes "ld")
    ≡ all_nnis model phys (nni 2 ∷ nni 3 ∷ []) (new_device_routes "ld")
unfolding first_nni new_device_routes add_nni add_root_device_port add_peer add_uni_routes
    phys_port_map get_device get_device_pon_ports pon_ports_of ports_with_peer cache_pon_ports
    add_route_pair get_reverse_route reverse_from path_id_same port_key_same for_each ◌▸◌ lookup
    insert model
all_nnis-third_ignored_example =
    all_nnis-third_ignored model phys (nni 2) (nni 3) (nni 4 ∷ []) (new_device_routes "ld")
      first_nni refl (λ e. cc)
