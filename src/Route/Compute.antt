-- ===== src/Route/Compute.antt =====
-- `ComputeRoutes` of rw_core/route/device_route.go.
use vol_2619_voltha_go.Prelude.{
  ℕ, String, Bool, true, Option, none, some, List, [], ◌∷◌, ◌&&◌, ◌==◌, str_eq, if◌then◌else◌,
  length, is_empty, Key, nat_key, Map, lookup, insert, ltb, ◌≡◌, ◌↔◌, arith, eq_iff,
}
use vol_2619_voltha_go.Status.{Code, failed_precondition, aborted, Result, ok, err, ◌▸◌, for_each}
use vol_2619_voltha_go.Route.{
  Hop, PathId, Port, PeerPort, Device, LogicalPort, DeviceRoutes, is_uni, is_pon_olt, get_device,
  get_device_pon_ports, add_route_pair, copy_from_existing_nni_routes, reset,
}

-- A device and one of its ports, for the text that `concatDeviceIDPortID` makes of them: a port number
-- is printed without a colon, so two texts are equal just if the devices and the ports are.
pub record PortKey : Type 0 where
  pub device_id : String
  pub port_no : ℕ

unfoldable pub port_key_same : PortKey → PortKey → Bool
port_key_same a b = str_eq a.device_id b.device_id && a.port_no == b.port_no

pub port_key_same_iff : (a b : PortKey) → (port_key_same a b ≡ true) ↔ (a ≡ b)
unfolding port_key_same
port_key_same_iff a b = ground (arith, eq_iff a.device_id b.device_id)

instance abbrev pub port_key_key : Key PortKey
port_key_key = record { same = port_key_same; same_iff = port_key_same_iff }

abbrev pub concat_device_id_port_id : String → ℕ → PortKey
concat_device_id_port_id device_id port_no = record { device_id = device_id; port_no = port_no }

-- `physPortToLogicalPortMap`, the first loop of `ComputeRoutes`.
unfoldable pub phys_port_map : List LogicalPort → Map PortKey ℕ → Map PortKey ℕ
phys_port_map [] m = m
phys_port_map (lp ∷ lps) m =
    phys_port_map lps
      (insert (concat_device_id_port_id lp.device_id lp.device_port_no) lp.ofp_port_no m)

-- `nniPorts`, of `ComputeRoutes` and of `AddPort`.
unfoldable pub nni_ports : List LogicalPort → List LogicalPort
nni_ports [] = []
nni_ports (lp ∷ lps) = let rest = nni_ports lps in if lp.root_port then lp ∷ rest else rest

-- `dr.RootPorts`, the first loop of `ComputeRoutes`.
unfoldable pub root_port_map : List LogicalPort → Map ℕ ℕ → Map ℕ ℕ
root_port_map [] m = m
root_port_map (lp ∷ lps) m =
    root_port_map lps (if lp.root_port then insert lp.ofp_port_no lp.ofp_port_no m else m)

abbrev pub two_hops : LogicalPort → Device → Port → Device → ℕ → Port → List Hop
two_hops nni root root_port child child_pon child_port =
    record { device_id = root.id; ingress = nni.device_port_no; egress = root_port.port_no }
    ∷ record { device_id = child.id; ingress = child_pon; egress = child_port.port_no }
    ∷ []

-- The loop over the ports of a child device.
unfoldable pub add_uni_routes :
    Map PortKey ℕ
    → LogicalPort
    → Device
    → Port
    → Device
    → ℕ
    → List Port
    → Map PathId (List Hop)
    → Map PathId (List Hop)
add_uni_routes phys nni root root_port child child_pon [] routes = routes
add_uni_routes phys nni root root_port child child_pon (port ∷ ports) routes =
    add_uni_routes phys nni root root_port child child_pon ports (
      if is_uni port.port_type
      then elim (lookup (concat_device_id_port_id child.id port.port_no) phys) [
        | none ↦ routes
        | some uni ↦
            add_route_pair nni.ofp_port_no uni (two_hops nni root root_port child child_pon port)
              routes
      ]
      else routes)

abbrev pub with_child_pon :
    Map PortKey ℕ
    → LogicalPort
    → Device
    → Port
    → Device
    → List Port
    → DeviceRoutes
    → DeviceRoutes × Option Code
with_child_pon phys nni root root_port child [] dr = (dr, some aborted)
with_child_pon phys nni root root_port child (pon ∷ _) dr = (
  record dr {
    routes = add_uni_routes phys nni root root_port child pon.port_no child.ports dr.routes;
  },
  none,
)

abbrev pub with_child :
    Map PortKey ℕ
    → LogicalPort
    → Device
    → Port
    → Result Device × DeviceRoutes
    → DeviceRoutes × Option Code
with_child phys nni root root_port (err c, dr) = (dr, some c)
with_child phys nni root root_port (ok child, dr) =
    with_child_pon phys nni root root_port child (get_device_pon_ports dr child.id nni.device_id) dr

-- The body of the loop over the peers of a port of the root device.
unfoldable pub add_peer :
    (String → Result Device)
    → Map PortKey ℕ
    → LogicalPort
    → Device
    → Port
    → PeerPort
    → DeviceRoutes
    → DeviceRoutes × Option Code
add_peer model phys nni root root_port peer dr =
    with_child phys nni root root_port (get_device model peer.device_id dr)

-- The body of the loop over the ports of the root device.
unfoldable pub add_root_device_port :
    (String → Result Device)
    → Map PortKey ℕ
    → LogicalPort
    → Device
    → Port
    → DeviceRoutes
    → DeviceRoutes × Option Code
add_root_device_port model phys nni root port dr =
    if is_pon_olt port.port_type
    then for_each (add_peer model phys nni root port) port.peers dr
    else (dr, none)

abbrev pub with_root :
    (String → Result Device)
    → Map PortKey ℕ
    → LogicalPort
    → Result Device × DeviceRoutes
    → DeviceRoutes × Option Code
with_root model phys nni (err c, dr) = (dr, some c)
with_root model phys nni (ok root, dr) =
    if is_empty root.ports
    then (dr, some failed_precondition)
    else for_each (add_root_device_port model phys nni root) root.ports dr

-- The body of the loop over the NNI ports, for a port that does not take over routes.
unfoldable pub add_nni :
    (String → Result Device)
    → Map PortKey ℕ
    → LogicalPort
    → DeviceRoutes
    → DeviceRoutes × Option Code
add_nni model phys nni dr = with_root model phys nni (get_device model nni.device_id dr)

-- The loop from the second NNI port on: it ends at the first one that takes over routes.
unfoldable pub later_nnis :
    (String → Result Device)
    → Map PortKey ℕ
    → LogicalPort
    → List LogicalPort
    → DeviceRoutes
    → DeviceRoutes × Option Code
later_nnis model phys copy_from [] dr = (dr, none)
later_nnis model phys copy_from (nni ∷ nnis) dr =
    let rest = add_nni model phys nni dr ▸ later_nnis model phys copy_from nnis in
    if is_empty dr.routes then rest else (copy_from_existing_nni_routes nni copy_from dr, none)

unfoldable pub all_nnis :
    (String → Result Device)
    → Map PortKey ℕ
    → List LogicalPort
    → DeviceRoutes
    → DeviceRoutes × Option Code
all_nnis model phys [] dr = (dr, some failed_precondition)
all_nnis model phys (nni ∷ nnis) dr = add_nni model phys nni dr ▸ later_nnis model phys nni nnis

-- The deferred function of `ComputeRoutes`.
unfoldable pub reset_on_error : DeviceRoutes × Option Code → DeviceRoutes × Option Code
reset_on_error (dr, none) = (dr, none)
reset_on_error (dr, some c) = (reset dr, some c)

-- With fewer than two logical ports the code returns a fresh error, and leaves the variable that the
-- deferred function looks at nil.
unfoldable pub compute_routes :
    (String → Result Device) → List LogicalPort → DeviceRoutes → DeviceRoutes × Option Code
compute_routes model lps dr =
    if ltb (length lps) 2
    then (dr, some failed_precondition)
    else reset_on_error (
        all_nnis model (phys_port_map lps []) (nni_ports lps)
          (record (reset dr) { logical_ports = lps; root_ports = root_port_map lps [] }))
