-- ===== src/Route/Add.antt =====
-- `AddPort` of rw_core/route/device_route.go.
use vol_2619_voltha_go.Prelude.{
  String, Bool, false, Option, none, some, List, [], ◌∷◌, ◌++◌, ◌&&◌, ◌||◌, not, ◌==◌,
  if◌then◌else◌, is_empty, insert, nat_key,
}
use vol_2619_voltha_go.Status.{Code, failed_precondition, Result, ok, err, for_each}
use vol_2619_voltha_go.Route.{
  Port, PeerPort, Device, LogicalPort, DeviceRoutes, get_device, get_device_pon_ports,
  add_route_pair, copy_from_existing_nni_routes, reset,
}
use vol_2619_voltha_go.Route.Compute.{nni_ports, compute_routes}

-- The three flags of `addPortAndVerifyPrecondition`.
pub record PortFlags : Type 0 where
  pub nni_exist : Bool
  pub uni_exist : Bool
  pub exist : Bool

abbrev pub see_port : LogicalPort → LogicalPort → PortFlags → PortFlags
see_port lp existing f = record {
  nni_exist = f.nni_exist || existing.root_port;
  uni_exist = f.uni_exist || not existing.root_port;
  exist = f.exist || existing.ofp_port_no == lp.ofp_port_no;
}

-- Its loop, which breaks once all three are set.
unfoldable pub see_ports : LogicalPort → List LogicalPort → PortFlags → PortFlags
see_ports lp [] f = f
see_ports lp (p ∷ ps) f =
    let g = see_port lp p f in
    let rest = see_ports lp ps g in if g.nni_exist && g.uni_exist && g.exist then g else rest

unfoldable pub add_port_and_verify_precondition :
    LogicalPort → DeviceRoutes → DeviceRoutes × Option Code
add_port_and_verify_precondition lp dr =
    let f =
      see_ports lp dr.logical_ports
        (record { nni_exist = false; uni_exist = false; exist = false }) in
    let nni = if f.exist then f.nni_exist else f.nni_exist || lp.root_port in
    let uni = if f.exist then f.uni_exist else f.uni_exist || not lp.root_port in
    let dr' = if f.exist then dr else record dr { logical_ports = dr.logical_ports ++ lp ∷ [] } in
    if not (nni && uni) then (dr', some failed_precondition) else (dr', none)

-- `copyFromNNIPort`: the first NNI port with another port number.
unfoldable pub other_nni : LogicalPort → List LogicalPort → Option LogicalPort
other_nni lp [] = none
other_nni lp (p ∷ ps) =
    let rest = other_nni lp ps in
    if p.root_port && not (p.ofp_port_no == lp.ofp_port_no) then some p else rest

-- The first PON port and the first of its peers, if there are both.
abbrev pub first_peer : List Port → Option (Port × PeerPort)
first_peer [] = none
first_peer (port ∷ _) = elim port.peers [ [] ↦ none | peer ∷ _ ↦ some (port, peer) ]

abbrev pub pair_for : LogicalPort → LogicalPort → Port → PeerPort → DeviceRoutes → DeviceRoutes
pair_for lp nni port peer dr = record dr {
  routes =
      add_route_pair nni.ofp_port_no lp.ofp_port_no
        (record { device_id = nni.device_id; ingress = nni.device_port_no; egress = peer.port_no }
          ∷ record { device_id = lp.device_id; ingress = port.port_no; egress = lp.device_port_no }
          ∷ [])
        dr.routes;
}

-- The new pair of routes if there is a port with a peer, and else what is done without.
abbrev pub use_peer :
    LogicalPort
    → LogicalPort
    → DeviceRoutes
    → DeviceRoutes × Option Code
    → Option (Port × PeerPort)
    → DeviceRoutes × Option Code
use_peer lp nni dr otherwise none = otherwise
use_peer lp nni dr otherwise (some (port, peer)) = (pair_for lp nni port peer dr, none)

-- After the second look at the cache.
abbrev pub retry_uni :
    LogicalPort → LogicalPort → Result Device × DeviceRoutes → DeviceRoutes × Option Code
retry_uni lp nni (err c, dr) = (reset dr, some c)
retry_uni lp nni (ok _, dr) =
    use_peer lp nni dr (reset dr, some failed_precondition)
      (first_peer (get_device_pon_ports dr lp.device_id nni.device_id))

-- The body of the loop over the NNI ports for a new UNI port.
unfoldable pub add_uni :
    (String → Result Device) → LogicalPort → LogicalPort → DeviceRoutes → DeviceRoutes × Option Code
add_uni model lp nni dr =
    use_peer lp nni dr (retry_uni lp nni (get_device model lp.device_id dr))
      (first_peer (get_device_pon_ports dr lp.device_id nni.device_id))

abbrev pub with_root_port : LogicalPort → DeviceRoutes → DeviceRoutes
with_root_port lp dr =
    if lp.root_port
    then record dr { root_ports = insert lp.ofp_port_no lp.ofp_port_no dr.root_ports }
    else dr

abbrev pub augment_from :
    (String → Result Device)
    → LogicalPort
    → DeviceRoutes
    → Option LogicalPort
    → DeviceRoutes × Option Code
augment_from model lp dr none = (dr, none)
augment_from model lp dr (some copy_from) =
    if lp.root_port
    then (copy_from_existing_nni_routes lp copy_from dr, none)
    else for_each (add_uni model lp) (nni_ports dr.logical_ports) dr

-- What `AddPort` does once the preconditions hold.
unfoldable pub augment :
    (String → Result Device) → LogicalPort → DeviceRoutes → DeviceRoutes × Option Code
augment model lp dr = augment_from model lp dr (other_nni lp dr.logical_ports)

abbrev pub verified :
    (String → Result Device) → LogicalPort → DeviceRoutes × Option Code → DeviceRoutes × Option Code
verified model lp (dr, some c) = (reset dr, some c)
verified model lp (dr, none) = augment model lp (with_root_port lp dr)

unfoldable pub add_port :
    (String → Result Device)
    → LogicalPort
    → List LogicalPort
    → DeviceRoutes
    → DeviceRoutes × Option Code
add_port model lp lps dr =
    if is_empty dr.routes
    then compute_routes model lps dr
    else verified model lp (add_port_and_verify_precondition lp dr)
