-- ===== src/Route.antt =====
-- rw_core/route/device_route.go: the routes between the logical ports of a logical device, computed
-- from the ports of its root device and of the root device's children. The locks are left out: every
-- exported operation holds the lock of the routes from its start to its end. A Go map is an
-- association list, and a loop over a map goes through it in the order of the list.
pub mod Compute
pub mod Add
pub mod Hops
pub mod Invariant
pub mod Clearing
pub mod Reverse
use vol_2619_voltha_go.Prelude.{
  ℕ, zero, suc, ◌+◌, ◌*◌, ◌-◌, String, Bool, true, false, Option, none, some, List, [], ◌∷◌, ◌++◌,
  ◌&&◌, ◌||◌, not, ◌==◌, str_eq, if◌then◌else◌, length, get_elem?, Key, string_key, nat_key, Map,
  lookup, insert, ◌≡◌, ◌↔◌, arith, ltb, refl,
}
use vol_2619_voltha_go.Status.{Code, failed_precondition, Result, ok, err}

pub record Hop : Type 0 where
  pub device_id : String
  pub ingress : ℕ
  pub egress : ℕ

pub record PathId : Type 0 where
  pub ingress : ℕ
  pub egress : ℕ

-- The types of a port, in the numbering of the device messages.
pub data PortType : Type 0 where
  unknown ethernet_nni ethernet_uni pon_olt pon_onu venet_olt venet_onu : PortType

pub record PeerPort : Type 0 where
  pub device_id : String
  pub port_no : ℕ

pub record Port : Type 0 where
  pub port_no : ℕ
  pub port_type : PortType
  pub peers : List PeerPort

pub record Device : Type 0 where
  pub id : String
  pub ports : List Port

-- `ofp_port_no` is `OfpPort.PortNo`.
pub record LogicalPort : Type 0 where
  pub device_id : String
  pub device_port_no : ℕ
  pub ofp_port_no : ℕ
  pub root_port : Bool

pub record DeviceRoutes : Type 0 where
  pub logical_device_id : String
  pub logical_ports : List LogicalPort
  pub root_ports : Map ℕ ℕ
  pub routes : Map PathId (List Hop)
  pub devices_pon_ports : Map String (List Port)

unfoldable pub path_id_same : PathId → PathId → Bool
path_id_same a b = a.ingress == b.ingress && a.egress == b.egress

pub path_id_same_iff : (a b : PathId) → (path_id_same a b ≡ true) ↔ (a ≡ b)
unfolding path_id_same
path_id_same_iff a b = ground arith

instance abbrev pub path_id_key : Key PathId
path_id_key = record { same = path_id_same; same_iff = path_id_same_iff }

unfoldable pub new_device_routes : String → DeviceRoutes
new_device_routes id = record {
  logical_device_id = id;
  logical_ports = [];
  root_ports = [];
  routes = [];
  devices_pon_ports = [];
}

unfoldable pub reset : DeviceRoutes → DeviceRoutes
reset dr = record dr { logical_ports = []; root_ports = []; routes = []; devices_pon_ports = [] }

abbrev pub is_some {ℓ} : {A : Type ℓ} → Option A → Bool
is_some none = false
is_some (some _) = true

unfoldable pub is_root_port : DeviceRoutes → ℕ → Bool
is_root_port dr port = is_some (lookup port dr.root_ports)

abbrev pub is_uni : PortType → Bool
is_uni ethernet_uni = true
is_uni _ = false

abbrev pub is_pon_olt : PortType → Bool
is_pon_olt pon_olt = true
is_pon_olt _ = false

abbrev pub is_pon_onu : PortType → Bool
is_pon_onu pon_onu = true
is_pon_onu _ = false

-- The zero value of a hop, for a read that the Go code would panic at.
abbrev pub no_hop : Hop
no_hop = record { device_id = ""; ingress = 0; egress = 0 }

abbrev pub hop_at : List Hop → ℕ → Hop
hop_at [] i = no_hop
hop_at (h ∷ hs) zero = h
hop_at (h ∷ hs) (suc i) = hop_at hs i

abbrev pub swap_hop : Hop → Hop
swap_hop h = record { device_id = h.device_id; ingress = h.egress; egress = h.ingress }

-- The loop of `getReverseRoute` at j + 1: it writes the hops of index j down to 0.
unfoldable pub reverse_from : ℕ → List Hop → List Hop
reverse_from zero route = []
reverse_from (suc j) route = swap_hop (hop_at route j) ∷ reverse_from j route

unfoldable pub get_reverse_route : List Hop → List Hop
get_reverse_route route = reverse_from (length route) route

-- The inner loop of `getDevicePonPorts`: a port once for each of its peers with the device id.
unfoldable pub ports_with_peer : String → Port → List PeerPort → List Port
ports_with_peer peer_id port [] = []
ports_with_peer peer_id port (peer ∷ peers) =
    let rest = ports_with_peer peer_id port peers in
    if str_eq peer.device_id peer_id then port ∷ rest else rest

unfoldable pub pon_ports_of : String → List Port → List Port
pon_ports_of peer_id [] = []
pon_ports_of peer_id (port ∷ ports) =
    ports_with_peer peer_id port port.peers ++ pon_ports_of peer_id ports

abbrev pub found_ports : Option (List Port) → List Port
found_ports none = []
found_ports (some ports) = ports

unfoldable pub get_device_pon_ports : DeviceRoutes → String → String → List Port
get_device_pon_ports dr device_id peer_device_id =
    pon_ports_of peer_device_id (found_ports (lookup device_id dr.devices_pon_ports))

-- The loop of `getDevice`.
unfoldable pub cache_pon_ports :
    String → List Port → Map String (List Port) → Map String (List Port)
cache_pon_ports id [] m = m
cache_pon_ports id (port ∷ ports) m = cache_pon_ports id ports (
    if is_pon_onu port.port_type || is_pon_olt port.port_type
    then insert id (found_ports (lookup id m) ++ port ∷ []) m
    else m)

abbrev pub cached : DeviceRoutes → Result Device → Result Device × DeviceRoutes
cached dr (err c) = (err c, dr)
cached dr (ok device) = (
  ok device,
  record dr { devices_pon_ports = cache_pon_ports device.id device.ports dr.devices_pon_ports },
)

-- `model` is `getDeviceFromModel`, the function that the routes are given.
unfoldable pub get_device :
    (String → Result Device) → String → DeviceRoutes → Result Device × DeviceRoutes
get_device model device_id dr = cached dr (model device_id)

abbrev pub path : ℕ → ℕ → PathId
path i e = record { ingress = i; egress = e }

-- The copies of one route in the loop of `copyFromExistingNNIRoutes`.
unfoldable pub copy_route :
    LogicalPort → LogicalPort → PathId × List Hop → Map PathId (List Hop) → Map PathId (List Hop)
copy_route new_nni copy_from (key, val) updated =
    let first =
      if key.ingress == copy_from.ofp_port_no
      then insert (path new_nni.ofp_port_no key.egress)
          (record {
            device_id = new_nni.device_id;
            ingress = new_nni.device_port_no;
            egress = (hop_at val 0).egress;
          }
            ∷ hop_at val 1
            ∷ [])
          updated
      else updated in
    let second =
      if key.egress == copy_from.ofp_port_no
      then insert (path key.ingress new_nni.ofp_port_no)
          (hop_at val 0
            ∷ record {
              device_id = new_nni.device_id;
              ingress = (hop_at val 1).ingress;
              egress = new_nni.device_port_no;
            }
            ∷ [])
          first
      else first in
    insert key val second

unfoldable pub copy_routes :
    LogicalPort
    → LogicalPort
    → Map PathId (List Hop)
    → Map PathId (List Hop)
    → Map PathId (List Hop)
copy_routes new_nni copy_from [] updated = updated
copy_routes new_nni copy_from (r ∷ rs) updated =
    copy_routes new_nni copy_from rs (copy_route new_nni copy_from r updated)

unfoldable pub copy_from_existing_nni_routes :
    LogicalPort → LogicalPort → DeviceRoutes → DeviceRoutes
copy_from_existing_nni_routes new_nni copy_from dr = record dr {
  routes = copy_routes new_nni copy_from dr.routes [];
}

-- The hops that a map has under a key, and nil if it has none.
abbrev pub found_hops : Option (List Hop) → List Hop
found_hops none = []
found_hops (some hs) = hs

-- A route and its reverse, the way both `ComputeRoutes` and `AddPort` write them.
unfoldable pub add_route_pair : ℕ → ℕ → List Hop → Map PathId (List Hop) → Map PathId (List Hop)
add_route_pair nni uni hops routes =
    let down = insert (path nni uni) hops routes in
    insert (path uni nni) (get_reverse_route (found_hops (lookup (path nni uni) down))) down

-- The ports of a logical device that `IsUpToDate` compares with; none for a nil logical device. With
-- more root ports than ports the product of the code is negative, and equals no length.
unfoldable pub is_up_to_date : DeviceRoutes → Option (List LogicalPort) → Bool
is_up_to_date dr none = length dr.routes == 0
is_up_to_date dr (some ports) =
    (length dr.logical_ports == length ports)
    && not (ltb (length ports) (length dr.root_ports))
    && (length dr.routes == length dr.root_ports * (length ports - length dr.root_ports) * 2)
