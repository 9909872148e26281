-- ===== src/Paths.antt =====
-- rw_core/core/logical_device_agent.go: the route that the logical device agent gives for two ports of
-- a flow, and its map of port numbers, which tells the NNI ports. The routes are those of
-- rw_core/route/device_route.go. A port number 0 stands for no port.
pub mod HalfRoutes
pub mod PortsNo
use vol_2619_voltha_go.Prelude.{
  ℕ, String, Bool, true, false, Option, none, some, List, [], ◌∷◌, ◌==◌, ◌&&◌, not, if◌then◌else◌,
  Map, lookup, insert, delete, nat_key, is_empty,
}
use vol_2619_voltha_go.Status.{
  Code, failed_precondition, not_found, Result, ok, err, Run, returned, panicked,
}
use vol_2619_voltha_go.Openflow.{is_controller_bound}
use vol_2619_voltha_go.Route.{Hop, PathId, LogicalPort, DeviceRoutes}

-- Of the agent, what these operations read and change; `ports` are those of its logical device.
pub record PathAgent : Type 0 where
  pub root_device_id : String
  pub device_routes : DeviceRoutes
  pub logical_ports_no : Map ℕ Bool
  pub ports : List LogicalPort

-- A Go map gives false for a missing key.
abbrev pub flag_of : Option Bool → Bool
flag_of none = false
flag_of (some b) = b

unfoldable pub add_logical_port_to_map : ℕ → Bool → Map ℕ Bool → Map ℕ Bool
add_logical_port_to_map port_no nni_port m =
    if not (flag_of (lookup port_no m)) then insert port_no nni_port m else m

unfoldable pub delete_logical_ports_from_map : List ℕ → Map ℕ Bool → Map ℕ Bool
delete_logical_ports_from_map [] m = m
delete_logical_ports_from_map (p ∷ ps) m = delete_logical_ports_from_map ps (delete p m)

unfoldable pub add_logical_ports_to_map : List LogicalPort → Map ℕ Bool → Map ℕ Bool
add_logical_ports_to_map [] m = m
add_logical_ports_to_map (lp ∷ lps) m =
    add_logical_ports_to_map lps (add_logical_port_to_map lp.device_port_no lp.root_port m)

unfoldable pub is_nni_port : ℕ → Map ℕ Bool → Bool
is_nni_port port_no m = flag_of (lookup port_no m)

unfoldable pub get_first_nni_port : Map ℕ Bool → Result ℕ
get_first_nni_port [] = err not_found
get_first_nni_port ((port_no, nni) ∷ m) =
    let rest = get_first_nni_port m in if nni then ok port_no else rest

unfoldable pub get_nni_ports : Map ℕ Bool → List ℕ
get_nni_ports [] = []
get_nni_ports ((port_no, nni) ∷ m) =
    let rest = get_nni_ports m in if nni then port_no ∷ rest else rest

-- The loop of `GetWildcardInputPorts`; without an excluded port it is called with 0.
unfoldable pub get_wildcard_input_ports : ℕ → List LogicalPort → List ℕ
get_wildcard_input_ports excluded [] = []
get_wildcard_input_ports excluded (lp ∷ lps) =
    let rest = get_wildcard_input_ports excluded lps in
    if not (lp.ofp_port_no == excluded) then lp.ofp_port_no ∷ rest else rest

-- The route of the first link that passes a test.
unfoldable pub first_route : (PathId → Bool) → Map PathId (List Hop) → Option (List Hop)
first_route p [] = none
first_route p ((link, hops) ∷ m) = let rest = first_route p m in if p link then some hops else rest

abbrev pub found_route : Option (List Hop) → Result (List Hop)
found_route none = err failed_precondition
found_route (some hops) = ok hops

unfoldable pub get_pre_calculated_route : PathAgent → ℕ → ℕ → Result (List Hop)
get_pre_calculated_route a ingress egress =
    found_route (
      first_route (λ link. ingress == link.ingress && egress == link.egress) a.device_routes.routes)

-- route.Hop{}
abbrev pub empty_hop : Hop
empty_hop = record { device_id = ""; ingress = 0; egress = 0 }

-- The half route of the second hop of a route, and that of the first one: without that hop, the code
-- panics.
abbrev pub second_half : Option (List Hop) → Run (Result (List Hop))
second_half none = returned (err failed_precondition)
second_half (some (h ∷ h' ∷ hs)) = returned (ok (empty_hop ∷ h' ∷ []))
second_half (some _) = panicked

abbrev pub first_half : Option (List Hop) → Run (Result (List Hop))
first_half none = returned (err failed_precondition)
first_half (some (h ∷ hs)) = returned (ok (h ∷ empty_hop ∷ []))
first_half (some []) = panicked

unfoldable pub upstream_route : PathAgent → Run (Result (List Hop))
upstream_route a =
    second_half
      (first_route (λ link. is_nni_port link.egress a.logical_ports_no) a.device_routes.routes)

unfoldable pub route_between : PathAgent → ℕ → ℕ → Run (Result (List Hop))
route_between a ingress_port_no egress_port_no =
    if ingress_port_no == 0 && is_nni_port egress_port_no a.logical_ports_no
    then upstream_route a
    else if egress_port_no == 0
    then first_half (first_route (λ link. link.ingress == ingress_port_no) a.device_routes.routes)
    else returned (get_pre_calculated_route a ingress_port_no egress_port_no)

abbrev pub nni_hop : PathAgent → ℕ → Hop
nni_hop a port_no = record { device_id = a.root_device_id; ingress = port_no; egress = port_no }

unfoldable pub nni_trap : PathAgent → ℕ → Run (Result (List Hop))
nni_trap a ingress_port_no =
    if is_empty a.device_routes.routes
    then returned (ok (nni_hop a ingress_port_no ∷ nni_hop a ingress_port_no ∷ []))
    else upstream_route a

-- As if the output port were the first NNI port.
abbrev pub route_to : PathAgent → ℕ → Result ℕ → Run (Result (List Hop))
route_to a ingress_port_no (err c) = returned (err c)
route_to a ingress_port_no (ok egress_port_no) = route_between a ingress_port_no egress_port_no

unfoldable pub get_route : PathAgent → ℕ → ℕ → Run (Result (List Hop))
get_route a ingress_port_no egress_port_no =
    if is_controller_bound egress_port_no
    then if is_nni_port ingress_port_no a.logical_ports_no
      then nni_trap a ingress_port_no
      else route_to a ingress_port_no (get_first_nni_port a.logical_ports_no)
    else route_between a ingress_port_no egress_port_no
