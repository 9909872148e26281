-- ===== src/Route/Invariant.antt =====
-- What `ComputeRoutes` and `AddPort` keep of the routes (rw_core/route/device_route.go).
use vol_2619_voltha_go.Prelude.{
  ℕ, String, Bool, true, false, Option, none, some, List, [], ◌∷◌, ◌≡◌, refl, arith, if◌then◌else◌,
  length, Map, is_empty, ltb, Bool-cases, inl, inr,
}
use vol_2619_voltha_go.Status.{
  Code, failed_precondition, Result, ok, err, for_each, ▸-inv, for_each-inv,
}
use vol_2619_voltha_go.Route.{
  new_device_routes, Port, PeerPort, Device, LogicalPort, DeviceRoutes, path_id_key,
  copy_from_existing_nni_routes, get_device, get_device_pon_ports, reset, is_pon_olt,
}
use vol_2619_voltha_go.Route.Compute.{
  PortKey, add_peer, add_root_device_port, add_nni, later_nnis, all_nnis, reset_on_error,
  compute_routes, phys_port_map, nni_ports, with_child, with_child_pon, with_root, port_key_key,
}
use vol_2619_voltha_go.Route.Add.{
  use_peer, augment_from, add_uni, augment, add_port, add_port_and_verify_precondition, verified,
  with_root_port, retry_uni, first_peer,
}
use vol_2619_voltha_go.Route.Hops.{
  HasTwoHops, add_uni_routes-TwoHops, add_route_pair-TwoHops, copy_from-HasTwoHops,
  routes-get_device,
}

module _ (model : String → Result Device) (phys : Map PortKey ℕ) (nni : LogicalPort) where
  with_child_pon-HasTwoHops :
      (root : Device) (rp : Port) (child : Device) (pons : List Port) (dr : DeviceRoutes)
      → HasTwoHops dr
      → HasTwoHops (with_child_pon phys nni root rp child pons dr).0
  with_child_pon-HasTwoHops root rp child [] dr t = t
  with_child_pon-HasTwoHops root rp child (pon ∷ _) dr t =
      add_uni_routes-TwoHops phys nni root rp child pon.port_no child.ports dr.routes t

  with_child-HasTwoHops :
      (root : Device) (rp : Port) (m : Result Device × DeviceRoutes)
      → HasTwoHops m.1
      → HasTwoHops (with_child phys nni root rp m).0
  with_child-HasTwoHops root rp (err c, dr) t = t
  with_child-HasTwoHops root rp (ok child, dr) t =
      with_child_pon-HasTwoHops root rp child (get_device_pon_ports dr child.id nni.device_id) dr t

  add_peer-HasTwoHops :
      (root : Device) (rp : Port) (peer : PeerPort) (dr : DeviceRoutes)
      → HasTwoHops dr
      → HasTwoHops (add_peer model phys nni root rp peer dr).0
  unfolding add_peer
  add_peer-HasTwoHops root rp peer dr t =
      with_child-HasTwoHops root rp (get_device model peer.device_id dr)
        (rw (routes-get_device model peer.device_id dr) t)

  add_root_device_port-HasTwoHops :
      (root : Device) (port : Port) (dr : DeviceRoutes)
      → HasTwoHops dr
      → HasTwoHops (add_root_device_port model phys nni root port dr).0
  unfolding add_root_device_port
  add_root_device_port-HasTwoHops root port dr t = elim (Bool-cases (is_pon_olt port.port_type)) [
    | inl e ↦ rw e (
        for_each-inv HasTwoHops (add_peer model phys nni root port) (add_peer-HasTwoHops root port)
          port.peers dr t)
    | inr e ↦ rw e t
  ]

  with_root-HasTwoHops :
      (m : Result Device × DeviceRoutes)
      → HasTwoHops m.1
      → HasTwoHops (with_root model phys nni m).0
  with_root-HasTwoHops (err c, dr) t = t
  with_root-HasTwoHops (ok root, dr) t = elim (Bool-cases (is_empty root.ports)) [
    | inl e ↦ rw e t
    | inr e ↦ rw e (
        for_each-inv HasTwoHops (add_root_device_port model phys nni root)
          (add_root_device_port-HasTwoHops root) root.ports dr t)
  ]

  add_nni-HasTwoHops :
      (dr : DeviceRoutes) → HasTwoHops dr → HasTwoHops (add_nni model phys nni dr).0
  unfolding add_nni
  add_nni-HasTwoHops dr t =
      with_root-HasTwoHops (get_device model nni.device_id dr)
        (rw (routes-get_device model nni.device_id dr) t)

module _ (model : String → Result Device) where
  later_nnis-HasTwoHops :
      (phys : Map PortKey ℕ) (from : LogicalPort) (nnis : List LogicalPort) (dr : DeviceRoutes)
      → HasTwoHops dr
      → HasTwoHops (later_nnis model phys from nnis dr).0
  unfolding later_nnis
  later_nnis-HasTwoHops phys from [] dr t = t
  later_nnis-HasTwoHops phys from (nni ∷ nnis) dr t = elim (Bool-cases (is_empty dr.routes)) [
    | inl e ↦ rw e (
        ▸-inv HasTwoHops (add_nni model phys nni dr) (later_nnis model phys from nnis)
          (add_nni-HasTwoHops model phys nni dr t) (later_nnis-HasTwoHops phys from nnis))
    | inr e ↦ rw e (copy_from-HasTwoHops nni from dr t)
  ]

  all_nnis-HasTwoHops :
      (phys : Map PortKey ℕ) (nnis : List LogicalPort) (dr : DeviceRoutes)
      → HasTwoHops dr
      → HasTwoHops (all_nnis model phys nnis dr).0
  unfolding all_nnis
  all_nnis-HasTwoHops phys [] dr t = t
  all_nnis-HasTwoHops phys (nni ∷ nnis) dr t =
      ▸-inv HasTwoHops (add_nni model phys nni dr) (later_nnis model phys nni nnis)
        (add_nni-HasTwoHops model phys nni dr t) (later_nnis-HasTwoHops phys nni nnis)

  reset_on_error-HasTwoHops :
      (m : DeviceRoutes × Option Code) → HasTwoHops m.0 → HasTwoHops (reset_on_error m).0
  unfolding reset_on_error reset
  reset_on_error-HasTwoHops (dr, none) t = t
  reset_on_error-HasTwoHops (dr, some c) t = tt

  pub compute_routes-HasTwoHops :
      (lps : List LogicalPort) (dr : DeviceRoutes)
      → HasTwoHops dr
      → HasTwoHops (compute_routes model lps dr).0
  unfolding compute_routes reset
  compute_routes-HasTwoHops lps dr t = elim (Bool-cases (ltb (length lps) 2)) [
    | inl e ↦ rw e t
    | inr e ↦ rw e (
        reset_on_error-HasTwoHops _
          (all_nnis-HasTwoHops (phys_port_map lps []) (nni_ports lps) _ tt))
  ]

  use_peer-HasTwoHops :
      (lp nni : LogicalPort) (dr : DeviceRoutes) (m : DeviceRoutes × Option Code)
      (o : Option (Port × PeerPort))
      → HasTwoHops dr
      → HasTwoHops m.0
      → HasTwoHops (use_peer lp nni dr m o).0
  use_peer-HasTwoHops lp nni dr m none t h = h
  use_peer-HasTwoHops lp nni dr m (some (port, peer)) t h =
      add_route_pair-TwoHops nni.ofp_port_no lp.ofp_port_no _ dr.routes refl t

  retry_uni-HasTwoHops :
      (lp nni : LogicalPort) (m : Result Device × DeviceRoutes)
      → HasTwoHops m.1
      → HasTwoHops (retry_uni lp nni m).0
  unfolding reset
  retry_uni-HasTwoHops lp nni (err c, dr) t = tt
  retry_uni-HasTwoHops lp nni (ok d, dr) t =
      use_peer-HasTwoHops lp nni dr (reset dr, some failed_precondition)
        (first_peer (get_device_pon_ports dr lp.device_id nni.device_id)) t tt

  add_uni-HasTwoHops :
      (lp nni : LogicalPort) (dr : DeviceRoutes)
      → HasTwoHops dr
      → HasTwoHops (add_uni model lp nni dr).0
  unfolding add_uni
  add_uni-HasTwoHops lp nni dr t = use_peer-HasTwoHops lp nni dr _ _ t (
      retry_uni-HasTwoHops lp nni (get_device model lp.device_id dr)
        (rw (routes-get_device model lp.device_id dr) t))

  augment_from-HasTwoHops :
      (lp : LogicalPort) (dr : DeviceRoutes) (o : Option LogicalPort)
      → HasTwoHops dr
      → HasTwoHops (augment_from model lp dr o).0
  augment_from-HasTwoHops lp dr none t = t
  augment_from-HasTwoHops lp dr (some from) t = kind lp.root_port
    where
      kind :
          (b : Bool)
          → HasTwoHops
              (if b
                then (copy_from_existing_nni_routes lp from dr, none)
                else for_each (add_uni model lp) (nni_ports dr.logical_ports) dr).0
      kind true = copy_from-HasTwoHops lp from dr t
      kind false =
          for_each-inv HasTwoHops (add_uni model lp) (add_uni-HasTwoHops lp)
            (nni_ports dr.logical_ports) dr t

  verified-HasTwoHops :
      (lp : LogicalPort) (m : DeviceRoutes × Option Code)
      → HasTwoHops m.0
      → HasTwoHops (verified model lp m).0
  unfolding augment reset
  verified-HasTwoHops lp (dr, some c) t = tt
  verified-HasTwoHops lp (dr, none) t =
      augment_from-HasTwoHops lp (with_root_port lp dr) _ (rw (routes-with_root_port lp dr) t)
    where
      routes-with_root_port :
          (l : LogicalPort) (d : DeviceRoutes) → (with_root_port l d).routes ≡ d.routes
      routes-with_root_port l d = ground arith

  pub add_port-HasTwoHops :
      (lp : LogicalPort) (lps : List LogicalPort) (dr : DeviceRoutes)
      → HasTwoHops dr
      → HasTwoHops (add_port model lp lps dr).0
  unfolding add_port
  add_port-HasTwoHops lp lps dr t = elim (Bool-cases (is_empty dr.routes)) [
    | inl e ↦ rw e (compute_routes-HasTwoHops lps dr t)
    | inr e ↦ rw e (
        verified-HasTwoHops lp (add_port_and_verify_precondition lp dr)
          (rw (routes-verify lp dr) t))
  ]
    where
      routes-verify :
          (l : LogicalPort) (d : DeviceRoutes)
          → (add_port_and_verify_precondition l d).0.routes ≡ d.routes
      routes-verify l d = unfold add_port_and_verify_precondition in ground arith

-- A call of one of the two operations, with the devices that the model then has.
pub data Operation : Type 0 where
  compute : (String → Result Device) → List LogicalPort → Operation
  add : (String → Result Device) → LogicalPort → List LogicalPort → Operation

unfoldable pub apply : Operation → DeviceRoutes → DeviceRoutes
apply (compute model lps) dr = (compute_routes model lps dr).0
apply (add model lp lps) dr = (add_port model lp lps dr).0

unfoldable pub run : List Operation → DeviceRoutes → DeviceRoutes
run [] dr = dr
run (o ∷ os) dr = run os (apply o dr)

run_keeps : (os : List Operation) (dr : DeviceRoutes) → HasTwoHops dr → HasTwoHops (run os dr)
unfolding run apply
run_keeps [] dr t = t
run_keeps (compute model lps ∷ os) dr t = run_keeps os _ (compute_routes-HasTwoHops model lps dr t)
run_keeps (add model lp lps ∷ os) dr t = run_keeps os _ (add_port-HasTwoHops model lp lps dr t)

-- After any calls of `ComputeRoutes` and `AddPort`, failing or not, whatever devices the model
-- returns, every stored route has exactly two hops.
pub run-HasTwoHops :
    (id : String) (os : List Operation) → HasTwoHops (run os (new_device_routes id))
unfolding new_device_routes
run-HasTwoHops id os = run_keeps os (new_device_routes id) tt
