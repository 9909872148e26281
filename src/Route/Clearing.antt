-- ===== src/Route/Clearing.antt =====
-- Errors clear the routes, and an NNI port after the second is not looked at
-- (rw_core/route/device_route.go).
use vol_2619_voltha_go.Prelude.{
  ℕ, String, Bool, true, false, Option, none, some, List, [], ◌∷◌, ◌≡◌, ◌≢◌, refl, arith,
  if◌then◌else◌, is_empty, length, ltb, ◌<◌, Bool-cases, inl, inr, Map,
}
use vol_2619_voltha_go.Status.{Code, failed_precondition, Result, ok, err, ◌▸◌, for_each}
use vol_2619_voltha_go.Route.{
  Device, LogicalPort, DeviceRoutes, Hop, PathId, Port, PeerPort, reset,
  copy_from_existing_nni_routes, get_device, get_device_pon_ports,
}
use vol_2619_voltha_go.Route.Compute.{
  PortKey, add_nni, later_nnis, all_nnis, reset_on_error, compute_routes, nni_ports,
}
use vol_2619_voltha_go.Route.Add.{
  add_uni, augment, augment_from, add_port, add_port_and_verify_precondition, verified,
  with_root_port, retry_uni, first_peer, use_peer,
}

-- An error leaves no routes, no root ports, no logical ports and no cached ports.
abbrev pub IsCleared : DeviceRoutes × Option Code → Type 0
IsCleared (dr, none) = Unit
IsCleared (dr, some c) = dr ≡ reset dr

reset-reset : (dr : DeviceRoutes) → reset dr ≡ reset (reset dr)
unfolding reset
reset-reset dr = refl

reset_on_error-IsCleared : (m : DeviceRoutes × Option Code) → IsCleared (reset_on_error m)
unfolding reset_on_error
reset_on_error-IsCleared (dr, none) = tt
reset_on_error-IsCleared (dr, some c) = reset-reset dr

module _ (model : String → Result Device) where
  compute_routes-IsCleared :
      (lps : List LogicalPort) (dr : DeviceRoutes)
      → (length lps < 2 → dr ≡ reset dr)
      → IsCleared (compute_routes model lps dr)
  unfolding compute_routes
  compute_routes-IsCleared lps dr h = elim (Bool-cases (ltb (length lps) 2)) [
    | inl e ↦ rw e (h (ground arith))
    | inr e ↦ rw e (reset_on_error-IsCleared _)
  ]

  retry_uni-IsCleared :
      (lp nni : LogicalPort) (m : Result Device × DeviceRoutes) → IsCleared (retry_uni lp nni m)
  retry_uni-IsCleared lp nni (err c, dr) = reset-reset dr
  retry_uni-IsCleared lp nni (ok d, dr) =
      peer (first_peer (get_device_pon_ports dr lp.device_id nni.device_id))
    where
      peer :
          (o : Option (Port × PeerPort))
          → IsCleared (use_peer lp nni dr (reset dr, some failed_precondition) o)
      peer none = reset-reset dr
      peer (some (port, p)) = tt

  add_uni-IsCleared :
      (lp nni : LogicalPort) (dr : DeviceRoutes) → IsCleared (add_uni model lp nni dr)
  unfolding add_uni
  add_uni-IsCleared lp nni dr =
      peer (first_peer (get_device_pon_ports dr lp.device_id nni.device_id))
    where
      peer :
          (o : Option (Port × PeerPort))
          → IsCleared (use_peer lp nni dr (retry_uni lp nni (get_device model lp.device_id dr)) o)
      peer none = retry_uni-IsCleared lp nni (get_device model lp.device_id dr)
      peer (some (port, p)) = tt

  ▸-IsCleared :
      (m : DeviceRoutes × Option Code) (f : DeviceRoutes → DeviceRoutes × Option Code)
      → IsCleared m
      → ((dr : DeviceRoutes) → IsCleared (f dr))
      → IsCleared (m ▸ f)
  unfolding ◌▸◌
  ▸-IsCleared (dr, none) f h k = k dr
  ▸-IsCleared (dr, some c) f h k = h

  add_unis-IsCleared :
      (lp : LogicalPort) (nnis : List LogicalPort) (dr : DeviceRoutes)
      → IsCleared (for_each (add_uni model lp) nnis dr)
  unfolding for_each
  add_unis-IsCleared lp [] dr = tt
  add_unis-IsCleared lp (nni ∷ nnis) dr =
      ▸-IsCleared (add_uni model lp nni dr) (for_each (add_uni model lp) nnis)
        (add_uni-IsCleared lp nni dr) (add_unis-IsCleared lp nnis)

  augment_from-IsCleared :
      (lp : LogicalPort) (dr : DeviceRoutes) (o : Option LogicalPort)
      → IsCleared (augment_from model lp dr o)
  augment_from-IsCleared lp dr none = tt
  augment_from-IsCleared lp dr (some from) = kind lp.root_port
    where
      kind :
          (b : Bool)
          → IsCleared (
              if b
              then (copy_from_existing_nni_routes lp from dr, none)
              else for_each (add_uni model lp) (nni_ports dr.logical_ports) dr)
      kind true = tt
      kind false = add_unis-IsCleared lp (nni_ports dr.logical_ports) dr

  verified-IsCleared :
      (lp : LogicalPort) (m : DeviceRoutes × Option Code) → IsCleared (verified model lp m)
  unfolding augment
  verified-IsCleared lp (dr, some c) = reset-reset dr
  verified-IsCleared lp (dr, none) = augment_from-IsCleared lp (with_root_port lp dr) _

  -- If `AddPort` fails, all that was known of the routes is cleared, so that the next request builds
  -- them anew. The one failure that leaves the state alone is the one for fewer than two logical
  -- ports, so the state is then taken to be cleared already.
  pub add_port-IsCleared :
      (lp : LogicalPort) (lps : List LogicalPort) (dr : DeviceRoutes)
      → (length lps < 2 → is_empty dr.routes ≡ true → dr ≡ reset dr)
      → IsCleared (add_port model lp lps dr)
  unfolding add_port
  add_port-IsCleared lp lps dr h = elim (Bool-cases (is_empty dr.routes)) [
    | inl e ↦ rw e (compute_routes-IsCleared lps dr (λ l. h l e))
    | inr e ↦ rw e (verified-IsCleared lp (add_port_and_verify_precondition lp dr))
  ]

  -- If the first NNI port of a logical device gets routes, then the NNI ports after the second are
  -- not looked at: the outcome is that of the device without them.
  pub all_nnis-third_ignored :
      (phys : Map PortKey ℕ) (first second : LogicalPort) (rest : List LogicalPort)
      (dr dr' : DeviceRoutes)
      → add_nni model phys first dr ≡ (dr', none)
      → dr'.routes ≢ []
      → all_nnis model phys (first ∷ second ∷ rest) dr
        ≡ all_nnis model phys (first ∷ second ∷ []) dr
  unfolding all_nnis later_nnis ◌▸◌
  all_nnis-third_ignored phys first second rest dr dr' e h = rw e (go dr'.routes refl)
    where
      go :
          (rs : Map PathId (List Hop))
          → dr'.routes ≡ rs
          → later_nnis model phys first (second ∷ rest) dr'
            ≡ later_nnis model phys first (second ∷ []) dr'
      go [] q = absurd (h q)
      go (r ∷ rs) q = rw q
