-- ===== src/Route/Hops.antt =====
-- Every stored route has two hops, which the flow decomposer counts on
-- (rw_core/route/device_route.go).
use vol_2619_voltha_go.Prelude.{
  ℕ, zero, suc, String, Bool, true, false, List, [], ◌∷◌, ◌≡◌, refl, if◌then◌else◌, length, All,
  Map, insert, lookup, Bool-cases, inl, inr, ap, lookup-insert, same_refl, ◌∙◌, Option-cases, ◌==◌,
}
use vol_2619_voltha_go.Status.{Result, ok, err}
use vol_2619_voltha_go.Route.{
  Hop, PathId, Port, Device, LogicalPort, DeviceRoutes, path_id_key, path, reverse_from,
  get_reverse_route, add_route_pair, copy_route, copy_routes, copy_from_existing_nni_routes,
  get_device, cached, found_hops, is_uni,
}
use vol_2619_voltha_go.Route.Compute.{
  PortKey, add_uni_routes, concat_device_id_port_id, port_key_key,
}

abbrev pub IsTwoHop : PathId × List Hop → Type 0
IsTwoHop r = length r.1 ≡ 2

-- All routes of the map have two hops.
abbrev pub TwoHops : Map PathId (List Hop) → Type 0
TwoHops = All IsTwoHop

abbrev pub HasTwoHops : DeviceRoutes → Type 0
HasTwoHops dr = TwoHops dr.routes

insert-TwoHops :
    (k : PathId) (hs : List Hop) (m : Map PathId (List Hop))
    → length hs ≡ 2
    → TwoHops m
    → TwoHops (insert k hs m)
unfolding insert
insert-TwoHops k hs [] h t = (h, tt)
insert-TwoHops k hs ((j, w) ∷ m) h t = elim (Bool-cases (path_id_key.same j k)) [
  | inl e ↦ rw e (h, t.1)
  | inr e ↦ rw e (t.0, insert-TwoHops k hs m h t.1)
]

length-reverse_from : (n : ℕ) (route : List Hop) → length (reverse_from n route) ≡ n
unfolding reverse_from
length-reverse_from zero route = refl
length-reverse_from (suc n) route = ap suc (length-reverse_from n route)

pub length-get_reverse_route : (route : List Hop) → length (get_reverse_route route) ≡ length route
unfolding get_reverse_route
length-get_reverse_route route = length-reverse_from (length route) route

found-add_route_pair :
    (k : PathId) (hs : List Hop) (m : Map PathId (List Hop))
    → found_hops (lookup k (insert k hs m)) ≡ hs
found-add_route_pair k hs m = rw (lookup-insert k k hs m, same_refl k)

pub add_route_pair-TwoHops :
    (nni uni : ℕ) (hs : List Hop) (m : Map PathId (List Hop))
    → length hs ≡ 2
    → TwoHops m
    → TwoHops (add_route_pair nni uni hs m)
unfolding add_route_pair
add_route_pair-TwoHops nni uni hs m h t =
    insert-TwoHops (path uni nni) _ (insert (path nni uni) hs m)
      (length-get_reverse_route _ ∙ rw (found-add_route_pair (path nni uni) hs m) h)
      (insert-TwoHops (path nni uni) hs m h t)

pub add_uni_routes-TwoHops :
    (phys : Map PortKey ℕ) (nni : LogicalPort) (root : Device) (rp : Port) (child : Device)
    (pon : ℕ) (ports : List Port) (m : Map PathId (List Hop))
    → TwoHops m
    → TwoHops (add_uni_routes phys nni root rp child pon ports m)
unfolding add_uni_routes
add_uni_routes-TwoHops phys nni root rp child pon [] m t = t
add_uni_routes-TwoHops phys nni root rp child pon (p ∷ ps) m t =
    add_uni_routes-TwoHops phys nni root rp child pon ps _ (elim (Bool-cases (is_uni p.port_type)) [
      | inl e ↦
          rw e (elim (Option-cases (lookup (concat_device_id_port_id child.id p.port_no) phys)) [
            | inl q ↦ rw q t
            | inr (uni, q) ↦ rw q (add_route_pair-TwoHops nni.ofp_port_no uni _ m refl t)
          ])
      | inr e ↦ rw e t
    ])

copy_route-TwoHops :
    (new from : LogicalPort) (r : PathId × List Hop) (m : Map PathId (List Hop))
    → IsTwoHop r
    → TwoHops m
    → TwoHops (copy_route new from r m)
unfolding copy_route
copy_route-TwoHops new from (key, val) m h t = insert-TwoHops key val _ h (
    when (key.egress == from.ofp_port_no) _ _ _ _
      (when (key.ingress == from.ofp_port_no) _ _ _ m t))
  where
    when :
        (b : Bool) (k : PathId) (x y : Hop) (m' : Map PathId (List Hop))
        → TwoHops m'
        → TwoHops (if b then insert k (x ∷ y ∷ []) m' else m')
    when true k x y m' t' = insert-TwoHops k _ m' refl t'
    when false k x y m' t' = t'

copy_routes-TwoHops :
    (new from : LogicalPort) (rs m : Map PathId (List Hop))
    → TwoHops rs
    → TwoHops m
    → TwoHops (copy_routes new from rs m)
unfolding copy_routes
copy_routes-TwoHops new from [] m h t = t
copy_routes-TwoHops new from (r ∷ rs) m h t =
    copy_routes-TwoHops new from rs (copy_route new from r m) h.1
      (copy_route-TwoHops new from r m h.0 t)

pub copy_from-HasTwoHops :
    (new from : LogicalPort) (dr : DeviceRoutes)
    → HasTwoHops dr
    → HasTwoHops (copy_from_existing_nni_routes new from dr)
unfolding copy_from_existing_nni_routes
copy_from-HasTwoHops new from dr t = copy_routes-TwoHops new from dr.routes [] t tt

-- Reading a device from the model leaves the routes alone.
pub routes-get_device :
    (model : String → Result Device) (id : String) (dr : DeviceRoutes)
    → (get_device model id dr).1.routes ≡ dr.routes
unfolding get_device
routes-get_device model id dr = elim (model id) as (λ r. (cached dr r).1.routes ≡ dr.routes) [
  | ok d ↦ refl
  | err c ↦ refl
]
