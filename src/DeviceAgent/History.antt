-- ===== src/DeviceAgent/History.antt =====
-- The ports of a device through requests and updates in any order (rw_core/core/device_agent.go).
use vol_2619_voltha_go.Prelude.{
  ℕ, Bool, true, false, Option, none, some, List, [], ◌∷◌, ◌==◌, ◌&&◌, ◌||◌, not, if◌then◌else◌,
  ◌≡◌, refl, sym, ◌∙◌, ap, subst, any, map, find_first,
}
use vol_2619_voltha_go.Status.{Code, ▸-step}
use vol_2619_voltha_go.Transitions.{AdminState, enabled, disabled, same_admin, OperStatus}
use vol_2619_voltha_go.DeviceAgent.{
  Device, DeviceAgent, Port, ConnectStatus, Surroundings, AdapterCall, disable_port, enable_port,
  is_same_port, update_device_in_store, call_adapter, Request, serve,
}
use vol_2619_voltha_go.DeviceAgent.Lifecycle.{store-inv}
use vol_2619_voltha_go.DeviceAgent.Ports.{AreDistinct, serve-AreDistinct}
use vol_2619_voltha_go.DeviceAgent.Updates.{
  Update, status, ports_state, port_state, remove_peers, admin, parent, reason, disable_port_no,
  enable_port_no, apply_update, update_device_status, update_ports_oper_state, update_port_state,
  delete_peer_ports, update_admin_state, set_parent_id, update_device_reason, disable_port_request,
  enable_port_request, change_port, with_admin_state, set_oper_status, is_port_type, set_if_port,
  without_peer, pon_olt,
}

abbrev pub port_id : Port → ℕ × ℕ
port_id p = (p.port_type, p.port_no)

-- The types and the numbers of the ports, in their order.
abbrev pub port_ids : List Port → List (ℕ × ℕ)
port_ids ps = map port_id ps

abbrev same_id : ℕ × ℕ → ℕ × ℕ → Bool
same_id x y = x.0 == y.0 && x.1 == y.1

abbrev AllDifferent : List (ℕ × ℕ) → Type 0
AllDifferent [] = Unit
AllDifferent (x ∷ xs) = (any (same_id x) xs ≡ false) × AllDifferent xs

any_ids :
    (p : Port) (ps : List Port) → any (is_same_port p) ps ≡ any (same_id (port_id p)) (port_ids ps)
unfolding is_same_port
any_ids p [] = refl
any_ids p (q ∷ ps) = ap (λ b. same_id (port_id p) (port_id q) || b) (any_ids p ps)

to_ids : (ps : List Port) → AreDistinct ps → AllDifferent (port_ids ps)
to_ids [] d = tt
to_ids (p ∷ ps) (h, d) = (sym (any_ids p ps) ∙ h, to_ids ps d)

from_ids : (ps : List Port) → AllDifferent (port_ids ps) → AreDistinct ps
from_ids [] d = tt
from_ids (p ∷ ps) (h, d) = (any_ids p ps ∙ h, from_ids ps d)

AreDistinct-ids : (ps qs : List Port) → port_ids qs ≡ port_ids ps → AreDistinct ps → AreDistinct qs
AreDistinct-ids ps qs e d = from_ids qs (subst AllDifferent (sym e) (to_ids ps d))

ids-map :
    (f : Port → Port)
    → ((p : Port) → port_id (f p) ≡ port_id p)
    → (ps : List Port) → port_ids (map f ps) ≡ port_ids ps
ids-map f same [] = refl
ids-map f same (p ∷ ps) = rw (same p, ids-map f same ps)

id-set_if_port : (t n : ℕ) (s : OperStatus) (p : Port) → port_id (set_if_port t n s p) ≡ port_id p
id-set_if_port t n s p = at (p.port_type == t && p.port_no == n)
  where
    at : (b : Bool) → port_id (if b then record p { oper_status = s } else p) ≡ port_id p
    at true = refl
    at false = refl

ids-with_admin_state :
    (s : AdminState) (n : ℕ) (ps : List Port) → port_ids (with_admin_state s n ps) ≡ port_ids ps
unfolding with_admin_state
ids-with_admin_state s n [] = refl
ids-with_admin_state s n (p ∷ ps) = at (p.port_no == n) (ids-with_admin_state s n ps)
  where
    at :
        (b : Bool)
        → port_ids (with_admin_state s n ps) ≡ port_ids ps
        → port_ids (if b then record p { admin_state = s } ∷ ps else p ∷ with_admin_state s n ps)
          ≡ port_id p ∷ port_ids ps
    at true rec = refl
    at false rec = rw rec

module _ (E : Surroundings) (a : DeviceAgent) where
  abbrev Same : DeviceAgent → Type 0
  Same b = port_ids b.device.ports ≡ port_ids a.device.ports

  stored-Same :
      (d : Device)
      → port_ids d.ports ≡ port_ids a.device.ports
      → Same (update_device_in_store E d a).0
  stored-Same d h = store-inv E (λ e. port_ids e.ports ≡ port_ids a.device.ports) d a refl h

  Same-if :
      (b : Bool) (r : DeviceAgent × Option Code) (c : Option Code)
      → Same r.0
      → Same (if b then (a, c) else r).0
  Same-if true r c h = refl
  Same-if false r c h = h

  change_port-Same :
      (request : Port → AdapterCall) (s : AdminState) (n : ℕ) (p : Option Port)
      → Same (change_port E request s n p a).0
  unfolding call_adapter
  change_port-Same request s n none = refl
  change_port-Same request s n (some p) =
      let kept = ids-with_admin_state s n a.device.ports in
      Same-if (not (p.port_type == pon_olt)) _ _ (
        ▸-step Same (update_device_in_store E _ a) (call_adapter E _ _) (stored-Same _ kept)
          (λ good. stored-Same _ kept))

  status-Same :
      (oper : Option OperStatus) (conn : Option ConnectStatus)
      → Same (update_device_status E oper conn a).0
  unfolding update_device_status
  status-Same none none = stored-Same _ refl
  status-Same none (some c) = stored-Same _ refl
  status-Same (some s) none = stored-Same _ refl
  status-Same (some s) (some c) = stored-Same _ refl

  update-port_ids : (u : Update) → Same (apply_update E u a).0
  unfolding apply_update update_ports_oper_state update_port_state delete_peer_ports
      update_admin_state set_parent_id update_device_reason disable_port_request enable_port_request
  update-port_ids (status oper conn) = status-Same oper conn
  update-port_ids (ports_state s) = stored-Same _ (ids-map (set_oper_status s) (λ p. refl) _)
  update-port_ids (port_state t n s) =
      Same-if (not (is_port_type t)) _ _
        (stored-Same _ (ids-map (set_if_port t n s) (id-set_if_port t n s) _))
  update-port_ids (remove_peers id) = stored-Same _ (ids-map (without_peer id) (λ p. refl) _)
  update-port_ids (admin s) = Same-if (same_admin a.device.admin_state s) _ _ (stored-Same _ refl)
  update-port_ids (parent id) = stored-Same _ refl
  update-port_ids (reason s) = stored-Same _ refl
  update-port_ids (disable_port_no n) =
      change_port-Same disable_port disabled n (find_first (λ p. p.port_no == n) a.device.ports)
  update-port_ids (enable_port_no n) =
      change_port-Same enable_port enabled n (find_first (λ p. p.port_no == n) a.device.ports)

-- A request or an update, with what the data model and the adapter answer it.
pub data Step : Type 0 where
  request : Surroundings → Request → Step
  update : Surroundings → Update → Step

abbrev pub step : Step → DeviceAgent → DeviceAgent
step (request E r) a = (serve E r a).0
step (update E u) a = (apply_update E u a).0

abbrev pub history : List Step → DeviceAgent → DeviceAgent
history [] a = a
history (s ∷ ss) a = history ss (step s a)

-- Requests and updates in any order, with any answers of the adapter and of the data model, keep
-- the ports of a device different in type or number.
pub history-AreDistinct :
    (ss : List Step) (a : DeviceAgent)
    → AreDistinct a.device.ports
    → AreDistinct (history ss a).device.ports
history-AreDistinct [] a d = d
history-AreDistinct (request E r ∷ ss) a d =
    history-AreDistinct ss (serve E r a).0 (serve-AreDistinct E a d r)
history-AreDistinct (update E u ∷ ss) a d =
    history-AreDistinct ss (apply_update E u a).0
      (AreDistinct-ids a.device.ports _ (update-port_ids E a u) d)
