-- ===== src/DeviceAgent/Ports.antt =====
-- The ports of a device are different (rw_core/core/device_agent.go).
use vol_2619_voltha_go.Prelude.{
  ℕ, Bool, true, false, Option, none, List, [], ◌∷◌, ◌++◌, ◌&&◌, ◌||◌, ◌==◌, not, if◌then◌else◌,
  ◌≡◌, refl, any, arith, is_empty, ◌∙◌, String,
}
use vol_2619_voltha_go.Status.{Code, Result, ok, err, ◌▸◌, ▸-step}
use vol_2619_voltha_go.Transitions.{enabled, disabled, deleted, preprovisioned, same_admin}
use vol_2619_voltha_go.Route.{PeerPort}
use vol_2619_voltha_go.DeviceAgent.{
  Device, DeviceAgent, Port, Surroundings, update_device_in_store, call_adapter, AdapterCall,
  delete_device, serve, Request, enable, disable, reboot, delete, delete_ports, add, add_peer,
  enable_with, enable_device, disable_device_request, reboot_device_request, delete_device_request,
  delete_all_ports, add_port, add_peer_port, with_peer, is_same_port,
}
use vol_2619_voltha_go.DeviceAgent.Lifecycle.{store-inv}

-- No two ports have the same type and number.
abbrev pub AreDistinct : List Port → Type 0
AreDistinct [] = Unit
AreDistinct (p ∷ ps) = (any (is_same_port p) ps ≡ false) × AreDistinct ps

same_comm : (p q : Port) → is_same_port p q ≡ is_same_port q p
unfolding is_same_port
same_comm p q = ground arith

any-append :
    (q p : Port) (ps : List Port)
    → any (is_same_port q) ps ≡ false
    → is_same_port q p ≡ false
    → any (is_same_port q) (ps ++ p ∷ []) ≡ false
any-append q p [] h k = rw k
any-append q p (r ∷ ps) h k = ground (arith, any-append q p ps)

or_false_left : (a b : Bool) → (a || b) ≡ false → a ≡ false
or_false_left true b h = h
or_false_left false b h = refl

or_false_right : (a b : Bool) → (a || b) ≡ false → b ≡ false
or_false_right true b h = cc
or_false_right false b h = h

AreDistinct-append :
    (p : Port) (ps : List Port)
    → any (is_same_port p) ps ≡ false
    → AreDistinct ps
    → AreDistinct (ps ++ p ∷ [])
AreDistinct-append p [] h d = (refl, tt)
AreDistinct-append p (q ∷ ps) h d = (
  any-append q p ps d.0 (same_comm q p ∙ or_false_left (is_same_port p q) _ h),
  AreDistinct-append p ps (or_false_right (is_same_port p q) _ h) d.1,
)

any-with_peer :
    (q : Port) (n : ℕ) (peer : PeerPort) (ps : List Port)
    → any (is_same_port q) (with_peer n peer ps) ≡ any (is_same_port q) ps
unfolding with_peer is_same_port
any-with_peer q n peer [] = refl
any-with_peer q n peer (p ∷ ps) = at (p.port_no == n) (any-with_peer q n peer ps)
  where
    at :
        (b : Bool)
        → any (is_same_port q) (with_peer n peer ps) ≡ any (is_same_port q) ps
        → any
            (is_same_port q)
            (if b then record p { peers = p.peers ++ peer ∷ [] } ∷ ps else p ∷ with_peer n peer ps)
          ≡ (is_same_port q p || any (is_same_port q) ps)
    at true rec = refl
    at false rec = rw rec

AreDistinct-with_peer :
    (n : ℕ) (peer : PeerPort) (ps : List Port) → AreDistinct ps → AreDistinct (with_peer n peer ps)
unfolding with_peer is_same_port
AreDistinct-with_peer n peer [] d = tt
AreDistinct-with_peer n peer (p ∷ ps) d = at (p.port_no == n) (AreDistinct-with_peer n peer ps d.1)
  where
    at :
        (b : Bool)
        → AreDistinct (with_peer n peer ps)
        → AreDistinct
            (if b then record p { peers = p.peers ++ peer ∷ [] } ∷ ps else p ∷ with_peer n peer ps)
    at true rest = (d.0, d.1)
    at false rest = (any-with_peer p n peer ps ∙ d.0, rest)

module _ (E : Surroundings) (a : DeviceAgent) (d : AreDistinct a.device.ports) where
  abbrev Keeps : DeviceAgent → Type 0
  Keeps b = AreDistinct b.device.ports

  store-AreDistinct : (e : Device) → AreDistinct e.ports → Keeps (update_device_in_store E e a).0
  store-AreDistinct e k = store-inv E (λ f. AreDistinct f.ports) e a d k

  called-AreDistinct :
      (e : Device) (c : AdapterCall)
      → AreDistinct e.ports
      → Keeps (update_device_in_store E e a ▸ call_adapter E c e).0
  unfolding call_adapter
  called-AreDistinct e c k =
      ▸-step Keeps (update_device_in_store E e a) (call_adapter E c e) (store-AreDistinct e k)
        (λ good. store-AreDistinct e k)

  Keeps-if :
      (b : Bool) (r r' : DeviceAgent × Option Code)
      → Keeps r.0
      → Keeps r'.0
      → Keeps (if b then r else r').0
  Keeps-if true r r' k k' = k
  Keeps-if false r r' k k' = k'

  enable-Keeps : (r : Result String) → Keeps (enable_with E a r).0
  enable-Keeps (err c) = d
  enable-Keeps (ok name) =
      Keeps-if (same_admin a.device.admin_state enabled) _ _ d
        (Keeps-if (same_admin a.device.admin_state deleted) _ _ d (called-AreDistinct _ _ d))

  add_port-Keeps : (p : Port) → Keeps (add_port E p a).0
  unfolding add_port is_same_port
  add_port-Keeps p = at (any (is_same_port p) a.device.ports) refl
    where
      at :
          (b : Bool)
          → any (is_same_port p) a.device.ports ≡ b
          → Keeps
              (if◌then◌else◌ {A = DeviceAgent × Option Code} b
                (a, none)
                (update_device_in_store E
                  (record (a.device) {
                    ports = a.device.ports ++ record p { admin_state = enabled } ∷ [];
                  })
                  a)).0
      at true e = d
      at false e =
          store-AreDistinct _
            (AreDistinct-append (record p { admin_state = enabled }) a.device.ports e d)

  delete-Keeps :
      (b : Bool)
      → Keeps
          ((if◌then◌else◌ {A = DeviceAgent × Option Code} b
              (a, none)
              (call_adapter E delete_device a.device a))
            ▸ update_device_in_store E (record (a.device) { admin_state = deleted })).0
  unfolding call_adapter
  delete-Keeps true =
      ▸-step Keeps (a, none) (update_device_in_store E _) d
        (λ good. store-inv E (λ f. AreDistinct f.ports) _ _ d d)
  delete-Keeps false =
      ▸-step Keeps (call_adapter E delete_device a.device a) (update_device_in_store E _) d
        (λ good. store-inv E (λ f. AreDistinct f.ports) _ _ d d)

  -- A request keeps the ports of a device different in type or number, whatever the adapter and the
  -- data model answer.
  pub serve-AreDistinct : (r : Request) → AreDistinct (serve E r a).0.device.ports
  unfolding serve enable_device disable_device_request reboot_device_request delete_device_request
      delete_all_ports add_peer_port call_adapter
  serve-AreDistinct enable = enable-Keeps E.get_adapter_name
  serve-AreDistinct disable = Keeps-if (same_admin a.device.admin_state disabled) _ _ d (
      Keeps-if
        (same_admin a.device.admin_state preprovisioned || same_admin a.device.admin_state deleted)
        _ _ d (called-AreDistinct _ _ d))
  serve-AreDistinct reboot = d
  serve-AreDistinct delete =
      Keeps-if (same_admin a.device.admin_state deleted) _ _ d
        (delete-Keeps (same_admin a.device.admin_state preprovisioned))
  serve-AreDistinct delete_ports =
      Keeps-if
        (not (same_admin a.device.admin_state disabled)
          && not (same_admin a.device.admin_state deleted))
        _ _ d (Keeps-if (is_empty a.device.ports) _ _ d (store-AreDistinct _ tt))
  serve-AreDistinct (add port) = add_port-Keeps port
  serve-AreDistinct (add_peer peer) =
      store-AreDistinct _ (AreDistinct-with_peer peer.port_no peer a.device.ports d)
