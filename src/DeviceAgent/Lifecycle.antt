-- ===== src/DeviceAgent/Lifecycle.antt =====
-- The administrative states that the requests of `Request` can lead to (rw_core/core/device_agent.go).
use vol_2619_voltha_go.Prelude.{
  String, Bool, true, false, Option, none, some, List, [], ◌∷◌, ◌++◌, ◌&&◌, ◌||◌, not,
  if◌then◌else◌, ◌≡◌, refl, is_empty, any, subst, sym,
}
use vol_2619_voltha_go.Status.{Code, failed_precondition, Result, ok, err, ◌▸◌, ▸-step}
use vol_2619_voltha_go.Transitions.{
  AdminState, enabled, disabled, deleted, preprovisioned, same_admin, OperStatus,
}
use vol_2619_voltha_go.DeviceAgent.{
  Device, DeviceAgent, Port, Surroundings, AdapterCall, adopt_device, re_enable_device,
  disable_device, delete_device, Request, enable, disable, reboot, delete, delete_ports, add,
  add_peer, serve, stored, update_device_in_store, call_adapter, enable_with, enable_device,
  disable_device_request, reboot_device_request, delete_device_request, delete_all_ports, add_port,
  add_peer_port, is_same_port,
}

-- The changes of the administrative state that requests may make: a device that is not deleted may
-- become enabled, one that is neither preprovisioned nor deleted may become disabled, and any may
-- become deleted.
abbrev pub becomes : AdminState → AdminState → Bool
becomes s AdminState.enabled = not (same_admin s deleted)
becomes s AdminState.disabled = not (same_admin s preprovisioned) && not (same_admin s deleted)
becomes s AdminState.deleted = true
becomes s _ = false

abbrev pub may_change : AdminState → AdminState → Bool
may_change s t = same_admin s t || becomes s t

may_change_refl : (s : AdminState) → may_change s s ≡ true
unfolding same_admin
may_change_refl AdminState.unknown = refl
may_change_refl AdminState.preprovisioned = refl
may_change_refl AdminState.enabled = refl
may_change_refl AdminState.disabled = refl
may_change_refl AdminState.downloading_image = refl
may_change_refl AdminState.deleted = refl

or_true : (b : Bool) → (b || true) ≡ true
or_true true = refl
or_true false = refl

module _ (E : Surroundings) where
  pub store-inv :
      (P : Device → Type 0) (d : Device) (a : DeviceAgent)
      → P a.device
      → P d
      → P (update_device_in_store E d a).0.device
  unfolding update_device_in_store
  store-inv P d a h k = at (E.update d)
    where
      at : (r : Result Bool) → P (stored r d a).0.device
      at (err c) = h
      at (ok false) = h
      at (ok true) = k

  module _ (a : DeviceAgent) where
    abbrev Fits : DeviceAgent → Type 0
    Fits b = may_change a.device.admin_state b.device.admin_state ≡ true

    same-Fits : Fits a
    same-Fits = may_change_refl a.device.admin_state

    stored-Fits :
        (d : Device)
        → may_change a.device.admin_state d.admin_state ≡ true
        → Fits (update_device_in_store E d a).0
    stored-Fits d h =
        store-inv (λ e. may_change a.device.admin_state e.admin_state ≡ true) d a same-Fits h

    called-Fits :
        (d : Device) (c : AdapterCall)
        → may_change a.device.admin_state d.admin_state ≡ true
        → Fits (update_device_in_store E d a ▸ call_adapter E c d).0
    unfolding call_adapter
    called-Fits d c h =
        ▸-step Fits (update_device_in_store E d a) (call_adapter E c d) (stored-Fits d h)
          (λ good. stored-Fits d h)

    enable-Fits : (r : Result String) → Fits (enable_with E a r).0
    enable-Fits (err c) = same-Fits
    enable-Fits (ok name) =
        at (same_admin a.device.admin_state enabled) (same_admin a.device.admin_state deleted) refl
      where
        at :
            (b c : Bool)
            → same_admin a.device.admin_state deleted ≡ c
            → Fits
                (if◌then◌else◌ {A = DeviceAgent × Option Code} b
                  (a, none)
                  (if c
                    then (a, some failed_precondition)
                    else update_device_in_store E
                        (record (a.device) {
                          adapter = name;
                          admin_state = enabled;
                          oper_status = OperStatus.activating;
                        })
                        a
                      ▸ call_adapter E
                          (if same_admin a.device.admin_state preprovisioned
                            then adopt_device
                            else re_enable_device)
                          (record (a.device) {
                            adapter = name;
                            admin_state = enabled;
                            oper_status = OperStatus.activating;
                          }))).0
        at true c e = same-Fits
        at false true e = same-Fits
        at false false e = called-Fits _ _ (rw e (or_true _))

    disable-Fits : Fits (disable_device_request E a).0
    unfolding disable_device_request
    disable-Fits =
        at (same_admin a.device.admin_state disabled)
          (same_admin a.device.admin_state preprovisioned) (same_admin a.device.admin_state deleted)
          refl refl
      where
        at :
            (b c d : Bool)
            → same_admin a.device.admin_state preprovisioned ≡ c
            → same_admin a.device.admin_state deleted ≡ d
            → Fits
                (if◌then◌else◌ {A = DeviceAgent × Option Code} b
                  (a, none)
                  (if c || d
                    then (a, some failed_precondition)
                    else update_device_in_store E
                        (record (a.device) {
                          admin_state = disabled;
                          oper_status = OperStatus.unknown;
                        })
                        a
                      ▸ call_adapter E disable_device (record (a.device) {
                        admin_state = disabled;
                        oper_status = OperStatus.unknown;
                      }))).0
        at true c d e e' = same-Fits
        at false true d e e' = same-Fits
        at false false true e e' = same-Fits
        at false false false e e' = called-Fits _ _ (rw (e, e') (or_true _))

    delete-Fits : Fits (delete_device_request E a).0
    unfolding delete_device_request call_adapter
    delete-Fits =
        at (same_admin a.device.admin_state deleted)
          (same_admin a.device.admin_state preprovisioned)
      where
        gone : Device
        gone = record (a.device) { admin_state = deleted }

        stored_gone :
            (b : DeviceAgent) → b.device ≡ a.device → Fits (update_device_in_store E gone b).0
        stored_gone b e =
            let fits = (λ (d : Device). may_change a.device.admin_state d.admin_state ≡ true) in
            store-inv fits gone b (subst fits (sym e) same-Fits) (or_true _)

        at :
            (b c : Bool)
            → Fits
                (if◌then◌else◌ {A = DeviceAgent × Option Code} b
                  (a, none)
                  ((if c then (a, none) else call_adapter E delete_device a.device a)
                    ▸ update_device_in_store E gone)).0
        at true c = same-Fits
        at false true =
            ▸-step Fits (a, none) (update_device_in_store E gone) same-Fits
              (λ good. stored_gone a refl)
        at false false =
            ▸-step Fits (call_adapter E delete_device a.device a) (update_device_in_store E gone)
              same-Fits (λ good. stored_gone _ refl)

    ports-Fits :
        (ps : List Port) → Fits (update_device_in_store E (record (a.device) { ports = ps }) a).0
    ports-Fits ps = stored-Fits (record (a.device) { ports = ps }) same-Fits

    delete_ports-Fits : Fits (delete_all_ports E a).0
    unfolding delete_all_ports
    delete_ports-Fits =
        at
          (not (same_admin a.device.admin_state disabled)
            && not (same_admin a.device.admin_state deleted))
          (is_empty a.device.ports)
      where
        at :
            (b c : Bool)
            → Fits
                (if◌then◌else◌ {A = DeviceAgent × Option Code} b
                  (a, some failed_precondition)
                  (if c
                    then (a, none)
                    else update_device_in_store E (record (a.device) { ports = [] }) a)).0
        at true c = same-Fits
        at false true = same-Fits
        at false false = ports-Fits []

    add_port-Fits : (p : Port) → Fits (add_port E p a).0
    unfolding add_port
    add_port-Fits p = at (any (is_same_port p) a.device.ports)
      where
        at :
            (b : Bool)
            → Fits
                (if◌then◌else◌ {A = DeviceAgent × Option Code} b
                  (a, none)
                  (update_device_in_store E
                    (record (a.device) {
                      ports = a.device.ports ++ record p { admin_state = enabled } ∷ [];
                    })
                    a)).0
        at true = same-Fits
        at false = ports-Fits _

    -- Whatever the adapter and the data model answer, each of these requests, to enable, disable,
    -- reboot or delete a device, to delete its ports, or to add a port or a peer port, leaves the
    -- administrative state as it is, or makes it enabled, of a device that is not deleted, or
    -- disabled, of a device that is neither preprovisioned nor deleted, or deleted. So none of
    -- these requests brings a deleted device back; the updates of the administrative state and
    -- the requests on images are not among them.
    pub serve-may_change :
        (r : Request) → may_change a.device.admin_state (serve E r a).0.device.admin_state ≡ true
    unfolding serve enable_device add_peer_port reboot_device_request call_adapter
    serve-may_change enable = enable-Fits E.get_adapter_name
    serve-may_change disable = disable-Fits
    serve-may_change reboot = same-Fits
    serve-may_change delete = delete-Fits
    serve-may_change delete_ports = delete_ports-Fits
    serve-may_change (add port) = add_port-Fits port
    serve-may_change (add_peer peer) = ports-Fits _
