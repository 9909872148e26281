-- ===== src/Transitions/Rows.antt =====
-- What the transition table decides: its rows, the unchanged states and the deletion of a device
-- (rw_core/core/device_state_transitions.go).
use vol_2619_voltha_go.Prelude.{
  ℕ, zero, suc, Bool, subst, some-injective, true, false, Option, none, some, List, [], ◌∷◌, ◌≡◌,
  ◌≢◌, refl, arith, ◌&&◌, ◌∙◌, sym, get_elem?, All, ◌==◌, if◌then◌else◌,
}
use vol_2619_voltha_go.Transitions.{
  AdminState, DeviceType, parent, child, any, preprovisioned, enabled, disabled, deleted,
  ConnectStatus, OperStatus, admin_code, connect_code, oper_code, DeviceState, TransitionHandler,
  Transition, Device, disable_all_child_devices, delete_all_child_devices, delete_logical_device,
  child_device_lost, delete_logical_ports, run_post_device_delete, same_admin, same_connect,
  same_oper, same_type, same_state, get_device_states, type_of_device, get_transition_handler,
  new_transition_map,
}
use vol_2619_voltha_go.Transitions.Priority.{
  is_exact, is_partial, first_handlers, last_handlers, admits, by_priority, exact_for_type,
  exact_for_any, partial_for, get_transition_handler-eq-by_priority,
}

All-get_elem? {ℓ κ} :
    {A : Type ℓ} (P : A → Type κ) (xs : List A) (i : ℕ) (x : A)
    → All P xs
    → get_elem? xs i ≡ some x
    → P x
All-get_elem? P [] i x h e = absurd (cc)
All-get_elem? P (y ∷ ys) zero x h e = subst P (some-injective y x e) h.0
All-get_elem? P (y ∷ ys) (suc i) x h e = All-get_elem? P ys i x h.1 e

abbrev IsChosen : DeviceType → Transition → Type 0
IsChosen dt t =
    admits dt t ≡ true
    → by_priority dt t.previous_state t.current_state new_transition_map ≡ some t.handlers

chosen : (dt : DeviceType) → dt ≢ any → All (IsChosen dt) new_transition_map
unfolding first_handlers last_handlers is_partial same_state same_admin same_connect same_oper
    same_type
chosen parent _ = (
  λ _. refl,
  (
    λ h. cc,
    (
      λ h. cc,
      (
        λ _. refl,
        (
          λ _. refl,
          (
            λ h. cc,
            (
              λ h. cc,
              (
                λ _. refl,
                (
                  λ _. refl,
                  (
                    λ _. refl,
                    (
                      λ _. refl,
                      (
                        λ _. refl,
                        (
                          λ _. refl,
                          (λ _. refl, (λ _. refl, (λ h. cc, (λ _. refl, (λ _. refl, tt))))),
                        ),
                      ),
                    ),
                  ),
                ),
              ),
            ),
          ),
        ),
      ),
    ),
  ),
)
chosen child _ = (
  λ h. cc,
  (
    λ _. refl,
    (
      λ _. refl,
      (
        λ _. refl,
        (
          λ h. cc,
          (
            λ _. refl,
            (
              λ _. refl,
              (
                λ _. refl,
                (
                  λ _. refl,
                  (
                    λ _. refl,
                    (
                      λ _. refl,
                      (
                        λ _. refl,
                        (
                          λ h. cc,
                          (λ _. refl, (λ _. refl, (λ _. refl, (λ _. refl, (λ _. refl, tt))))),
                        ),
                      ),
                    ),
                  ),
                ),
              ),
            ),
          ),
        ),
      ),
    ),
  ),
)
chosen any h = absurd (h refl)

type_of_device-ne-any : (d : Device) → type_of_device d ≢ any
type_of_device-ne-any d h = ground arith

-- Every transition of the table is chosen where it applies: for a device of the transition's type, or
-- of any type if the transition is for any, whose state changes from exactly the transition's
-- previous state to exactly its current state, the handlers are those of the transition.
pub get_transition_handler-row :
    (i : ℕ) (t : Transition) (d d' : Device)
    → get_elem? new_transition_map i ≡ some t
    → admits (type_of_device d) t ≡ true
    → get_device_states d ≡ t.previous_state
    → get_device_states d' ≡ t.current_state
    → get_transition_handler new_transition_map d d' ≡ some t.handlers
get_transition_handler-row i t d d' e a p c =
    get_transition_handler-eq-by_priority new_transition_map d d'
    ∙ rw (p, c)
        (All-get_elem? (IsChosen (type_of_device d)) new_transition_map i t
          (chosen (type_of_device d) (type_of_device-ne-any d)) e a)

-- The handlers that the deletion of a device runs, from its place and its admin state.
abbrev pub deletion_handlers : Bool → AdminState → Option (List TransitionHandler)
deletion_handlers root preprovisioned = some (run_post_device_delete ∷ [])
deletion_handlers true disabled = some (
    disable_all_child_devices ∷ delete_all_child_devices ∷ delete_logical_device
    ∷ run_post_device_delete ∷ [])
deletion_handlers false disabled =
    some (child_device_lost ∷ delete_logical_ports ∷ run_post_device_delete ∷ [])
deletion_handlers false enabled =
    some (child_device_lost ∷ delete_logical_ports ∷ run_post_device_delete ∷ [])
deletion_handlers _ _ = none

deletion_by_priority :
    (r : Bool) (a : AdminState) (pc cc' : ConnectStatus) (po co : OperStatus)
    → by_priority
        (if r then parent else child)
        (record { admin = a; connection = pc; operational = po })
        (record { admin = deleted; connection = cc'; operational = co })
        new_transition_map
      ≡ deletion_handlers r a
unfolding first_handlers last_handlers is_partial same_state same_admin same_type
deletion_by_priority true AdminState.unknown pc cc' po co = ground arith
deletion_by_priority true preprovisioned pc cc' po co = ground arith
deletion_by_priority true disabled pc cc' po co = ground arith
deletion_by_priority true _ pc cc' po co = ground arith
deletion_by_priority false AdminState.unknown pc cc' po co = ground arith
deletion_by_priority false preprovisioned pc cc' po co = ground arith
deletion_by_priority false disabled pc cc' po co = ground arith
deletion_by_priority false _ pc cc' po co = ground arith

-- When a device is marked deleted, its place and its previous admin state alone decide the handlers,
-- whatever its connection and operational state were and are. From preprovisioned only the clean-up
-- after the deletion runs; a root device goes from disabled through the disabling and the deletion
-- of its children and the deletion of its logical device; a child goes from disabled or from enabled
-- through its loss and the deletion of its logical ports; and no handler runs otherwise, so not for
-- an enabled root device.
pub get_transition_handler-deleted :
    (d d' : Device)
    → d'.admin_state ≡ deleted
    → get_transition_handler new_transition_map d d' ≡ deletion_handlers d.root d.admin_state
unfolding get_device_states
get_transition_handler-deleted d d' h =
    get_transition_handler-eq-by_priority new_transition_map d d'
    ∙ subst
        (λ x.
          by_priority (type_of_device d) (get_device_states d)
            (record { admin = x; connection = d'.connect_status; operational = d'.oper_status })
            new_transition_map
          ≡ deletion_handlers d.root d.admin_state)
        (sym h)
        (deletion_by_priority d.root d.admin_state d.connect_status d'.connect_status d.oper_status
          d'.oper_status)

-- No transition of the list is from a state to itself.
abbrev pub Changes : List Transition → Type 0
Changes = All (λ t. same_state t.previous_state t.current_state ≡ false)

==_trans : (a b c : ℕ) → (a == b) ≡ true → (a == c) ≡ true → (b == c) ≡ true
==_trans a b c h k = ground arith

==_refl : (a : ℕ) → (a == a) ≡ true
==_refl a = ground arith

same_state_refl :
    (p : DeviceState)
    → (same_admin p.admin p.admin ≡ true)
      × (same_connect p.connection p.connection ≡ true)
      × (same_oper p.operational p.operational ≡ true)
unfolding same_admin same_connect same_oper
same_state_refl p = (
  ==_refl (admin_code p.admin),
  ==_refl (connect_code p.connection),
  ==_refl (oper_code p.operational),
)

same_state_trans :
    (p a b : DeviceState) → same_state p a ≡ true → same_state p b ≡ true → same_state a b ≡ true
unfolding same_state same_admin same_connect same_oper
same_state_trans p a b h k =
    both (==_trans (admin_code p.admin) (admin_code a.admin) (admin_code b.admin))
      (==_trans (connect_code p.connection) (connect_code a.connection) (connect_code b.connection))
      (==_trans (oper_code p.operational) (oper_code a.operational) (oper_code b.operational)) h k
  where
    both :
        {x y z x' y' z' u v w : Bool}
        → (x ≡ true → x' ≡ true → u ≡ true)
        → (y ≡ true → y' ≡ true → v ≡ true)
        → (z ≡ true → z' ≡ true → w ≡ true)
        → (x && (y && z)) ≡ true
        → (x' && (y' && z')) ≡ true
        → (u && (v && w)) ≡ true
    both f g k h h' = ground arith

unchanged_exact :
    (p : DeviceState) (t : Transition)
    → same_state t.previous_state t.current_state ≡ false
    → is_exact p p t ≡ false
unfolding is_exact
unchanged_exact p t h = ground (arith, same_state_trans p t.previous_state t.current_state)

unchanged_partial : (p : DeviceState) (t : Transition) → is_partial p p t ≡ false
unfolding is_partial
unchanged_partial p t = ground (arith, same_state_refl p)

first_none :
    (q : Transition → Bool) (ts : List Transition)
    → All (λ t. q t ≡ false) ts
    → first_handlers q ts ≡ none
unfolding first_handlers
first_none q [] h = refl
first_none q (t ∷ ts) h = rw h.0 (first_none q ts h.1)

last_none :
    (q : Transition → Bool) (ts : List Transition)
    → All (λ t. q t ≡ false) ts
    → last_handlers q ts ≡ none
unfolding last_handlers
last_none q [] h = refl
last_none q (t ∷ ts) h = rw (h.0, last_none q ts h.1)

unchanged_priority :
    (dt : DeviceType) (p : DeviceState) (ts : List Transition)
    → Changes ts
    → All (λ t. exact_for_type dt p p t ≡ false) ts
      × All (λ t. exact_for_any dt p p t ≡ false) ts
      × All (λ t. partial_for dt p p t ≡ false) ts
unchanged_priority dt p [] h = (tt, tt, tt)
unchanged_priority dt p (t ∷ ts) h =
    let (a, b, c) = unchanged_priority dt p ts h.1 in
    (
      (rw (unchanged_exact p t h.0), a),
      (rw (unchanged_exact p t h.0), b),
      (rw (unchanged_partial p t), c),
    )

-- An update that leaves the three states of a device as they were runs no handler.
pub get_transition_handler-unchanged :
    (d d' : Device)
    → get_device_states d ≡ get_device_states d'
    → get_transition_handler new_transition_map d d' ≡ none
unfolding same_state same_admin same_connect same_oper
get_transition_handler-unchanged d d' h =
    get_transition_handler-eq-by_priority new_transition_map d d'
    ∙ rw (← h) (
        let (a, b, c) =
          unchanged_priority (type_of_device d) (get_device_states d) new_transition_map (
            refl,
            (
              refl,
              (
                refl,
                (
                  refl,
                  (
                    refl,
                    (
                      refl,
                      (
                        refl,
                        (
                          refl,
                          (
                            refl,
                            (
                              refl,
                              (refl, (refl, (refl, (refl, (refl, (refl, (refl, (refl, tt)))))))),
                            ),
                          ),
                        ),
                      ),
                    ),
                  ),
                ),
              ),
            ),
          ) in
        rw (first_none _ _ a, last_none _ _ b, first_none _ _ c))
