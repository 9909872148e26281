-- ===== src/Tests/Transitions.antt =====
-- Devices that change their state (rw_core/core/device_state_transitions.go).
use vol_2619_voltha_go.Prelude.{true, some, [], ◌∷◌, ◌≡◌, refl}
use vol_2619_voltha_go.Transitions.{
  AdminState, ConnectStatus, OperStatus, Device, parent, enabled, disabled, deleted, active,
  activating, reachable, disable_all_child_devices, delete_all_child_devices, delete_logical_device,
  run_post_device_delete, create_logical_device, get_device_states, get_transition_handler,
  new_transition_map, same_type,
}
use vol_2619_voltha_go.Transitions.Priority.{by_priority, get_transition_handler-eq-by_priority}
use vol_2619_voltha_go.Transitions.Rows.{get_transition_handler-row, get_transition_handler-deleted}

abbrev olt : AdminState → ConnectStatus → OperStatus → Device
olt a c o = record { root = true; admin_state = a; connect_status = c; oper_status = o }

get_transition_handler-eq-by_priority_example :
    get_transition_handler new_transition_map
      (olt enabled reachable activating)
      (olt enabled reachable active)
    ≡ by_priority parent
        (get_device_states (olt enabled reachable activating))
        (get_device_states (olt enabled reachable active))
        new_transition_map
get_transition_handler-eq-by_priority_example =
    get_transition_handler-eq-by_priority new_transition_map (olt enabled reachable activating)
      (olt enabled reachable active)

get_transition_handler-row_example :
    get_transition_handler new_transition_map
      (olt enabled ConnectStatus.unknown activating)
      (olt enabled ConnectStatus.unknown active)
    ≡ some (create_logical_device ∷ [])
unfolding get_device_states same_type
get_transition_handler-row_example =
    get_transition_handler-row 0 _ (olt enabled ConnectStatus.unknown activating)
      (olt enabled ConnectStatus.unknown active) refl refl refl refl

get_transition_handler-deleted_example :
    get_transition_handler new_transition_map
      (olt disabled reachable active)
      (olt deleted reachable active)
    ≡ some (
        disable_all_child_devices ∷ delete_all_child_devices ∷ delete_logical_device
        ∷ run_post_device_delete ∷ [])
get_transition_handler-deleted_example =
    get_transition_handler-deleted (olt disabled reachable active) (olt deleted reachable active)
      refl
