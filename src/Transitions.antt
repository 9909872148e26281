-- ===== src/Transitions.antt =====
-- rw_core/core/device_state_transitions.go: the table of device state transitions and the choice of
-- the handlers that a change of state runs. The three status enumerations are those of the device
-- messages, with the numbers that their wire format gives the values.
pub mod Rows
pub mod Priority
use vol_2619_voltha_go.Prelude.{
  ℕ, Bool, true, false, Option, none, some, List, [], ◌∷◌, ◌&&◌, ◌||◌, not, ◌==◌, if◌then◌else◌,
}

pub data AdminState : Type 0 where
  unknown preprovisioned enabled disabled downloading_image deleted : AdminState

pub data ConnectStatus : Type 0 where
  unknown unreachable reachable : ConnectStatus

pub data OperStatus : Type 0 where
  unknown discovered activating testing active failed : OperStatus

pub data DeviceType : Type 0 where
  parent child any : DeviceType

abbrev pub admin_code : AdminState → ℕ
admin_code AdminState.unknown = 0
admin_code preprovisioned = 1
admin_code enabled = 2
admin_code disabled = 3
admin_code downloading_image = 4
admin_code deleted = 5

abbrev pub connect_code : ConnectStatus → ℕ
connect_code ConnectStatus.unknown = 0
connect_code unreachable = 1
connect_code reachable = 2

abbrev pub oper_code : OperStatus → ℕ
oper_code OperStatus.unknown = 0
oper_code discovered = 1
oper_code activating = 2
oper_code testing = 3
oper_code active = 4
oper_code failed = 5

abbrev pub type_code : DeviceType → ℕ
type_code parent = 0
type_code child = 1
type_code any = 2

unfoldable pub same_admin : AdminState → AdminState → Bool
same_admin a b = admin_code a == admin_code b

unfoldable pub same_connect : ConnectStatus → ConnectStatus → Bool
same_connect a b = connect_code a == connect_code b

unfoldable pub same_oper : OperStatus → OperStatus → Bool
same_oper a b = oper_code a == oper_code b

unfoldable pub same_type : DeviceType → DeviceType → Bool
same_type a b = type_code a == type_code b

pub record DeviceState : Type 0 where
  pub admin : AdminState
  pub connection : ConnectStatus
  pub operational : OperStatus

-- `==` on two `DeviceState` values.
unfoldable pub same_state : DeviceState → DeviceState → Bool
same_state a b =
    same_admin a.admin b.admin
    && (same_connect a.connection b.connection && same_oper a.operational b.operational)

-- The methods of the device manager that the table names.
pub data TransitionHandler : Type 0 where
  create_logical_device setup_uni_logical_ports run_post_device_delete : TransitionHandler
  disable_all_child_devices delete_all_child_devices delete_logical_device : TransitionHandler
  child_device_lost delete_logical_ports notify_invalid_transition : TransitionHandler

pub record Transition : Type 0 where
  pub device_type : DeviceType
  pub previous_state : DeviceState
  pub current_state : DeviceState
  pub handlers : List TransitionHandler

-- The fields of a device that the choice reads.
pub record Device : Type 0 where
  pub root : Bool
  pub admin_state : AdminState
  pub connect_status : ConnectStatus
  pub oper_status : OperStatus

unfoldable pub get_device_states : Device → DeviceState
get_device_states d = record {
  admin = d.admin_state;
  connection = d.connect_status;
  operational = d.oper_status;
}

-- The handlers of a transition that the change of state matches, none for nil, and whether the
-- match is exact. A transition of the table always has handlers, so its list is never nil.
unfoldable pub get_handler :
    DeviceState → DeviceState → Transition → Option (List TransitionHandler) × Bool
get_handler previous current t =
    if same_state previous t.previous_state && same_state current t.current_state
    then (some t.handlers, true)
    else if not (same_admin previous.admin t.previous_state.admin)
        || not (same_admin current.admin t.current_state.admin)
    then (none, false)
    else if not (same_admin previous.admin current.admin)
        && (same_admin previous.admin t.previous_state.admin
            && same_admin current.admin t.current_state.admin)
    then (some t.handlers, false)
    else if not (same_oper previous.operational current.operational)
        && (same_oper previous.operational t.previous_state.operational
            && same_oper current.operational t.current_state.operational)
    then (some t.handlers, false)
    else if not (same_connect previous.connection current.connection)
        && (same_connect previous.connection t.previous_state.connection
            && same_connect current.connection t.current_state.connection)
    then (some t.handlers, false)
    else (none, false)

-- `deviceType` of `GetTransitionHandler`.
abbrev pub type_of_device : Device → DeviceType
type_of_device d = if d.root then parent else child

-- What the loop of `GetTransitionHandler` carries: `currentMatch` and `stateMatchFound`.
pub record Match : Type 0 where
  pub current_match : Option (List TransitionHandler)
  pub state_match_found : Bool

abbrev pub is_nil : Option (List TransitionHandler) → Bool
is_nil none = true
is_nil (some _) = false

-- The body of the loop once `tempHandler` is not nil: a list to return at once, or the new values
-- of the loop's variables.
unfoldable pub record_match :
    DeviceType
    → Transition
    → List TransitionHandler
    → Bool
    → Match
    → Option (List TransitionHandler) × Match
record_match dt t temp exact m =
    if exact && same_type t.device_type dt
    then (some temp, m)
    else if exact
    then (none, record { current_match = some temp; state_match_found = true })
    else if is_nil m.current_match && not m.state_match_found
    then (none, record m { current_match = some temp })
    else (none, m)

-- The body of the loop for one transition, under the outcome of `getHandler`.
unfoldable pub consider :
    DeviceType
    → Transition
    → Option (List TransitionHandler) × Bool
    → Match
    → Option (List TransitionHandler) × Match
consider dt t (none, exact) m = (none, m)
consider dt t (some temp, exact) m =
    if not (same_type t.device_type dt) && not (same_type t.device_type any)
    then (none, m)
    else record_match dt t temp exact m

-- `return` inside the loop, or the next round of it.
unfoldable pub proceed :
    Option (List TransitionHandler) × Match
    → (Match → Option (List TransitionHandler))
    → Option (List TransitionHandler)
proceed (some hs, m) rest = some hs
proceed (none, m) rest = rest m

-- The loop over the transitions.
unfoldable pub scan :
    DeviceType
    → DeviceState
    → DeviceState
    → List Transition
    → Match
    → Option (List TransitionHandler)
scan dt p c [] m = m.current_match
scan dt p c (t ∷ ts) m = proceed (consider dt t (get_handler p c t) m) (scan dt p c ts)

unfoldable pub get_transition_handler :
    List Transition → Device → Device → Option (List TransitionHandler)
get_transition_handler transitions p_device c_device =
    scan (type_of_device p_device) (get_device_states p_device) (get_device_states c_device)
      transitions (record { current_match = none; state_match_found = false })

abbrev state : AdminState → OperStatus → DeviceState
state a o = record { admin = a; connection = ConnectStatus.unknown; operational = o }

abbrev row : DeviceType → DeviceState → DeviceState → List TransitionHandler → Transition
row d p c hs = record { device_type = d; previous_state = p; current_state = c; handlers = hs }

abbrev notify : List TransitionHandler
notify = notify_invalid_transition ∷ []

-- The transitions of `NewTransitionMap`, in their order.
abbrev pub new_transition_map : List Transition
new_transition_map =
    row parent (state enabled activating) (state enabled active) (create_logical_device ∷ [])
    ∷ row child (state enabled discovered) (state enabled active) (setup_uni_logical_ports ∷ [])
    ∷ row child (state enabled activating) (state enabled active) (setup_uni_logical_ports ∷ [])
    ∷ row any (state preprovisioned OperStatus.unknown) (state deleted OperStatus.unknown)
        (run_post_device_delete ∷ [])
    ∷ row parent (state disabled OperStatus.unknown) (state deleted OperStatus.unknown) (
        disable_all_child_devices ∷ delete_all_child_devices ∷ delete_logical_device
        ∷ run_post_device_delete ∷ [])
    ∷ row child (state disabled OperStatus.unknown) (state deleted OperStatus.unknown)
        (child_device_lost ∷ delete_logical_ports ∷ run_post_device_delete ∷ [])
    ∷ row child (state enabled OperStatus.unknown) (state deleted OperStatus.unknown)
        (child_device_lost ∷ delete_logical_ports ∷ run_post_device_delete ∷ [])
    ∷ row any (state enabled active) (state enabled activating) notify
    ∷ row any (state enabled activating) (state enabled OperStatus.unknown) notify
    ∷ row any (state preprovisioned OperStatus.unknown)
        (state AdminState.unknown OperStatus.unknown) notify
    ∷ row any (state enabled OperStatus.unknown) (state downloading_image OperStatus.unknown) notify
    ∷ row any (state enabled OperStatus.unknown) (state AdminState.unknown OperStatus.unknown)
        notify
    ∷ row parent (state enabled active) (state enabled activating) notify
    ∷ row any (state enabled activating) (state enabled OperStatus.unknown) notify
    ∷ row any (state enabled OperStatus.unknown) (state preprovisioned OperStatus.unknown) notify
    ∷ row child (state disabled OperStatus.unknown) (state AdminState.unknown OperStatus.unknown)
        notify
    ∷ row any (state disabled OperStatus.unknown) (state preprovisioned OperStatus.unknown) notify
    ∷ row any (state downloading_image OperStatus.unknown) (state disabled OperStatus.unknown)
        notify
    ∷ []
