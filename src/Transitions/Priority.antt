-- ===== src/Transitions/Priority.antt =====
-- The choice of `GetTransitionHandler`, as a search by priority over the transitions
-- (rw_core/core/device_state_transitions.go).
use vol_2619_voltha_go.Prelude.{
  Bool, true, false, Option, none, some, List, [], ◌∷◌, ◌&&◌, ◌||◌, not, ◌≡◌, arith, fun_ext,
  if◌then◌else◌, ◌or_else◌,
}
use vol_2619_voltha_go.Transitions.{
  DeviceType, any, DeviceState, TransitionHandler, Transition, Device, Match, same_admin,
  same_connect, same_oper, same_type, same_state, get_device_states, get_handler, type_of_device,
  consider, record_match, scan, proceed, get_transition_handler,
}

-- The transition is between the two states.
unfoldable pub is_exact : DeviceState → DeviceState → Transition → Bool
is_exact p c t = same_state p t.previous_state && same_state c t.current_state

-- The transition is not exact, has the two admin states, and one of the three states changed the
-- way that the transition says.
unfoldable pub is_partial : DeviceState → DeviceState → Transition → Bool
unfolding is_exact
is_partial p c t =
    not (is_exact p c t)
    && ((same_admin p.admin t.previous_state.admin && same_admin c.admin t.current_state.admin)
        && (not (same_admin p.admin c.admin)
            || ((not (same_oper p.operational c.operational)
                  && (same_oper p.operational t.previous_state.operational
                      && same_oper c.operational t.current_state.operational))
                || (not (same_connect p.connection c.connection)
                    && (same_connect p.connection t.previous_state.connection
                        && same_connect c.connection t.current_state.connection)))))

-- The handlers of the first, and of the last, transition that passes a test.
unfoldable pub first_handlers :
    (Transition → Bool) → List Transition → Option (List TransitionHandler)
first_handlers q [] = none
first_handlers q (t ∷ ts) = let rest = first_handlers q ts in if q t then some t.handlers else rest

unfoldable pub last_handlers :
    (Transition → Bool) → List Transition → Option (List TransitionHandler)
last_handlers q [] = none
last_handlers q (t ∷ ts) = last_handlers q ts or_else (if q t then some t.handlers else none)

-- Is the transition one for devices of this type?
abbrev pub admits : DeviceType → Transition → Bool
admits dt t = same_type t.device_type dt || same_type t.device_type any

abbrev pub exact_for_type : DeviceType → DeviceState → DeviceState → Transition → Bool
exact_for_type dt p c t = is_exact p c t && same_type t.device_type dt

abbrev pub exact_for_any : DeviceType → DeviceState → DeviceState → Transition → Bool
exact_for_any dt p c t =
    is_exact p c t && (not (same_type t.device_type dt) && same_type t.device_type any)

abbrev pub partial_for : DeviceType → DeviceState → DeviceState → Transition → Bool
partial_for dt p c t = is_partial p c t && admits dt t

-- An exact transition for the device's type, else the last exact wild card, else the first
-- transition that fits in part.
abbrev pub by_priority :
    DeviceType → DeviceState → DeviceState → List Transition → Option (List TransitionHandler)
by_priority dt p c ts =
    first_handlers (exact_for_type dt p c) ts
    or_else last_handlers (exact_for_any dt p c) ts
    or_else first_handlers (partial_for dt p c) ts

pub get_handler_lem :
    (p c : DeviceState) (t : Transition)
    → get_handler p c t ≡ (
        if is_exact p c t
        then (some t.handlers, true)
        else if is_partial p c t
        then (some t.handlers, false)
        else (none, false))
unfolding get_handler is_exact is_partial
get_handler_lem p c t = ground arith

-- An exact transition does not fit in part.
not_both : (p c : DeviceState) (t : Transition) → is_exact p c t ≡ true → is_partial p c t ≡ false
unfolding is_partial
not_both p c t h = ground arith

-- What a round of the loop does with the outcomes of its tests: the transition is for the type or
-- for any type, it is exact, it fits in part.
abbrev round :
    Bool
    → Bool
    → Bool
    → Bool
    → List TransitionHandler
    → Match
    → Option (List TransitionHandler) × Match
round ty an true pa hs m =
    if ty
    then (some hs, m)
    else (none, if an then record { current_match = some hs; state_match_found = true } else m)
round ty an false pa hs m = (
  none,
  if pa && (ty || an) && not m.state_match_found
      then record m { current_match = m.current_match or_else some hs }
      else m,
)

consider_lem :
    (dt : DeviceType) (p c : DeviceState) (t : Transition) (m : Match)
    → consider dt t (get_handler p c t) m
      ≡ round
          (same_type t.device_type dt)
          (same_type t.device_type any)
          (is_exact p c t)
          (is_partial p c t)
          t.handlers
          m
unfolding consider record_match
consider_lem dt p c t m = ground (arith, get_handler_lem p c t)

-- The loop's result, from the three searches and the match that it has.
abbrev outcome : (T L F : Option (List TransitionHandler)) → Match → Option (List TransitionHandler)
outcome T L F m =
    T or_else L or_else m.current_match or_else (if m.state_match_found then none else F)

round_lem :
    (ty an e pa : Bool) (hs : List TransitionHandler) (T L F : Option (List TransitionHandler))
    (m : Match)
    → (e ≡ true → pa ≡ false)
    → proceed (round ty an e pa hs m) (outcome T L F)
      ≡ outcome
          (if e && ty then some hs else T)
          (L or_else (if e && (not ty && an) then some hs else none))
          (if pa && (ty || an) then some hs else F)
          m
unfolding proceed
round_lem ty an true pa hs T L F m h = ground arith
round_lem ty an false pa hs T L F m h = ground arith

-- What the loop adds to the match that it has.
scan_lem :
    (dt : DeviceType) (p c : DeviceState) (ts : List Transition) (m : Match)
    → scan dt p c ts m
      ≡ outcome
          (first_handlers (exact_for_type dt p c) ts)
          (last_handlers (exact_for_any dt p c) ts)
          (first_handlers (partial_for dt p c) ts)
          m
unfolding scan first_handlers last_handlers
scan_lem dt p c [] m = ground arith
scan_lem dt p c (t ∷ ts) m = rw (fun_ext (scan_lem dt p c ts)) (
    rw (consider_lem dt p c t m) (
      round_lem (same_type t.device_type dt) (same_type t.device_type any) (is_exact p c t)
        (is_partial p c t) t.handlers _ _ _ m (not_both p c t)))

-- The handlers that a change of a device's state runs, for every list of transitions: those of the
-- first transition of the device's own type between exactly the two states; if there is none, those
-- of the last wild card between exactly the two states; if there is none, those of the first
-- transition for the type or for any type that has the two admin states and agrees in the admin
-- state, the operational state or the connection that changed; and nil if there is none.
pub get_transition_handler-eq-by_priority :
    (ts : List Transition) (d d' : Device)
    → get_transition_handler ts d d'
      ≡ by_priority (type_of_device d) (get_device_states d) (get_device_states d') ts
unfolding get_transition_handler
get_transition_handler-eq-by_priority ts d d' =
    scan_lem (type_of_device d) (get_device_states d) (get_device_states d') ts
      (record { current_match = none; state_match_found = false })
