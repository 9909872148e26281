-- ===== src/Response/Waiting.antt =====
-- What the wait for several answers returns (rw_core/utils/core_utils.go).
use vol_2619_voltha_go.Prelude.{
  ℕ, true, false, Option, none, some, List, [], ◌∷◌, ◌≡◌, refl, arith, if◌then◌else◌, leb, map, ◌≤◌,
}
use vol_2619_voltha_go.Status.{Code, aborted}
use vol_2619_voltha_go.Status.{Run, returned, panicked}
use vol_2619_voltha_go.Response.{
  Response, new_response, error, done, Arrival, receive, receive_all, got_error,
  wait_for_nil_or_error_responses,
}

-- A response counts by its own time alone: its error if it is in time, and else a timeout.
unfoldable pub outcome : ℕ → Option Arrival → Option Code
outcome timeout none = some aborted
outcome timeout (some a) = if leb a.time timeout then a.error_of else some aborted

receive_lem :
    (timeout now : ℕ) (r : Option Arrival)
    → now ≤ timeout
    → ((receive timeout now r).0 ≡ outcome timeout r) × ((receive timeout now r).1 ≤ timeout)
unfolding receive outcome
receive_lem timeout now none h = ground arith
receive_lem timeout now (some a) h = ground arith

receive_all_lem :
    (timeout now : ℕ) (rs : List (Option Arrival))
    → now ≤ timeout
    → receive_all timeout now rs ≡ map (outcome timeout) rs
unfolding receive_all
receive_all_lem timeout now [] h = refl
receive_all_lem timeout now (r ∷ rs) h =
    let (e, l) = receive_lem timeout now r h in
    cc (e, receive_all_lem timeout (receive timeout now r).1 rs l)

-- The wait returns nil just if every response arrives in time and without an error. Otherwise it
-- returns one entry for each response, in their order: the response's own error if it arrives in time,
-- and a timeout if not. It does not matter how long the responses before it took.
pub wait_for_nil_or_error_responses_lem :
    (timeout : ℕ) (rs : List (Option Arrival))
    → wait_for_nil_or_error_responses timeout rs
      ≡ (if got_error (map (outcome timeout) rs) then some (map (outcome timeout) rs) else none)
unfolding wait_for_nil_or_error_responses
wait_for_nil_or_error_responses_lem timeout rs = rw (receive_all_lem timeout 0 rs (omega arith))

-- The end of each concurrent call of the core: `Error` if the call failed, and then `Done`.
abbrev pub finish : Option Code → Run Response
finish none = done new_response
finish (some e) = elim (error (some e) new_response) [ returned r ↦ done r | panicked ↦ panicked ]

-- A concurrent call that ends by `Error` in case of a failure and then by `Done` never closes its
-- channel twice, and leaves the channel closed and its error to be read.
pub finish_lem :
    (e : Option Code)
    → (r : Response) × (finish e ≡ returned r) × (r.err ≡ e) × (r.ch_closed ≡ true)
unfolding done error new_response
finish_lem none = (record { err = none; ch_closed = true; finished = false }, refl, refl, refl)
finish_lem (some e) = (record { err = some e; ch_closed = true; finished = true }, refl, refl, refl)
