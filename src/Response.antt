-- ===== src/Response.antt =====
-- rw_core/utils/core_utils.go: the answer of one concurrent call, and the wait for the answers of
-- several. The contents of a channel do not matter, only whether it is closed. Time is counted in the
-- unit of the timeout, from the start of the wait.
pub mod Waiting
use vol_2619_voltha_go.Prelude.{
  ℕ, Bool, true, false, Option, none, some, List, [], ◌∷◌, ◌||◌, if◌then◌else◌, leb, not,
}
use vol_2619_voltha_go.Status.{Code, aborted}
use vol_2619_voltha_go.Status.{Run, returned, panicked}

pub record Response : Type 0 where
  pub err : Option Code
  pub ch_closed : Bool
  pub finished : Bool

unfoldable pub new_response : Response
new_response = record { err = none; ch_closed = false; finished = false }

unfoldable pub done_response : Response
done_response = record { err = none; ch_closed = true; finished = true }

abbrev pub close : Response → Run Response
close r = if r.ch_closed then panicked else returned (record r { ch_closed = true })

-- `Error`, which writes the error before it closes the channel.
unfoldable pub error : Option Code → Response → Run Response
error e r = close (record r { err = e; finished = true })

unfoldable pub done : Response → Run Response
done r = if not r.finished then close r else returned r

-- When a response arrives and with what, none for a response that never arrives.
pub record Arrival : Type 0 where
  pub time : ℕ
  pub error_of : Option Code

-- The two `select` statements for a response: the error, and the time after them. A response that
-- arrives just at the timeout, where the code may take either case, is taken to be in time.
unfoldable pub receive : ℕ → ℕ → Option Arrival → Option Code × ℕ
receive timeout now none = (some aborted, if leb now timeout then timeout else now)
receive timeout now (some a) =
    if leb a.time now
    then (a.error_of, now)
    else if leb a.time timeout
    then (a.error_of, a.time)
    else (some aborted, if leb now timeout then timeout else now)

-- The loop: the errors in the order of the responses.
unfoldable pub receive_all : ℕ → ℕ → List (Option Arrival) → List (Option Code)
receive_all timeout now [] = []
receive_all timeout now (r ∷ rs) =
    let (e, later) = receive timeout now r in e ∷ receive_all timeout later rs

abbrev pub is_error : Option Code → Bool
is_error none = false
is_error (some _) = true

abbrev pub got_error : List (Option Code) → Bool
got_error [] = false
got_error (e ∷ es) = is_error e || got_error es

-- None for nil.
unfoldable pub wait_for_nil_or_error_responses :
    ℕ → List (Option Arrival) → Option (List (Option Code))
wait_for_nil_or_error_responses timeout rs =
    let errors = receive_all timeout 0 rs in if got_error errors then some errors else none
