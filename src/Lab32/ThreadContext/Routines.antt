-- ===== src/Lab32/ThreadContext/Routines.antt =====
-- lab32/context/thread/ThreadContext.cpp: startRoutine, the loop of the thread.
use operating_systems_labs.Base.{List, [], ◌∷◌, ◌++◌, if◌then◌else◌, ℤ, pos, eqb_ℤ, leb_ℤ}
use operating_systems_labs.Lab32.Constants.{correct_code}
use operating_systems_labs.Lab32.CashContext.{CashContext}
use operating_systems_labs.Lab32.CashContext.History.{Addition, add_all}
use operating_systems_labs.Lab32.ThreadContext.{
  Read, byte_count, read_bytes, Call, close_socket, read_socket, Answers, Outcome, returned,
  parse_exception, blocked, Handled, handle_request,
}

-- How the routine of the thread stands: ended, with the client's socket closed; the process ended by
-- an exception that nothing catches; or waiting in a `read`.
pub data Finish : Type 0 where
  ended terminated waiting : Finish

pub record Routine : Type 0 where
  pub finish : Finish
  pub cash : CashContext
  pub calls : List Call

-- After a request has been handled.
unfoldable pub after_request : ℤ → Outcome → Routine → CashContext → List Call → Routine
after_request client_fd (returned code) rest cash calls =
    if eqb_ℤ code correct_code
    then record rest { calls = calls ++ rest.calls }
    else record { finish = ended; cash = cash; calls = calls ++ close_socket client_fd ∷ [] }
after_request client_fd parse_exception rest cash calls = record {
  finish = terminated;
  cash = cash;
  calls = calls;
}
after_request client_fd blocked rest cash calls = record {
  finish = waiting;
  cash = cash;
  calls = calls;
}

-- A `read` from the client, the calls of addToCash that other threads have made up to then, and the
-- answers while the request is handled.
pub record Round : Type 0 where
  pub request : Read
  pub earlier : List Addition
  pub answers : Answers

unfoldable pub start_routine : ℤ → List Round → CashContext → Routine
unfolding handle_request after_request
start_routine client_fd [] cash = record {
  finish = waiting;
  cash = cash;
  calls = read_socket client_fd ∷ [];
}
start_routine client_fd (round ∷ rounds) cash =
    let found : CashContext = add_all round.earlier cash in
    let handled : Handled =
      handle_request round.answers found client_fd (read_bytes round.request) in
    let rest : Routine = start_routine client_fd rounds handled.cash in
    if leb_ℤ (byte_count round.request) (pos 0)
    then record {
      finish = ended;
      cash = found;
      calls = read_socket client_fd ∷ close_socket client_fd ∷ [];
    }
    else after_request client_fd handled.outcome rest handled.cash
        (read_socket client_fd ∷ handled.calls)
