-- ===== src/Lab32/Server.antt =====
-- lab32/server/ServerImpl.cpp, with acceptNewClient of lab32/socket/ServerSocketImpl.cpp: the loop
-- that accepts the clients. The answers of the system calls in one round are given in a record.
mod Tests
pub mod Exits
use operating_systems_labs.Base.{
  ℕ, Bool, true, false, not, ◌&&◌, Option, none, some, List, [], ◌∷◌, Bytes, codes, bytes_eq,
  if◌then◌else◌, ℤ, pos, negsuc, eqb_ℤ, ltb_ℤ,
}
use operating_systems_labs.Lab32.Context.{Context, add_client}
use operating_systems_labs.Lab32.Cleaner.{Event, happen_all}

-- `poll` and `revents & POLLIN` for the socket and for the standard input, what `accept` and
-- pthread_create give, the word read, and what the other threads do to the context before the round.
pub record ServerRound : Type 0 where
  pub events : List Event
  pub socket_code : ℤ
  pub socket_ready : Bool
  pub client_sock : ℤ
  pub create_code : ℤ
  pub tid : ℕ
  pub stdin_code : ℤ
  pub stdin_ready : Bool
  pub word : Bytes

-- `none` is the ConnectException.
unfoldable pub accept_new_client : ServerRound → Context → Option Context
accept_new_client r context =
    if ltb_ℤ r.client_sock (pos 0)
    then none
    else some (add_client r.create_code r.tid r.client_sock context).0

-- How startServer is left: after a failed `poll`; by the ConnectException, which is thrown by value, so
-- that `catch (std::exception *)` does not catch it; or at its end.
pub data Exit : Type 0 where
  poll_error uncaught stopped running : Exit

-- The first half of a round: the context, if the client has been accepted where there is one.
unfoldable pub poll_socket : ServerRound → Context → Option Context
unfolding accept_new_client
poll_socket r context =
    if eqb_ℤ r.socket_code (pos 0)
    then some context
    else (if r.socket_ready then accept_new_client r context else some context)

-- The second half: the flag after it.
unfoldable pub poll_stdin : ServerRound → Bool → Bool
poll_stdin r is_working =
    if not (eqb_ℤ r.stdin_code (pos 0)) && r.stdin_ready && bytes_eq r.word (codes "q")
    then false
    else is_working

-- `cleaner_working` is the flag that the loop of the cleaner tests.
pub record Served : Type 0 where
  pub exit : Exit
  pub context : Context
  pub cleaner_working : Bool

abbrev pub leaves : Exit → Context → Bool → Served
leaves exit context cleaner_working = record {
  exit = exit;
  context = context;
  cleaner_working = cleaner_working;
}

-- stopRoutine of the cleaner, up to the join of its thread: the flag after it.
unfoldable pub stop_routine : Bool → Bool
stop_routine cleaner_working = false

-- `cleaner_working` is the flag as the constructor of the cleaner leaves it.
unfoldable pub start_server : List ServerRound → Bool → Bool → Context → Served
unfolding poll_socket poll_stdin stop_routine
start_server [] is_working cleaner_working context =
    if is_working
    then leaves running context cleaner_working
    else leaves stopped context (stop_routine cleaner_working)
start_server (r ∷ rounds) is_working cleaner_working context =
    let happened : Context = happen_all r.events context in
    let polled : Option Context = poll_socket r happened in
    let accepted : Context = elim polled [ none ↦ happened | some c ↦ c ] in
    let rest : Served = start_server rounds (poll_stdin r is_working) cleaner_working accepted in
    if not is_working
    then leaves stopped context (stop_routine cleaner_working)
    else (if eqb_ℤ r.socket_code (negsuc 0)
        then leaves poll_error happened cleaner_working
        else (elim polled [
          | none ↦ leaves uncaught happened cleaner_working
          | some c ↦
              if eqb_ℤ r.stdin_code (negsuc 0) then leaves poll_error c cleaner_working else rest
        ]))
