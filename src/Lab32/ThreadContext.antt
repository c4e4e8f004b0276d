-- ===== src/Lab32/ThreadContext.antt =====
-- lab32/context/thread/ThreadContext.cpp: the thread of one client. What the system calls answer is
-- given in records and lists, and the calls on sockets are kept in a list.
mod Tests
pub mod Responses
pub mod Sockets
pub mod Requests
pub mod Progress
pub mod Routines
pub mod Rounds
pub mod Exceptions
pub mod Caching
use Prim.Native.Nat.{◌-◌, ◌%◌, ◌^◌}
use operating_systems_labs.Base.{
  ℕ, Bool, true, false, Option, none, some, List, [], ◌∷◌, ◌++◌, Bytes, if◌then◌else◌, ℤ, pos,
  to_port, negsuc, eqb_ℤ, leb_ℤ, ltb_ℤ, length, drop, leb, bytes_eq, ◌&&◌,
}
use operating_systems_labs.Lab32.Constants.{correct_code, error_code}
use operating_systems_labs.Lab32.Parser.{parsing_heading}
use operating_systems_labs.Lab32.CashContext.{CashContext, find_in_cash, add_to_cash}
use operating_systems_labs.Lab32.CashContext.History.{Addition, add_all}

-- What `read` gives: the bytes, none of them at the end of the stream; or a failure.
pub data Read : Type 0 where
  received : Bytes → Read
  failed : Read

abbrev pub byte_count : Read → ℤ
byte_count (received bytes) = pos (length bytes)
byte_count failed = negsuc 0

abbrev pub read_bytes : Read → Bytes
read_bytes (received bytes) = bytes
read_bytes failed = []

pub data Call : Type 0 where
  open_socket : ℤ → Call
  connect_socket : ℤ → Bytes → ℕ → Call
  write_bytes : ℤ → Bytes → Call
  close_socket : ℤ → Call
  read_socket : ℤ → Call

-- The answers while a request is handled. `additions` are the calls of addToCash that other threads
-- make between this thread's search and its own addition.
pub record Answers : Type 0 where
  pub find_lock_code : ℤ
  pub host_address : Bytes → Option Bytes
  pub socket_fd : ℤ
  pub connect_code : ℤ
  pub request_write_code : ℤ
  pub reads : List Read
  pub additions : List Addition
  pub add_lock_code : ℤ
  pub response_write_code : ℤ

unfoldable pub create_http_socket : Answers → Bytes → ℤ → ℤ × List Call
create_http_socket a host port = elim (a.host_address host) [
  | none ↦ (error_code, [])
  | some address ↦
      if eqb_ℤ a.socket_fd error_code
      then (error_code, [])
      else (if eqb_ℤ a.connect_code error_code
          then (
            error_code,
            open_socket a.socket_fd
                ∷ connect_socket a.socket_fd address (to_port port)
                ∷ close_socket a.socket_fd
                ∷ [],
          )
          else (
            a.socket_fd,
            open_socket a.socket_fd ∷ connect_socket a.socket_fd address (to_port port) ∷ [],
          ))
]

unfoldable pub send_response : Answers → ℤ → Bytes → ℤ × List Call
send_response a client_fd response =
    let calls : List Call = write_bytes client_fd response ∷ [] in
    if ltb_ℤ a.response_write_code (pos 0) then (error_code, calls) else (correct_code, calls)

abbrev pub end_of_response : Bytes
end_of_response = 13 ∷ 10 ∷ 13 ∷ 10 ∷ []

-- `response->ends_with("\r\n\r\n")`.
unfoldable pub ends_with : Bytes → Bytes → Bool
ends_with s suffix =
    leb (length suffix) (length s) && bytes_eq (drop (length s - length suffix) s) suffix

-- The call of `read` comes before those of what follows it.
abbrev pub after_read_call : ℤ → Option (ℤ × Bytes × List Call) → Option (ℤ × Bytes × List Call)
after_read_call fd none = none
after_read_call fd (some (code, response, calls)) = some (code, response, read_socket fd ∷ calls)

-- The code, the response and the calls; `none` while `read` has no answer yet.
unfoldable pub read_response : ℤ → List Read → Bytes → Option (ℤ × Bytes × List Call)
unfolding ends_with
read_response fd [] response = none
read_response fd (r ∷ reads) response =
    let longer : Bytes = response ++ read_bytes r in
    let rest : Option (ℤ × Bytes × List Call) = read_response fd reads longer in
    after_read_call fd (
      if ltb_ℤ (pos 0) (byte_count r)
      then (if ltb_ℤ (byte_count r) (pos 0)
          then some (error_code, response, close_socket fd ∷ [])
          else (if ends_with longer end_of_response then some (correct_code, longer, []) else rest))
      else some (correct_code, response, []))

-- How the handling of a request comes out; the reads before a `read` that never answers are not among
-- its calls. Nothing catches the ParseException on this thread.
pub data Outcome : Type 0 where
  returned : ℤ → Outcome
  parse_exception blocked : Outcome

pub record Handled : Type 0 where
  pub outcome : Outcome
  pub cash : CashContext
  pub calls : List Call

-- From the response on: it is put into the cache and sent to the client.
unfoldable pub deliver : Answers → CashContext → ℤ → Bytes → Bytes → List Call → Handled
deliver a cash client_fd request response calls = record {
  outcome = returned (if ltb_ℤ a.response_write_code (pos 0) then error_code else correct_code);
  cash = add_to_cash a.add_lock_code (add_all a.additions cash) request response;
  calls = calls ++ write_bytes client_fd response ∷ [];
}

-- With the socket connected: the request is written and the response is read.
unfoldable pub exchange : Answers → CashContext → ℤ → Bytes → ℤ → List Call → Handled
unfolding deliver
exchange a cash client_fd request http_socket calls =
    let written : List Call = calls ++ write_bytes http_socket request ∷ [] in
    if ltb_ℤ a.request_write_code (pos 0)
    then record {
      outcome = returned error_code;
      cash = cash;
      calls = written ++ close_socket http_socket ∷ [];
    }
    else elim (read_response http_socket a.reads []) [
      | none ↦ record { outcome = blocked; cash = cash; calls = written }
      | some (code, response, read_calls) ↦
          let closed : List Call = written ++ (read_calls ++ close_socket http_socket ∷ []) in
          if eqb_ℤ code correct_code
          then deliver a cash client_fd request response closed
          else record { outcome = returned error_code; cash = cash; calls = closed }
    ]

-- A request that the cache has no response for.
unfoldable pub fetch : Answers → CashContext → ℤ → Bytes → Handled
unfolding exchange create_http_socket
fetch a cash client_fd request = elim (parsing_heading request) [
  | none ↦ record { outcome = parse_exception; cash = cash; calls = [] }
  | some res ↦
      let (http_socket, calls) = create_http_socket a res.host_name res.port in
      if eqb_ℤ http_socket error_code
      then record { outcome = returned error_code; cash = cash; calls = calls }
      else exchange a cash client_fd request http_socket calls
]

unfoldable pub is_empty : Bytes → Bool
is_empty [] = true
is_empty _ = false

unfoldable pub handle_request : Answers → CashContext → ℤ → Bytes → Handled
unfolding fetch is_empty send_response
handle_request a cash client_fd request =
    let find_result : Bytes = find_in_cash a.find_lock_code cash request in
    if is_empty find_result
    then fetch a cash client_fd request
    else (let (code, calls) = send_response a client_fd find_result in
        record {
          outcome = returned (if eqb_ℤ code correct_code then correct_code else error_code);
          cash = cash;
          calls = calls;
        })
