-- ===== src/Lab32v2/Polling/Steps.antt =====
-- lab32v2/server/HandlerOneClientImpl.cpp: the tests of handlingEvent, and the steps
-- that it makes with a buffer.
use operating_systems_labs.Base.{
  ℕ, Bool, true, false, not, ◌&&◌, ◌||◌, Option, none, some, Bytes, ◌>>=◌, if◌then◌else◌,
}
use operating_systems_labs.Lab32v2.Buffer.{
  StatusHttp, read_request, read_response, write_response_heading, end_work, Buffer, World,
  proof_send, is_ready_to_send,
}
use operating_systems_labs.Lab32v2.Client.{
  TypeClient, user, http_server, set_events, all_events, deref,
}
use operating_systems_labs.Lab32v2.Polling.State.{
  Thread, in_client, in_clients, buffer_at, in_buffer, Network,
}

-- What the system calls give when a client is visited: `received` is what `read` gives, `none` for a
-- negative result.
pub record Visit : Type 0 where
  pub received : Option Bytes
  pub network : Network

-- Where the visit of a client leads: to the next round of the loop with the iterator, to `return
-- true`, or to the end of the thread.
pub data Outcome : Type 0 where
  moves : Option ℕ → Outcome
  serves exits : Outcome

abbrev pub stays : ℕ → Thread → Option (Outcome × Thread)
stays p s = some (moves (some p), s)

abbrev pub is_end_work : StatusHttp → Bool
is_end_work end_work = true
is_end_work _ = false

abbrev pub is_read_request : StatusHttp → Bool
is_read_request read_request = true
is_read_request _ = false

abbrev pub is_read_response : StatusHttp → Bool
is_read_response read_response = true
is_read_response _ = false

abbrev pub is_response_heading : StatusHttp → Bool
is_response_heading write_response_heading = true
is_response_heading _ = false

abbrev pub same_world : World → Option (Unit {0} × World)
same_world w = some (tt, w)

-- A setter of the buffer.
abbrev pub set_in_buffer : ℕ → (Buffer → Buffer) → Thread → Option Thread
set_in_buffer p f s = do
  (done, s') ← in_buffer {A = Unit {0}} p (λ w. some (tt, record w { buffer = f w.buffer })) s
  some s'

-- `proofSend`.
abbrev pub prove_sent : ℕ → Bytes → Thread → Option Thread
prove_sent p bytes s = do
  (done, s') ← in_buffer {A = Unit {0}} p (λ w. do w' ← proof_send bytes w; some (tt, w')) s
  some s'

-- Whose turn it is to be sent to.
abbrev pub is_turn : TypeClient → Buffer → Bool
is_turn user b = is_read_response b.status_client
is_turn http_server b = is_read_request b.status_http_server

-- The five tests for a client that is to be deleted. The fourth may set a flag of the buffer.
unfoldable pub is_over : TypeClient → World → Option (Bool × World)
is_over user w =
    if is_end_work w.buffer.status_client
    then some (true, w)
    else (if is_end_work w.buffer.status_http_server
        then (do (ready, w') ← is_ready_to_send w; some (not ready, w'))
        else some (false, w))
is_over http_server w = some (
  (is_end_work w.buffer.status_client && not w.buffer.is_add_data_to_cash)
      || (is_end_work w.buffer.status_http_server
          || (is_end_work w.buffer.status_client && w.buffer.is_end_send)),
  w,
)

-- The tests after a send: whether all has been sent of what the type of the client waits for.
unfoldable pub is_sent : TypeClient → World → Option (Bool × World)
is_sent t w =
    let asked : Bool = elim t [
      | user ↦ is_end_work w.buffer.status_http_server
      | http_server ↦ is_response_heading w.buffer.status_http_server
    ] in
    if asked then (do (ready, w') ← is_ready_to_send w; some (not ready, w')) else some (false, w)

-- After what has been read: whether the user is to be served from the cache. If not, the other side
-- is polled for everything.
unfoldable pub after_read : ℕ → Thread → Option (Bool × Thread)
unfolding in_client in_clients buffer_at deref
after_read p s = do
  c ← deref s.clients p
  b ← buffer_at p s
  elim c.type_client [
    | user ↦ if is_read_response b.status_client && b.is_data_get_cash then some (true, s) else (do
      s' ← elim c.pair [ none ↦ some s | some h ↦ in_client h (set_events all_events) s ]
      some (false, s'))
    | http_server ↦ do
      s' ← in_clients c.list_handling_event (set_events all_events) s
      some (false, s')
  ]
