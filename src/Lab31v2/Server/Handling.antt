-- ===== src/Lab31v2/Server/Handling.antt =====
-- lab31/v2/server/ServerImpl.cpp: what handlingEvent does with one client.
use operating_systems_labs.Base.{
  ℕ, Bool, true, false, not, ◌&&◌, Option, none, some, List, [], ◌∷◌, ◌++◌, Bytes, length, ◌>>=◌,
  if◌then◌else◌,
}
use operating_systems_labs.Lab32v2.Buffer.{StatusHttp, read_request, read_response, end_work}
use operating_systems_labs.Lab31v2.Buffer.{
  Buffer, World, read_from_socket, send_buf, proof_send, is_ready_to_send,
}
use operating_systems_labs.Lab31v2.Server.State.{
  TypeClient, user, http_server, Client, new_client, set_revents_zero, Server, deref, in_buffer_at,
  set_client, Network, connect_to_client,
}
use operating_systems_labs.Lab31v2.Server.Deleting.{delete_client}

-- What the system calls give when a client is visited; `bytes` is empty at the end of the stream and
-- after a failure.
pub record Visit : Type 0 where
  pub bytes : Bytes
  pub network : Network

-- Whether the client has been deleted, the clients pushed to the back of the list, and the state.
pub record Visited : Type 0 where
  pub deleted : Bool
  pub pushed : List ℕ
  pub server : Server

abbrev stays : Server → Option Visited
stays s = some (record { deleted = false; pushed = []; server = s })

abbrev pub deleted_client : ℕ → Server → Option Visited
deleted_client p s = do
  s' ← delete_client p s
  some (record { deleted = true; pushed = []; server = s' })

abbrev is_end_work : StatusHttp → Bool
is_end_work end_work = true
is_end_work _ = false

abbrev is_read_request : StatusHttp → Bool
is_read_request read_request = true
is_read_request _ = false

abbrev is_read_response : StatusHttp → Bool
is_read_response read_response = true
is_read_response _ = false

-- The four tests for a client that is to be deleted; the third may set a flag of the buffer.
unfoldable pub is_over : TypeClient → World → Option (Bool × World)
is_over user w =
    if is_end_work w.buffer.status_client
    then some (true, w)
    else (if is_end_work w.buffer.status_http_server
        then (do (ready, w') ← is_ready_to_send w; some (not ready, w'))
        else some (false, w))
is_over http_server w = some (
  (if is_end_work w.buffer.status_http_server
      then true
      else is_end_work w.buffer.status_client && w.buffer.is_end_send),
  w,
)

-- Whose turn it is to be sent to.
abbrev is_turn : TypeClient → Buffer → Bool
is_turn user b = is_read_response b.status_client
is_turn http_server b = is_read_request b.status_http_server

-- A buffer that asks for the HTTP server: the new client shares it.
unfoldable pub connect_http_server : Visit → ℕ → ℕ → Server → Option Visited
connect_http_server v p q s = do
  b ← deref s.buffers q
  r ← b.result_parse_heading
  let s1 =
      in_buffer_at q
        (λ w. some (record w { buffer = record w.buffer { is_ready_connect_http_server = false } }))
        s
  s2 ← s1
  elim (connect_to_client v.network r.host_name r.port) [
    | none ↦ deleted_client p s2
    | some sock ↦ do
      s3 ←
          in_buffer_at q
            (λ w. some (record w { buffer = record w.buffer { is_server_connect = true } })) s2
      some (record {
        deleted = false;
        pushed = length s3.clients ∷ [];
        server = record s3 {
          clients = s3.clients ++ some (new_client sock http_server (some q)) ∷ [];
        };
      })
  ]

module _ (hasher : Bytes → ℕ) where
  abbrev read_in : Bytes → World → Option World
  read_in bytes w = do (completion, w') ← read_from_socket hasher bytes w; some w'

  -- POLLIN: what has been read goes into the buffer. The ParseException is caught here.
  unfoldable pub handle_input : Visit → ℕ → Client → Server → Option Visited
  unfolding connect_http_server
  handle_input v p c s =
      let s0 : Server = set_client p (some (set_revents_zero c)) s in
      elim v.bytes [
        | [] ↦ deleted_client p s0
        | ◌∷◌ x xs ↦ do
          q ← c.buffer
          s1 ← in_buffer_at q (read_in v.bytes) s0
          b ← deref s1.buffers q
          if b.is_ready_connect_http_server then connect_http_server v p q s1 else stays s1
      ]

-- POLLOUT: what the buffer gives is written. How much `write` took is not looked at.
unfoldable pub handle_output : ℕ → ℕ → Client → Server → Option Visited
handle_output p q c s = do
  let s0 = set_client p (some (set_revents_zero c)) s
  b ← deref s0.buffers q
  (ready, w) ← is_ready_to_send (record { buffer = b; cash = s0.cash })
  s1 ← in_buffer_at q (λ w0. some w) s0
  if ready && is_turn c.type_client w.buffer
      then (do
        bytes ← send_buf [] w
        s2 ← in_buffer_at q (proof_send bytes) s1
        stays (record s2 { written = s2.written ++ (c.fd, bytes) ∷ [] }))
      else stays s1

-- The branches without POLLIN.
unfoldable pub handle_rest : ℕ → Client → Server → Option Visited
unfolding is_over handle_output
handle_rest p c s = do
  q ← c.buffer
  b ← deref s.buffers q
  (over, w) ← is_over c.type_client (record { buffer = b; cash = s.cash })
  s' ← in_buffer_at q (λ w0. some w) s
  if over then deleted_client p s' else (if c.pollout then handle_output p q c s' else stays s')

unfoldable pub handle_client : (Bytes → ℕ) → Visit → ℕ → Server → Option Visited
unfolding handle_input handle_rest
handle_client hasher v p s = do
  c ← deref s.clients p
  if c.pollin then handle_input hasher v p c s else handle_rest p c s
