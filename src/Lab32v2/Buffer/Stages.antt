-- ===== src/Lab32v2/Buffer/Stages.antt =====
-- The stages of an exchange: reads and sends as steps between pairs of statuses.
use operating_systems_labs.Base.{◌≤◌, ◌≡◌, ◌≢◌, arith, true, some, Bytes}
use operating_systems_labs.Lab32v2.Cash.Element.{Platform}
use operating_systems_labs.Lab32v2.Buffer.{
  StatusHttp, write_request_heading, write_request_body, write_response_heading,
  write_response_body, end_work, Buffer, World, Completion, wright_request_body, take_in,
  choose_handler, read_from_socket, proof_send,
}
use operating_systems_labs.Lab32v2.Buffer.Statuses.{
  is_staged, IsStaged, client_rank, server_rank, MovesOn, Client, Server,
  wright_response_heading-status, wright_response_body-status, Requested,
  wright_request_heading-Requested,
}

-- The two statuses of a world, named.
abbrev At : StatusHttp → StatusHttp → World → Type 0
At c s w = (Client w ≡ c) × (Server w ≡ s)

abbrev Kept : StatusHttp → StatusHttp → World → Type 0
Kept c s w' =
    (is_staged (Client w') (Server w') ≡ true)
    × (client_rank c ≤ client_rank (Client w'))
    × (server_rank s ≤ server_rank (Server w'))

Requested-Kept :
    (s : StatusHttp) (w w' : World)
    → At write_request_heading s w
    → is_staged write_request_heading s ≡ true
    → Requested w w'
    → Kept write_request_heading s w'
Requested-Kept s w w' a staged q = ground arith

wright_request_body-status :
    (bs : Bytes) (b : Buffer)
    → ((wright_request_body bs b).status_client ≡ b.status_client)
      × ((wright_request_body bs b).status_http_server ≡ b.status_http_server)
unfolding wright_request_body
wright_request_body-status bs b = ground arith

take_in-status :
    (bs : Bytes) (b : Buffer)
    → ((take_in bs b).status_client ≡ b.status_client)
      × ((take_in bs b).status_http_server ≡ b.status_http_server)
unfolding take_in
take_in-status bs b = ground arith

choose_handler-Kept :
    (os : Platform) (c s : StatusHttp) (bs : Bytes) (w w' : World) (k : Completion)
    → At c s w
    → is_staged c s ≡ true
    → choose_handler os c s bs w ≡ some (k, w')
    → Kept c s w'
unfolding choose_handler
choose_handler-Kept os write_request_heading s bs w w' k a staged h =
    Requested-Kept s w w' a staged (wright_request_heading-Requested os w w' k h)
choose_handler-Kept os write_request_body s bs w w' k a staged h =
    ground (arith, wright_request_body-status bs w.buffer)
choose_handler-Kept os c write_response_heading bs w w' k a staged h =
    ground (arith, wright_response_heading-status os w w')
choose_handler-Kept os c write_response_body bs w w' k a staged h =
    ground (arith, wright_response_body-status bs w w')
choose_handler-Kept os c s bs w w' k a staged h = ground arith

-- Reading never moves an exchange back: from a proper pair of statuses `readFromSocket` leads to a
-- proper pair, in which neither side is at an earlier stage, whether it returns or throws.
pub read_from_socket-IsStaged :
    (os : Platform) (bs : Bytes) (w w' : World) (k : Completion)
    → IsStaged w
    → read_from_socket os bs w ≡ some (k, w')
    → IsStaged w' × MovesOn w w'
unfolding read_from_socket
read_from_socket-IsStaged os bs w w' k s h =
    let kept =
      choose_handler-Kept os (Client w) (Server w) bs (record w { buffer = take_in bs w.buffer }) w'
        k (take_in-status bs w.buffer) s h in
    (kept.0, (kept.1, kept.2))

-- Sending moves an exchange on too: unless the client's side has ended already, `proofSend` leads
-- from a proper pair of statuses to a proper pair, in which neither side is at an earlier stage.
pub proof_send-IsStaged :
    (bs : Bytes) (w w' : World)
    → IsStaged w
    → Client w ≢ end_work
    → proof_send bs w ≡ some w'
    → IsStaged w' × MovesOn w w'
unfolding proof_send
proof_send-IsStaged bs w w' s open_client h = ground arith
