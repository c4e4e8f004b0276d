-- ===== src/Lab32v2/Polling/Handling.antt =====
-- lab32v2/server/HandlerOneClientImpl.cpp: what handlingEvent does with one client.
use operating_systems_labs.Base.{
  ℕ, Bool, true, false, Option, none, some, [], ◌∷◌, ◌++◌, Bytes, length, ◌>>=◌, if◌then◌else◌, ℤ,
}
use operating_systems_labs.Lab32v2.Cash.Element.{Platform}
use operating_systems_labs.Lab32v2.Buffer.{
  returned, parse_exception, read_from_socket, send_buf, is_ready_to_send,
}
use operating_systems_labs.Lab32v2.Client.{
  user, http_server, Client, set_events, set_pair, set_buffer, set_revents_zero, new_client,
  add_client_to_handling_event, all_events, input_events, hang_up_only, read_buf, deref,
}
use operating_systems_labs.Lab32v2.Polling.State.{
  Thread, put_client, in_client, in_clients, buffer_at, in_buffer, Network, connect_to_client,
}
use operating_systems_labs.Lab32v2.Polling.Deleting.{delete_client}
use operating_systems_labs.Lab32v2.Polling.Steps.{
  Visit, Outcome, stays, set_in_buffer, prove_sent, is_turn, is_over, is_sent, after_read, moves,
  serves, exits,
}

-- `wraps` says how the list of the clients goes on at its end.
module _ (wraps : Bool) where
  abbrev pub delete_and_move : ℕ → Thread → Option (Outcome × Thread)
  delete_and_move p s = do (it, s') ← delete_client 2 wraps p s; some (moves it, s')

  -- What follows the connection of the client at p. The first result tells whether the thread ends,
  -- which it does if no connection has been made.
  unfoldable pub with_connection : Option ℤ → ℕ → Thread → Option (Bool × Thread)
  unfolding in_client in_buffer deref delete_client new_client
  with_connection none p s = do (it, s1) ← delete_client 2 wraps p s; some (true, s1)
  with_connection (some sock) p s = do
    c ← deref s.clients p
    q ← c.buffer
    let h = length s.clients
    s1 ← set_in_buffer p (λ b. record b { is_server_connect = true }) s
    s2 ← in_client p (set_pair (some h)) s1
    some (
      false,
      record s2 {
        clients =
            s2.clients
            ++ some (
                set_events all_events (
                  add_client_to_handling_event p (set_buffer q (new_client sock http_server none))))
              ∷ [];
        client_list = h ∷ s2.client_list;
      },
    )

  -- A buffer that asks for the HTTP server.
  unfoldable pub connect_http_server : Network → ℕ → Thread → Option (Bool × Thread)
  unfolding buffer_at in_buffer
  connect_http_server network p s = do
    s1 ← set_in_buffer p (λ b. record b { is_ready_connect_http_server = false }) s
    b ← buffer_at p s1
    r ← b.result_parse_heading
    with_connection (connect_to_client network r.host_name r.port) p s1

  -- The sending of one chunk, `buffer` being what the string of the handler holds. How much `write`
  -- took is not looked at.
  unfoldable pub send_turn : Bytes → ℕ → Client → Thread → Option (Outcome × Thread)
  unfolding is_sent in_client in_clients buffer_at in_buffer delete_client
  send_turn buffer p c s = do
    (bytes, s1) ← in_buffer p (λ w. do bytes ← send_buf buffer w; some (bytes, w)) s
    s2 ← prove_sent p bytes (record s1 { written = s1.written ++ (c.fd, bytes) ∷ [] })
    (sent, s3) ← in_buffer p (is_sent c.type_client) s2
    if sent
        then (elim c.type_client [
          | user ↦ delete_and_move p s3
          | http_server ↦ do
            s4 ← in_client p (set_events input_events) s3
            s5 ← in_clients c.list_handling_event (set_events all_events) s4
            stays p s5
        ])
        else stays p s3

  -- POLLOUT.
  unfoldable pub handle_output : Bytes → ℕ → Client → Thread → Option (Outcome × Thread)
  unfolding send_turn in_client buffer_at in_buffer
  handle_output buffer p c s = do
    let s0 = put_client p (some (set_revents_zero c)) s
    (ready, s1) ← in_buffer p is_ready_to_send s0
    if ready
        then (do
          b ← buffer_at p s1
          if is_turn c.type_client b then send_turn buffer p c s1 else stays p s1)
        else (do s2 ← in_client p (set_events hang_up_only) s1; stays p s2)

  -- What follows the reading.
  unfoldable pub handle_rest : Bytes → ℕ → Thread → Option (Outcome × Thread)
  unfolding is_over handle_output in_buffer deref delete_client
  handle_rest buffer p s = do
    c ← deref s.clients p
    (over, s1) ← in_buffer p (is_over c.type_client) s
    if over
        then delete_and_move p s1
        else (if c.revents.pollout then handle_output buffer p c s1 else stays p s1)

module _ (os : Platform) (wraps : Bool) where
  -- The ParseException is caught, and what stands behind the read is not done then.
  unfoldable pub handle_bytes : Visit → Bytes → ℕ → Thread → Option (Outcome × Thread)
  unfolding after_read handle_rest buffer_at in_buffer
  handle_bytes v bytes p s = do
    (completion, s1) ← in_buffer p (read_from_socket os bytes) s
    (served, s2) ← elim completion [
      | parse_exception ↦ some (false, s1)
      | returned ↦ after_read p s1
    ]
    if served then some (serves, s2) else (do
      b ← buffer_at p s2
      if b.is_ready_connect_http_server
          then (do
            (failed, s3) ← connect_http_server wraps v.network p s2
            if failed then some (exits, s3) else handle_rest wraps bytes p s3)
          else handle_rest wraps bytes p s2)

  -- POLLIN. The string is empty at the end of the stream.
  unfoldable pub handle_input : Visit → ℕ → Client → Thread → Option (Outcome × Thread)
  unfolding handle_bytes read_buf delete_client
  handle_input v p c s =
      let s0 : Thread = put_client p (some (set_revents_zero c)) s in
      let (success, bytes) = read_buf v.received [] in
      if success
      then (elim bytes [
        | [] ↦ delete_and_move wraps p s0
        | ◌∷◌ x xs ↦ handle_bytes v (x ∷ xs) p s0
      ])
      else stays p s0

  unfoldable pub handle_client : Visit → ℕ → Thread → Option (Outcome × Thread)
  unfolding handle_input handle_rest deref delete_client
  handle_client v p s = do
    c ← deref s.clients p
    if c.revents.pollrdhup
        then delete_and_move wraps p s
        else (if c.revents.pollin then handle_input v p c s else handle_rest wraps [] p s)
