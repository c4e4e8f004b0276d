-- ===== src/Lab32v2/Polling/Overflow.antt =====
-- lab32v2: a second connection for one user, and the poll set of two elements.
use operating_systems_labs.Base.{
  ℕ, ◌≡◌, refl, ap, ◌∙◌, Bool, true, false, Option, none, some, List, [], ◌∷◌, Bytes, ℤ, negsuc,
  eqb_ℤ, arith,
}
use operating_systems_labs.Lab32v2.Cash.Element.{Platform}
use operating_systems_labs.Lab32v2.Parser.{ResultParseHeading}
use operating_systems_labs.Lab32v2.Buffer.{
  write_request_heading, read_request, Buffer, World, returned, read_from_socket,
}
use operating_systems_labs.Lab32v2.Client.{Events, no_events}
use operating_systems_labs.Lab32v2.Polling.{
  Thread, connect_to_client, Visit, passed, handling_event, handle_client, connect_http_server,
  with_connection, Round, start_handler,
}
use operating_systems_labs.Lab32v2.Polling.Shapes.{Socket, user_of, server_of, paired}
use operating_systems_labs.Lab32v2.Polling.Leaving.{World_subst}
use operating_systems_labs.Lab32v2.Polling.Rounds.{
  answer_to, answered, HasInput, after_input, poll_clients-paired, start_handler-round,
}
use operating_systems_labs.Lab32v2.Polling.Connecting.{Asks, asking, connected, new_server}

-- The request has been read, and nothing of it written to the HTTP server.
pub record IsRequesting (b : Buffer) : Type 0 where
  pub client : b.status_client ≡ write_request_heading
  pub server : b.status_http_server ≡ read_request

abbrev requesting : Buffer → Buffer
requesting b = record b { status_client = write_request_heading; status_http_server = read_request }

abbrev pub quiet : Socket → Socket
quiet h = record h { revents = no_events }

-- The thread with a second HTTP server. The first one still has the user in its list.
abbrev pub crowded : World → List (ℤ × Bytes) → Socket → Socket → ℤ → Thread
crowded w written u h sock = record (paired w written u h) {
  client_list = 2 ∷ 1 ∷ 0 ∷ [];
  clients =
      some (user_of u (some 2))
      ∷ some (server_of h (0 ∷ []))
      ∷ some (server_of (new_server sock) (0 ∷ []))
      ∷ [];
}

module _ (os : Platform) (wraps : Bool) (w w1 : World) (written : List (ℤ × Bytes))
    (r : ResultParseHeading) (x : ℕ) (xs : Bytes) (v1 v2 : Visit) (vs : List Visit) where
  connects_again :
      (has_body : Bool) (u h : Socket) (sock : ℤ)
      → connect_to_client v2.network r.host_name r.port ≡ some sock
      → let y : World = record w1 { buffer = asking has_body r w1.buffer } in
        connect_http_server wraps v2.network 0 (paired y written u h)
        ≡ some (false, crowded (connected y) written u h sock)
  unfolding connect_http_server with_connection
  connects_again has_body u h sock c = rw c refl

  -- Nothing is reported for the HTTP server.
  asks_again :
      (u h : Socket) (sock : ℤ) (a : Asks os (x ∷ xs) w w1 r)
      → IsRequesting w.buffer
      → v2.received ≡ some (x ∷ xs)
      → HasInput u.revents
      → connect_to_client v2.network r.host_name r.port ≡ some sock
      → handling_event os wraps (v1 ∷ v2 ∷ vs) (paired w written u (quiet h))
        ≡ some (passed, crowded (connected w1) written (after_input u) (new_server h.fd) sock)
  unfolding handling_event handle_client
  asks_again u h sock a waits received input c =
      World_subst
        (λ (y : World).
          read_from_socket os (x ∷ xs) w ≡ some (returned, y)
          → handling_event os wraps (v1 ∷ v2 ∷ vs) (paired w written u (quiet h))
            ≡ some (passed, crowded (connected y) written (after_input u) (new_server h.fd) sock))
        (asking a.has_body r w1.buffer) w1
        (ground (arith, a.asks, a.parsed, a.cached, a.requests, a.status))
        (World_subst
          (λ (z : World).
            let y : World = record w1 { buffer = asking a.has_body r w1.buffer } in
            read_from_socket os (x ∷ xs) z ≡ some (returned, y)
            → handling_event os wraps (v1 ∷ v2 ∷ vs) (paired z written u (quiet h))
              ≡ some (passed, crowded (connected y) written (after_input u) (new_server h.fd) sock))
          (requesting w.buffer) w (ground (arith, waits.client, waits.server))
          (λ reads.
            visit u.fd u.events u.revents.pollin u.revents.pollout u.revents.pollrdhup v2.received
              a.has_body received input.input input.stays reads))
        a.reads
    where
      visit :
          (fd : ℤ) (events : Events) (i o hup : Bool) (received : Option Bytes) (has_body : Bool)
          → received ≡ some (x ∷ xs)
          → i ≡ true
          → hup ≡ false
          → let u : Socket = record {
            fd = fd;
            events = events;
            revents = record { pollin = i; pollout = o; pollrdhup = hup };
          } in
            let y : World = record w1 { buffer = asking has_body r w1.buffer } in
            let z : World = record w { buffer = requesting w.buffer } in
            read_from_socket os (x ∷ xs) z ≡ some (returned, y)
            → handling_event os wraps
                (v1 ∷ record { received = received; network = v2.network } ∷ vs)
                (paired z written u (quiet h))
              ≡ some (passed, crowded (connected y) written (after_input u) (new_server h.fd) sock)
      visit fd events i o hup received true e1 e2 e3 reads =
          rw (e3, e2, e1, reads)
            (rw
              (connects_again true (record { fd = fd; events = events; revents = no_events })
                (new_server h.fd) sock c)
              refl)
      visit fd events i o hup received false e1 e2 e3 reads =
          rw (e3, e2, e1, reads)
            (rw
              (connects_again false (record { fd = fd; events = events; revents = no_events })
                (new_server h.fd) sock c)
              refl)

-- The round in which the second connection is made: the first visit, of the HTTP server, finds nothing
-- reported, and the second reads more from the user.
pub record AsksAgain (os : Platform) (r : Round) (u : Socket) (w w1 : World) : Type 0 where
  pub code : eqb_ℤ r.code (negsuc 0) ≡ false
  pub requesting : IsRequesting w.buffer
  pub first : Visit
  pub second : Visit
  pub visits : List Visit
  pub visited : r.visits ≡ first ∷ second ∷ visits
  pub quiet : answer_to r.answers 0 ≡ no_events
  pub input : HasInput (answer_to r.answers 1)
  pub byte : ℕ
  pub bytes : Bytes
  pub received : second.received ≡ some (byte ∷ bytes)
  pub heading : ResultParseHeading
  pub asks : Asks os (byte ∷ bytes) w w1 heading
  pub sock : ℤ
  pub connects : connect_to_client second.network heading.host_name heading.port ≡ some sock

-- A user from whom more is read while the HTTP server has not been written to yet, so that the buffer
-- asks for the HTTP server again: the second connection makes a third client, the poll set of two
-- elements overflows in the next round, and startHandler has no defined result.
pub start_handler-overflow :
    (os : Platform) (wraps : Bool) (r1 r2 : Round) (rounds : List Round) (u h : Socket)
    (w w1 : World) (written : List (ℤ × Bytes))
    → AsksAgain os r1 u w w1
    → start_handler os wraps (r1 ∷ r2 ∷ rounds) (paired w written u h) ≡ none
unfolding start_handler
start_handler-overflow os wraps r1 r2 rounds u h w w1 written a =
    let u1 : Socket = answered r1 1 u in
    let h1 : Socket = quiet h in
    start_handler-round os wraps r1 (r2 ∷ rounds) 1 (0 ∷ []) (paired w written u h)
      (paired w written u1 h1)
      (some (passed, crowded (connected w1) written (after_input u1) (new_server h.fd) a.sock)) refl
      (poll_clients-paired r1 w written u h
        ∙ ap (λ (e : Events). some (paired w written u1 (record h { revents = e }))) a.quiet)
      a.code
      (ap (λ (l : List Visit). handling_event os wraps l (paired w written u1 h1)) a.visited
        ∙ asks_again os wraps w w1 written a.heading a.byte a.bytes a.first a.second a.visits u1 h
            a.sock a.asks a.requesting a.received a.input a.connects)
