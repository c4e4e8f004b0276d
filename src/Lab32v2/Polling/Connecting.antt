-- ===== src/Lab32v2/Polling/Connecting.antt =====
-- lab32v2: a request that is not in the cache, and the connection to its HTTP server.
use operating_systems_labs.Base.{
  ℕ, ◌≡◌, refl, Bool, true, false, Option, none, some, List, [], ◌∷◌, Bytes, ℤ, arith,
}
use operating_systems_labs.Lab32v2.Cash.Element.{Platform}
use operating_systems_labs.Lab32v2.Parser.{ResultParseHeading}
use operating_systems_labs.Lab32v2.Buffer.{
  StatusHttp, write_request_heading, write_request_body, read_request, Buffer, World, returned,
  read_from_socket,
}
use operating_systems_labs.Lab32v2.Client.{Events, all_events, no_events}
use operating_systems_labs.Lab32v2.Polling.{
  Thread, connect_to_client, Visit, passed, thread_ends, handling_event, handle_client, Pass,
  connect_http_server, with_connection,
}
use operating_systems_labs.Lab32v2.Polling.Shapes.{Socket, alone, paired, freed}
use operating_systems_labs.Lab32v2.Polling.Leaving.{World_subst}
use operating_systems_labs.Lab32v2.Polling.Rounds.{HasInput, after_input}

-- The status of the client while the request is read, by whether a body follows the heading.
abbrev pub request_status : Bool → StatusHttp
request_status true = write_request_body
request_status false = write_request_heading

-- A read after which the buffer asks for the HTTP server that the request names.
pub record Asks (os : Platform) (bytes : Bytes) (w w1 : World) (r : ResultParseHeading)
    : Type 0 where
  pub reads : read_from_socket os bytes w ≡ some (returned, w1)
  pub asks : w1.buffer.is_ready_connect_http_server ≡ true
  pub parsed : w1.buffer.result_parse_heading ≡ some r
  pub cached : w1.buffer.is_data_get_cash ≡ false
  pub requests : w1.buffer.status_http_server ≡ read_request
  pub has_body : Bool
  pub status : w1.buffer.status_client ≡ request_status has_body

abbrev pub asking : Bool → ResultParseHeading → Buffer → Buffer
asking has_body r b = record b {
  status_client = request_status has_body;
  status_http_server = read_request;
  is_data_get_cash = false;
  is_ready_connect_http_server = true;
  result_parse_heading = some r;
}

abbrev pub unserved_by : Buffer → Buffer
unserved_by b = record b { is_server_connect = false }

pub Asks-unserved :
    (os : Platform) (bytes : Bytes) (w w1 : World) (r : ResultParseHeading)
    (a : Asks os bytes w w1 r)
    → w1.buffer.is_server_connect ≡ false
    → w1.buffer ≡ unserved_by (asking a.has_body r w1.buffer)
Asks-unserved os bytes w w1 r a e = ground (arith, a.asks, a.parsed, a.cached, a.requests, a.status)

-- The world once the connection has been made.
abbrev pub connected : World → World
connected w = record w {
  buffer = record w.buffer { is_ready_connect_http_server = false; is_server_connect = true };
}

abbrev pub new_server : ℤ → Socket
new_server fd = record { fd = fd; events = all_events; revents = no_events }

-- What handlingEvent comes to, by the connection.
abbrev pub connecting : List (ℤ × Bytes) → Socket → Option ℤ → World → Option (Pass × Thread)
connecting written u none w = some (thread_ends, freed w written (none ∷ []))
connecting written u (some sock) w =
    some (passed, paired (connected w) written (after_input u) (new_server sock))

-- What `connect_http_server` comes to.
abbrev connection : List (ℤ × Bytes) → Socket → Option ℤ → World → Option (Bool × Thread)
connection written u none w = some (true, freed w written (none ∷ []))
connection written u (some sock) w = some (false, paired (connected w) written u (new_server sock))

module _ (os : Platform) (wraps : Bool) (w w1 : World) (written : List (ℤ × Bytes))
    (r : ResultParseHeading) (x : ℕ) (xs : Bytes) (v : Visit) (vs : List Visit) where
  connects :
      (has_body : Bool) (u : Socket) (sock : Option ℤ)
      → connect_to_client v.network r.host_name r.port ≡ sock
      → let y : World = record w1 { buffer = unserved_by (asking has_body r w1.buffer) } in
        connect_http_server wraps v.network 0 (alone y written u) ≡ connection written u sock y
  unfolding connect_http_server with_connection
  connects has_body u none c = rw c refl
  connects has_body u (some sock) c = rw c refl

  -- A user alone whose request asks for its HTTP server: if the connection can be made, the handler has
  -- the user and a new client of the HTTP server in front of it, each pointing to the other, which
  -- share the buffer, and the buffer is told so; if not, the user's client and the buffer are deleted
  -- and the thread ends.
  pub handling_event-connects :
      (u : Socket)
      → v.received ≡ some (x ∷ xs)
      → HasInput u.revents
      → w1.buffer.is_server_connect ≡ false
      → Asks os (x ∷ xs) w w1 r
      → handling_event os wraps (v ∷ vs) (alone w written u)
        ≡ connecting written u (connect_to_client v.network r.host_name r.port) w1
  unfolding handling_event handle_client
  handling_event-connects u received input unserved a =
      World_subst
        (λ (y : World).
          read_from_socket os (x ∷ xs) w ≡ some (returned, y)
          → handling_event os wraps (v ∷ vs) (alone w written u)
            ≡ connecting written u (connect_to_client v.network r.host_name r.port) y)
        (unserved_by (asking a.has_body r w1.buffer)) w1
        (Asks-unserved os (x ∷ xs) w w1 r a unserved)
        (λ reads.
          visit u.fd u.events u.revents.pollin u.revents.pollout u.revents.pollrdhup v.received
            (connect_to_client v.network r.host_name r.port) refl a.has_body received input.input
            input.stays reads)
        a.reads
    where
      visit :
          (fd : ℤ) (events : Events) (i o hup : Bool) (received : Option Bytes) (sock : Option ℤ)
          → connect_to_client v.network r.host_name r.port ≡ sock
          → (has_body : Bool) → received ≡ some (x ∷ xs)
          → i ≡ true
          → hup ≡ false
          → let u : Socket = record {
            fd = fd;
            events = events;
            revents = record { pollin = i; pollout = o; pollrdhup = hup };
          } in
            let y : World = record w1 { buffer = unserved_by (asking has_body r w1.buffer) } in
            read_from_socket os (x ∷ xs) w ≡ some (returned, y)
            → handling_event os wraps
                (record { received = received; network = v.network } ∷ vs)
                (alone w written u)
              ≡ connecting written u sock y
      visit fd events i o hup received none c true e1 e2 e3 reads =
          rw (e1, e2, e3, reads)
            (rw (connects true (record { fd = fd; events = events; revents = no_events }) none c)
              refl)
      visit fd events i o hup received (some n) c true e1 e2 e3 reads =
          rw (e1, e2, e3, reads)
            (rw
              (connects true (record { fd = fd; events = events; revents = no_events }) (some n) c)
              refl)
      visit fd events i o hup received none c false e1 e2 e3 reads =
          rw (e1, e2, e3, reads)
            (rw (connects false (record { fd = fd; events = events; revents = no_events }) none c)
              refl)
      visit fd events i o hup received (some n) c false e1 e2 e3 reads =
          rw (e1, e2, e3, reads)
            (rw
              (connects false (record { fd = fd; events = events; revents = no_events }) (some n) c)
              refl)
