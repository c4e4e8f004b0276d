-- ===== src/Lab32v2/Polling/Tests.antt =====
-- Examples for the poll loop of lab32v2.
use operating_systems_labs.Base.{
  ◌-ℤ◌, ◌==◌, if◌then◌else◌, ◌≡◌, refl, inl, arith, true, false, none, some, [], ◌∷◌, drop,
  get_elem?, ℕ, pos,
}
use operating_systems_labs.Lab32v2.Cash.Element.{CashElement, minus_count_users}
use operating_systems_labs.Lab32v2.Buffer.{World, end_work, element_of}
use operating_systems_labs.Lab32v2.Client.{no_events}
use operating_systems_labs.Lab32v2.Handler.Rounds.{Reads}
use operating_systems_labs.Lab32v2.Polling.{
  delete_client, handling_event, start_handler, thread_exits, connect_to_client,
}
use operating_systems_labs.Lab32v2.Polling.Shapes.{alone, paired, orphaned, freed}
use operating_systems_labs.Lab32v2.Polling.Leaving.{
  user_left, ended_world, delete_client-paired, delete_client-orphaned,
}
use operating_systems_labs.Lab32v2.Polling.Serving.{served, without_reader, sent_to}
use operating_systems_labs.Lab32v2.Polling.Cached.{start_handler-from_cash}
use operating_systems_labs.Lab32v2.Polling.Connecting.{
  Asks, connected, connecting, handling_event-connects,
}
use operating_systems_labs.Lab32v2.Polling.Overflow.{start_handler-overflow}
use operating_systems_labs.Lab32v2.Polling.TestData.{
  request, line_end, parsed, user_begins, user_asks, asks_again, reads_request, reads_more,
  user_of_cache, user_reads, read_response_element, reads_cached, visit_with, network, input_only,
  user_socket, server_socket, round_with,
}
use operating_systems_labs.Lab32v2.TestData.{test_os, element_a, downloading}

-- A response that is being cached.
abbrev caching : World
caching = record downloading { buffer = record downloading.buffer { is_server_connect = true } }

delete_client-paired_example :
    delete_client 2 false 0 (paired caching [] user_socket server_socket)
    ≡ some (none, user_left caching [] true server_socket)
delete_client-paired_example =
    delete_client-paired false caching [] user_socket server_socket
      (record { reads = refl; client = refl; server = refl })

abbrev unattended : World
unattended = record caching {
  buffer = record caching.buffer { is_client_connect = false; status_client = end_work };
}

delete_client-orphaned_example :
    delete_client 2 false 1 (orphaned unattended [] server_socket)
    ≡ some (none, freed (ended_world 0 element_a unattended) [] (none ∷ none ∷ []))
delete_client-orphaned_example =
    delete_client-orphaned false unattended [] server_socket 0 element_a
      (record { adds = refl; client = refl; element = refl }) refl

request_Asks : Asks test_os request user_begins user_asks parsed
request_Asks = record {
  reads = reads_request;
  asks = refl;
  parsed = refl;
  cached = refl;
  requests = refl;
  has_body = false;
  status = refl;
}

handling_event-connects_example :
    handling_event test_os false
      (visit_with request ∷ [])
      (alone user_begins [] (record user_socket { revents = input_only }))
    ≡ connecting []
        (record user_socket { revents = input_only })
        (connect_to_client network parsed.host_name parsed.port)
        user_asks
handling_event-connects_example =
    handling_event-connects test_os false user_begins user_asks [] parsed b'G' (drop 1 request)
      (visit_with request) [] (record user_socket { revents = input_only }) refl
      (record { input = refl; stays = refl }) refl request_Asks

more_Asks : Asks test_os line_end (connected user_asks) asks_again parsed
more_Asks = record {
  reads = reads_more;
  asks = refl;
  parsed = refl;
  cached = refl;
  requests = refl;
  has_body = false;
  status = refl;
}

connects_network : connect_to_client network parsed.host_name parsed.port ≡ some (pos 9)
unfolding connect_to_client
connects_network = refl

start_handler-overflow_example :
    start_handler test_os true
      (round_with (no_events ∷ input_only ∷ []) (visit_with [] ∷ visit_with line_end ∷ [])
        ∷ round_with [] []
        ∷ [])
      (paired (connected user_asks) [] user_socket server_socket)
    ≡ none
start_handler-overflow_example =
    start_handler-overflow test_os true
      (round_with (no_events ∷ input_only ∷ []) (visit_with [] ∷ visit_with line_end ∷ []))
      (round_with [] []) [] user_socket server_socket (connected user_asks) asks_again []
      (record {
        code = refl;
        requesting = record { client = refl; server = refl };
        first = visit_with [];
        second = visit_with line_end;
        visits = [];
        visited = refl;
        quiet = refl;
        input = record { input = refl; stays = refl };
        byte = 13;
        bytes = 10 ∷ [];
        received = refl;
        heading = parsed;
        asks = more_Asks;
        sock = pos 9;
        connects = connects_network;
      })

user_reads-Reads : Reads user_reads read_response_element
unfolding element_of
user_reads-Reads = record { cached = refl; stands = refl; within = omega arith; flag = inl refl }

start_handler-from_cash_example :
    (after : World) × (p : ℕ) × (element : CashElement) × (user_reads.buffer.cash_element ≡ some p)
    × (get_elem? after.cash.elements p ≡ some element)
    × ((minus_count_users element).count_connected_users ≡ (
        if read_response_element.mutex_for_subscribers == 0
        then read_response_element.count_connected_users -ℤ pos 1
        else read_response_element.count_connected_users))
    × (start_handler test_os false
          (round_with (input_only ∷ []) (visit_with request ∷ []) ∷ [])
          (alone user_of_cache [] user_socket)
        ≡ some (
          thread_exits,
          served (without_reader p element after) (sent_to user_socket (1 ∷ 2 ∷ 3 ∷ []) []),
        ))
start_handler-from_cash_example =
    start_handler-from_cash test_os false (round_with (input_only ∷ []) (visit_with request ∷ []))
      [] user_socket user_of_cache user_reads read_response_element []
      (record {
        code = refl;
        visit = visit_with request;
        visits = [];
        visited = refl;
        first = b'G';
        rest = drop 1 request;
        received = refl;
        input = record { input = refl; stays = refl };
        found = record { reads = reads_cached; status = refl; cached = refl };
        unserved = refl;
        reads = user_reads-Reads;
        gone = refl;
        locks = refl;
        unlocks = refl;
        turn = record { waits = []; writes = some 524287 ∷ [] };
        turns = [];
        given = refl;
        takes = (((524287, refl, omega arith), tt), tt);
        enough = omega arith;
      })
