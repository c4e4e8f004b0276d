-- ===== src/Lab32v2/Polling/TestData.antt =====
-- Data for the tests of the poll loop: sockets, and the reads of a request.
use operating_systems_labs.Base.{
  ◌≡◌, refl, true, false, List, some, [], ◌∷◌, ◌++◌, Bytes, codes, length, find, starts_with, pos,
  to_int, add_int, bytes_eq, ◌+ℤ◌,
}
use operating_systems_labs.Lab32v2.Parser.{
  ResultParseHeading, get_request, parsing_heading, find_end_heading, substr, after, span,
  port_group, host_char,
}
use operating_systems_labs.Lab32v2.Cash.Element.{CashElement}
use operating_systems_labs.Lab32v2.Cash.{Cash, is_element_in_cash, find_response_in_cash}
use operating_systems_labs.Lab32v2.Buffer.{World, start, returned, read_from_socket, read_response}
use operating_systems_labs.Lab32v2.Client.{Events, no_events, all_events, input_events}
use operating_systems_labs.Lab32v2.Polling.{Visit, Network, Round}
use operating_systems_labs.Lab32v2.Polling.Shapes.{Socket}
use operating_systems_labs.Lab32v2.Polling.Connecting.{connected}
use operating_systems_labs.Lab32v2.TestData.{test_os, empty_cash, element_a}

abbrev pub line_end : Bytes
line_end = 13 ∷ 10 ∷ []

abbrev pub request : Bytes
request = codes "GET /" ++ (line_end ++ (codes "Host: a" ++ (line_end ++ line_end)))

abbrev pub parsed : ResultParseHeading
parsed = record {
  host_name = codes "a";
  content_length = pos 0;
  type = get_request;
  response_with_error = false;
  port = pos 80;
  have_content_length = false;
}

-- A user of which nothing has been read, and what a read of the request makes of its buffer.
abbrev pub user_begins : World
user_begins = record {
  buffer = record start { is_client_connect = true };
  cash = empty_cash;
  signalled = [];
}

abbrev pub user_asks : World
user_asks = record user_begins {
  buffer = record start {
    is_client_connect = true;
    request_heading = request;
    buf = request;
    is_ready_to_send = true;
    is_end_send = true;
    is_ready_connect_http_server = true;
    result_parse_heading = some parsed;
  };
}

abbrev pub asks_again : World
asks_again = record user_begins {
  buffer = record (connected user_asks).buffer {
    buf = request ++ line_end;
    is_ready_connect_http_server = true;
  };
}

pub reads_request : read_from_socket test_os request user_begins ≡ some (returned, user_asks)
unfolding read_from_socket find_end_heading find starts_with to_int parsing_heading substr add_int
    after is_element_in_cash bytes_eq span port_group host_char
reads_request = refl

pub reads_more :
    read_from_socket test_os line_end (connected user_asks) ≡ some (returned, asks_again)
unfolding read_from_socket find_end_heading find starts_with to_int parsing_heading substr add_int
    after is_element_in_cash bytes_eq span port_group host_char
reads_more = refl

-- The response to the request, and a world in whose cache it stands. Its HTTP server has left.
abbrev pub response : CashElement
response = record element_a {
  is_server_connected = false;
  hash_request_heading = length request;
  request_heading = request;
}

abbrev pub filled_cash : Cash
filled_cash = record {
  mutex = 0;
  list_cash = 0 ∷ [];
  byte_in_cash = pos 9;
  elements = response ∷ [];
}

abbrev pub user_of_cache : World
user_of_cache = record user_begins { cash = filled_cash }

abbrev pub read_response_element : CashElement
read_response_element = record response { count_connected_users = pos 1 }

abbrev pub user_reads : World
user_reads = record user_of_cache {
  buffer = record start {
    is_client_connect = true;
    request_heading = request;
    status_client = read_response;
    is_data_get_cash = true;
    cash_element = some 0;
    result_parse_heading = some parsed;
  };
  cash = record filled_cash { elements = read_response_element ∷ [] };
}

pub reads_cached : read_from_socket test_os request user_of_cache ≡ some (returned, user_reads)
unfolding read_from_socket find_end_heading find starts_with to_int parsing_heading substr add_int
    after is_element_in_cash bytes_eq span port_group host_char find_response_in_cash ◌+ℤ◌
reads_cached = refl

abbrev pub network : Network
network = record {
  host_address = λ host. some host;
  socket_fd = pos 9;
  connect_code = λ address port. pos 0;
}

abbrev pub visit_with : Bytes → Visit
visit_with bytes = record { received = some bytes; network = network }

abbrev pub input_only : Events
input_only = record { pollin = true; pollout = false; pollrdhup = false }

abbrev pub user_socket : Socket
user_socket = record { fd = pos 4; events = input_events; revents = no_events }

abbrev pub server_socket : Socket
server_socket = record { fd = pos 9; events = all_events; revents = no_events }

-- A round in which there is input from one client, or, with no answer, from none.
abbrev pub round_with : List Events → List Visit → Round
round_with answers visits = record {
  code = pos 1;
  answers = answers;
  visits = visits;
  locks = true;
  unlocks = true;
  cond = 5;
  turns = record { waits = []; writes = some 524287 ∷ [] } ∷ [];
}
