-- ===== src/Lab31v2/Server/Tests.antt =====
-- Examples for the server of lab31/v2: a user and an HTTP server that share a buffer.
use operating_systems_labs.Base.{
  ◌≡◌, refl, true, false, none, some, List, [], ◌∷◌, length, pos, negsuc,
}
use operating_systems_labs.Lab31v2.Buffer.{Buffer, new_buffer}
use operating_systems_labs.Lab31v2.Server.{
  user, http_server, Client, Server, new_client, deref, delete_client, Visit, Round, start_server,
  goes_on, handling_event, handle_client, handle_input,
}
use operating_systems_labs.Lab31v2.Server.Releases.{Sides, left_buffer}
use operating_systems_labs.Lab31v2.Server.Sharing.{delete_client-both}
use operating_systems_labs.Lab31v2.Server.Effects.{Live}
use operating_systems_labs.Lab31v2.Server.Lists.{Distinct, IsLinked}
use operating_systems_labs.Lab31v2.Server.Rounds.{start_server-IsLinked}

abbrev shared : Buffer
shared = record new_buffer { is_client_connect = true; is_server_connect = true }

abbrev a_user : Client
a_user = record (new_client (pos 4) user (some 0)) { pollin = true }

abbrev pair : Server
pair = record {
  client_list = 0 ∷ 1 ∷ [];
  clients = some a_user ∷ some (new_client (pos 5) http_server (some 0)) ∷ [];
  buffers = some shared ∷ [];
  cash = record { list_cash = []; byte_in_cash = 0; elements = [] };
  written = [];
}

abbrev visit : Visit
visit = record {
  bytes = [];
  network = record {
    host_address = λ host. none;
    socket_fd = negsuc 0;
    connect_code = λ address port. pos 0;
  };
}

user_Sides : Sides pair 0 user 0 shared
unfolding deref
user_Sides = record {
  client = a_user;
  stands = refl;
  type_client = refl;
  pointer = refl;
  shared = refl;
}

server_Sides : Sides pair 1 http_server 0 shared
unfolding deref
server_Sides = record {
  client = new_client (pos 5) http_server (some 0);
  stands = refl;
  type_client = refl;
  pointer = refl;
  shared = refl;
}

delete_client-both_example :
    (s' : Server) × (s'' : Server) × (delete_client 0 pair ≡ some s')
    × (deref s'.buffers 0 ≡ some (left_buffer user shared))
    × (delete_client 1 s' ≡ some s'')
    × (deref s''.buffers 0 ≡ none)
delete_client-both_example =
    delete_client-both pair 0 1 user 0 shared (λ e. cc) user_Sides server_Sides refl refl refl

-- The user disconnects, and the HTTP server, which stands behind it, is passed over.
abbrev visits : List Visit
visits = visit ∷ visit ∷ []

abbrev server_alone : Server
server_alone = record pair {
  client_list = 1 ∷ [];
  clients = none ∷ some (new_client (pos 5) http_server (some 0)) ∷ [];
  buffers = some (left_buffer user shared) ∷ [];
}

-- The same before the list is put together again.
abbrev left_alone : Server
left_alone = record server_alone { client_list = pair.client_list }

user_left : handling_event length visits pair ≡ some (true, server_alone)
unfolding handling_event handle_client handle_input delete_client deref
user_left = refl

-- The same in a turn of the server's loop, which then accepts a client.
abbrev round : Round
round = record {
  code = pos 1;
  revents = (true, false) ∷ [];
  visits = visits;
  socket_ready = true;
  client_sock = pos 6;
}

abbrev server_and_user : Server
server_and_user = record server_alone {
  client_list = 1 ∷ 2 ∷ [];
  clients =
      none
      ∷ some (new_client (pos 5) http_server (some 0))
      ∷ some (new_client (pos 6) user (some 1))
      ∷ [];
  buffers =
      some (left_buffer user shared) ∷ some (record new_buffer { is_client_connect = true }) ∷ [];
}

turn_done : start_server length (round ∷ []) pair ≡ some (goes_on, server_and_user)
unfolding start_server handle_client handle_input delete_client deref
turn_done = refl

start_server-IsLinked_example : IsLinked server_and_user.clients server_and_user.client_list
unfolding IsLinked Live Distinct
start_server-IsLinked_example =
    start_server-IsLinked length (round ∷ []) pair (goes_on, server_and_user)
      (
        ((a_user, refl), ((new_client (pos 5) http_server (some 0), refl), tt)),
        ((λ e. cc, tt), (tt, tt)),
      )
      turn_done
