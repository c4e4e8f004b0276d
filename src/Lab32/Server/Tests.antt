-- ===== src/Lab32/Server/Tests.antt =====
-- Examples for the accept loop of lab32.
use operating_systems_labs.Base.{
  ◌≡◌, refl, true, false, List, [], ◌∷◌, ◌++◌, Bytes, bytes_eq, codes, pos, negsuc, ℤ,
  if◌then◌else◌,
}
use operating_systems_labs.Lab32.Context.{Context}
use operating_systems_labs.Lab32.Server.{
  ServerRound, uncaught, stopped, running, start_server, leaves,
}
use operating_systems_labs.Lab32.Cleaner.{happen_all}
use operating_systems_labs.Lab32.Server.Exits.{
  Calm, quits, any_quits, until_quit, accepted_all, start_server-Calm, start_server-uncaught,
}

abbrev empty : Context
empty = record { thread_map = [] }

-- A client whose socket, or -1, is the first argument; the second is the word on the standard input.
abbrev round : ℤ → Bytes → ServerRound
round client_sock word = record {
  events = [];
  socket_code = pos 1;
  socket_ready = true;
  client_sock = client_sock;
  create_code = pos 0;
  tid = 7;
  stdin_code = pos 1;
  stdin_ready = true;
  word = word;
}

abbrev clients : List ServerRound
clients = round (pos 4) (codes "x") ∷ round (pos 5) (codes "q") ∷ []

start_server-Calm_example : start_server clients true true empty ≡ (
    if any_quits clients
    then leaves stopped (until_quit clients empty) false
    else leaves running (accepted_all clients empty) true)
unfolding Calm
start_server-Calm_example =
    start_server-Calm clients true empty ((refl, refl, refl), ((refl, refl, refl), tt))

start_server-uncaught_example :
    start_server ((round (pos 4) (codes "x") ∷ []) ++ round (negsuc 0) [] ∷ []) true true empty
    ≡ leaves uncaught (accepted_all (round (pos 4) (codes "x") ∷ []) empty) true
unfolding Calm any_quits quits bytes_eq happen_all
start_server-uncaught_example =
    start_server-uncaught (round (pos 4) (codes "x") ∷ []) (round (negsuc 0) []) [] true empty
      ((refl, refl, refl), tt) refl refl refl refl
