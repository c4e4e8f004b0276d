-- ===== src/Lab32v2/Polling/Delivering/Tests.antt =====
-- Examples for the relaying of a response body in lab32v2.
use operating_systems_labs.Base.{◌≡◌, refl, true, none, some, [], ◌∷◌, arith, pos}
use operating_systems_labs.Lab32v2.TestData.{test_os}
use operating_systems_labs.Lab32v2.Polling.{returns, start_handler}
use operating_systems_labs.Lab32v2.Polling.Shapes.{paired, freed}
use operating_systems_labs.Lab32v2.Polling.Relaying.{relaying, from_server, to_user}
use operating_systems_labs.Lab32v2.Polling.Delivering.{start_handler-Relays}
use operating_systems_labs.Lab32v2.Polling.TestData.{
  user_begins, user_socket, server_socket, round_with, visit_with,
}

start_handler-Relays_example :
    start_handler test_os true
      (round_with (from_server ∷ to_user ∷ []) (visit_with (1 ∷ 2 ∷ []) ∷ visit_with [] ∷ [])
        ∷ round_with (from_server ∷ to_user ∷ []) (visit_with (3 ∷ []) ∷ visit_with [] ∷ [])
        ∷ [])
      (paired (relaying 3 user_begins) [] user_socket server_socket)
    ≡ some
        (returns, freed user_begins ((pos 4, 1 ∷ 2 ∷ []) ∷ (pos 4, 3 ∷ []) ∷ []) (none ∷ none ∷ []))
start_handler-Relays_example =
    start_handler-Relays test_os true
      (round_with (from_server ∷ to_user ∷ []) (visit_with (1 ∷ 2 ∷ []) ∷ visit_with [] ∷ [])
        ∷ round_with (from_server ∷ to_user ∷ []) (visit_with (3 ∷ []) ∷ visit_with [] ∷ [])
        ∷ [])
      (1, 2 ∷ []) ((3, []) ∷ []) 3 user_begins [] user_socket server_socket
      (
        record {
          code = refl;
          answers = refl;
          first = visit_with (1 ∷ 2 ∷ []);
          second = visit_with [];
          visits = [];
          visited = refl;
          received = refl;
          small = omega arith;
        },
        omega arith,
        (
          record {
            code = refl;
            answers = refl;
            first = visit_with (3 ∷ []);
            second = visit_with [];
            visits = [];
            visited = refl;
            received = refl;
            small = omega arith;
          },
          omega arith,
        ),
      )
