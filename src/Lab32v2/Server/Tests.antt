-- ===== src/Lab32v2/Server/Tests.antt =====
-- Examples for the accept loop of lab32v2.
use operating_systems_labs.Base.{◌≡◌, refl, List, [], ◌∷◌, ℤ, pos, negsuc}
use operating_systems_labs.Lab32v2.Server.{Opening, Accept, uncaught, run_main, connect_socket}
use operating_systems_labs.Lab32v2.Server.Accepting.{
  IsAccepted, accepted, created, run_main-until_failure,
}

abbrev opening : Opening
opening = record {
  sock_fd = pos 3;
  reuse_addr = pos 0;
  reuse_port = pos 0;
  bind_code = pos 0;
  listen_code = pos 0;
}

abbrev accept_of : ℤ → ℤ → Accept
accept_of sock code = record { client_sock = sock; create_code = code; detach_code = pos 0 }

abbrev last_accepts : List Accept
last_accepts = accept_of (negsuc 0) (pos 0) ∷ accept_of (pos 7) (pos 0) ∷ []

-- Of two clients the second gets no thread.
run_main-until_failure_example :
    run_main opening (accept_of (pos 4) (pos 0) ∷ accept_of (pos 5) (pos 11) ∷ last_accepts)
    ≡ (uncaught, record { list_fd = pos 5 ∷ pos 4 ∷ []; threads = pos 4 ∷ [] })
unfolding connect_socket IsAccepted accepted created
run_main-until_failure_example =
    run_main-until_failure opening (accept_of (pos 4) (pos 0) ∷ accept_of (pos 5) (pos 11) ∷ [])
      (accept_of (pos 7) (pos 0) ∷ []) (accept_of (negsuc 0) (pos 0)) (refl, (refl, tt)) refl
