-- ===== src/Lab32v2/Server/Accepting.antt =====
-- Which clients the accept loop of lab32v2 gives a thread, and how the program ends.
use operating_systems_labs.Base.{
  ◌≡◌, refl, sym, ap, ◌∙◌, Bool, true, false, List, [], ◌∷◌, ◌++◌, append_assoc, append-nil,
  if◌then◌else◌, ℤ, pos, eqb_ℤ, ltb_ℤ, All,
}
use operating_systems_labs.Lab32v2.Server.{
  Opening, Opened, opened, refused, run_opened, connect_socket, Accept, Started, start_thread, Exit,
  uncaught, start_server, run_main,
}

-- What `accept` has given.
unfoldable pub IsAccepted : Accept → Type 0
IsAccepted a = ltb_ℤ a.client_sock (pos 0) ≡ false

-- The sockets of the clients whose threads could be created.
unfoldable pub created : List Accept → List ℤ
created [] = []
created (a ∷ accepts) =
    let rest = created accepts in if eqb_ℤ a.create_code (pos 0) then a.client_sock ∷ rest else rest

-- All accepted sockets, the last first.
unfoldable pub accepted : List Accept → List ℤ
accepted [] = []
accepted (a ∷ accepts) = accepted accepts ++ a.client_sock ∷ []

abbrev started_after : List Accept → Started → Started
started_after accepts s = record {
  list_fd = accepted accepts ++ s.list_fd;
  threads = s.threads ++ created accepts;
}

start_server-step :
    (a : Accept) (accepts : List Accept) (s : Started)
    → IsAccepted a
    → start_server (a ∷ accepts) s ≡ start_server accepts (start_thread a a.client_sock s)
unfolding start_server IsAccepted
start_server-step a accepts s h = rw (h, start_server) refl

start_thread-started_after :
    (a : Accept) (accepts : List Accept) (s : Started)
    → started_after accepts (start_thread a a.client_sock s) ≡ started_after (a ∷ accepts) s
unfolding start_thread created accepted
start_thread-started_after a accepts s =
    threaded (eqb_ℤ a.create_code (pos 0)) a.client_sock (accepted accepts) (created accepts)
      s.list_fd s.threads
  where
    threaded :
        (b : Bool) (sock : ℤ) (front rest back threads : List ℤ)
        → let t : Started =
            (if b
              then record { list_fd = sock ∷ back; threads = threads ++ sock ∷ [] }
              else record { list_fd = sock ∷ back; threads = threads }) in
          ◌≡◌ {A = Started}
            (record { list_fd = front ++ t.list_fd; threads = t.threads ++ rest })
            (record {
              list_fd = (front ++ sock ∷ []) ++ back;
              threads = threads ++ (if b then sock ∷ rest else rest);
            })
    threaded true sock front rest back threads = simp append_assoc
    threaded false sock front rest back threads = simp append_assoc

start_server-accepted :
    (accepts rest : List Accept) (s : Started)
    → All IsAccepted accepts
    → start_server (accepts ++ rest) s ≡ start_server rest (started_after accepts s)
unfolding created accepted
start_server-accepted [] rest s h =
    ap (λ (l : List ℤ). start_server rest (record s { threads = l })) (sym (append-nil s.threads))
start_server-accepted (a ∷ accepts) rest s h =
    start_server-step a (accepts ++ rest) s h.0
    ∙ start_server-accepted accepts rest (start_thread a a.client_sock s) h.1
    ∙ ap (start_server rest) (start_thread-started_after a accepts s)

start_server-failed :
    (a : Accept) (accepts : List Accept) (s : Started)
    → ltb_ℤ a.client_sock (pos 0) ≡ true
    → start_server (a ∷ accepts) s ≡ (uncaught, s)
unfolding start_server
start_server-failed a accepts s h = rw (h, start_server) refl

-- The threads that the program has started, and how it ends.
abbrev pub ended_after : Opened → List Accept → Exit × Started
ended_after (opened fd) accepts =
    (uncaught, record { list_fd = accepted accepts; threads = created accepts })
ended_after (refused call fd) accepts = (uncaught, record { list_fd = []; threads = [] })

-- Up to the first `accept` that fails, if the server's socket could be opened, each accepted socket is
-- kept in the list, and each whose thread could be created has one, in the order of the calls; that
-- first failure ends the program, however many clients are being served. If the socket could not be
-- opened, the program ends at once.
pub run_main-until_failure :
    (o : Opening) (accepts rest : List Accept) (last : Accept)
    → All IsAccepted accepts
    → ltb_ℤ last.client_sock (pos 0) ≡ true
    → run_main o (accepts ++ last ∷ rest) ≡ ended_after (connect_socket o) accepts
unfolding run_main
run_main-until_failure o accepts rest last good failed = by_socket (connect_socket o)
  where
    by_socket :
        (opening : Opened)
        → run_opened opening (accepts ++ last ∷ rest) ≡ ended_after opening accepts
    by_socket (opened fd) =
        start_server-accepted accepts (last ∷ rest) (record { list_fd = []; threads = [] }) good
        ∙ start_server-failed last rest _ failed
        ∙ ap (λ (l : List ℤ). (uncaught, record { list_fd = l; threads = created accepts }))
            (append-nil (accepted accepts))
    by_socket (refused call fd) = refl
