-- ===== src/Lab32/ThreadContext/Rounds.antt =====
-- How the routine of a client's thread ends.
use operating_systems_labs.Base.{
  ◌⊎◌, All, map, ◌≡◌, refl, ◌∙◌, ◌≢◌, inl, inr, true, false, List, [], ◌∷◌, ℤ, pos, eqb_ℤ, leb_ℤ,
  Bool-cases,
}
use operating_systems_labs.Lab32.Constants.{correct_code}
use operating_systems_labs.Lab32.CashContext.{CashContext}
use operating_systems_labs.Lab32.CashContext.History.{add_all}
use operating_systems_labs.Lab32.ThreadContext.{
  byte_count, read_bytes, Call, close_socket, read_socket, Outcome, returned, parse_exception,
  blocked, Handled, handle_request,
}
use operating_systems_labs.Lab32.ThreadContext.Routines.{
  Finish, ended, terminated, waiting, Routine, after_request, Round, start_routine,
}
use operating_systems_labs.Lab32.ThreadContext.Progress.{HasStop, handle_request-answers}
use operating_systems_labs.Lab32.ThreadContext.Sockets.{
  Sockets, idle, client_closed, run_calls, run_calls-append, run_close_idle, run_read_idle,
  handle_request-sockets,
}

module _ (client_fd : ℤ) where
  -- The sockets that the routine leaves open, by how it stands.
  Left : Routine → Type 0
  Left r =
      (r.finish ≡ ended → run_calls client_fd r.calls idle ≡ client_closed)
      × (r.finish ≡ terminated → run_calls client_fd r.calls idle ≡ idle)

  handled_in : CashContext → Round → Handled
  handled_in cash round =
      handle_request round.answers (add_all round.earlier cash) client_fd (read_bytes round.request)

  abbrev rest_of : List Round → CashContext → Round → Routine
  rest_of rounds cash round = start_routine client_fd rounds (handled_in cash round).cash

  routine-disconnect :
      (round : Round) (rounds : List Round) (cash : CashContext)
      → leb_ℤ (byte_count round.request) (pos 0) ≡ true
      → start_routine client_fd (round ∷ rounds) cash ≡ record {
        finish = ended;
        cash = add_all round.earlier cash;
        calls = read_socket client_fd ∷ close_socket client_fd ∷ [];
      }
  unfolding start_routine
  routine-disconnect round rounds cash h = rw h refl

  routine-request :
      (round : Round) (rounds : List Round) (cash : CashContext)
      → leb_ℤ (byte_count round.request) (pos 0) ≡ false
      → start_routine client_fd (round ∷ rounds) cash
        ≡ after_request client_fd
            (handled_in cash round).outcome
            (rest_of rounds cash round)
            (handled_in cash round).cash
            (read_socket client_fd ∷ (handled_in cash round).calls)
  unfolding start_routine handled_in
  routine-request round rounds cash h = rw h refl

  Left-after :
      (outcome : Outcome) (rest : Routine) (cash : CashContext) (calls : List Call)
      → (outcome ≢ blocked → run_calls client_fd calls idle ≡ idle)
      → Left rest
      → Left (after_request client_fd outcome rest cash calls)
  unfolding Left after_request
  Left-after (returned code) rest cash calls h left = elim (Bool-cases (eqb_ℤ code correct_code)) [
    | inl e ↦ rw e (
      λ f. run_calls-append client_fd calls rest.calls idle ∙ rw (h (λ b. cc)) (left.0 f),
      λ f. run_calls-append client_fd calls rest.calls idle ∙ rw (h (λ b. cc)) (left.1 f),
    )
    | inr e ↦ rw e (
      λ f.
          run_calls-append client_fd calls (close_socket client_fd ∷ []) idle
          ∙ rw (h (λ b. cc)) (run_close_idle client_fd),
      λ f. cc,
    )
  ]
  Left-after parse_exception rest cash calls h left = (λ f. cc, λ f. h (λ b. cc))
  Left-after blocked rest cash calls h left = (λ f. cc, λ f. cc)

  start_routine-Left :
      (rounds : List Round) (cash : CashContext) → Left (start_routine client_fd rounds cash)
  unfolding Left start_routine run_calls handled_in
  start_routine-Left [] cash = (λ f. cc, λ f. cc)
  start_routine-Left (round ∷ rounds) cash =
      elim (Bool-cases (leb_ℤ (byte_count round.request) (pos 0))) [
        | inl e ↦ rw (routine-disconnect round rounds cash e) (
          λ f. run_read_idle client_fd (close_socket client_fd ∷ []) ∙ run_close_idle client_fd,
          λ f. cc,
        )
        | inr e ↦ rw (routine-request round rounds cash e) (
            Left-after (handled_in cash round).outcome (rest_of rounds cash round)
              (handled_in cash round).cash (read_socket client_fd ∷ (handled_in cash round).calls)
              (λ b.
                run_read_idle client_fd (handled_in cash round).calls
                ∙ handle_request-sockets client_fd round.answers (add_all round.earlier cash)
                    (read_bytes round.request) b)
              (start_routine-Left rounds (handled_in cash round).cash))
      ]

Finish-cases : (f : Finish) → (f ≡ ended) ⊎ ((f ≡ terminated) ⊎ (f ≡ waiting))
Finish-cases ended = inl refl
Finish-cases terminated = inr (inl refl)
Finish-cases waiting = inr (inr refl)

-- The sockets that a thread leaves open when it is not waiting.
unfoldable pub left_by : Finish → Sockets
left_by ended = client_closed
left_by _ = idle

-- When the routine of a thread has ended, its calls have kept to the rule for sockets and the client's
-- socket is closed, exactly once and last; when an exception has ended the process, the client's socket
-- is the one that is still open.
pub start_routine-sockets :
    (client_fd : ℤ) (rounds : List Round) (cash : CashContext)
    → (start_routine client_fd rounds cash).finish ≢ waiting
    → run_calls client_fd (start_routine client_fd rounds cash).calls idle
      ≡ left_by (start_routine client_fd rounds cash).finish
unfolding Left left_by
start_routine-sockets client_fd rounds cash h =
    let routine : Routine = start_routine client_fd rounds cash in
    let left : Left client_fd routine = start_routine-Left client_fd rounds cash in
    elim (Finish-cases routine.finish) [
      | inl e ↦ rw e (left.0 e)
      | inr (inl e) ↦ rw e (left.1 e)
      | inr (inr e) ↦ absurd (h e)
    ]

after_request-answers :
    (client_fd : ℤ) (outcome : Outcome) (rest : Routine) (cash : CashContext) (calls : List Call)
    → outcome ≢ blocked
    → rest.finish ≢ waiting
    → (after_request client_fd outcome rest cash calls).finish ≢ waiting
unfolding after_request
after_request-answers client_fd (returned code) rest cash calls h left =
    elim (Bool-cases (eqb_ℤ code correct_code)) [ inl e ↦ rw e left | inr e ↦ rw e (λ f. cc) ]
after_request-answers client_fd parse_exception rest cash calls h left = λ f. cc
after_request-answers client_fd blocked rest cash calls h left = absurd (h refl)

-- The routine of a thread ends, or the process does, when the client's stream ends or fails at some
-- time and so does the stream of the server in each exchange.
pub start_routine-finishes :
    (client_fd : ℤ) (rounds : List Round) (cash : CashContext)
    → All (λ round. HasStop round.answers.reads) rounds
    → HasStop (map (λ round. round.request) rounds)
    → (start_routine client_fd rounds cash).finish ≢ waiting
unfolding handled_in HasStop
start_routine-finishes client_fd [] cash servers (stop, at, stops) = elim at [ ]
start_routine-finishes client_fd (round ∷ rounds) cash servers (stop, at, stops) =
    elim (Bool-cases (leb_ℤ (byte_count round.request) (pos 0))) [
      | inl e ↦ rw (routine-disconnect client_fd round rounds cash e) (λ f. cc)
      | inr e ↦ elim at [
        | inl here ↦ absurd (cc)
        | inr later ↦
            let found : CashContext = add_all round.earlier cash in
            rw (routine-request client_fd round rounds cash e) (
              after_request-answers client_fd (handled_in client_fd cash round).outcome
                (rest_of client_fd rounds cash round) (handled_in client_fd cash round).cash
                (read_socket client_fd ∷ (handled_in client_fd cash round).calls)
                (handle_request-answers round.answers found client_fd (read_bytes round.request)
                  servers.0)
                (start_routine-finishes client_fd rounds (handled_in client_fd cash round).cash
                  servers.1 (stop, later, stops)))
      ]
    ]
