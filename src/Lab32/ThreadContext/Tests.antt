-- ===== src/Lab32/ThreadContext/Tests.antt =====
-- Examples for the thread of a client in lab32: a client asks twice for what the server at a.b sends in
-- two chunks, and then disconnects.
use operating_systems_labs.Base.{
  ◌≡◌, refl, ◌≢◌, ◌↔◌, ◌⊎◌, inl, inr, some, List, [], ◌∷◌, Bytes, codes, ℕ, pos, ◌≤◌, length,
  Occurs, bytes_eq, find,
}
use operating_systems_labs.Lab32.Constants.{correct_code}
use operating_systems_labs.Lab32.CashContext.{CashContext, contains, find_in_cash, value_of}
use operating_systems_labs.Lab32.CashContext.History.{add_all}
use operating_systems_labs.Lab32.Parser.{parsing_heading}
use operating_systems_labs.Lab32v2.Parser.{host_literal, after}
use operating_systems_labs.Lab32v2.Parser
use operating_systems_labs.Lab32.ThreadContext.{
  received, failed, write_bytes, Answers, returned, parse_exception, handle_request,
  create_http_socket, read_response,
}
use operating_systems_labs.Lab32.ThreadContext.Routines.{ended, waiting, Round, start_routine}
use operating_systems_labs.Lab32.ThreadContext.Sockets.{run_calls, idle, handle_request-sockets}
use operating_systems_labs.Lab32.ThreadContext.Progress.{HasStop}
use operating_systems_labs.Lab32.ThreadContext.Rounds.{
  left_by, start_routine-sockets, start_routine-finishes,
}
use operating_systems_labs.Lab32.ThreadContext.Caching.{last_written, handle_request-twice}
use operating_systems_labs.Lab32.ThreadContext.Exceptions.{handle_request-exception_iff}

abbrev request : Bytes
request = codes "GET / Host: a.b:80"

abbrev answers : Answers
answers = record {
  find_lock_code = pos 0;
  host_address = λ host. some (127 ∷ 0 ∷ 0 ∷ 1 ∷ []);
  socket_fd = pos 7;
  connect_code = pos 0;
  request_write_code = pos 18;
  reads = received (codes "ab") ∷ received (codes "c") ∷ failed ∷ [];
  additions = [];
  add_lock_code = pos 0;
  response_write_code = pos 3;
}

abbrev empty : CashContext
empty = record { request_response = [] }

done : (handle_request answers empty (pos 4) request).outcome ≡ returned correct_code
unfolding handle_request find_in_cash contains value_of parsing_heading create_http_socket
    read_response Parser.parsing_heading after find
done = refl

handle_request-sockets_example :
    run_calls (pos 4) (handle_request answers empty (pos 4) request).calls idle ≡ idle
unfolding handle_request find_in_cash contains value_of parsing_heading create_http_socket
    read_response Parser.parsing_heading after find
handle_request-sockets_example = handle_request-sockets (pos 4) answers empty request (λ b. cc)

handle_request-exception_iff_example :
    ((handle_request answers empty (pos 4) (codes "hi")).outcome ≡ parse_exception) ↔ (
      (find_in_cash (pos 0) empty (codes "hi") ≡ [])
      × ((length (codes "hi") ≤ 3) ⊎ ((k : ℕ) → ¬ Occurs host_literal (codes "hi") k)))
handle_request-exception_iff_example =
    handle_request-exception_iff answers empty (pos 4) (codes "hi")

throws : (handle_request answers empty (pos 4) (codes "hi")).outcome ≡ parse_exception
unfolding handle_request find_in_cash contains parsing_heading Parser.parsing_heading
throws = refl

handle_request-twice_example :
    (handle_request answers
      (handle_request answers empty (pos 4) request).cash
      (pos 5)
      request).calls
    ≡ write_bytes (pos 5) (last_written (handle_request answers empty (pos 4) request).calls) ∷ []
unfolding handle_request find_in_cash contains value_of parsing_heading create_http_socket
    read_response Parser.parsing_heading after find add_all last_written
handle_request-twice_example =
    handle_request-twice answers answers empty (pos 4) (pos 5) request [] refl refl refl refl refl
      refl

abbrev rounds : List Round
rounds =
    record { request = received request; earlier = []; answers = answers }
    ∷ record { request = received request; earlier = []; answers = answers }
    ∷ record { request = received []; earlier = []; answers = answers }
    ∷ []

answers-HasStop : HasStop answers.reads
unfolding HasStop
answers-HasStop = (failed, inr (inr (inl refl)), refl)

start_routine-finishes_example : (start_routine (pos 4) rounds empty).finish ≢ waiting
unfolding HasStop
start_routine-finishes_example =
    start_routine-finishes (pos 4) rounds empty
      (answers-HasStop, (answers-HasStop, (answers-HasStop, tt)))
      (received [], inr (inr (inl refl)), refl)

start_routine-sockets_example :
    run_calls (pos 4) (start_routine (pos 4) rounds empty).calls idle
    ≡ left_by (start_routine (pos 4) rounds empty).finish
start_routine-sockets_example =
    start_routine-sockets (pos 4) rounds empty start_routine-finishes_example

ends : (start_routine (pos 4) rounds empty).finish ≡ ended
unfolding start_routine bytes_eq add_all handle_request find_in_cash contains value_of
    parsing_heading create_http_socket read_response Parser.parsing_heading after find
ends = refl
