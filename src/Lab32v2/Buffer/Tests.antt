-- ===== src/Lab32v2/Buffer/Tests.antt =====
-- Tests of the buffer.
use operating_systems_labs.Base.{
  ◌-◌, ◌<◌, ◌≤◌, ◌≡◌, ◌⊎◌, ◌↔◌, refl, true, none, some, [], ◌∷◌, ◌++◌, codes, find, starts_with,
  pos, ◌-ℤ◌, to_int, add_int,
}
use operating_systems_labs.Lab32v2.Constants.{buf_size}
use operating_systems_labs.Lab32v2.Parser.{
  ResultParseHeading, end_heading, find_end_heading, find_int, is_npos, end_answer, parsing_heading,
  substr,
}
use operating_systems_labs.Lab32v2.Cash.Element.{CashElement, append_string_to_cash, signal_users}
use operating_systems_labs.Lab32v2.Buffer.{
  World, start, returned, parse_exception, update_element, send_buf, send_buffered, proof_send,
  proof_send_buffered, wright_request_heading, wright_response_body, keep_body, count_body,
  end_download, take_in, choose_handler, read_from_socket,
}
use operating_systems_labs.Lab32v2.Buffer.Download.{Filled, read_body-Filled}
use operating_systems_labs.Lab32v2.Buffer.Bodies.{Fills, read_body}
use operating_systems_labs.Lab32v2.Buffer.Delivery.{proof_send-send_buf}
use operating_systems_labs.Lab32v2.Buffer.Requests.{Asked, wright_request_heading-cases}
use operating_systems_labs.Lab32v2.Buffer.Outcomes.{Refused}
use operating_systems_labs.Lab32v2.Buffer.Stages.{read_from_socket-IsStaged, proof_send-IsStaged}
use operating_systems_labs.Lab32v2.Buffer.Statuses.{IsStaged, MovesOn}
use operating_systems_labs.Lab32v2.TestData.{test_os, empty_cash, element_a, downloading}

downloading-Fills : Fills downloading 0 element_a
downloading-Fills = record {
  adds = refl;
  counted = refl;
  pointer = refl;
  stands = refl;
  unlocked = refl;
}

read_body-Filled_example :
    (w' : World) × (e' : CashElement) × (read_body ((8 ∷ []) ∷ (9 ∷ []) ∷ []) downloading ≡ some w')
    × Filled (8 ∷ 9 ∷ []) downloading element_a 0 w' e'
read_body-Filled_example =
    read_body-Filled ((8 ∷ []) ∷ (9 ∷ []) ∷ []) downloading 0 element_a downloading-Fills
      (refl, refl)

-- A request that has come in up to the blank line, and one reader's buffered bytes.
abbrev requesting : World
requesting = record {
  buffer = record start { buf = codes "GET" ++ 13 ∷ 10 ∷ 13 ∷ 10 ∷ [] };
  cash = empty_cash;
  signalled = [];
}

ends_heading : find_end_heading requesting.buffer.buf ≡ (end_heading, pos 7)
unfolding find_end_heading end_answer find_int is_npos find starts_with to_int add_int
ends_heading = refl

wright_request_heading-cases_example :
    ((parsing_heading requesting.buffer.buf ≡ none)
      × (w' : World) × (wright_request_heading test_os requesting ≡ some (parse_exception, w'))
      × Refused requesting w')
    ⊎ ((r : ResultParseHeading) × (parsing_heading requesting.buffer.buf ≡ some r)
        × Asked test_os requesting.buffer.buf r requesting
            (wright_request_heading test_os requesting))
unfolding substr
wright_request_heading-cases_example =
    wright_request_heading-cases test_os requesting (pos 7) ends_heading

abbrev emptied : World
emptied = record requesting { buffer = record start { buf = [] } }

sends : send_buf [] requesting ≡ some requesting.buffer.buf
unfolding send_buf send_buffered
sends = refl

proves : proof_send requesting.buffer.buf requesting ≡ some emptied
unfolding proof_send proof_send_buffered
proves = refl

proof_send-send_buf_example :
    (requesting.buffer.buf ++ [] ≡ requesting.buffer.buf)
    × (empty_cash ≡ empty_cash)
    × (7 ≤ buf_size - 1)
    × ((0 < 7) ↔ (0 < 7))
proof_send-send_buf_example =
    proof_send-send_buf [] requesting.buffer.buf requesting emptied refl sends proves

proof_send-IsStaged_example : IsStaged emptied × MovesOn requesting emptied
proof_send-IsStaged_example =
    proof_send-IsStaged requesting.buffer.buf requesting emptied refl (λ e. cc) proves

-- The world after the last two bytes of the response.
abbrev downloaded : World
downloaded = record {
  buffer = record downloading.buffer {
    buf = 8 ∷ 9 ∷ [];
    is_ready_to_send = true;
    is_end_send = true;
    length_body = pos 0;
  };
  cash = record downloading.cash {
    elements = record element_a { cash = 1 ∷ 2 ∷ 3 ∷ 8 ∷ 9 ∷ []; is_download_end = true } ∷ [];
  };
  signalled = 7 ∷ [];
}

reads : read_from_socket test_os (8 ∷ 9 ∷ []) downloading ≡ some (returned, downloaded)
unfolding read_from_socket take_in choose_handler wright_response_body keep_body count_body
    end_download update_element append_string_to_cash signal_users ◌-ℤ◌
reads = refl

read_from_socket-IsStaged_example : IsStaged downloaded × MovesOn downloading downloaded
read_from_socket-IsStaged_example =
    read_from_socket-IsStaged test_os (8 ∷ 9 ∷ []) downloading downloaded returned refl reads
