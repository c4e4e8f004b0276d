-- ===== src/Lab32v2/Buffer/Statuses.antt =====
-- What each part of a read does to the two statuses of an exchange.
use operating_systems_labs.Base.{
  ℕ, ◌≤◌, ◌≡◌, ◌⊎◌, inl, inr, arith, Bool, true, false, some, List, Bytes, >>=-some, ◌∙◌,
  Option-cases, ℤ,
}
use operating_systems_labs.Lab32v2.Parser.{
  ResultParseHeading, find_end_heading, parsing_heading, parsing_response_heading, substr,
}
use operating_systems_labs.Lab32v2.Cash.Element.{Platform, CashElement}
use operating_systems_labs.Lab32v2.Buffer.{
  StatusHttp, write_request_heading, write_request_body, read_response, read_request,
  write_response_heading, write_response_body, end_work, Buffer, World, Completion, update_element,
  refuse_heading, take_from_cash, connect_to_server, begin_request, wright_request_heading,
  begin_cashing, begin_body, begin_response, cash_response, keep_body, is_cashing_data,
  wright_response_heading, count_body, end_download, wright_response_body,
}

-- The pairs of statuses that an exchange can have: the response is on its way only when the request
-- has been read, and each side has its own statuses.
abbrev pub is_staged : StatusHttp → StatusHttp → Bool
is_staged write_request_heading read_request = true
is_staged write_request_heading end_work = true
is_staged write_request_body read_request = true
is_staged write_request_body end_work = true
is_staged read_response read_request = true
is_staged read_response write_response_heading = true
is_staged read_response write_response_body = true
is_staged read_response end_work = true
is_staged end_work read_request = true
is_staged end_work write_response_heading = true
is_staged end_work write_response_body = true
is_staged end_work end_work = true
is_staged _ _ = false

abbrev pub IsStaged : World → Type 0
IsStaged w = is_staged w.buffer.status_client w.buffer.status_http_server ≡ true

-- How far each side has come.
abbrev pub client_rank : StatusHttp → ℕ
client_rank write_request_body = 1
client_rank read_response = 2
client_rank end_work = 3
client_rank _ = 0

abbrev pub server_rank : StatusHttp → ℕ
server_rank write_response_heading = 1
server_rank write_response_body = 2
server_rank end_work = 3
server_rank _ = 0

abbrev pub MovesOn : World → World → Type 0
MovesOn w w' =
    (client_rank w.buffer.status_client ≤ client_rank w'.buffer.status_client)
    × (server_rank w.buffer.status_http_server ≤ server_rank w'.buffer.status_http_server)

abbrev pub Client : World → StatusHttp
Client w = w.buffer.status_client

abbrev pub Server : World → StatusHttp
Server w = w.buffer.status_http_server

-- What a step of the server's side may do to the statuses.
abbrev SameStatus : World → World → Type 0
SameStatus w w' = (Client w' ≡ Client w) × (Server w' ≡ Server w)

update_element-SameStatus :
    (f : CashElement → CashElement × List ℕ) (w w' : World)
    → update_element f w ≡ some w'
    → SameStatus w w'
unfolding update_element
update_element-SameStatus f w w' h = ground arith

end_download-SameStatus :
    (ended : Bool) (w w' : World) → end_download ended w ≡ some w' → SameStatus w w'
unfolding end_download
end_download-SameStatus ended w w' h = ground arith

count_body-SameStatus : (bs : Bytes) (w w' : World) → count_body bs w ≡ some w' → SameStatus w w'
unfolding count_body
count_body-SameStatus bs w w' h = ground arith

begin_cashing-SameStatus :
    (os : Platform) (r : ResultParseHeading) (head : Bytes) (w w' : World)
    → begin_cashing os r head w ≡ some w'
    → SameStatus w w'
unfolding begin_cashing
begin_cashing-SameStatus os r head w w' h = ground arith

begin_body-status :
    (r : ResultParseHeading) (head : Bytes) (w w' : World)
    → begin_body r head w ≡ some w'
    → (Client w' ≡ Client w) × (Server w' ≡ write_response_body)
unfolding begin_body
begin_body-status r head w w' h = ground arith

cash_response-SameStatus :
    (os : Platform) (cashing : Bool) (r : ResultParseHeading) (head : Bytes) (w w' : World)
    → cash_response os cashing r head w ≡ some w'
    → SameStatus w w'
unfolding cash_response
cash_response-SameStatus os cashing r head w w' h =
    ground (arith, begin_cashing-SameStatus os r head w w')

begin_response-status :
    (os : Platform) (pos_end : ℤ) (w w' : World)
    → begin_response os pos_end w ≡ some w'
    → (Client w' ≡ Client w) × (Server w' ≡ write_response_body)
unfolding begin_response
begin_response-status os pos_end w w' h =
    let head : Bytes = substr pos_end w.buffer.buf in
    let r : ResultParseHeading = parsing_response_heading head in
    let (cashing, _, h1) = >>=-some (is_cashing_data w.buffer r) _ w' h in
    let (w1, h2, h3) = >>=-some (cash_response os cashing r head w) _ w' h1 in
    let before = cash_response-SameStatus os cashing r head w w1 h2 in
    let after = begin_body-status r head w1 w' h3 in (after.0 ∙ before.0, after.1)

pub wright_response_heading-status :
    (os : Platform) (w w' : World)
    → wright_response_heading os w ≡ some w'
    → (Client w' ≡ Client w) × ((Server w' ≡ Server w) ⊎ (Server w' ≡ write_response_body))
unfolding wright_response_heading
wright_response_heading-status os w w' h =
    ground (arith, begin_response-status os (find_end_heading w.buffer.buf).1 w w')

keep_body-SameStatus : (bs : Bytes) (w w' : World) → keep_body bs w ≡ some w' → SameStatus w w'
unfolding keep_body
keep_body-SameStatus bs w w' h = ground arith

pub wright_response_body-status :
    (bs : Bytes) (w w' : World) → wright_response_body bs w ≡ some w' → SameStatus w w'
unfolding wright_response_body
wright_response_body-status bs w w' h =
    let (w1, h1, h2) = >>=-some (keep_body bs w) _ w' h in
    let before = keep_body-SameStatus bs w w1 h1 in
    let after = count_body-SameStatus bs w1 w' h2 in (after.0 ∙ before.0, after.1 ∙ before.1)

take_from_cash-status :
    (os : Platform) (w w' : World)
    → take_from_cash os w ≡ some w'
    → (Client w' ≡ read_response) × (Server w' ≡ Server w)
unfolding take_from_cash
take_from_cash-status os w w' h = ground arith

connect_to_server-status :
    (r : ResultParseHeading) (b : Buffer)
    → ((connect_to_server r b).status_http_server ≡ b.status_http_server)
      × (((connect_to_server r b).status_client ≡ b.status_client)
          ⊎ ((connect_to_server r b).status_client ≡ write_request_body))
unfolding connect_to_server
connect_to_server-status r b = ground arith

-- What a read of the request may do to the statuses.
abbrev pub Requested : World → World → Type 0
Requested w w' =
    (Server w' ≡ Server w)
    × ((Client w' ≡ Client w) ⊎ (Client w' ≡ write_request_body) ⊎ (Client w' ≡ read_response))

begin_request-Requested :
    (os : Platform) (pos_end : ℤ) (w w' : World) (k : Completion)
    → begin_request os pos_end w ≡ some (k, w')
    → Requested w w'
unfolding begin_request refuse_heading
begin_request-Requested os pos_end w w' k h =
    let heading : Bytes = substr pos_end w.buffer.buf in
    elim (Option-cases (parsing_heading heading)) [
      | inl refused ↦ ground arith
      | inr (r, parsed) ↦
          let b : Buffer = record w.buffer {
            request_heading = heading;
            result_parse_heading = some r;
          } in
          elim (Option-cases (take_from_cash os (record w { buffer = b }))) [
            | inl fault ↦ ground (arith, connect_to_server-status r b)
            | inr (w1, got) ↦ ground (
              arith,
              connect_to_server-status r b,
              take_from_cash-status os (record w { buffer = b }) w1 got,
            )
          ]
    ]

pub wright_request_heading-Requested :
    (os : Platform) (w w' : World) (k : Completion)
    → wright_request_heading os w ≡ some (k, w')
    → Requested w w'
unfolding wright_request_heading
wright_request_heading-Requested os w w' k h =
    ground (arith, begin_request-Requested os (find_end_heading w.buffer.buf).1 w w' k)
