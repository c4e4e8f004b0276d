-- ===== src/Lab31v2/Buffer/Responses.antt =====
-- lab31/v2/buffer/BufferImpl.cpp: what is read from the HTTP server, and `readFromSocket`.
use operating_systems_labs.Base.{
  ℕ, ◌-◌, Bool, true, false, not, ◌&&◌, Option, none, some, ◌++◌, Bytes, length, ltb, ◌==◌,
  if◌then◌else◌, ℤ, to_size, ◌>>=◌,
}
use operating_systems_labs.Lab31v2.Constants.{size_each_cash_element}
use operating_systems_labs.Lab31v2.Words.{add_word, sub_word}
use operating_systems_labs.Lab32v2.Parser.{end_heading, end_body, ResultParseHeading, substr}
use operating_systems_labs.Lab32v2.Buffer.{
  StatusHttp, write_request_heading, write_request_body, write_response_heading,
  write_response_body, Completion, returned, is_get,
}
use operating_systems_labs.Lab31v2.Parser.{
  find_end_heading, find_end_body, parsing_response_heading,
}
use operating_systems_labs.Lab31v2.Cash.Element.{
  append_cash, set_is_cash_end, set_is_server_connect,
}
use operating_systems_labs.Lab31v2.Cash.{is_element_in_cash, add_string_to_cash}
use operating_systems_labs.Lab31v2.Buffer.State.{Buffer, World, update_element}
use operating_systems_labs.Lab31v2.Buffer.Reading.{
  in_buffer, end_if_read, wright_request_heading, wright_request_body,
}

-- `isCashingData`. A null `_resultParseHeading` is read only if both tests before it pass.
unfoldable pub is_cashing_data : Buffer → ResultParseHeading → Option Bool
is_cashing_data b r =
    if not r.response_with_error
      && ltb (add_word (length b.buf) (to_size r.content_length)) size_each_cash_element
    then (do request ← b.result_parse_heading; some (is_get request.type && r.have_content_length))
    else some false

-- `setIsCashEnd` on the element that is being filled, if there is one.
unfoldable pub end_cash : Bool → World → Option World
unfolding update_element
end_cash ended w =
    if ended && w.buffer.is_add_data_to_cash
    then update_element (set_is_cash_end true) w
    else some w

unfoldable pub end_if_chunked : Buffer → Buffer
end_if_chunked b = elim (find_end_body b.buf).0 [
  | end_body ↦ record b { is_end_send = true }
  | _ ↦ b
]

-- What is left of a body with a length, and whether that is nothing.
unfoldable pub set_left : ℕ → World → Option World
unfolding end_cash
set_left left w =
    end_cash (left == 0)
      (record w { buffer = end_if_read (record w.buffer { length_body = left }) })

-- The rest of `wrightResponseHeading`.
unfoldable pub begin_body : ResultParseHeading → Bytes → World → Option World
unfolding set_left end_if_chunked
begin_body r response_head w =
    let w' : World = record w {
      buffer = record w.buffer {
        is_ready_to_send = true;
        status_http_server = write_response_body;
        is_have_content_length_response = r.have_content_length;
      };
    } in
    if r.have_content_length
    then set_left (sub_word (to_size r.content_length) (length w.buffer.buf - length response_head))
        w'
    else some (in_buffer end_if_chunked w')

-- What has been read of the body goes to the cache, if the response is being cached.
unfoldable pub keep_body : Bytes → World → Option World
unfolding update_element
keep_body binary_string w =
    if w.buffer.is_add_data_to_cash
    then update_element (append_cash binary_string)
        (in_buffer (λ b. record b { is_ready_to_send = true }) w)
    else some (in_buffer (λ b. record b { is_ready_to_send = true }) w)

unfoldable pub count_body : Bytes → World → Option World
unfolding set_left end_if_chunked sub_word
count_body binary_string w =
    if w.buffer.is_have_content_length_response
    then set_left (sub_word w.buffer.length_body (length binary_string)) w
    else some (in_buffer end_if_chunked w)

unfoldable pub wright_response_body : Bytes → World → Option World
unfolding keep_body count_body
wright_response_body binary_string w = do
  w1 ← keep_body binary_string w
  count_body binary_string w1

abbrev pub without_throw : Option World → Option (Completion × World)
without_throw none = none
without_throw (some w) = some (returned, w)

module _ (hasher : Bytes → ℕ) where
  -- The response is to be cached, and its request is not in the cache.
  unfoldable pub begin_cashing : ResultParseHeading → Bytes → World → Option World
  unfolding update_element
  begin_cashing r response_head w = do
    (p, cash) ←
        add_string_to_cash hasher w.buffer.request_heading
          (add_word (to_size r.content_length) (length response_head)) w.cash
    elim p [
      | none ↦ some (record w {
        buffer = record w.buffer { cash_element = none; is_add_data_to_cash = false };
        cash = cash;
      })
      | some q ↦ do
        let w0 = record w {
          buffer = record w.buffer { cash_element = some q; is_add_data_to_cash = true };
          cash = cash;
        }
        w1 ← update_element (append_cash w.buffer.buf) w0
        w2 ← update_element (set_is_cash_end false) w1
        update_element (set_is_server_connect true) w2
    ]

  unfoldable pub cash_response : Bool → ResultParseHeading → Bytes → World → Option World
  unfolding begin_cashing
  cash_response cashing r response_head w =
      if cashing && not (is_element_in_cash hasher w.cash w.buffer.request_heading)
      then begin_cashing r response_head w
      else some w

  unfoldable pub begin_response : ℤ → World → Option World
  unfolding is_cashing_data cash_response begin_body
  begin_response pos_end w = do
    let response_head = substr pos_end w.buffer.buf
    let r = parsing_response_heading response_head
    cashing ← is_cashing_data w.buffer r
    w' ← cash_response cashing r response_head w
    begin_body r response_head w'

  unfoldable pub wright_response_heading : World → Option World
  unfolding begin_response
  wright_response_heading w =
      let (found, pos_end) = find_end_heading w.buffer.buf in
      elim found [ end_heading ↦ begin_response pos_end w | _ ↦ some w ]

  -- The handler is chosen by the two statuses.
  unfoldable pub choose_handler :
      StatusHttp → StatusHttp → Bytes → World → Option (Completion × World)
  unfolding wright_request_heading wright_request_body wright_response_heading wright_response_body
  choose_handler write_request_heading server binary_string w = wright_request_heading hasher w
  choose_handler write_request_body server binary_string w =
      some (returned, in_buffer (wright_request_body binary_string) w)
  choose_handler client write_response_heading binary_string w =
      without_throw (wright_response_heading w)
  choose_handler client write_response_body binary_string w =
      without_throw (wright_response_body binary_string w)
  choose_handler client server binary_string w = some (returned, w)

  unfoldable pub read_from_socket : Bytes → World → Option (Completion × World)
  unfolding choose_handler
  read_from_socket binary_string w =
      choose_handler w.buffer.status_client w.buffer.status_http_server binary_string
        (in_buffer (λ b. record b { buf = b.buf ++ binary_string }) w)
