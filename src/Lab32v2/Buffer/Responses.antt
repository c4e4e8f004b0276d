-- ===== src/Lab32v2/Buffer/Responses.antt =====
-- lab32v2/buffer/BufferImpl.cpp: what is read from the HTTP server, and `readFromSocket`.
use operating_systems_labs.Base.{
  ◌-◌, Bool, true, false, not, ◌&&◌, Option, none, some, [], ◌++◌, Bytes, length, ltb,
  if◌then◌else◌, ℤ, pos, ◌+ℤ◌, ◌-ℤ◌, leb_ℤ, to_size, ◌>>=◌,
}
use operating_systems_labs.Lab32v2.Constants.{size_each_cash_element}
use operating_systems_labs.Lab32v2.Parser.{
  end_heading, end_body, ResultParseHeading, find_end_heading, find_end_body, substr,
  parsing_response_heading,
}
use operating_systems_labs.Lab32v2.Cash.Element.{
  Platform, append_string_to_cash, set_download_end, set_is_server_connect,
}
use operating_systems_labs.Lab32v2.Cash.{is_element_in_cash, add_string_to_cash}
use operating_systems_labs.Lab32v2.Buffer.State.{
  StatusHttp, write_request_heading, write_request_body, write_response_heading,
  write_response_body, Buffer, World, Completion, update_element,
}
use operating_systems_labs.Lab32v2.Buffer.Reading.{
  is_get, done, in_buffer, end_if_read, wright_request_heading, wright_request_body,
}

-- `isCashingData`: the sum is a `size_t`. A null `_resultParseHeading` is read only if both tests
-- before it pass.
unfoldable pub is_cashing_data : Buffer → ResultParseHeading → Option Bool
unfolding is_get
is_cashing_data b r =
    if not r.response_with_error
      && ltb (to_size (pos (length b.buf) +ℤ r.content_length)) size_each_cash_element
    then (do request ← b.result_parse_heading; some (is_get request.type && r.have_content_length))
    else some false

-- What follows `setDownloadEnd` on the element that is being filled, if there is one.
unfoldable pub end_download : Bool → World → Option World
unfolding update_element
end_download ended w =
    if ended && w.buffer.is_add_data_to_cash
    then update_element (λ e. (set_download_end true e, [])) w
    else some w

-- `*_buf` ends a body that has no length.
unfoldable pub end_if_chunked : Buffer → Buffer
end_if_chunked b = elim (find_end_body b.buf).0 [
  | end_body ↦ record b { is_end_send = true }
  | _ ↦ b
]

-- The rest of `wrightResponseHeading`: what is left to read of the body.
unfoldable pub begin_body : ResultParseHeading → Bytes → World → Option World
unfolding end_download end_if_chunked
begin_body r response_head w =
    let b : Buffer = record w.buffer {
      is_ready_to_send = true;
      status_http_server = write_response_body;
      is_have_content_length_response = r.have_content_length;
    } in
    let left : ℤ = r.content_length -ℤ pos (length b.buf - length response_head) in
    if r.have_content_length
    then end_download (leb_ℤ left (pos 0))
        (record w { buffer = end_if_read (record b { length_body = left }) })
    else some (record w { buffer = end_if_chunked b })

-- What is left of the body after a read, and whether that was the end.
unfoldable pub count_body : Bytes → World → Option World
unfolding end_download end_if_chunked
count_body binary_string w =
    let left : ℤ = w.buffer.length_body -ℤ pos (length binary_string) in
    if w.buffer.is_have_content_length_response
    then end_download (leb_ℤ left (pos 0))
        (record w { buffer = end_if_read (record w.buffer { length_body = left }) })
    else some (record w { buffer = end_if_chunked w.buffer })

-- What has been read of the body goes to the cache, if the response is being cached.
unfoldable pub keep_body : Bytes → World → Option World
unfolding update_element append_string_to_cash
keep_body binary_string w =
    if w.buffer.is_add_data_to_cash
    then update_element (append_string_to_cash binary_string)
        (in_buffer (λ b. record b { is_ready_to_send = true }) w)
    else some (in_buffer (λ b. record b { is_ready_to_send = true }) w)

unfoldable pub wright_response_body : Bytes → World → Option World
unfolding keep_body count_body
wright_response_body binary_string w = do
  w1 ← keep_body binary_string w
  count_body binary_string w1

-- The user is gone and a response body comes in: it is only cached, and not kept to be sent.
unfoldable pub take_in : Bytes → Buffer → Buffer
take_in binary_string b = elim b.status_http_server [
  | write_response_body ↦
      if b.is_client_connect
      then record b { buf = b.buf ++ binary_string }
      else record b { buf = [] }
  | _ ↦ record b { buf = b.buf ++ binary_string }
]

abbrev pub without_throw : Option World → Option (Completion × World)
without_throw none = none
without_throw (some w) = some (done w)

module _ (os : Platform) where
  -- The response is to be cached, and its request is not in the cache.
  unfoldable pub begin_cashing : ResultParseHeading → Bytes → World → Option World
  unfolding update_element append_string_to_cash set_is_server_connect
  begin_cashing r response_head w = do
    (p, cash) ←
        add_string_to_cash os w.buffer.request_heading
          (r.content_length +ℤ pos (length response_head)) w.cash
    elim p [
      | none ↦ some (record w {
        buffer = record w.buffer { cash_element = none; is_add_data_to_cash = false };
        cash = cash;
      })
      | some q ↦ do
        let w0 = record w {
          buffer = record w.buffer { cash_element = some q; is_add_data_to_cash = true };
          cash = cash;
        }
        w1 ← update_element (append_string_to_cash w.buffer.buf) w0
        w2 ← update_element (λ e. (set_download_end false e, [])) w1
        update_element (set_is_server_connect true) w2
    ]

  -- A response to a request that is in the cache already is not cached again.
  unfoldable pub cash_response : Bool → ResultParseHeading → Bytes → World → Option World
  unfolding begin_cashing
  cash_response cashing r response_head w =
      if cashing && not (is_element_in_cash os w.cash w.buffer.request_heading)
      then begin_cashing r response_head w
      else some w

  unfoldable pub begin_response : ℤ → World → Option World
  unfolding is_cashing_data cash_response begin_body
  begin_response pos_end w = do
    let response_head = substr pos_end w.buffer.buf
    let r = parsing_response_heading response_head
    cashing ← is_cashing_data w.buffer r
    w' ← cash_response cashing r response_head w
    begin_body r response_head w'

  unfoldable pub wright_response_heading : World → Option World
  unfolding begin_response
  wright_response_heading w =
      let (found, pos_end) = find_end_heading w.buffer.buf in
      elim found [ end_heading ↦ begin_response pos_end w | _ ↦ some w ]

  -- The handler is chosen by the two statuses.
  unfoldable pub choose_handler :
      StatusHttp → StatusHttp → Bytes → World → Option (Completion × World)
  unfolding wright_request_heading wright_request_body wright_response_heading wright_response_body
  choose_handler write_request_heading server binary_string w = wright_request_heading os w
  choose_handler write_request_body server binary_string w =
      some (done (in_buffer (wright_request_body binary_string) w))
  choose_handler client write_response_heading binary_string w =
      without_throw (wright_response_heading w)
  choose_handler client write_response_body binary_string w =
      without_throw (wright_response_body binary_string w)
  choose_handler client server binary_string w = some (done w)

  unfoldable pub read_from_socket : Bytes → World → Option (Completion × World)
  unfolding take_in choose_handler
  read_from_socket binary_string w =
      choose_handler w.buffer.status_client w.buffer.status_http_server binary_string
        (in_buffer (take_in binary_string) w)
