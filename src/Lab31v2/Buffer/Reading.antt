-- ===== src/Lab31v2/Buffer/Reading.antt =====
-- lab31/v2/buffer/BufferImpl.cpp: what is read from the user's client.
use operating_systems_labs.Base.{
  ℕ, ◌-◌, true, Option, none, some, [], ◌∷◌, ◌++◌, Bytes, codes, length, ◌==◌, if◌then◌else◌, ℤ,
  to_size, ◌>>=◌,
}
use operating_systems_labs.Lab32v2.Parser.{end_heading, ResultParseHeading, substr}
use operating_systems_labs.Lab32v2.Buffer.{
  write_request_body, read_response, Completion, returned, parse_exception, is_get,
}
use operating_systems_labs.Lab31v2.Parser.{find_end_heading, parsing_heading}
use operating_systems_labs.Lab31v2.Words.{sub_word}
use operating_systems_labs.Lab31v2.Cash.Element.{add_count_users}
use operating_systems_labs.Lab31v2.Cash.{is_element_in_cash, find_response_in_cash}
use operating_systems_labs.Lab31v2.Buffer.State.{Buffer, World, update_element}

-- `parsHead` when the parser throws.
unfoldable pub refuse_heading : Buffer → Buffer
refuse_heading b = record b {
  buf = codes "incorrect heading" ++ 13 ∷ 10 ∷ [];
  status_client = read_response;
  is_ready_to_send = true;
  is_end_send = true;
  error = true;
}

abbrev pub in_buffer : (Buffer → Buffer) → World → World
in_buffer f w = record w { buffer = f w.buffer }

-- What `_lengthBody <= 0` sets, for an unsigned `_lengthBody`.
abbrev pub end_if_read : Buffer → Buffer
end_if_read b = if b.length_body == 0 then record b { is_end_send = true } else b

-- The request is not in the cache.
unfoldable pub connect_to_server : ResultParseHeading → Buffer → Buffer
connect_to_server r b =
    if is_get r.type
    then record b {
      is_ready_connect_http_server = true;
      is_ready_to_send = true;
      is_end_send = true;
    }
    else end_if_read (record b {
      is_ready_connect_http_server = true;
      is_ready_to_send = true;
      status_client = write_request_body;
      length_body = sub_word (to_size r.content_length) (length b.buf - length b.request_heading);
    })

unfoldable pub wright_request_body : Bytes → Buffer → Buffer
unfolding sub_word
wright_request_body binary_string b = end_if_read (record b {
  is_ready_to_send = true;
  length_body = sub_word b.length_body (length binary_string);
})

module _ (hasher : Bytes → ℕ) where
  -- The request is in the cache.
  unfoldable pub take_from_cash : World → Option World
  unfolding update_element
  take_from_cash w = do
    let (p, cash) = find_response_in_cash hasher w.cash w.buffer.request_heading
    w' ← update_element add_count_users (record w {
      buffer = record w.buffer { is_data_get_cash = true; cash_element = p };
      cash = cash;
    })
    some (in_buffer (λ b. record b { buf = []; status_client = read_response }) w')

  -- The heading has ended at `pos_end`.
  unfoldable pub begin_request : ℤ → World → Option (Completion × World)
  unfolding take_from_cash connect_to_server refuse_heading
  begin_request pos_end w =
      let heading : Bytes = substr pos_end w.buffer.buf in
      let b : Buffer = record w.buffer { request_heading = heading } in
      elim (parsing_heading heading) [
        | none ↦ some (parse_exception, record w { buffer = refuse_heading b })
        | some r ↦
            let w' : World = record w { buffer = record b { result_parse_heading = some r } } in
            if is_element_in_cash hasher w.cash heading
            then (do w'' ← take_from_cash w'; some (returned, w''))
            else some (returned, in_buffer (connect_to_server r) w')
      ]

  unfoldable pub wright_request_heading : World → Option (Completion × World)
  unfolding begin_request
  wright_request_heading w =
      let (found, pos_end) = find_end_heading w.buffer.buf in
      elim found [ end_heading ↦ begin_request pos_end w | _ ↦ some (returned, w) ]
