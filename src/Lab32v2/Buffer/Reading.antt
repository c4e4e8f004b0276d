-- ===== src/Lab32v2/Buffer/Reading.antt =====
-- lab32v2/buffer/BufferImpl.cpp: what is read from the user's client. Between
-- isElementInCash and findResponseInCash, which lock the cache one after the other, other threads may
-- change it.
use operating_systems_labs.Base.{
  ◌-◌, Bool, true, false, Option, none, some, [], ◌∷◌, ◌++◌, Bytes, codes, length, if◌then◌else◌, ℤ,
  pos, ◌-ℤ◌, leb_ℤ, ◌>>=◌,
}
use operating_systems_labs.Lab32v2.Parser.{
  TypeRequestAndResponse, get_request, end_heading, ResultParseHeading, find_end_heading, substr,
  parsing_heading,
}
use operating_systems_labs.Lab32v2.Cash.Element.{Platform, add_count_users}
use operating_systems_labs.Lab32v2.Cash.{is_element_in_cash, find_response_in_cash}
use operating_systems_labs.Lab32v2.Buffer.State.{
  write_request_body, read_response, Buffer, World, Completion, returned, parse_exception,
  update_element,
}

unfoldable pub is_get : TypeRequestAndResponse → Bool
is_get get_request = true
is_get _ = false

-- `parsHead` when the parser throws.
unfoldable pub refuse_heading : Buffer → Buffer
refuse_heading b = record b {
  buf = codes "incorrect heading" ++ 13 ∷ 10 ∷ [];
  status_client = read_response;
  is_ready_to_send = true;
  is_end_send = true;
  error = true;
}

abbrev pub done : World → Completion × World
done w = (returned, w)

abbrev pub in_buffer : (Buffer → Buffer) → World → World
in_buffer f w = record w { buffer = f w.buffer }

-- What `_lengthBody <= 0` sets.
abbrev pub end_if_read : Buffer → Buffer
end_if_read b = if leb_ℤ b.length_body (pos 0) then record b { is_end_send = true } else b

-- The request is not in the cache.
unfoldable pub connect_to_server : ResultParseHeading → Buffer → Buffer
unfolding is_get
connect_to_server r b =
    if is_get r.type
    then record b {
      is_ready_connect_http_server = true;
      is_ready_to_send = true;
      is_end_send = true;
    }
    else end_if_read (record b {
      is_ready_connect_http_server = true;
      is_ready_to_send = true;
      status_client = write_request_body;
      length_body = r.content_length -ℤ pos (length b.buf - length b.request_heading);
    })

unfoldable pub wright_request_body : Bytes → Buffer → Buffer
wright_request_body binary_string b = end_if_read (record b {
  is_ready_to_send = true;
  length_body = b.length_body -ℤ pos (length binary_string);
})

module _ (os : Platform) where
  -- The request has been found in the cache. If it is there no more, or the cache cannot be locked, the
  -- null pointer is dereferenced, which has no defined result.
  unfoldable pub take_from_cash : World → Option World
  unfolding update_element add_count_users
  take_from_cash w = do
    let (p, cash) = find_response_in_cash os (os.meanwhile w.cash) w.buffer.request_heading
    w' ←
        update_element (λ e. (add_count_users e, []))
          (record w {
            buffer = record w.buffer { is_data_get_cash = true; cash_element = p };
            cash = cash;
          })
    some (in_buffer (λ b. record b { buf = []; status_client = read_response }) w')

  -- The heading has ended at `pos_end`.
  unfoldable pub begin_request : ℤ → World → Option (Completion × World)
  unfolding take_from_cash connect_to_server refuse_heading
  begin_request pos_end w =
      let heading : Bytes = substr pos_end w.buffer.buf in
      let b : Buffer = record w.buffer { request_heading = heading } in
      elim (parsing_heading heading) [
        | none ↦ some (parse_exception, record w { buffer = refuse_heading b })
        | some r ↦
            let w' : World = record w { buffer = record b { result_parse_heading = some r } } in
            if is_element_in_cash os w.cash heading
            then (do w'' ← take_from_cash w'; some (done w''))
            else some (done (in_buffer (connect_to_server r) w'))
      ]

  unfoldable pub wright_request_heading : World → Option (Completion × World)
  unfolding begin_request
  wright_request_heading w =
      let (found, pos_end) = find_end_heading w.buffer.buf in
      elim found [ end_heading ↦ begin_request pos_end w | _ ↦ some (done w) ]
