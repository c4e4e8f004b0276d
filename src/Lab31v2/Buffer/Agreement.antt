-- ===== src/Lab31v2/Buffer/Agreement.antt =====
-- The buffers of lab31/v2 and of lab32v2 side by side. The one counts what is left of a body in an
-- `unsigned long long`, the other in a `long long`.
use operating_systems_labs.Base.{
  ℕ, zero, suc, ◌-◌, ◌^◌, ◌≤◌, ◌<◌, ◌≡◌, refl, ap, ◌∙◌, true, false, List, [], ◌∷◌, Bytes, length,
  leb_ℤ, ◌==◌, arith, pos, ◌-ℤ◌,
}
use operating_systems_labs.Lab32v2
use operating_systems_labs.Lab31v2.Buffer.{Buffer, wright_request_body, end_if_read}
use operating_systems_labs.Lab31v2.Buffer.Counting.{read_pieces, total, sub_word-le, left-body}

-- The same fields, the count as an integer.
unfoldable pub to_signed : Buffer → Lab32v2.Buffer.Buffer
to_signed b = record {
  status_client = b.status_client;
  status_http_server = b.status_http_server;
  request_heading = b.request_heading;
  buf = b.buf;
  is_client_connect = b.is_client_connect;
  is_server_connect = b.is_server_connect;
  is_ready_to_send = b.is_ready_to_send;
  is_end_send = b.is_end_send;
  is_ready_connect_http_server = b.is_ready_connect_http_server;
  length_body = pos b.length_body;
  result_parse_heading = b.result_parse_heading;
  is_have_content_length_response = b.is_have_content_length_response;
  is_add_data_to_cash = b.is_add_data_to_cash;
  is_data_get_cash = b.is_data_get_cash;
  count_byte_read_from_cash = b.count_byte_read_from_cash;
  cash_element = b.cash_element;
  error = b.error;
}

unfoldable pub read_signed : List Bytes → Lab32v2.Buffer.Buffer → Lab32v2.Buffer.Buffer
read_signed [] b = b
read_signed (p ∷ ps) b = read_signed ps (Lab32v2.Buffer.wright_request_body p b)

minus-pos : (n k : ℕ) → k ≤ n → pos n -ℤ pos k ≡ pos (n - k)
unfolding ◌-ℤ◌
minus-pos n k h = ground arith

end_if_read-signed :
    (n : ℕ) (b : Buffer)
    → to_signed (end_if_read (record b { length_body = n }))
      ≡ Lab32v2.Buffer.end_if_read (to_signed (record b { length_body = n }))
unfolding to_signed
end_if_read-signed zero b = refl
end_if_read-signed (suc n) b =
    let e : (suc n == 0) ≡ false = ground arith in
    let e' : leb_ℤ (pos (suc n)) (pos 0) ≡ false = ground arith in rw (e, e') refl

one-piece :
    (p : Bytes) (b : Buffer)
    → b.length_body < 2 ^ 64
    → length p ≤ b.length_body
    → to_signed (wright_request_body p b) ≡ Lab32v2.Buffer.wright_request_body p (to_signed b)
unfolding to_signed wright_request_body Lab32v2.Buffer.wright_request_body
one-piece p b h l =
    rw (sub_word-le b.length_body (length p) h l, minus-pos b.length_body (length p) l)
      (end_if_read-signed (b.length_body - length p) (record b { is_ready_to_send = true }))

-- As long as the reads stay within what is left of the request body, the buffer of lab31/v2 goes
-- through the states of the buffer of lab32v2, with the count read as an integer.
pub read_pieces-signed :
    (ps : List Bytes) (b : Buffer)
    → b.length_body < 2 ^ 64
    → total ps ≤ b.length_body
    → to_signed (read_pieces ps b) ≡ read_signed ps (to_signed b)
unfolding read_pieces read_signed total
read_pieces-signed [] b h l = refl
read_pieces-signed (p ∷ ps) b h l =
    let left : (wright_request_body p b).length_body ≡ b.length_body - length p =
      left-body p b ∙ sub_word-le b.length_body (length p) h (omega arith) in
    read_pieces-signed ps (wright_request_body p b) (omega arith) (omega arith)
    ∙ ap (read_signed ps) (one-piece p b h (omega arith))
