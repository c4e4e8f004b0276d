-- ===== src/Lab31v2/Buffer/Tests.antt =====
-- Examples for the buffer of lab31/v2.
use operating_systems_labs.Base.{
  ◌≡◌, refl, true, false, ◌||◌, some, List, [], ◌∷◌, ◌++◌, Bytes, codes, pos, take, drop, ◌-◌,
  arith,
}
use operating_systems_labs.Lab32v2.Buffer.{end_work}
use operating_systems_labs.Lab31v2.Constants.{buf_size}
use operating_systems_labs.Lab31v2.Cash.Element.{CashElement}
use operating_systems_labs.Lab31v2.Buffer.{
  Buffer, World, new_buffer, element_of, send_buf, proof_send,
}
use operating_systems_labs.Lab31v2.Buffer.Counting.{read_pieces, total, adds_up}
use operating_systems_labs.Lab31v2.Buffer.Agreement.{to_signed, read_signed, read_pieces-signed}
use operating_systems_labs.Lab31v2.Buffer.Bodies.{Fills, read_body, concat}
use operating_systems_labs.Lab31v2.Buffer.Download.{filled, read_body-adds_up}
use operating_systems_labs.Lab31v2.Buffer.Cached.{send-complete_cut}

-- Five bytes are left of the body.
abbrev five_left : Buffer
five_left = record new_buffer { length_body = 5 }

-- The second read goes past the end of the body by one byte.
abbrev past : List Bytes
past = codes "abc" ∷ codes "def" ∷ []

never_ends : adds_up 5 past ≡ false
unfolding adds_up
never_ends = refl

read_pieces-signed_example :
    to_signed (read_pieces (codes "ab" ∷ codes "cde" ∷ []) five_left)
    ≡ read_signed (codes "ab" ∷ codes "cde" ∷ []) (to_signed five_left)
unfolding total
read_pieces-signed_example =
    read_pieces-signed (codes "ab" ∷ codes "cde" ∷ []) five_left (omega arith) (omega arith)

abbrev element : CashElement
element = record {
  count_users = pos 0;
  is_cash_end = false;
  is_server_connected = true;
  hash_head = 1;
  head = codes "a";
  cash = codes "head";
}

-- A response that is being cached, with five bytes left.
abbrev caching : World
caching = record {
  buffer = record new_buffer {
    length_body = 5;
    is_add_data_to_cash = true;
    is_have_content_length_response = true;
    cash_element = some 0;
  };
  cash = record { list_cash = 0 ∷ []; byte_in_cash = 10; elements = element ∷ [] };
}

read_body-adds_up_example :
    (w' : World) × (read_body (codes "ab" ∷ codes "cde" ∷ []) caching ≡ some w')
    × Fills w' 0 (
        filled element
          (codes "head" ++ concat (codes "ab" ∷ codes "cde" ∷ []))
          (adds_up 5 (codes "ab" ∷ codes "cde" ∷ []) || false))
    × (w'.buffer.is_end_send ≡ (adds_up 5 (codes "ab" ∷ codes "cde" ∷ []) || false))
unfolding total
read_body-adds_up_example =
    read_body-adds_up (codes "ab" ∷ codes "cde" ∷ []) caching 0 element
      (record { adds = refl; counted = refl; pointer = refl; stands = refl }) (omega arith)
      (omega arith)

-- A client that reads a complete response from the cache.
abbrev complete : CashElement
complete = record element { is_cash_end = true }

abbrev reading : World
reading = record {
  buffer = record new_buffer { is_data_get_cash = true; cash_element = some 0 };
  cash = record { list_cash = 0 ∷ []; byte_in_cash = 10; elements = complete ∷ [] };
}

send-complete_cut_example :
    (w' : World) × (send_buf [] reading ≡ some (take (buf_size - 1) (drop 0 complete.cash)))
    × (proof_send (take (buf_size - 1) (drop 0 complete.cash)) reading ≡ some w')
    × (w'.buffer.status_client ≡ end_work)
    × (w'.buffer.is_end_send ≡ true)
unfolding element_of
send-complete_cut_example = send-complete_cut reading complete refl refl refl
