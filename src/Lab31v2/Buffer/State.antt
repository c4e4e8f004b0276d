-- ===== src/Lab31v2/Buffer/State.antt =====
-- lab31/v2/buffer/BufferImpl.h: the fields of a BufferImpl, and what its methods change. The statuses
-- are the enum of lab32v2/buffer/Buffer.h, which is the same.
use operating_systems_labs.Base.{
  ℕ, Bool, false, Option, none, some, [], Bytes, get_elem?, set, ◌>>=◌,
}
use operating_systems_labs.Lab32v2.Parser.{ResultParseHeading}
use operating_systems_labs.Lab32v2.Buffer.{StatusHttp, write_request_heading, read_request}
use operating_systems_labs.Lab31v2.Cash.Element.{CashElement}
use operating_systems_labs.Lab31v2.Cash.{Cash}

-- `_lengthBody` is an `unsigned long long`; `_cashElement` is an index of the cache's store.
pub record Buffer : Type 0 where
  pub status_client : StatusHttp
  pub status_http_server : StatusHttp
  pub request_heading : Bytes
  pub buf : Bytes
  pub is_client_connect : Bool
  pub is_server_connect : Bool
  pub is_ready_to_send : Bool
  pub is_end_send : Bool
  pub is_ready_connect_http_server : Bool
  pub length_body : ℕ
  pub result_parse_heading : Option ResultParseHeading
  pub is_have_content_length_response : Bool
  pub is_add_data_to_cash : Bool
  pub is_data_get_cash : Bool
  pub count_byte_read_from_cash : ℕ
  pub cash_element : Option ℕ
  pub error : Bool

-- A new BufferImpl.
abbrev pub new_buffer : Buffer
new_buffer = record {
  status_client = write_request_heading;
  status_http_server = read_request;
  request_heading = [];
  buf = [];
  is_client_connect = false;
  is_server_connect = false;
  is_ready_to_send = false;
  is_end_send = false;
  is_ready_connect_http_server = false;
  length_body = 0;
  result_parse_heading = none;
  is_have_content_length_response = false;
  is_add_data_to_cash = false;
  is_data_get_cash = false;
  count_byte_read_from_cash = 0;
  cash_element = none;
  error = false;
}

-- A buffer with the cache.
pub record World : Type 0 where
  pub buffer : Buffer
  pub cash : Cash

-- `_cashElement->`, where a null or stray pointer has no defined result.
unfoldable pub element_of : World → Option CashElement
element_of w = do p ← w.buffer.cash_element; get_elem? w.cash.elements p

-- A change of `*_cashElement`.
unfoldable pub update_element : (CashElement → CashElement) → World → Option World
unfolding element_of
update_element f w = do
  p ← w.buffer.cash_element
  e ← get_elem? w.cash.elements p
  some (record w { cash = record w.cash { elements = set w.cash.elements p (f e) } })
