-- ===== src/Lab32v2/Buffer/State.antt =====
-- lab32v2/buffer/Buffer.h and BufferImpl.h: the fields of a BufferImpl, and the world that its
-- methods change.
use operating_systems_labs.Base.{
  ℕ, Bool, false, Option, none, some, List, [], ◌++◌, Bytes, get_elem?, set, ℤ, pos, ◌>>=◌,
}
use operating_systems_labs.Lab32v2.Parser.{ResultParseHeading}
use operating_systems_labs.Lab32v2.Cash.Element.{CashElement}
use operating_systems_labs.Lab32v2.Cash.{Cash}

pub data StatusHttp : Type 0 where
  write_request_heading write_request_body read_response read_request : StatusHttp
  write_response_heading write_response_body end_work : StatusHttp

-- `_cashElement` is an index of the cache's store, `none` for nullptr. `_sendingString` is never used.
pub record Buffer : Type 0 where
  pub status_client : StatusHttp
  pub status_http_server : StatusHttp
  pub request_heading : Bytes
  pub buf : Bytes
  pub is_client_connect : Bool
  pub is_server_connect : Bool
  pub is_ready_to_send : Bool
  pub is_end_send : Bool
  pub is_ready_connect_http_server : Bool
  pub length_body : ℤ
  pub result_parse_heading : Option ResultParseHeading
  pub is_have_content_length_response : Bool
  pub is_add_data_to_cash : Bool
  pub is_data_get_cash : Bool
  pub count_byte_read_from_cash : ℕ
  pub cash_element : Option ℕ
  pub error : Bool

-- A new BufferImpl.
abbrev pub start : Buffer
start = record {
  status_client = write_request_heading;
  status_http_server = read_request;
  request_heading = [];
  buf = [];
  is_client_connect = false;
  is_server_connect = false;
  is_ready_to_send = false;
  is_end_send = false;
  is_ready_connect_http_server = false;
  length_body = pos 0;
  result_parse_heading = none;
  is_have_content_length_response = false;
  is_add_data_to_cash = false;
  is_data_get_cash = false;
  count_byte_read_from_cash = 0;
  cash_element = none;
  error = false;
}

-- A buffer with the shared cache, and the condition variables that have been signalled so far.
pub record World : Type 0 where
  pub buffer : Buffer
  pub cash : Cash
  pub signalled : List ℕ

-- How a call that may throw the ParseException ends. What it changed before stays changed.
pub data Completion : Type 0 where
  returned parse_exception : Completion

-- `_cashElement->`, where a null or stray pointer has no defined result.
unfoldable pub element_of : World → Option CashElement
element_of w = do p ← w.buffer.cash_element; get_elem? w.cash.elements p

-- A method of `*_cashElement` that changes it and may signal.
unfoldable pub update_element : (CashElement → CashElement × List ℕ) → World → Option World
unfolding element_of
update_element f w = do
  p ← w.buffer.cash_element
  e ← get_elem? w.cash.elements p
  some (record w {
    cash = record w.cash { elements = set w.cash.elements p (f e).0 };
    signalled = w.signalled ++ (f e).1;
  })
