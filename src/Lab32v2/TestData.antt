-- ===== src/Lab32v2/TestData.antt =====
-- Data for the tests: a platform, a request, a cache with one element, and worlds that use it.
use operating_systems_labs.Base.{true, false, some, [], ◌∷◌, Bytes, codes, length, pos}
use operating_systems_labs.Lab32v2.Cash.Element.{CashElement, Platform}
use operating_systems_labs.Lab32v2.Cash.{Cash}
use operating_systems_labs.Lab32v2.Buffer.{World, start, read_response, write_response_body}

-- The hash of a text is its length.
abbrev pub test_os : Platform
test_os = record { hasher = length; subscribers_lock = 0; data_lock = 0; meanwhile = λ c. c }

abbrev pub request_a : Bytes
request_a = codes "GET /a"

abbrev pub request_long : Bytes
request_long = codes "GET /long"

abbrev pub element_a : CashElement
element_a = record {
  count_connected_users = pos 0;
  is_download_end = false;
  is_server_connected = true;
  hash_request_heading = 6;
  request_heading = request_a;
  cash = 1 ∷ 2 ∷ 3 ∷ [];
  list_subscribers = 7 ∷ [];
  mutex_for_subscribers = 0;
  mutex_for_data = 0;
}

abbrev pub read_element : CashElement
read_element = record element_a { count_connected_users = pos 2; hash_request_heading = 3 }

abbrev pub empty_cash : Cash
empty_cash = record { mutex = 0; list_cash = []; byte_in_cash = pos 0; elements = [] }

abbrev pub cash_a : Cash
cash_a = record { mutex = 0; list_cash = 0 ∷ []; byte_in_cash = pos 9; elements = element_a ∷ [] }

-- A response of five bytes is being cached; two are still to come.
abbrev pub downloading : World
downloading = record {
  buffer = record start {
    status_client = read_response;
    status_http_server = write_response_body;
    is_client_connect = true;
    is_have_content_length_response = true;
    is_add_data_to_cash = true;
    length_body = pos 2;
    cash_element = some 0;
  };
  cash = cash_a;
  signalled = [];
}

-- A cached response of three bytes, of which one has been sent.
abbrev pub reader : World
reader = record {
  buffer = record start {
    status_client = read_response;
    is_client_connect = true;
    is_data_get_cash = true;
    count_byte_read_from_cash = 1;
    cash_element = some 0;
  };
  cash = cash_a;
  signalled = [];
}
