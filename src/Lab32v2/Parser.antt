-- ===== src/Lab32v2/Parser.antt =====
-- lab32v2/parser: ParserTypeRequest.h, ResultParseHeading.h and ParserImpl.cpp. A heading is a byte
-- string. `none` for a `ResultParseHeading` is the ParseException.
mod Tests
mod Regex
pub mod Ends
pub mod Heading
pub mod Response
unfoldable pub use Regex.{
  is_digit, host_char, after, host_literal, content_length_literal, span, port_group, port_rounds,
  commit, reading, digits_value, atoi,
}
use operating_systems_labs.Base.{
  ℕ, zero, suc, Bool, true, false, Option, none, some, [], ◌∷◌, Bytes, codes, bytes_eq, find, take,
  drop, length, ltb, if◌then◌else◌, ℤ, pos, negsuc, npos, to_int, add_int, to_size,
}

pub data TypeRequestAndResponse : Type 0 where
  get_request normal_response not_cash_response : TypeRequestAndResponse
  get_request_not_cash not_get_request invalid : TypeRequestAndResponse

pub data ResultPars : Type 0 where
  end_heading end_body nothing : ResultPars

pub record ResultParseHeading : Type 0 where
  pub host_name : Bytes
  pub content_length : ℤ
  pub type : TypeRequestAndResponse
  pub response_with_error : Bool
  pub port : ℤ
  pub have_content_length : Bool

-- A new ResultParseHeading on which `setType` has been called; each caller does so first.
abbrev pub with_type : TypeRequestAndResponse → ResultParseHeading
with_type t = record {
  host_name = [];
  content_length = pos 0;
  type = t;
  response_with_error = false;
  port = pos 80;
  have_content_length = false;
}

-- `buf.find(p)` stored in an `int`.
unfoldable pub find_int : Bytes → Bytes → ℤ
find_int p buf = elim (find p buf) [ none ↦ to_int npos | some k ↦ to_int k ]

-- The comparison of an `int` with `std::string::npos`: -1 converts to it.
unfoldable pub is_npos : ℤ → Bool
is_npos (negsuc zero) = true
is_npos _ = false

abbrev pub end_of_heading : Bytes
end_of_heading = 13 ∷ 10 ∷ 13 ∷ 10 ∷ []

abbrev pub end_of_body : Bytes
end_of_body = b'0' ∷ 13 ∷ 10 ∷ 13 ∷ 10 ∷ []

-- The answer to a search, with what `*posEnd` is set to.
unfoldable pub end_answer : ResultPars → ℕ → ℤ → ResultPars × ℤ
unfolding is_npos
end_answer found size result_finding =
    if is_npos result_finding then (nothing, negsuc 0) else (found, add_int result_finding size)

unfoldable pub find_end_heading : Bytes → ResultPars × ℤ
unfolding end_answer find_int
find_end_heading buf = end_answer end_heading 4 (find_int end_of_heading buf)

unfoldable pub find_end_body : Bytes → ResultPars × ℤ
unfolding end_answer find_int
find_end_body buffer = end_answer end_body 5 (find_int end_of_body buffer)

-- `s.substr(0, n)` with an `int` for n.
unfoldable pub substr : ℤ → Bytes → Bytes
substr n s = take (to_size n) s

-- The match has the whole text and one group, so its size is 2.
unfoldable pub find_content_length : ResultParseHeading → Bytes → ResultParseHeading
find_content_length result buf = elim (after content_length_literal buf) [
  | none ↦ record result { have_content_length = false }
  | some rest ↦ record result {
    content_length = atoi (span is_digit rest).0;
    have_content_length = true;
  }
]

-- The port that `findHostAndPort` sets, from the text of the second group, such as ":8080".
unfoldable pub port_of : Bytes → ℤ
port_of group = if ltb 1 (length group) then atoi (drop 1 group) else pos 80

-- The match has two groups, so its size is 3 and the second branch is taken.
unfoldable pub find_host_and_port : ResultParseHeading → Bytes → Option ResultParseHeading
unfolding port_of
find_host_and_port result buf = elim (after host_literal buf) [
  | none ↦ none
  | some rest ↦ some (record result {
    host_name = (span host_char rest).0;
    port = port_of (port_group (span host_char rest).1);
  })
]

unfoldable pub request_type : Bytes → TypeRequestAndResponse
request_type heading =
    if bytes_eq (take 3 heading) (codes "GET") then get_request else not_get_request

unfoldable pub parsing_heading : Bytes → Option ResultParseHeading
unfolding request_type find_content_length find_host_and_port
parsing_heading heading =
    if ltb 3 (length heading)
    then find_host_and_port (find_content_length (with_type (request_type heading)) heading) heading
    else none

normal : ResultParseHeading
normal = record (with_type normal_response) { response_with_error = false }

unfoldable pub parsing_response_heading : Bytes → ResultParseHeading
unfolding find_int is_npos find_content_length normal
parsing_response_heading heading =
    if is_npos (find_int (codes "HTTP/1.1 200 OK") heading)
    then (if is_npos (find_int (codes "200 OK") heading)
        then find_content_length (record (with_type invalid) { response_with_error = true }) heading
        else find_content_length normal heading)
    else find_content_length normal heading
