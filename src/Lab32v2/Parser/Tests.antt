-- ===== src/Lab32v2/Parser/Tests.antt =====
-- Tests of the parser.
use operating_systems_labs.Base.{
  ℕ, ◌≡◌, ◌↔◌, ◌⊎◌, ◌≤◌, refl, arith, none, some, [], ◌∷◌, ◌++◌, Bytes, take, codes, length, Occurs,
  Leftmost, find, starts_with, find-Leftmost, pos,
}
use operating_systems_labs.Lab32v2.Parser.{
  ResultParseHeading, get_request, parsing_heading, parsing_response_heading,
}
use operating_systems_labs.Lab32v2.Parser.Regex.{
  host_literal, content_length_literal, digits_value, host_char,
}
use operating_systems_labs.Lab32v2.Parser.Heading.{
  with_host, parsing_heading-none_iff, parsing_heading-with_host,
}
use operating_systems_labs.Lab32v2.Parser.Response.{parsing_response_heading-length}

abbrev two_lines : Bytes
two_lines = codes "GET" ++ 13 ∷ 10 ∷ 13 ∷ 10 ∷ []

abbrev ok_response : Bytes
ok_response = codes "HTTP/1.0 200 OK"

parsing_heading-none_iff_example :
    (parsing_heading two_lines ≡ none)
    ↔ ((length two_lines ≤ 3) ⊎ ((k : ℕ) → ¬ Occurs host_literal two_lines k))
parsing_heading-none_iff_example = parsing_heading-none_iff two_lines

abbrev host_heading : Bytes
host_heading = with_host (codes "GET ") (codes "a.b") (codes "80") []

host_first : Leftmost host_literal host_heading 4
unfolding find starts_with
host_first = find-Leftmost host_literal host_heading 4 refl

parsing_heading-with_host_example :
    (r : ResultParseHeading) × (parsing_heading host_heading ≡ some r)
    × (r.host_name ≡ codes "a.b")
    × (r.port ≡ pos 80)
    × ((r.type ≡ get_request) ↔ (take 3 host_heading ≡ codes "GET"))
unfolding digits_value host_char
parsing_heading-with_host_example =
    parsing_heading-with_host (codes "GET ") (codes "a.b") b'8' (b'0' ∷ []) [] host_first
      (refl, (refl, (refl, tt))) (refl, (refl, tt)) (omega arith)

abbrev with_length : Bytes
with_length = codes "ok " ++ (content_length_literal ++ (codes "12" ++ 13 ∷ []))

length_first : Leftmost content_length_literal with_length 3
unfolding find starts_with
length_first = find-Leftmost content_length_literal with_length 3 refl

parsing_response_heading-length_example :
    (parsing_response_heading with_length).content_length ≡ pos 12
unfolding digits_value
parsing_response_heading-length_example =
    parsing_response_heading-length (codes "ok ") (codes "12") [] length_first (refl, (refl, tt))
      (omega arith)
