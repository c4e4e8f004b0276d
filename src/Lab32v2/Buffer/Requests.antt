-- ===== src/Lab32v2/Buffer/Requests.antt =====
-- What a read request leads to: an error, the cache, or the HTTP server.
use operating_systems_labs.Base.{
  ◌≡◌, ◌⊎◌, inl, inr, refl, ap, ◌∙◌, true, false, none, some, Bytes, Bool-cases, Option-cases, ℤ,
  Option, sym, subst,
}
use operating_systems_labs.Lab32v2.Parser.{
  ResultPars, end_heading, ResultParseHeading, find_end_heading, parsing_heading, substr,
}
use operating_systems_labs.Lab32v2.Cash.{Cash, is_element_in_cash}
use operating_systems_labs.Lab32v2.Cash.Element.{Platform}
use operating_systems_labs.Lab32v2.Buffer.{
  Buffer, World, Completion, returned, parse_exception, refuse_heading, take_from_cash,
  connect_to_server, begin_request, wright_request_heading,
}
use operating_systems_labs.Lab32v2.Buffer.Outcomes.{
  Refused, Cached, Connects, connect_to_server-fields, take_from_cash-Cached,
  take_from_cash-undefined,
}

wright_request_heading-ended :
    (os : Platform) (w : World) (pos_end : ℤ)
    → find_end_heading w.buffer.buf ≡ (end_heading, pos_end)
    → wright_request_heading os w ≡ begin_request os pos_end w
unfolding wright_request_heading
wright_request_heading-ended os w pos_end ended =
    ap
      (λ (q : ResultPars × ℤ). elim q.0 [
        | end_heading ↦ begin_request os q.1 w
        | _ ↦ some (returned, w)
      ])
      ended

begin_request-refused :
    (os : Platform) (w : World) (pos_end : ℤ)
    → parsing_heading (substr pos_end w.buffer.buf) ≡ none
    → begin_request os pos_end w
      ≡ some (
        parse_exception,
        record w {
          buffer =
              refuse_heading (record w.buffer { request_heading = substr pos_end w.buffer.buf });
        },
      )
unfolding begin_request
begin_request-refused os w pos_end refused = rw (refused, begin_request) refl

-- The world once the heading has been parsed.
abbrev with_request : ℤ → ResultParseHeading → World → World
with_request pos_end r w = record w {
  buffer = record w.buffer {
    request_heading = substr pos_end w.buffer.buf;
    result_parse_heading = some r;
  };
}

-- A request that the parser has taken: what the two lookups in the cache say decides. `meanwhile` is
-- the cache as the second one finds it.
abbrev pub Asked :
    Platform → Bytes → ResultParseHeading → World → Option (Completion × World) → Type 0
Asked os heading r w result =
    let meanwhile : Cash = os.meanwhile w.cash in
    ((is_element_in_cash os w.cash heading ≡ true)
      × (is_element_in_cash os meanwhile heading ≡ true)
      × (w' : World) × (result ≡ some (returned, w'))
      × Cached os heading w w')
    ⊎ ((is_element_in_cash os w.cash heading ≡ true)
        × (is_element_in_cash os meanwhile heading ≡ false)
        × (result ≡ none))
    ⊎ ((is_element_in_cash os w.cash heading ≡ false)
        × (w' : World) × (result ≡ some (returned, w'))
        × Connects heading r w w')

begin_request-gone :
    (os : Platform) (w : World) (pos_end : ℤ) (r : ResultParseHeading)
    → parsing_heading (substr pos_end w.buffer.buf) ≡ some r
    → is_element_in_cash os w.cash (substr pos_end w.buffer.buf) ≡ true
    → take_from_cash os (with_request pos_end r w) ≡ none
    → begin_request os pos_end w ≡ none
unfolding begin_request
begin_request-gone os w pos_end r parsed hit got = rw (parsed, begin_request, hit, got) refl

begin_request-hit :
    (os : Platform) (w w' : World) (pos_end : ℤ) (r : ResultParseHeading)
    → parsing_heading (substr pos_end w.buffer.buf) ≡ some r
    → is_element_in_cash os w.cash (substr pos_end w.buffer.buf) ≡ true
    → take_from_cash os (with_request pos_end r w) ≡ some w'
    → begin_request os pos_end w ≡ some (returned, w')
unfolding begin_request
begin_request-hit os w w' pos_end r parsed hit got = rw (parsed, begin_request, hit, got) refl

begin_request-miss :
    (os : Platform) (w : World) (pos_end : ℤ) (r : ResultParseHeading)
    → parsing_heading (substr pos_end w.buffer.buf) ≡ some r
    → is_element_in_cash os w.cash (substr pos_end w.buffer.buf) ≡ false
    → begin_request os pos_end w
      ≡ some (returned, record w { buffer = connect_to_server r (with_request pos_end r w).buffer })
unfolding begin_request
begin_request-miss os w pos_end r parsed miss = rw (parsed, begin_request, miss) refl

begin_request-found :
    (os : Platform) (w : World) (pos_end : ℤ) (r : ResultParseHeading)
    → parsing_heading (substr pos_end w.buffer.buf) ≡ some r
    → is_element_in_cash os w.cash (substr pos_end w.buffer.buf) ≡ true
    → Asked os (substr pos_end w.buffer.buf) r w (begin_request os pos_end w)
begin_request-found os w pos_end r parsed hit =
    let heading : Bytes = substr pos_end w.buffer.buf in
    let asked : World = with_request pos_end r w in
    elim (Bool-cases (is_element_in_cash os (os.meanwhile w.cash) heading)) [
      | inl again ↦
          let (w', got, cached) = take_from_cash-Cached os asked again in
          inl (
            hit,
            again,
            w',
            begin_request-hit os w w' pos_end r parsed hit got,
            record {
              pointer = cached.pointer;
              element = cached.element;
              cached = cached.cached;
              is_pointer = cached.is_pointer;
              stood = cached.stood;
              same_hash = cached.same_hash;
              stands = cached.stands;
              same_pointers = cached.same_pointers;
              client = cached.client;
              emptied = cached.emptied;
            },
          )
      | inr gone ↦ inr (
          inl (
            hit,
            gone,
            begin_request-gone os w pos_end r parsed hit (take_from_cash-undefined os asked gone),
          ))
    ]

begin_request-Asked :
    (os : Platform) (w : World) (pos_end : ℤ) (r : ResultParseHeading)
    → parsing_heading (substr pos_end w.buffer.buf) ≡ some r
    → Asked os (substr pos_end w.buffer.buf) r w (begin_request os pos_end w)
begin_request-Asked os w pos_end r parsed =
    let heading : Bytes = substr pos_end w.buffer.buf in
    elim (Bool-cases (is_element_in_cash os w.cash heading)) [
      | inl hit ↦ begin_request-found os w pos_end r parsed hit
      | inr miss ↦
          let b : Buffer = (with_request pos_end r w).buffer in
          let fields = connect_to_server-fields r b in
          inr (
            inr (
              miss,
              record w { buffer = connect_to_server r b },
              begin_request-miss os w pos_end r parsed miss,
              record {
                heading_kept = fields.0;
                parsed = fields.1;
                to_connect = fields.2;
                to_send = fields.3;
                same_buf = fields.4;
                same_cash = refl;
              },
            ))
    ]

-- `wrightRequestHeading` when the heading has ended at pos_end, for any cache and whatever the other
-- threads do to it between the two lookups. Either the parser rejects the heading; then it throws, and
-- the client gets the error message. Or both lookups find the request; then an element that has the
-- hash of the heading is read from now on. Or the first finds it and the second does not, since the
-- element has left the cache meanwhile or the cache cannot be locked; then a null pointer is
-- dereferenced, and there is no defined result. Or the first does not find it; then the HTTP server is
-- to be asked, and nothing of the cache changes.
pub wright_request_heading-cases :
    (os : Platform) (w : World) (pos_end : ℤ)
    → find_end_heading w.buffer.buf ≡ (end_heading, pos_end)
    → let heading : Bytes = substr pos_end w.buffer.buf in
      ((parsing_heading heading ≡ none)
        × (w' : World) × (wright_request_heading os w ≡ some (parse_exception, w'))
        × Refused w w')
      ⊎ ((r : ResultParseHeading) × (parsing_heading heading ≡ some r)
          × Asked os heading r w (wright_request_heading os w))
unfolding refuse_heading
wright_request_heading-cases os w pos_end ended =
    let heading : Bytes = substr pos_end w.buffer.buf in
    let run = wright_request_heading-ended os w pos_end ended in
    elim (Option-cases (parsing_heading heading)) [
      | inl refused ↦ inl (
        refused,
        record w { buffer = refuse_heading (record w.buffer { request_heading = heading }) },
        run ∙ begin_request-refused os w pos_end refused,
        record {
          message = refl;
          client = refl;
          to_send = refl;
          all_there = refl;
          error = refl;
          same_cash = refl;
        },
      )
      | inr (r, parsed) ↦ inr (
        r,
        parsed,
        subst (Asked os heading r w) (sym run) (begin_request-Asked os w pos_end r parsed),
      )
    ]
