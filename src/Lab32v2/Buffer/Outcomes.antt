-- ===== src/Lab32v2/Buffer/Outcomes.antt =====
-- The three outcomes of a request heading, and what a hit in the cache does.
use mathlib.Core.List.{Perm}
use operating_systems_labs.Base.{
  ℕ, ◌≡◌, inl, inr, refl, arith, true, false, none, some, [], ◌∷◌, ◌++◌, Bytes, get_elem?, set,
  get_elem?-set_self, get_elem?-lt, codes,
}
use operating_systems_labs.Lab32v2.Parser.{ResultParseHeading}
use operating_systems_labs.Lab32v2.Cash.{Cash, is_element_in_cash}
use operating_systems_labs.Lab32v2.Cash.Element.{CashElement, Platform, add_count_users}
use operating_systems_labs.Lab32v2.Cash.Lookup.{find_response_in_cash-cases, has_hash-get}
use operating_systems_labs.Lab32v2.Buffer.{
  read_response, Buffer, World, update_element, take_from_cash, connect_to_server,
}

-- The parser has thrown: the client will get the error message, and the cache is as it was.
pub record Refused (w w' : World) : Type 0 where
  pub message : w'.buffer.buf ≡ codes "incorrect heading" ++ 13 ∷ 10 ∷ []
  pub client : w'.buffer.status_client ≡ read_response
  pub to_send : w'.buffer.is_ready_to_send ≡ true
  pub all_there : w'.buffer.is_end_send ≡ true
  pub error : w'.buffer.error ≡ true
  pub same_cash : w'.cash ≡ w.cash

-- The response is taken from the cache, as the other threads have left it meanwhile: from an element with the hash of the heading, which has one
-- more user if it can be locked, and whose pointer is kept in the list.
pub record Cached (os : Platform) (heading : Bytes) (w w' : World) : Type 0 where
  pub pointer : ℕ
  pub element : CashElement
  pub cached : w'.buffer.is_data_get_cash ≡ true
  pub is_pointer : w'.buffer.cash_element ≡ some pointer
  pub stood : get_elem? (os.meanwhile w.cash).elements pointer ≡ some element
  pub same_hash : element.hash_request_heading ≡ os.hasher heading
  pub stands : get_elem? w'.cash.elements pointer ≡ some (add_count_users element)
  pub same_pointers : Perm (os.meanwhile w.cash).list_cash w'.cash.list_cash
  pub client : w'.buffer.status_client ≡ read_response
  pub emptied : w'.buffer.buf ≡ []

-- The request goes to the HTTP server.
pub record Connects (heading : Bytes) (r : ResultParseHeading) (w w' : World) : Type 0 where
  pub heading_kept : w'.buffer.request_heading ≡ heading
  pub parsed : w'.buffer.result_parse_heading ≡ some r
  pub to_connect : w'.buffer.is_ready_connect_http_server ≡ true
  pub to_send : w'.buffer.is_ready_to_send ≡ true
  pub same_buf : w'.buffer.buf ≡ w.buffer.buf
  pub same_cash : w'.cash ≡ w.cash

pub connect_to_server-fields :
    (r : ResultParseHeading) (b : Buffer)
    → ((connect_to_server r b).request_heading ≡ b.request_heading)
      × ((connect_to_server r b).result_parse_heading ≡ b.result_parse_heading)
      × ((connect_to_server r b).is_ready_connect_http_server ≡ true)
      × ((connect_to_server r b).is_ready_to_send ≡ true)
      × ((connect_to_server r b).buf ≡ b.buf)
unfolding connect_to_server
connect_to_server-fields r b = ground arith

-- The world after a hit at p.
abbrev after_hit : ℕ → CashElement → Cash → World → World
after_hit p e c w = record w {
  buffer = record w.buffer {
    is_data_get_cash = true;
    cash_element = some p;
    buf = [];
    status_client = read_response;
  };
  cash = record c { elements = set c.elements p (add_count_users e) };
  signalled = w.signalled ++ [];
}

-- The cached response, once the lookup has found the pointer p.
pub take_from_cash-Cached :
    (os : Platform) (w : World)
    → is_element_in_cash os (os.meanwhile w.cash) w.buffer.request_heading ≡ true
    → (w' : World) × (take_from_cash os w ≡ some w') × Cached os w.buffer.request_heading w w'
unfolding take_from_cash update_element
take_from_cash-Cached os w h =
    elim (find_response_in_cash-cases os (os.meanwhile w.cash) w.buffer.request_heading) [
      | inl (absent, _) ↦ absurd (cc)
      | inr (p, c', found) ↦
          let (e, stood, same) =
            has_hash-get (os.meanwhile w.cash).elements (os.hasher w.buffer.request_heading) p
              found.same_hash in
          let stood' : get_elem? c'.elements p ≡ some e = rw found.same_elements stood in
          (
            after_hit p e c' w,
            rw (found.answer, stood') refl,
            record {
              pointer = p;
              element = e;
              cached = refl;
              is_pointer = refl;
              stood = stood;
              same_hash = same;
              stands =
                  get_elem?-set_self c'.elements p (add_count_users e)
                    (get_elem?-lt c'.elements p e stood');
              same_pointers = found.same_pointers;
              client = refl;
              emptied = refl;
            },
          )
    ]

-- The request has left the cache meanwhile.
pub take_from_cash-undefined :
    (os : Platform) (w : World)
    → is_element_in_cash os (os.meanwhile w.cash) w.buffer.request_heading ≡ false
    → take_from_cash os w ≡ none
unfolding take_from_cash update_element
take_from_cash-undefined os w h =
    elim (find_response_in_cash-cases os (os.meanwhile w.cash) w.buffer.request_heading) [
      | inl (absent, missing) ↦ rw missing refl
      | inr (p, c', found) ↦ absurd (cc (found.is_element, h))
    ]
