-- ===== src/Lab31v2/Buffer/Bodies.antt =====
-- lab31/v2: reading the body of a response that is being cached.
use operating_systems_labs.Base.{
  ℕ, ◌≡◌, refl, ◌∙◌, arith, Bool, true, false, ◌||◌, Option, some, List, [], ◌∷◌, ◌++◌, Bytes,
  ◌>>=◌, if◌then◌else◌, if_true, length, get_elem?, set, get_elem?-set_self, get_elem?-lt, ◌==◌,
}
use operating_systems_labs.Lab31v2.Words.{sub_word}
use operating_systems_labs.Lab31v2.Cash.Element.{CashElement, append_cash, set_is_cash_end}
use operating_systems_labs.Lab31v2.Buffer.{
  Buffer, World, update_element, keep_body, end_cash, set_left, count_body, wright_response_body,
}

-- A body with a length is read into the element at p.
pub record Fills (w : World) (p : ℕ) (e : CashElement) : Type 0 where
  pub adds : w.buffer.is_add_data_to_cash ≡ true
  pub counted : w.buffer.is_have_content_length_response ≡ true
  pub pointer : w.buffer.cash_element ≡ some p
  pub stands : get_elem? w.cash.elements p ≡ some e

-- The calls of `wrightResponseBody` for the pieces of a body.
abbrev pub read_body : List Bytes → World → Option World
read_body [] w = some w
read_body (bs ∷ pieces) w = do w' ← wright_response_body bs w; read_body pieces w'

abbrev pub concat : List Bytes → Bytes
concat [] = []
concat (bs ∷ pieces) = bs ++ concat pieces

abbrev at_element : (CashElement → CashElement) → World → ℕ → CashElement → World
at_element f w p e = record w { cash = record w.cash { elements = set w.cash.elements p (f e) } }

update_element-at :
    (f : CashElement → CashElement) (w : World) (p : ℕ) (e : CashElement)
    → w.buffer.cash_element ≡ some p
    → get_elem? w.cash.elements p ≡ some e
    → update_element f w ≡ some (at_element f w p e)
unfolding update_element
update_element-at f w p e pointer stands = ground arith

update_element-Fills :
    (f : CashElement → CashElement) (w : World) (p : ℕ) (e : CashElement)
    → Fills w p e
    → (update_element f w ≡ some (at_element f w p e)) × Fills (at_element f w p e) p (f e)
update_element-Fills f w p e fills = (
  update_element-at f w p e fills.pointer fills.stands,
  record {
    adds = fills.adds;
    counted = fills.counted;
    pointer = fills.pointer;
    stands =
        get_elem?-set_self w.cash.elements p (f e) (get_elem?-lt w.cash.elements p e fills.stands);
  },
)

-- A change of the other fields of the buffer.
same_Fills :
    (w : World) (b : Buffer) (p : ℕ) (e : CashElement)
    → Fills w p e
    → b.is_add_data_to_cash ≡ w.buffer.is_add_data_to_cash
    → b.is_have_content_length_response ≡ w.buffer.is_have_content_length_response
    → b.cash_element ≡ w.buffer.cash_element
    → Fills (record w { buffer = b }) p e
same_Fills w b p e fills adds counted pointer = record {
  adds = adds ∙ fills.adds;
  counted = counted ∙ fills.counted;
  pointer = pointer ∙ fills.pointer;
  stands = fills.stands;
}

pub keep_body-Fills :
    (bs : Bytes) (w : World) (p : ℕ) (e : CashElement)
    → Fills w p e
    → (w' : World) × (keep_body bs w ≡ some w')
      × Fills w' p (append_cash bs e)
      × (w'.buffer ≡ record w.buffer { is_ready_to_send = true })
unfolding keep_body
keep_body-Fills bs w p e f =
    let w1 : World = record w { buffer = record w.buffer { is_ready_to_send = true } } in
    let (run, fills) =
      update_element-Fills (append_cash bs) w1 p e (same_Fills w w1.buffer p e f refl refl refl) in
    (at_element (append_cash bs) w1 p e, if_true _ _ _ f.adds ∙ run, fills, refl)

-- The element once `setIsCashEnd` has been called, if it is.
abbrev pub ended_element : Bool → CashElement → CashElement
ended_element over e = record e { is_cash_end = over || e.is_cash_end }

-- The buffer once the test of what is left has been made.
abbrev stop : Bool → ℕ → Buffer → Buffer
stop over left b =
    if over
    then record b { length_body = left; is_end_send = true }
    else record b { length_body = left }

end_cash-Fills :
    (over : Bool) (left : ℕ) (w : World) (p : ℕ) (e : CashElement)
    → Fills w p e
    → (w' : World) × (end_cash over (record w { buffer = stop over left w.buffer }) ≡ some w')
      × Fills w' p (ended_element over e)
      × (w'.buffer.length_body ≡ left)
      × (w'.buffer.is_end_send ≡ (over || w.buffer.is_end_send))
unfolding end_cash
end_cash-Fills true left w p e f =
    let b : Buffer = stop true left w.buffer in
    let (run, fills) =
      update_element-Fills (set_is_cash_end true) (record w { buffer = b }) p e
        (same_Fills w b p e f refl refl refl) in
    (
      at_element (set_is_cash_end true) (record w { buffer = b }) p e,
      if_true _ _ _ f.adds ∙ run,
      fills,
      refl,
      refl,
    )
end_cash-Fills false left w p e f =
    let b : Buffer = stop false left w.buffer in
    (record w { buffer = b }, refl, same_Fills w b p e f refl refl refl, refl, refl)

-- What is left of the body after one more piece.
abbrev pub left_after : Bytes → World → ℕ
left_after bs w = sub_word w.buffer.length_body (length bs)

pub count_body-Fills :
    (bs : Bytes) (w : World) (p : ℕ) (e : CashElement)
    → Fills w p e
    → (w' : World) × (count_body bs w ≡ some w')
      × Fills w' p (ended_element (left_after bs w == 0) e)
      × (w'.buffer.length_body ≡ left_after bs w)
      × (w'.buffer.is_end_send ≡ (left_after bs w == 0 || w.buffer.is_end_send))
unfolding count_body set_left
count_body-Fills bs w p e f =
    let (w', run, fills, left, flag) =
      end_cash-Fills (left_after bs w == 0) (left_after bs w) w p e f in
    (w', if_true _ _ _ f.counted ∙ run, fills, left, flag)
