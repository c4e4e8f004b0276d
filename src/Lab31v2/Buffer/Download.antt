-- ===== src/Lab31v2/Buffer/Download.antt =====
-- lab31/v2: reading the whole body of a response that is being cached.
use operating_systems_labs.Base.{
  ℕ, ◌^◌, ◌<◌, ◌≡◌, refl, ap, sym, subst, ◌∙◌, arith, Bool, ◌||◌, some, List, [], ◌∷◌, ◌++◌,
  append-nil, append_assoc, Bytes, length, ◌==◌,
}
use operating_systems_labs.Lab31v2.Words.{sub_word}
use operating_systems_labs.Lab31v2.Cash.Element.{CashElement, append_cash}
use operating_systems_labs.Lab31v2.Buffer.{Buffer, World, wright_response_body}
use operating_systems_labs.Lab31v2.Buffer.Counting.{
  total, adds_up, comes_to_zero, comes_to_zero-adds_up,
}
use operating_systems_labs.Lab31v2.Buffer.Bodies.{
  Fills, read_body, concat, ended_element, left_after, keep_body-Fills, count_body-Fills,
}

step-Fills :
    (bs : Bytes) (w : World) (p : ℕ) (e : CashElement)
    → Fills w p e
    → (w' : World) × (wright_response_body bs w ≡ some w')
      × Fills w' p (ended_element (left_after bs w == 0) (append_cash bs e))
      × (w'.buffer.length_body ≡ left_after bs w)
      × (w'.buffer.is_end_send ≡ (left_after bs w == 0 || w.buffer.is_end_send))
unfolding wright_response_body
step-Fills bs w p e f =
    let (w1, kept, fills, same) = keep_body-Fills bs w p e f in
    let (w', counted, fills', left, flag) = count_body-Fills bs w1 p (append_cash bs e) fills in
    let count : left_after bs w1 ≡ left_after bs w =
      ap (λ (b : Buffer). sub_word b.length_body (length bs)) same in
    (
      w',
      rw kept counted,
      subst (λ n. Fills w' p (ended_element (n == 0) (append_cash bs e))) count fills',
      left ∙ count,
      flag ∙ ap (λ (b : Buffer). sub_word b.length_body (length bs) == 0 || b.is_end_send) same,
    )

-- The element with its contents and its flag.
abbrev pub filled : CashElement → Bytes → Bool → CashElement
filled e s over = record e { cash = s; is_cash_end = over }

filled-eq :
    (e : CashElement) (s t : Bytes) (a b : Bool) → s ≡ t → a ≡ b → filled e s a ≡ filled e t b
filled-eq e s t a b es eb = rw (es, eb) refl

or_shuffle : (a b c : Bool) → (b || (a || c)) ≡ ((a || b) || c)
or_shuffle a b c = ground arith

read_body-counted :
    (pieces : List Bytes) (w : World) (p : ℕ) (e : CashElement)
    → Fills w p e
    → (w' : World) × (read_body pieces w ≡ some w')
      × Fills w' p (
          filled e
            (e.cash ++ concat pieces)
            (comes_to_zero w.buffer.length_body pieces || e.is_cash_end))
      × (w'.buffer.is_end_send
          ≡ (comes_to_zero w.buffer.length_body pieces || w.buffer.is_end_send))
unfolding comes_to_zero
read_body-counted [] w p e f = (
  w,
  refl,
  subst (Fills w p)
      (filled-eq e e.cash (e.cash ++ []) e.is_cash_end e.is_cash_end (sym (append-nil e.cash)) refl)
      f,
  refl,
)
read_body-counted (bs ∷ pieces) w p e f =
    let (w1, first, fills, left, flag) = step-Fills bs w p e f in
    let over : Bool = left_after bs w == 0 in
    let e1 : CashElement = ended_element over (append_cash bs e) in
    let (w', rest, fills', flag') = read_body-counted pieces w1 p e1 fills in
    let later : comes_to_zero w1.buffer.length_body pieces
        ≡ comes_to_zero (left_after bs w) pieces =
      ap (λ n. comes_to_zero n pieces) left in
    let zero_then : Bool = comes_to_zero (left_after bs w) pieces in
    (
      w',
      rw first rest,
      subst (Fills w' p)
          (filled-eq e ((e.cash ++ bs) ++ concat pieces) (e.cash ++ (bs ++ concat pieces))
            (comes_to_zero w1.buffer.length_body pieces || (over || e.is_cash_end))
            ((over || zero_then) || e.is_cash_end) (append_assoc e.cash bs (concat pieces))
            (ap (λ z. z || (over || e.is_cash_end)) later
              ∙ or_shuffle over zero_then e.is_cash_end))
          fills',
      flag'
          ∙ ap (λ z. z || w1.buffer.is_end_send) later
          ∙ ap (λ z. zero_then || z) flag
          ∙ or_shuffle over zero_then w.buffer.is_end_send,
    )

-- What the pieces of a body that is being cached come to: they stand behind what the element p held, in
-- order; and the element is complete, and the response at its end, if it was so before or if some of the
-- first pieces add up to exactly what was left of the body. The pieces have less than 2 ^ 64 bytes.
pub read_body-adds_up :
    (pieces : List Bytes) (w : World) (p : ℕ) (e : CashElement)
    → Fills w p e
    → w.buffer.length_body < 2 ^ 64
    → total pieces < 2 ^ 64
    → (w' : World) × (read_body pieces w ≡ some w')
      × Fills w' p (
          filled e (e.cash ++ concat pieces) (adds_up w.buffer.length_body pieces || e.is_cash_end))
      × (w'.buffer.is_end_send ≡ (adds_up w.buffer.length_body pieces || w.buffer.is_end_send))
read_body-adds_up pieces w p e f hb ht =
    let (w', run, fills, flag) = read_body-counted pieces w p e f in
    let zero_then : comes_to_zero w.buffer.length_body pieces
        ≡ adds_up w.buffer.length_body pieces =
      comes_to_zero-adds_up w.buffer.length_body pieces hb ht in
    (
      w',
      run,
      subst (λ z. Fills w' p (filled e (e.cash ++ concat pieces) (z || e.is_cash_end))) zero_then
          fills,
      flag ∙ ap (λ z. z || w.buffer.is_end_send) zero_then,
    )
