-- ===== src/Lab32v2/Buffer/Download.antt =====
-- The body of a response that is being cached, over any number of reads.
use operating_systems_labs.Base.{
  ℕ, ◌+◌, ◌≡◌, inl, inr, refl, sym, ap, ◌∙◌, arith, Bool, true, some, List, [], ◌∷◌, ◌++◌, Bytes,
  append-nil, append_assoc, Bool-cases, if_true, if_false, length, length-append, ℤ, pos, ◌-ℤ◌,
  leb_ℤ, -ℤ_parts, eq_of_parts,
}
use operating_systems_labs.Lab32v2.Cash.Element.{CashElement, append_string_to_cash}
use operating_systems_labs.Lab32v2.Buffer.{Buffer, World, wright_response_body}
use operating_systems_labs.Lab32v2.Buffer.Bodies.{
  Fills, read_body, concat, append-fields, keep_body-Fills, left_after, ended_by, ended_element,
  count_body-Fills,
}

-- The two flags say whether nothing is left of the body.
abbrev pub Flagged : World → CashElement → Type 0
Flagged w e =
    (w.buffer.is_end_send ≡ leb_ℤ w.buffer.length_body (pos 0))
    × (e.is_download_end ≡ leb_ℤ w.buffer.length_body (pos 0))

leb-down : (n : ℕ) (left : ℤ) → leb_ℤ left (pos 0) ≡ true → leb_ℤ (left -ℤ pos n) (pos 0) ≡ true
leb-down n left h = ground (arith, -ℤ_parts left (pos n))

ended_by-leb :
    (n : ℕ) (left : ℤ) (before : Bool)
    → before ≡ leb_ℤ left (pos 0)
    → ended_by (left -ℤ pos n) before ≡ leb_ℤ (left -ℤ pos n) (pos 0)
ended_by-leb n left before h = elim (Bool-cases (leb_ℤ (left -ℤ pos n) (pos 0))) [
  | inl over ↦ if_true _ _ _ over ∙ sym over
  | inr more ↦ elim (Bool-cases (leb_ℤ left (pos 0))) [
    | inl over ↦ absurd (cc (leb-down n left over, more))
    | inr before_more ↦ if_false _ _ _ more ∙ h ∙ before_more ∙ sym more
  ]
]

sub_zero : (a : ℤ) → a -ℤ pos 0 ≡ a
sub_zero a = eq_of_parts (a -ℤ pos 0) a (omega (arith, -ℤ_parts a (pos 0)))

sub_sub : (a : ℤ) (m n : ℕ) → (a -ℤ pos m) -ℤ pos n ≡ a -ℤ pos (m + n)
sub_sub a m n =
    eq_of_parts ((a -ℤ pos m) -ℤ pos n) (a -ℤ pos (m + n))
      (omega (arith, -ℤ_parts a (pos m), -ℤ_parts (a -ℤ pos m) (pos n), -ℤ_parts a (pos (m + n))))

-- The world and the element after some bytes of the body have been read.
abbrev pub Filled : Bytes → World → CashElement → ℕ → World → CashElement → Type 0
Filled bs w e p w' e' =
    Fills w' p e'
    × (e'.cash ≡ e.cash ++ bs)
    × (w'.buffer.length_body ≡ w.buffer.length_body -ℤ pos (length bs))
    × Flagged w' e'

wright_response_body-Filled :
    (bs : Bytes) (w : World) (p : ℕ) (e : CashElement)
    → Fills w p e
    → Flagged w e
    → (w' : World) × (e' : CashElement) × (wright_response_body bs w ≡ some w')
      × Filled bs w e p w' e'
unfolding wright_response_body
wright_response_body-Filled bs w p e f (flag, flag') =
    let (w1, run1, f1, same) = keep_body-Fills bs w p e f in
    let e1 : CashElement = (append_string_to_cash bs e).0 in
    let (w2, run2, f2, left, flag2) = count_body-Fills bs w1 p e1 f1 in
    let appended = append-fields bs e f.unlocked in
    let left_w : left_after bs w1 ≡ left_after bs w =
      ap (λ (b : Buffer). b.length_body -ℤ pos (length bs)) same in
    let left2 : w2.buffer.length_body ≡ left_after bs w = left ∙ left_w in
    let over : leb_ℤ w2.buffer.length_body (pos 0) ≡ leb_ℤ (left_after bs w) (pos 0) =
      ap (λ (l : ℤ). leb_ℤ l (pos 0)) left2 in
    (
      w2,
      ended_element (leb_ℤ (left_after bs w1) (pos 0)) e1,
      rw run1 run2,
      (
        f2,
        appended.0,
        left2,
        (
          flag2
              ∙ ap (λ (b : Buffer). ended_by (b.length_body -ℤ pos (length bs)) b.is_end_send) same
              ∙ ended_by-leb (length bs) w.buffer.length_body w.buffer.is_end_send flag
              ∙ sym over,
          ap (λ (l : ℤ). ended_by l e1.is_download_end) left_w
              ∙ ap (ended_by (left_after bs w)) appended.2
              ∙ ended_by-leb (length bs) w.buffer.length_body e.is_download_end flag'
              ∙ sym over,
        ),
      ),
    )

-- While a response body with a length is being cached, its pieces are appended to the element in the
-- order they are read, whatever their sizes; the count of what is left goes down by as many bytes; and
-- the two flags, that the send may end and that the download has ended, are set exactly when nothing
-- is left. The condition is that this is so at the start, and that the element can be locked.
pub read_body-Filled :
    (pieces : List Bytes) (w : World) (p : ℕ) (e : CashElement)
    → Fills w p e
    → Flagged w e
    → (w' : World) × (e' : CashElement) × (read_body pieces w ≡ some w')
      × Filled (concat pieces) w e p w' e'
read_body-Filled [] w p e f flags =
    (w, e, refl, (f, sym (append-nil e.cash), sym (sub_zero w.buffer.length_body), flags))
read_body-Filled (bs ∷ pieces) w p e f flags =
    let (w1, e1, run1, (f1, cash1, left1, flags1)) = wright_response_body-Filled bs w p e f flags in
    let (w2, e2, run2, (f2, cash2, left2, flags2)) = read_body-Filled pieces w1 p e1 f1 flags1 in
    (
      w2,
      e2,
      rw run1 run2,
      (
        f2,
        cash2
            ∙ ap (λ (l : Bytes). l ++ concat pieces) cash1
            ∙ append_assoc e.cash bs (concat pieces),
        left2
            ∙ ap (λ (l : ℤ). l -ℤ pos (length (concat pieces))) left1
            ∙ sub_sub w.buffer.length_body (length bs) (length (concat pieces))
            ∙ ap (λ (n : ℕ). w.buffer.length_body -ℤ pos n)
                (sym (length-append bs (concat pieces))),
        flags2,
      ),
    )
