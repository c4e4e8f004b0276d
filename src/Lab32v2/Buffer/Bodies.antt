-- ===== src/Lab32v2/Buffer/Bodies.antt =====
-- One piece of a response body that is being cached: what the calls that it leads to do.
use operating_systems_labs.Base.{
  ℕ, ◌≡◌, refl, ap, ◌∙◌, arith, Bool, true, false, Option, some, List, [], ◌∷◌, ◌++◌, Bytes, ◌>>=◌,
  if◌then◌else◌, if_true, length, get_elem?, set, get_elem?-set_self, get_elem?-lt, ◌==◌, ℤ, pos,
  ◌-ℤ◌, leb_ℤ,
}
use operating_systems_labs.Lab32v2.Cash.Element.{
  CashElement, append_string_to_cash, set_download_end,
}
use operating_systems_labs.Lab32v2.Buffer.{
  Buffer, World, update_element, keep_body, end_download, count_body, wright_response_body,
}

-- A body with a length is read into the element at p, which can be locked.
pub record Fills (w : World) (p : ℕ) (e : CashElement) : Type 0 where
  pub adds : w.buffer.is_add_data_to_cash ≡ true
  pub counted : w.buffer.is_have_content_length_response ≡ true
  pub pointer : w.buffer.cash_element ≡ some p
  pub stands : get_elem? w.cash.elements p ≡ some e
  pub unlocked : (e.mutex_for_data == 0) ≡ true

-- The calls of `wrightResponseBody` for the pieces of a body.
abbrev pub read_body : List Bytes → World → Option World
read_body [] w = some w
read_body (bs ∷ pieces) w = do w' ← wright_response_body bs w; read_body pieces w'

abbrev pub concat : List Bytes → Bytes
concat [] = []
concat (bs ∷ pieces) = bs ++ concat pieces

update_element-at :
    (f : CashElement → CashElement × List ℕ) (w : World) (p : ℕ) (e : CashElement)
    → w.buffer.cash_element ≡ some p
    → get_elem? w.cash.elements p ≡ some e
    → update_element f w
      ≡ some (record w {
        cash = record w.cash { elements = set w.cash.elements p (f e).0 };
        signalled = w.signalled ++ (f e).1;
      })
unfolding update_element
update_element-at f w p e pointer stands = ground arith

pub append-fields :
    (bs : Bytes) (e : CashElement)
    → (e.mutex_for_data == 0) ≡ true
    → ((append_string_to_cash bs e).0.cash ≡ e.cash ++ bs)
      × ((append_string_to_cash bs e).0.mutex_for_data ≡ e.mutex_for_data)
      × ((append_string_to_cash bs e).0.is_download_end ≡ e.is_download_end)
unfolding append_string_to_cash
append-fields bs e unlocked = ground arith

-- A method that keeps the mutex, called on the element at p.
update_element-Fills :
    (f : CashElement → CashElement × List ℕ) (w : World) (p : ℕ) (e : CashElement)
    → Fills w p e
    → (f e).0.mutex_for_data ≡ e.mutex_for_data
    → (w' : World) × (update_element f w ≡ some w') × Fills w' p (f e).0 × (w'.buffer ≡ w.buffer)
update_element-Fills f w p e fills same = (
  record w {
    cash = record w.cash { elements = set w.cash.elements p (f e).0 };
    signalled = w.signalled ++ (f e).1;
  },
  update_element-at f w p e fills.pointer fills.stands,
  record {
    adds = fills.adds;
    counted = fills.counted;
    pointer = fills.pointer;
    stands =
        get_elem?-set_self w.cash.elements p (f e).0
          (get_elem?-lt w.cash.elements p e fills.stands);
    unlocked = rw same fills.unlocked;
  },
  refl,
)

pub keep_body-Fills :
    (bs : Bytes) (w : World) (p : ℕ) (e : CashElement)
    → Fills w p e
    → (w' : World) × (keep_body bs w ≡ some w')
      × Fills w' p (append_string_to_cash bs e).0
      × (w'.buffer ≡ record w.buffer { is_ready_to_send = true })
unfolding keep_body
keep_body-Fills bs w p e f =
    let w1 : World = record w { buffer = record w.buffer { is_ready_to_send = true } } in
    let f1 : Fills w1 p e = record {
      adds = f.adds;
      counted = f.counted;
      pointer = f.pointer;
      stands = f.stands;
      unlocked = f.unlocked;
    } in
    let (w', run, fills, same) =
      update_element-Fills (append_string_to_cash bs) w1 p e f1 (append-fields bs e f.unlocked).1 in
    (w', if_true _ _ _ f.adds ∙ run, fills, same)

-- What is left of the body after one more piece.
abbrev pub left_after : Bytes → World → ℤ
left_after bs w = w.buffer.length_body -ℤ pos (length bs)

-- What has ended once n bytes are left: the flag is set then, and is never taken back.
abbrev pub ended_by : ℤ → Bool → Bool
ended_by left before = if leb_ℤ left (pos 0) then true else before

-- The element as `setDownloadEnd` leaves it.
abbrev pub ended_element : Bool → CashElement → CashElement
ended_element over e = record e { is_download_end = if over then true else e.is_download_end }

-- The buffer once the test of what is left has been made.
abbrev stop : Bool → ℤ → Buffer → Buffer
stop over left b =
    if over
    then record b { length_body = left; is_end_send = true }
    else record b { length_body = left }

stop-Fills :
    (over : Bool) (left : ℤ) (w : World) (p : ℕ) (e : CashElement)
    → Fills w p e
    → Fills (record w { buffer = stop over left w.buffer }) p e
stop-Fills true left w p e f = record {
  adds = f.adds;
  counted = f.counted;
  pointer = f.pointer;
  stands = f.stands;
  unlocked = f.unlocked;
}
stop-Fills false left w p e f = record {
  adds = f.adds;
  counted = f.counted;
  pointer = f.pointer;
  stands = f.stands;
  unlocked = f.unlocked;
}

end_download-Fills :
    (over : Bool) (left : ℤ) (w : World) (p : ℕ) (e : CashElement)
    → Fills w p e
    → (w' : World) × (end_download over (record w { buffer = stop over left w.buffer }) ≡ some w')
      × Fills w' p (ended_element over e)
      × (w'.buffer.length_body ≡ left)
      × (w'.buffer.is_end_send ≡ (if over then true else w.buffer.is_end_send))
unfolding end_download
end_download-Fills true left w p e f =
    let (w', run, fills, same) =
      update_element-Fills (λ e. (set_download_end true e, []))
        (record w { buffer = stop true left w.buffer }) p e (stop-Fills true left w p e f) refl in
    (
      w',
      if_true _ _ _ f.adds ∙ run,
      fills,
      ap (λ b. b.length_body) same,
      ap (λ b. b.is_end_send) same,
    )
end_download-Fills false left w p e f = (
  record w { buffer = stop false left w.buffer },
  refl,
  stop-Fills false left w p e f,
  refl,
  refl,
)

pub count_body-Fills :
    (bs : Bytes) (w : World) (p : ℕ) (e : CashElement)
    → Fills w p e
    → (w' : World) × (count_body bs w ≡ some w')
      × Fills w' p (ended_element (leb_ℤ (left_after bs w) (pos 0)) e)
      × (w'.buffer.length_body ≡ left_after bs w)
      × (w'.buffer.is_end_send ≡ ended_by (left_after bs w) w.buffer.is_end_send)
unfolding count_body
count_body-Fills bs w p e f =
    let (w', run, fills, left, flag) =
      end_download-Fills (leb_ℤ (left_after bs w) (pos 0)) (left_after bs w) w p e f in
    (w', if_true _ _ _ f.counted ∙ run, fills, left, flag)
