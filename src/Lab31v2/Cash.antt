-- ===== src/Lab31v2/Cash.antt =====
-- lab31/v2/cash/CashImpl.cpp. The elements stand in a store and a `CashElement *` is an index of it;
-- an evicted element stays in the store, as the code does not free it. `_byteInCash` is the word that
-- its conversions to and from `unsigned long long` keep.
pub mod Element
use Element.{CashElement, new_cash_element}
use operating_systems_labs.Base.{
  ℕ, ◌+◌, Bool, true, false, Option, none, some, List, [], ◌∷◌, ◌++◌, Bytes, length, get_elem?, ltb,
  leb, not, ◌==◌, if◌then◌else◌, pos, leb_ℤ,
}
use operating_systems_labs.Lab31v2.Constants.{size_each_cash_element, max_cash_size}
use operating_systems_labs.Lab31v2.Words.{add_word, sub_word}

pub record Cash : Type 0 where
  pub list_cash : List ℕ
  pub byte_in_cash : ℕ
  pub elements : List CashElement

unfoldable pub has_hash : List CashElement → ℕ → ℕ → Bool
has_hash elements hash p = elim (get_elem? elements p) [
  | none ↦ false
  | some e ↦ e.hash_head == hash
]

-- The loop over `_listCash`.
unfoldable pub first_with_hash : List CashElement → ℕ → List ℕ → Option ℕ
unfolding has_hash
first_with_hash elements hash [] = none
first_with_hash elements hash (p ∷ ps) =
    if has_hash elements hash p then some p else first_with_hash elements hash ps

-- `splice` of the first such pointer to the end of the list.
unfoldable pub without_hash : List CashElement → ℕ → List ℕ → List ℕ
unfolding has_hash
without_hash elements hash [] = []
without_hash elements hash (p ∷ ps) =
    if has_hash elements hash p then ps else p ∷ without_hash elements hash ps

-- `getCountUsers() <= 0`
unfoldable pub is_idle : List CashElement → ℕ → Bool
is_idle elements p = elim (get_elem? elements p) [
  | none ↦ false
  | some e ↦ leb_ℤ e.count_users (pos 0)
]

-- What the eviction of an element leaves of `_byteInCash`.
unfoldable pub without_element : List CashElement → ℕ → ℕ → ℕ
without_element elements byte_in_cash p = elim (get_elem? elements p) [
  | none ↦ byte_in_cash
  | some e ↦ sub_word (sub_word byte_in_cash (length e.cash)) (length e.head)
]

-- `_byteInCash + dataSize < MAX_CASH_SIZE`
abbrev pub has_room : ℕ → ℕ → Bool
has_room data_size byte_in_cash = ltb (add_word byte_in_cash data_size) max_cash_size

abbrev keep_first : ℕ → Option (List ℕ × ℕ) → Option (List ℕ × ℕ)
keep_first p none = none
keep_first p (some (ps, byte_in_cash)) = some (p ∷ ps, byte_in_cash)

-- The eviction loop, from the iterator on. After an `erase` that did not make room the iterator steps
-- over the pointer behind the erased one, or past `end()`, which is undefined.
unfoldable pub evict : List CashElement → ℕ → ℕ → List ℕ → Option (List ℕ × ℕ)
unfolding is_idle without_element
evict elements data_size byte_in_cash [] = some ([], byte_in_cash)
evict elements data_size byte_in_cash (p ∷ []) = elim (is_idle elements p) [
  | true ↦
      let left : ℕ = without_element elements byte_in_cash p in
      if has_room data_size left then some ([], left) else none
  | false ↦ some (p ∷ [], byte_in_cash)
]
evict elements data_size byte_in_cash (p ∷ q ∷ ps) = elim (is_idle elements p) [
  | true ↦
      let left : ℕ = without_element elements byte_in_cash p in
      elim (has_room data_size left) [
        | true ↦ some (q ∷ ps, left)
        | false ↦ keep_first q (evict elements data_size left ps)
      ]
  | false ↦ keep_first p (evict elements data_size byte_in_cash (q ∷ ps))
]

module _ (hasher : Bytes → ℕ) where
  unfoldable pub find_response_in_cash : Cash → Bytes → Option ℕ × Cash
  unfolding first_with_hash without_hash
  find_response_in_cash c heading = elim (first_with_hash c.elements (hasher heading) c.list_cash) [
    | none ↦ (none, c)
    | some p ↦ (
      some p,
      record c { list_cash = without_hash c.elements (hasher heading) c.list_cash ++ p ∷ [] },
    )
  ]

  unfoldable pub is_element_in_cash : Cash → Bytes → Bool
  unfolding first_with_hash
  is_element_in_cash c request = elim (first_with_hash c.elements (hasher request) c.list_cash) [
    | none ↦ false
    | some p ↦ true
  ]

  -- The end of `addStringToCash`.
  unfoldable pub push_element : Bytes → ℕ → Cash → Option ℕ × Cash
  unfolding new_cash_element
  push_element request data_size c = (
    some (length c.elements),
    record c {
      list_cash = c.list_cash ++ length c.elements ∷ [];
      byte_in_cash = add_word c.byte_in_cash data_size;
      elements = c.elements ++ new_cash_element hasher request ∷ [];
    },
  )

  -- The cache is full: add if the loop has made room.
  unfoldable pub make_room : Bytes → ℕ → Cash → Option (Option ℕ × Cash)
  unfolding push_element evict
  make_room request data_size c =
      if ltb size_each_cash_element data_size
      then some (none, c)
      else elim (evict c.elements data_size c.byte_in_cash c.list_cash) [
        | none ↦ none
        | some (list_cash, byte_in_cash) ↦
            let evicted : Cash = record c { list_cash = list_cash; byte_in_cash = byte_in_cash } in
            if has_room data_size byte_in_cash
            then some (push_element request data_size evicted)
            else some (none, evicted)
      ]

  -- `dataSize` is a word; `none` is undefined behaviour, `some (none, _)` a null pointer.
  unfoldable pub add_string_to_cash : Bytes → ℕ → Cash → Option (Option ℕ × Cash)
  unfolding push_element make_room
  add_string_to_cash request data_size c =
      let data_size' : ℕ = add_word data_size (length request) in
      if has_room data_size' c.byte_in_cash
      then some (push_element request data_size' c)
      else make_room request data_size' c
