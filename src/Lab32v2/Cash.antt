-- ===== src/Lab32v2/Cash.antt =====
-- lab32v2/cash: CashElementImpl.cpp and CashImpl.cpp. The elements stand in a store and a `CashElement *`
-- is an index of it; nothing removes an element from the store, since the code frees none before the
-- cache itself is freed. A mutex is the code that locking it returns, 0 when it can be locked; what
-- unlocking returns is only logged. `none` for a result ends the thread: undefined behaviour, or an
-- exception that nothing catches.
mod Tests
pub mod Element
pub mod Lookup
pub mod Evictions
pub mod Room
pub mod Limits
pub mod Faults
pub mod Dropping
pub mod Accounts
pub use Element.{Cash}
use Element.{CashElement, Platform, create}
use operating_systems_labs.Base.{
  ℕ, ◌+◌, Bool, true, false, Option, none, some, List, [], ◌∷◌, ◌++◌, Bytes, length, get_elem?, set,
  ◌==◌, if◌then◌else◌, ℤ, pos, ◌+ℤ◌, ◌-ℤ◌, leb_ℤ, ltb_ℤ,
}
use operating_systems_labs.Lab32v2.Constants.{size_each_cash_element, max_cash_size}

-- `new CashImpl()`: the constructor leaves `byteInCash` with the value that it finds.
unfoldable pub init : ℕ → ℤ → Cash
init init_code found = record {
  mutex = init_code;
  list_cash = [];
  byte_in_cash = found;
  elements = [];
}

-- Whether the element at a pointer has the hash. A pointer outside the store has none.
unfoldable pub has_hash : List CashElement → ℕ → ℕ → Bool
has_hash elements hash p = elim (get_elem? elements p) [
  | none ↦ false
  | some e ↦ e.hash_request_heading == hash
]

-- The loop over `_listCash`: the first pointer whose element has the hash.
unfoldable pub first_with_hash : List CashElement → ℕ → List ℕ → Option ℕ
unfolding has_hash
first_with_hash elements hash [] = none
first_with_hash elements hash (p ∷ ps) =
    if has_hash elements hash p then some p else first_with_hash elements hash ps

-- `splice` of the first such pointer to the end of the list.
unfoldable pub without_hash : List CashElement → ℕ → List ℕ → List ℕ
unfolding has_hash
without_hash elements hash [] = []
without_hash elements hash (p ∷ ps) =
    if has_hash elements hash p then ps else p ∷ without_hash elements hash ps

-- `getCountUsers() <= 0`
unfoldable pub is_idle : List CashElement → ℕ → Bool
is_idle elements p = elim (get_elem? elements p) [
  | none ↦ false
  | some e ↦ leb_ℤ e.count_connected_users (pos 0)
]

-- What the eviction of an element takes off `byteInCash`.
unfoldable pub weight : List CashElement → ℕ → ℕ
weight elements p = elim (get_elem? elements p) [
  | none ↦ 0
  | some e ↦ length e.cash + length e.request_heading
]

-- `byteInCash + dataSize < MAX_CASH_SIZE`
abbrev pub has_room : ℤ → ℤ → Bool
has_room data_size byte_in_cash = ltb_ℤ (byte_in_cash +ℤ data_size) (pos max_cash_size)

abbrev keep_first : ℕ → Option (List ℕ × ℤ) → Option (List ℕ × ℤ)
keep_first p none = none
keep_first p (some (ps, byte_in_cash)) = some (p ∷ ps, byte_in_cash)

-- The eviction loop, from the iterator on: the pointers that stay, and the new `byteInCash`. After an
-- `erase` that did not make room the iterator steps over the pointer behind the erased one; where
-- the erased one was the last, it is stepped past `end()`, which is undefined.
unfoldable pub evict : List CashElement → ℤ → ℤ → List ℕ → Option (List ℕ × ℤ)
unfolding is_idle weight
evict elements data_size byte_in_cash [] = some ([], byte_in_cash)
evict elements data_size byte_in_cash (p ∷ []) = elim (is_idle elements p) [
  | true ↦
      let left : ℤ = byte_in_cash -ℤ pos (weight elements p) in
      if has_room data_size left then some ([], left) else none
  | false ↦ some (p ∷ [], byte_in_cash)
]
evict elements data_size byte_in_cash (p ∷ q ∷ ps) = elim (is_idle elements p) [
  | true ↦
      let left : ℤ = byte_in_cash -ℤ pos (weight elements p) in
      elim (has_room data_size left) [
        | true ↦ some (q ∷ ps, left)
        | false ↦ keep_first q (evict elements data_size left ps)
      ]
  | false ↦ keep_first p (evict elements data_size byte_in_cash (q ∷ ps))
]

module _ (os : Platform) where
  -- The mutex is held throughout, and the caller's own pointer is the returned one.
  unfoldable pub find_response_in_cash : Cash → Bytes → Option ℕ × Cash
  unfolding first_with_hash without_hash
  find_response_in_cash c heading =
      if c.mutex == 0
      then elim (first_with_hash c.elements (os.hasher heading) c.list_cash) [
        | none ↦ (none, c)
        | some p ↦ (
          some p,
          record c {
            list_cash = without_hash c.elements (os.hasher heading) c.list_cash ++ p ∷ [];
          },
        )
      ]
      else (none, c)

  unfoldable pub is_element_in_cash : Cash → Bytes → Bool
  unfolding first_with_hash
  is_element_in_cash c request =
      if c.mutex == 0
      then elim (first_with_hash c.elements (os.hasher request) c.list_cash) [
        | none ↦ false
        | some p ↦ true
      ]
      else false

  -- The end of `addStringToCash`: the new element goes to the end of the list.
  unfoldable pub push_element : Bytes → ℤ → Cash → Option (Option ℕ × Cash)
  unfolding create
  push_element request data_size c = elim (create os request data_size) [
    | none ↦ none
    | some e ↦ some (
      some (length c.elements),
      record c {
        list_cash = c.list_cash ++ length c.elements ∷ [];
        byte_in_cash = c.byte_in_cash +ℤ data_size;
        elements = c.elements ++ e ∷ [];
      },
    )
  ]

  -- The eviction loop ran: add if it has made room.
  unfoldable pub push_if_room : Bytes → ℤ → Cash → Option (Option ℕ × Cash)
  unfolding push_element
  push_if_room request data_size c =
      if has_room data_size c.byte_in_cash then push_element request data_size c else some (none, c)

  unfoldable pub make_room : Bytes → ℤ → Cash → Option (Option ℕ × Cash)
  unfolding push_element push_if_room evict
  make_room request data_size c =
      if has_room data_size c.byte_in_cash
      then push_element request data_size c
      else elim (evict c.elements data_size c.byte_in_cash c.list_cash) [
        | none ↦ none
        | some (list_cash, byte_in_cash) ↦
            push_if_room request data_size
              (record c { list_cash = list_cash; byte_in_cash = byte_in_cash })
      ]

  unfoldable pub add_string_to_cash : Bytes → ℤ → Cash → Option (Option ℕ × Cash)
  unfolding make_room
  add_string_to_cash request data_size c =
      let data_size' : ℤ = data_size +ℤ pos (length request) in
      if c.mutex == 0
      then (if ltb_ℤ (pos size_each_cash_element) data_size'
          then some (none, c)
          else make_room request data_size' c)
      else some (none, c)
