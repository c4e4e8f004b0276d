-- ===== src/Lab32v2/Cash/Faults.antt =====
-- Where the cache does not do what it means to: the iterator behind an erased element, headings with
-- one hash, and the count that no constructor sets.
use operating_systems_labs.Base.{
  ℕ, ◌≡◌, ap, ◌∙◌, arith, true, false, none, some, List, [], ◌∷◌, ◌++◌, Bytes, All, length,
  get_elem?, Bool-cases, ℤ, pos, ◌+ℤ◌, ◌-ℤ◌, ◌≤ℤ◌, ltb_ℤ, int_laws, +ℤ_parts, inl, inr, ◌==◌,
}
use operating_systems_labs.Lab32v2.Constants.{size_each_cash_element, max_cash_size}
use operating_systems_labs.Lab32v2.Cash.Element.{CashElement, Platform, create}
use operating_systems_labs.Lab32v2.Cash.{
  Cash, init, has_room, is_idle, weight, evict, keep_first, find_response_in_cash,
  is_element_in_cash, push_element, push_if_room, make_room, add_string_to_cash,
}
use operating_systems_labs.Lab32v2.Cash.Limits.{IsValid, find-add_string_to_cash}

-- A request that reaches the eviction loop: the mutex can be locked, the size is allowed, and there is
-- no room yet.
pub record Full (c : Cash) (d : ℤ) : Type 0 where
  pub unlocked : (c.mutex == 0) ≡ true
  pub allowed : ltb_ℤ (pos size_each_cash_element) d ≡ false
  pub full : has_room d c.byte_in_cash ≡ false

evict-none :
    (es : List CashElement) (d b : ℤ) (busy : List ℕ) (p : ℕ)
    → All (λ q. is_idle es q ≡ false) busy
    → is_idle es p ≡ true
    → has_room d (b -ℤ pos (weight es p)) ≡ false
    → evict es d b (busy ++ p ∷ []) ≡ none
unfolding evict
evict-none es d b [] p h idle short = rw (idle, evict, short)
evict-none es d b (q ∷ []) p h idle short =
    rw (h.0, evict) (ap (keep_first q) (evict-none es d b [] p tt idle short))
evict-none es d b (q ∷ r ∷ busy) p h idle short =
    rw (h.0, evict) (ap (keep_first q) (evict-none es d b (r ∷ busy) p h.1 idle short))

module _ (os : Platform) (request : Bytes) (n : ℤ) (c : Cash)
    (full : Full c (n +ℤ pos (length request))) where
  abbrev d : ℤ
  d = n +ℤ pos (length request)

  to_loop :
      add_string_to_cash os request n c ≡ elim (evict c.elements d c.byte_in_cash c.list_cash) [
        | none ↦ none
        | some (list_cash, byte_in_cash) ↦
            push_if_room os request d
              (record c { list_cash = list_cash; byte_in_cash = byte_in_cash })
      ]
  unfolding add_string_to_cash make_room
  to_loop = rw (full.unlocked, full.allowed, full.full)

  -- When only the last element of the list is not being read and dropping it does not make room, the
  -- loop steps its iterator past the end of the list: the call has no defined result.
  pub add_string_to_cash-undefined :
      (busy : List ℕ) (p : ℕ)
      → c.list_cash ≡ busy ++ p ∷ []
      → All (λ q. is_idle c.elements q ≡ false) busy
      → is_idle c.elements p ≡ true
      → has_room d (c.byte_in_cash -ℤ pos (weight c.elements p)) ≡ false
      → add_string_to_cash os request n c ≡ none
  add_string_to_cash-undefined busy p e h idle short =
      to_loop ∙ rw (e, evict-none c.elements d c.byte_in_cash busy p h idle short)

  abbrev left_after : ℕ → ℤ → ℤ
  left_after p b = b -ℤ pos (weight c.elements p)

  -- The cache after the loop has dropped p and passed over q.
  abbrev pub passed_over : ℕ → ℕ → Cash
  passed_over p q = record c { list_cash = q ∷ []; byte_in_cash = left_after p c.byte_in_cash }

  refused_once :
      (p q : ℕ)
      → c.list_cash ≡ p ∷ q ∷ []
      → is_idle c.elements p ≡ true
      → has_room d (left_after p c.byte_in_cash) ≡ false
      → add_string_to_cash os request n c ≡ some (none, passed_over p q)
  unfolding evict push_if_room
  refused_once p q e idle short = to_loop ∙ rw (e, idle, evict, short, short)

  added_then :
      (p q : ℕ)
      → is_idle c.elements q ≡ true
      → has_room d (left_after p c.byte_in_cash) ≡ false
      → has_room d (left_after q (left_after p c.byte_in_cash)) ≡ true
      → (e : CashElement) → create os request d ≡ some e
      → (c' : Cash) × (add_string_to_cash os request n (passed_over p q)
          ≡ some (some (length c.elements), c'))
  unfolding add_string_to_cash make_room evict push_if_room push_element
  added_then p q idle short room e made = (
    record c {
      list_cash = length c.elements ∷ [];
      byte_in_cash = left_after q (left_after p c.byte_in_cash) +ℤ d;
      elements = c.elements ++ e ∷ [];
    },
    rw (full.unlocked, full.allowed, short, idle, evict, room, room, made, push_element),
  )

  -- Of two elements that nobody reads, with room only if both go, one call drops the first, passes
  -- over the second and refuses; the same call made again then succeeds.
  pub add_string_to_cash-passes_over :
      (p q : ℕ)
      → c.list_cash ≡ p ∷ q ∷ []
      → is_idle c.elements p ≡ true
      → is_idle c.elements q ≡ true
      → has_room d (left_after p c.byte_in_cash) ≡ false
      → has_room d (left_after q (left_after p c.byte_in_cash)) ≡ true
      → (e : CashElement) → create os request d ≡ some e
      → (add_string_to_cash os request n c ≡ some (none, passed_over p q))
        × ((c' : Cash) × (add_string_to_cash os request n (passed_over p q)
              ≡ some (some (length c.elements), c')))
  add_string_to_cash-passes_over p q e idle_p idle_q short room el made =
      (refused_once p q e idle_p short, added_then p q idle_q short room el made)

-- A lookup cannot tell two headings with one hash apart: when one of them has been added, the lookup
-- of the other finds its element.
pub find-add_string_to_cash-collision :
    (os : Platform) (request other : Bytes) (n : ℤ) (c : Cash) (p : ℕ) (c' : Cash)
    → os.hasher other ≡ os.hasher request
    → IsValid c
    → is_element_in_cash os c request ≡ false
    → add_string_to_cash os request n c ≡ some (some p, c')
    → ((find_response_in_cash os c' other).0 ≡ some p)
      × ((e : CashElement) × (get_elem? c'.elements p ≡ some e) × (e.request_heading ≡ request))
unfolding find_response_in_cash
find-add_string_to_cash-collision os request other n c p c' same v absent answered =
    let (found, (e, stands, _, heading)) =
      find-add_string_to_cash os request n c p c' v absent answered in
    (ground (arith, found), (e, stands, heading))

no_room : (d found : ℤ) → pos 0 ≤ℤ d → pos max_cash_size ≤ℤ found → has_room d found ≡ false
no_room d found h k = ground (arith, +ℤ_parts found d)

-- `new CashImpl()` leaves the count of bytes unset: if the value found there is at the limit or above
-- it, the empty cache refuses every request of a size that is not negative, and stays as it is.
pub add_string_to_cash-unset_count :
    (os : Platform) (request : Bytes) (n : ℤ) (found : ℤ)
    → pos 0 ≤ℤ n
    → pos max_cash_size ≤ℤ found
    → add_string_to_cash os request n (init 0 found) ≡ some (none, init 0 found)
unfolding init add_string_to_cash make_room evict push_if_room
add_string_to_cash-unset_count os request n found h k =
    let d : ℤ = n +ℤ pos (length request) in
    let full : has_room d found ≡ false = no_room d found (omega int_laws) k in
    elim (Bool-cases (ltb_ℤ (pos size_each_cash_element) d)) [
      | inl large ↦ rw large
      | inr allowed ↦ rw (allowed, full)
    ]
