-- ===== src/Lab32v2/Cash/Accounts.antt =====
-- What `addStringToCash` does to the list and to the count of bytes, taken together.
use operating_systems_labs.Base.{
  ℕ, ◌≡◌, ◌≢◌, inl, inr, refl, subst, Bool, true, false, not, ◌&&◌, Option, none, some, some-inj,
  List, [], ◌∷◌, ◌++◌, Bytes, length, All, Bool-cases, Option-cases, ℤ, pos, ◌+ℤ◌, ltb_ℤ, ◌==◌,
  if◌then◌else◌,
}
use operating_systems_labs.Lab32v2.Constants.{size_each_cash_element}
use operating_systems_labs.Lab32v2.Cash.Element.{CashElement, Platform, create}
use operating_systems_labs.Lab32v2.Cash.{
  Cash, has_room, is_idle, evict, push_element, push_if_room, make_room, add_string_to_cash,
}
use operating_systems_labs.Lab32v2.Cash.Dropping.{
  Splits, none_dropped, total, nothing_off, Evicts-Counts,
}
use operating_systems_labs.Lab32v2.Cash.Evictions.{Evicts, evict-Evicts}

-- The mutex can be locked, and the response is not too large for an element.
abbrev pub is_admitted : Cash → ℤ → Bool
is_admitted c d = c.mutex == 0 && not (ltb_ℤ (pos size_each_cash_element) d)

-- The call: what is dropped and kept of the list, and the count once that is done.
pub record Accounts (d : ℤ) (c : Cash) (r : Option ℕ) (c' : Cash) : Type 0 where
  pub dropped : List ℕ
  pub kept : List ℕ
  pub left : ℤ
  pub splits : Splits c.list_cash dropped kept
  pub idle : All (λ p. is_idle c.elements p ≡ true) dropped
  pub count : left +ℤ pos (total c.elements dropped) ≡ c.byte_in_cash
  pub needed : dropped ≢ [] → (is_admitted c d ≡ true) × (has_room d c.byte_in_cash ≡ false)
  pub tried :
      is_admitted c d ≡ true
      → has_room d c.byte_in_cash ≡ false
      → dropped ≡ []
      → All (λ p. is_idle c.elements p ≡ false) c.list_cash
  pub answer : r ≡ (if is_admitted c d && has_room d left then some (length c.elements) else none)
  pub pointers :
      c'.list_cash
      ≡ (if is_admitted c d && has_room d left then kept ++ length c.elements ∷ [] else kept)
  pub bytes : c'.byte_in_cash ≡ (if is_admitted c d && has_room d left then left +ℤ d else left)

settle :
    (d : ℤ) (c : Cash) (r r' : Option ℕ) (c1 c' : Cash)
    → ◌≡◌ {A = Option (Option ℕ × Cash)} (some (r, c1)) (some (r', c'))
    → Accounts d c r c1
    → Accounts d c r' c'
settle d c r r' c1 c' h a =
    subst (λ (t : Option ℕ × Cash). Accounts d c t.0 t.1) (some-inj (r, c1) (r', c') h) a

-- Refused at once.
untouched : (d : ℤ) (c : Cash) → is_admitted c d ≡ false → Accounts d c none c
untouched d c h = record {
  dropped = [];
  kept = c.list_cash;
  left = c.byte_in_cash;
  splits = none_dropped c.list_cash;
  idle = tt;
  count = nothing_off c.byte_in_cash;
  needed = λ e. absurd (e refl);
  tried = λ e. cc;
  answer = rw h refl;
  pointers = rw h refl;
  bytes = rw h refl;
}

-- What has been dropped before the end of the call.
record Prior (d : ℤ) (c : Cash) (kept : List ℕ) (left : ℤ) : Type 0 where
  dropped : List ℕ
  splits : Splits c.list_cash dropped kept
  idle : All (λ p. is_idle c.elements p ≡ true) dropped
  count : left +ℤ pos (total c.elements dropped) ≡ c.byte_in_cash
  needed : dropped ≢ [] → has_room d c.byte_in_cash ≡ false
  tried :
      has_room d c.byte_in_cash ≡ false
      → dropped ≡ []
      → All (λ p. is_idle c.elements p ≡ false) c.list_cash

abbrev with_list : Cash → List ℕ → ℤ → Cash
with_list c kept left = record c { list_cash = kept; byte_in_cash = left }

module _ (os : Platform) (request : Bytes) (d : ℤ) (c : Cash)
    (admitted : is_admitted c d ≡ true) where
  refused :
      (kept : List ℕ) (left : ℤ)
      → Prior d c kept left
      → has_room d left ≡ false
      → Accounts d c none (with_list c kept left)
  refused kept left p full = record {
    dropped = p.dropped;
    kept = kept;
    left = left;
    splits = p.splits;
    idle = p.idle;
    count = p.count;
    needed = λ e. (admitted, p.needed e);
    tried = λ _. p.tried;
    answer = rw (admitted, full) refl;
    pointers = rw (admitted, full) refl;
    bytes = rw (admitted, full) refl;
  }

  abbrev added : List ℕ → ℤ → CashElement → Cash
  added kept left e = record c {
    list_cash = kept ++ length c.elements ∷ [];
    byte_in_cash = left +ℤ d;
    elements = c.elements ++ e ∷ [];
  }

  pushed :
      (kept : List ℕ) (left : ℤ) (r : Option ℕ) (c' : Cash)
      → Prior d c kept left
      → has_room d left ≡ true
      → push_element os request d (with_list c kept left) ≡ some (r, c')
      → Accounts d c r c'
  unfolding push_element
  pushed kept left r c' p room h = elim (Option-cases (create os request d)) [
    | inl n ↦ absurd (cc (rw (n, push_element) at h))
    | inr (e, s) ↦
        settle d c (some (length c.elements)) r (added kept left e) c' (rw (s, push_element) at h)
          (record {
            dropped = p.dropped;
            kept = kept;
            left = left;
            splits = p.splits;
            idle = p.idle;
            count = p.count;
            needed = λ e. (admitted, p.needed e);
            tried = λ _. p.tried;
            answer = rw (admitted, room) refl;
            pointers = rw (admitted, room) refl;
            bytes = rw (admitted, room) refl;
          })
  ]

  evicted :
      (kept : List ℕ) (left : ℤ)
      → has_room d c.byte_in_cash ≡ false
      → Evicts c.elements d c.byte_in_cash c.list_cash kept left
      → Prior d c kept left
  evicted kept left full run =
      let k = Evicts-Counts run in
      record {
        dropped = k.dropped;
        splits = k.splits;
        idle = k.idle;
        count = k.count;
        needed = λ _. full;
        tried = λ _. k.tried;
      }

  unevicted : has_room d c.byte_in_cash ≡ true → Prior d c c.list_cash c.byte_in_cash
  unevicted room = record {
    dropped = [];
    splits = none_dropped c.list_cash;
    idle = tt;
    count = nothing_off c.byte_in_cash;
    needed = λ e. absurd (e refl);
    tried = λ full. cc;
  }

  push_if_room-Accounts :
      (kept : List ℕ) (left : ℤ) (r : Option ℕ) (c' : Cash)
      → Prior d c kept left
      → push_if_room os request d (with_list c kept left) ≡ some (r, c')
      → Accounts d c r c'
  unfolding push_if_room
  push_if_room-Accounts kept left r c' p h = elim (Bool-cases (has_room d left)) [
    | inl room ↦ pushed kept left r c' p room (rw room at h)
    | inr full ↦
        settle d c none r (with_list c kept left) c' (rw full at h) (refused kept left p full)
  ]

  make_room-Accounts :
      (r : Option ℕ) (c' : Cash) → make_room os request d c ≡ some (r, c') → Accounts d c r c'
  unfolding make_room
  make_room-Accounts r c' h = elim (Bool-cases (has_room d c.byte_in_cash)) [
    | inl room ↦ pushed c.list_cash c.byte_in_cash r c' (unevicted room) room (rw room at h)
    | inr full ↦ elim (Option-cases (evict c.elements d c.byte_in_cash c.list_cash)) [
      | inl undefined ↦ absurd (cc (rw (full, undefined, make_room) at h))
      | inr ((ps, b), run) ↦
          push_if_room-Accounts ps b r c'
            (evicted ps b full (evict-Evicts c.elements d c.byte_in_cash c.list_cash ps b run))
            (rw (full, run, make_room) at h)
    ]
  ]

-- Whenever `addStringToCash` has a defined result, its list falls into pointers that are dropped and
-- pointers that are kept, in order. Only elements that no reader is connected to are dropped, and only
-- if the mutex can be locked, the response is small enough and there is no room for it; and then
-- nothing is dropped only if every element of the list has a reader. What is left of the count of
-- bytes and the bytes of the dropped elements, headings included, make up the old count. A pointer, to
-- a place behind all elements, is answered exactly if the mutex can be locked, the response is small
-- enough and the count that is left leaves room for it; then this pointer comes to the end of the kept
-- ones and the size of the response with its heading is added to the count.
pub add_string_to_cash-Accounts :
    (os : Platform) (request : Bytes) (n : ℤ) (c : Cash) (r : Option ℕ) (c' : Cash)
    → add_string_to_cash os request n c ≡ some (r, c')
    → Accounts (n +ℤ pos (length request)) c r c'
unfolding add_string_to_cash
add_string_to_cash-Accounts os request n c r c' h =
    let d : ℤ = n +ℤ pos (length request) in
    elim (Bool-cases (c.mutex == 0)) [
      | inr locked ↦ settle d c none r c c' (rw locked at h) (untouched d c (rw locked refl))
      | inl free ↦ elim (Bool-cases (ltb_ℤ (pos size_each_cash_element) d)) [
        | inl large ↦
            settle d c none r c c' (rw (free, large) at h) (untouched d c (rw (free, large) refl))
        | inr fits ↦
            make_room-Accounts os request d c (rw (free, fits) refl) r c' (rw (free, fits) at h)
      ]
    ]
