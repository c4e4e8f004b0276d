-- ===== src/Lab32v2/Cash/Room.antt =====
-- `addStringToCash` as a run of the eviction loop and an insertion or a refusal.
use operating_systems_labs.Base.{
  subst, ◌∙◌, some-inj, sym, ℕ, ◌≡◌, ◌⊎◌, inl, inr, refl, ap, true, Option, none, some, List, [],
  ◌∷◌, ◌++◌, Bytes, length, Option-cases, Bool-cases, ℤ, pos, ◌+ℤ◌, ltb_ℤ, ◌==◌,
}
use operating_systems_labs.Lab32v2.Constants.{size_each_cash_element}
use operating_systems_labs.Lab32v2.Cash.Element.{CashElement, Platform, create}
use operating_systems_labs.Lab32v2.Cash.{
  Cash, has_room, evict, push_element, push_if_room, make_room, add_string_to_cash,
}
use operating_systems_labs.Lab32v2.Cash.Evictions.{Evicts, evict-Evicts}

-- The list and the count that a call of `addStringToCash` comes to before it adds: the old ones, or
-- those that a run of the eviction loop leaves.
abbrev pub Evicted : Cash → ℤ → List ℕ → ℤ → Type 0
Evicted c d ps b =
    ((ps ≡ c.list_cash) × (b ≡ c.byte_in_cash))
    ⊎ Evicts c.elements d c.byte_in_cash c.list_cash ps b

pub record Refuses (d : ℤ) (c : Cash) (r : Option ℕ) (c' : Cash) : Type 0 where
  pub answer : r ≡ none
  pub same_mutex : c'.mutex ≡ c.mutex
  pub same_elements : c'.elements ≡ c.elements
  pub evicted : Evicted c d c'.list_cash c'.byte_in_cash

pub record Inserts (os : Platform) (request : Bytes) (d : ℤ) (c : Cash) (r : Option ℕ) (c' : Cash)
    : Type 0 where
  pub kept : List ℕ
  pub left : ℤ
  pub element : CashElement
  pub answer : r ≡ some (length c.elements)
  pub same_mutex : c'.mutex ≡ c.mutex
  pub evicted : Evicted c d kept left
  pub room : has_room d left ≡ true
  pub created : create os request d ≡ some element
  pub pointers : c'.list_cash ≡ kept ++ length c.elements ∷ []
  pub bytes : c'.byte_in_cash ≡ left +ℤ d
  pub elements : c'.elements ≡ c.elements ++ element ∷ []

abbrev pub Outcome : Platform → Bytes → ℤ → Cash → Option ℕ → Cash → Type 0
Outcome os request d c r c' = Refuses d c r c' ⊎ Inserts os request d c r c'

module _ (os : Platform) (request : Bytes) (d : ℤ) where
  pushed : Cash → CashElement → Option ℕ × Cash
  pushed c e = (
    some (length c.elements),
    record c {
      list_cash = c.list_cash ++ length c.elements ∷ [];
      byte_in_cash = c.byte_in_cash +ℤ d;
      elements = c.elements ++ e ∷ [];
    },
  )

  push_element-Inserts :
      (c0 c : Cash) (r : Option ℕ) (c' : Cash)
      → c.elements ≡ c0.elements
      → c.mutex ≡ c0.mutex
      → Evicted c0 d c.list_cash c.byte_in_cash
      → has_room d c.byte_in_cash ≡ true
      → push_element os request d c ≡ some (r, c')
      → Inserts os request d c0 r c'
  unfolding push_element pushed
  push_element-Inserts c0 c r c' same mut ev room h = elim (Option-cases (create os request d)) [
    | inl n ↦ absurd (cc (rw (n, push_element) at h))
    | inr (e, s) ↦
        let eq : pushed c e ≡ (r, c') = some-inj (pushed c e) (r, c') (rw (s, push_element) at h) in
        record {
          kept = c.list_cash;
          left = c.byte_in_cash;
          element = e;
          answer = rw (← same) (ap (λ (t : Option ℕ × Cash). t.0) (sym eq));
          same_mutex = ap (λ (t : Option ℕ × Cash). t.1.mutex) (sym eq) ∙ mut;
          evicted = ev;
          room = room;
          created = s;
          pointers = rw (← same) (ap (λ (t : Option ℕ × Cash). t.1.list_cash) (sym eq));
          bytes = ap (λ (t : Option ℕ × Cash). t.1.byte_in_cash) (sym eq);
          elements = rw (← same) (ap (λ (t : Option ℕ × Cash). t.1.elements) (sym eq));
        }
  ]

  refuse :
      (c c1 : Cash) (r : Option ℕ) (c' : Cash)
      → c1.elements ≡ c.elements
      → c1.mutex ≡ c.mutex
      → Evicted c d c1.list_cash c1.byte_in_cash
      → ◌≡◌ {A = Option (Option ℕ × Cash)} (some (none, c1)) (some (r, c'))
      → Refuses d c r c'
  refuse c c1 r c' same mut ev h =
      let eq : ◌≡◌ {A = Option ℕ × Cash} (none, c1) (r, c') = some-inj (none, c1) (r, c') h in
      subst (λ (t : Option ℕ × Cash). Refuses d c t.0 t.1) eq
        (record { answer = refl; same_mutex = mut; same_elements = same; evicted = ev })

  push_if_room-Outcome :
      (c : Cash) (ps : List ℕ) (b : ℤ) (r : Option ℕ) (c' : Cash)
      → Evicts c.elements d c.byte_in_cash c.list_cash ps b
      → push_if_room os request d (record c { list_cash = ps; byte_in_cash = b }) ≡ some (r, c')
      → Outcome os request d c r c'
  unfolding push_if_room
  push_if_room-Outcome c ps b r c' run h = elim (Bool-cases (has_room d b)) [
    | inl room ↦ inr (
        push_element-Inserts c (record c { list_cash = ps; byte_in_cash = b }) r c' refl refl
          (inr run) room (rw room at h))
    | inr full ↦ inl (
        refuse c (record c { list_cash = ps; byte_in_cash = b }) r c' refl refl (inr run)
          (rw full at h))
  ]

  make_room-Outcome :
      (c : Cash) (r : Option ℕ) (c' : Cash)
      → make_room os request d c ≡ some (r, c')
      → Outcome os request d c r c'
  unfolding make_room
  make_room-Outcome c r c' h = elim (Bool-cases (has_room d c.byte_in_cash)) [
    | inl room ↦
        inr (push_element-Inserts c c r c' refl refl (inl (refl, refl)) room (rw room at h))
    | inr full ↦ elim (Option-cases (evict c.elements d c.byte_in_cash c.list_cash)) [
      | inl undefined ↦ absurd (cc (rw (full, undefined, make_room) at h))
      | inr ((ps, b), run) ↦
          push_if_room-Outcome c ps b r c'
            (evict-Evicts c.elements d c.byte_in_cash c.list_cash ps b run)
            (rw (full, run, make_room) at h)
    ]
  ]

-- Whatever `addStringToCash` answers, it has at most evicted, by a run of its loop; and it answers a
-- pointer only if there is room after that, with a new element appended under a fresh pointer.
pub add_string_to_cash-Outcome :
    (os : Platform) (request : Bytes) (n : ℤ) (c : Cash) (r : Option ℕ) (c' : Cash)
    → add_string_to_cash os request n c ≡ some (r, c')
    → Outcome os request (n +ℤ pos (length request)) c r c'
unfolding add_string_to_cash
add_string_to_cash-Outcome os request n c r c' h =
    let d : ℤ = n +ℤ pos (length request) in
    elim (Bool-cases (c.mutex == 0)) [
      | inr locked ↦
          inl (refuse os request d c c r c' refl refl (inl (refl, refl)) (rw locked at h))
      | inl free ↦ elim (Bool-cases (ltb_ℤ (pos size_each_cash_element) d)) [
        | inl large ↦
            inl (refuse os request d c c r c' refl refl (inl (refl, refl)) (rw (free, large) at h))
        | inr fits ↦ make_room-Outcome os request d c r c' (rw (free, fits) at h)
      ]
    ]
