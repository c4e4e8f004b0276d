-- ===== src/Lab32v2/Cash/Limits.antt =====
-- The calls of the cache: the byte limit, the elements that are being read, and a lookup behind an
-- insertion.
use operating_systems_labs.Base.{
  ℕ, ◌-◌, ◌<◌, ◌≡◌, ◌⊎◌, inl, inr, ◌∙◌, arith, true, false, Option, some, some-inj, List, [], ◌∷◌,
  ◌++◌, Bytes, All, All-map, All-zip, In, In-append_left, length, get_elem?,
  get_elem?-append_length, ℤ, pos, ◌+ℤ◌, ◌≤ℤ◌, ◌==◌,
}
use operating_systems_labs.Lab32v2.Constants.{max_cash_size}
use operating_systems_labs.Lab32v2.Cash.Element.{CashElement, Platform, create}
use operating_systems_labs.Lab32v2.Cash.{
  Cash, has_hash, is_idle, first_with_hash, find_response_in_cash, is_element_in_cash,
  add_string_to_cash,
}
use operating_systems_labs.Lab32v2.Cash.Lookup.{
  first_with_hash-All, first_with_hash-append, has_hash-append, has_hash-new,
}
use operating_systems_labs.Lab32v2.Cash.Room.{Evicted, Outcome, add_string_to_cash-Outcome}
use operating_systems_labs.Lab32v2.Cash.Evictions.{Evicts-In, Evicts-All, Evicts-le}

-- Every pointer of the list stands for an element of the store.
abbrev pub IsValid : Cash → Type 0
IsValid c = All (λ p. p < length c.elements) c.list_cash

Evicted-All {κ} :
    (P : ℕ → Type κ) (c : Cash) (d : ℤ) (ps : List ℕ) (b : ℤ)
    → Evicted c d ps b
    → All P c.list_cash
    → All P ps
Evicted-All P c d ps b (inl (e, _)) h = rw e h
Evicted-All P c d ps b (inr run) h = Evicts-All P run h

Evicted-In :
    (p : ℕ) (c : Cash) (d : ℤ) (ps : List ℕ) (b : ℤ)
    → is_idle c.elements p ≡ false
    → Evicted c d ps b
    → In p c.list_cash
    → In p ps
Evicted-In p c d ps b busy (inl (e, _)) h = rw e h
Evicted-In p c d ps b busy (inr run) h = Evicts-In p busy run h

Evicted-le : (c : Cash) (d : ℤ) (ps : List ℕ) (b : ℤ) → Evicted c d ps b → b ≤ℤ c.byte_in_cash
Evicted-le c d ps b (inl (_, e)) = rw e (omega arith)
Evicted-le c d ps b (inr run) = Evicts-le run

module _ (os : Platform) (request : Bytes) (n : ℤ) (c : Cash) (r : Option ℕ) (c' : Cash)
    (answered : add_string_to_cash os request n c ≡ some (r, c')) where
  abbrev request_size : ℤ
  request_size = n +ℤ pos (length request)

  outcome : Outcome os request (n +ℤ pos (length request)) c r c'
  outcome = add_string_to_cash-Outcome os request n c r c' answered

  -- A call of `addStringToCash` either does not raise the byte count, or leaves it below the limit.
  pub add_string_to_cash-limit :
      (c'.byte_in_cash ≤ℤ c.byte_in_cash) ⊎ (c'.byte_in_cash ≤ℤ pos (max_cash_size - 1))
  add_string_to_cash-limit = elim outcome [
    | inl kept_out ↦ inl (Evicted-le c request_size c'.list_cash c'.byte_in_cash kept_out.evicted)
    | inr done ↦ inr (rw done.bytes (let room = done.room in ground arith))
  ]

  -- An element that some reader is connected to stays in the list.
  pub add_string_to_cash-keeps_read :
      (p : ℕ) → In p c.list_cash → is_idle c.elements p ≡ false → In p c'.list_cash
  add_string_to_cash-keeps_read p h busy = elim outcome [
    | inl kept_out ↦
        Evicted-In p c request_size c'.list_cash c'.byte_in_cash busy kept_out.evicted h
    | inr done ↦ rw done.pointers (
        In-append_left p done.kept (length c.elements ∷ [])
          (Evicted-In p c request_size done.kept done.left busy done.evicted h))
  ]

create_fields :
    (os : Platform) (request : Bytes) (d : ℤ) (e : CashElement)
    → create os request d ≡ some e
    → (e.hash_request_heading ≡ os.hasher request) × (e.cash ≡ []) × (e.request_heading ≡ request)
unfolding create
create_fields os request d e h = ground arith

find-first :
    (os : Platform) (c : Cash) (heading : Bytes) (p : ℕ)
    → (c.mutex == 0) ≡ true
    → first_with_hash c.elements (os.hasher heading) c.list_cash ≡ some p
    → (find_response_in_cash os c heading).0 ≡ some p
unfolding find_response_in_cash
find-first os c heading p free hit = rw (free, hit, find_response_in_cash)

-- Appended behind pointers that miss the hash, a new element with the hash is the first hit.
first_with_hash-new :
    (es : List CashElement) (e : CashElement) (hash : ℕ) (ps : List ℕ)
    → All (λ q. (q < length es) × (has_hash es hash q ≡ false)) ps
    → e.hash_request_heading ≡ hash
    → first_with_hash (es ++ e ∷ []) hash (ps ++ length es ∷ []) ≡ some (length es)
first_with_hash-new es e hash ps h same =
    first_with_hash-append (es ++ e ∷ []) hash ps (length es)
      (All-map (λ q. (q < length es) × (has_hash es hash q ≡ false)) _ ps
        (λ q k. has_hash-append es e hash q k.0 ∙ k.1) h)
      (has_hash-new es e hash same)

module _ (os : Platform) (request : Bytes) (n : ℤ) (c : Cash) (p : ℕ) (c' : Cash) (v : IsValid c)
    (absent : is_element_in_cash os c request ≡ false)
    (answered : add_string_to_cash os request n c ≡ some (some p, c')) where
  unlocked : (c.mutex == 0) ≡ true
  unfolding add_string_to_cash
  unlocked = ground arith

  absent_pointers : All (λ q. has_hash c.elements (os.hasher request) q ≡ false) c.list_cash
  unfolding is_element_in_cash
  absent_pointers =
      first_with_hash-All c.elements (os.hasher request) c.list_cash (ground (arith, unlocked))

  -- An element that is added for a request that was not in the cache is empty, and it is the one
  -- that the next lookup of the request finds.
  pub find-add_string_to_cash :
      ((find_response_in_cash os c' request).0 ≡ some p)
      × ((e : CashElement) × (get_elem? c'.elements p ≡ some e)
          × (e.cash ≡ [])
          × (e.request_heading ≡ request))
  find-add_string_to_cash = elim (add_string_to_cash-Outcome os request n c (some p) c' answered) [
    | inl kept_out ↦ absurd (cc kept_out.answer)
    | inr done ↦
        let d : ℤ = n +ℤ pos (length request) in
        let fields = create_fields os request d done.element done.created in
        let kept =
          Evicted-All
            (λ q. (q < length c.elements) × (has_hash c.elements (os.hasher request) q ≡ false)) c d
            done.kept done.left done.evicted
            (All-zip (λ q. q < length c.elements)
              (λ q. has_hash c.elements (os.hasher request) q ≡ false) c.list_cash v
              absent_pointers) in
        let same : p ≡ length c.elements = some-inj p (length c.elements) done.answer in
        (
          find-first os c' request p (rw done.same_mutex unlocked) (
              rw (done.elements, done.pointers, same)
                (first_with_hash-new c.elements done.element (os.hasher request) done.kept kept
                  fields.0)),
          (
            done.element,
            rw (done.elements, same) (get_elem?-append_length c.elements [] done.element),
            fields.1,
            fields.2,
          ),
        )
  ]
