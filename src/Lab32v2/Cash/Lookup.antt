-- ===== src/Lab32v2/Cash/Lookup.antt =====
-- What the lookups of the cache find, by the hash of the heading alone.
use mathlib.Core.List.{Perm, perm_middle}
use mathlib.Core.List.Perm
use operating_systems_labs.Base.{
  ℕ, ◌<◌, ◌≡◌, ◌⊎◌, inl, inr, refl, arith, true, false, none, some, List, [], ◌∷◌, ◌++◌, Bytes, All,
  length, get_elem?, get_elem?-lt, get_elem?-append_left, get_elem?-append_length, ==_self, subst,
  append-nil, Option-cases, Bool-cases, ◌==◌,
}
use operating_systems_labs.Lab32v2.Cash.Element.{CashElement, Platform}
use operating_systems_labs.Lab32v2.Cash.{
  Cash, has_hash, first_with_hash, without_hash, find_response_in_cash, is_element_in_cash,
}

pub first_with_hash-none :
    (es : List CashElement) (hash : ℕ) (ps : List ℕ)
    → All (λ p. has_hash es hash p ≡ false) ps
    → first_with_hash es hash ps ≡ none
unfolding first_with_hash
first_with_hash-none es hash [] h = refl
first_with_hash-none es hash (p ∷ ps) h = rw h.0 (first_with_hash-none es hash ps h.1)

pub first_with_hash-All :
    (es : List CashElement) (hash : ℕ) (ps : List ℕ)
    → first_with_hash es hash ps ≡ none
    → All (λ p. has_hash es hash p ≡ false) ps
unfolding first_with_hash
first_with_hash-All es hash [] h = tt
first_with_hash-All es hash (p ∷ ps) h = elim (Bool-cases (has_hash es hash p)) [
  | inl hit ↦ absurd (cc (rw hit at h))
  | inr miss ↦ (miss, first_with_hash-All es hash ps (rw miss at h))
]

first_with_hash-hit :
    (es : List CashElement) (hash : ℕ) (ps : List ℕ) (p : ℕ)
    → first_with_hash es hash ps ≡ some p
    → has_hash es hash p ≡ true
unfolding first_with_hash
first_with_hash-hit es hash [] p h = cc
first_with_hash-hit es hash (q ∷ ps) p h = elim (Bool-cases (has_hash es hash q)) [
  | inl hit ↦ ground arith
  | inr miss ↦ first_with_hash-hit es hash ps p (rw miss at h)
]

without_hash-perm :
    (es : List CashElement) (hash : ℕ) (ps : List ℕ) (p : ℕ)
    → first_with_hash es hash ps ≡ some p
    → Perm ps (without_hash es hash ps ++ p ∷ [])
unfolding first_with_hash without_hash
without_hash-perm es hash [] p h = cc
without_hash-perm es hash (q ∷ ps) p h = elim (Bool-cases (has_hash es hash q)) [
  | inl hit ↦
      let e : q ≡ p = ground arith in
      rw hit (
        subst (λ r. Perm (q ∷ ps) (ps ++ r ∷ [])) e
          (subst (λ l. Perm (q ∷ l) (ps ++ q ∷ [])) (append-nil ps)
            (Perm.symm (perm_middle ps []))))
  | inr miss ↦ rw miss (Perm.cons q (without_hash-perm es hash ps p (rw miss at h)))
]

pub first_with_hash-append :
    (es : List CashElement) (hash : ℕ) (ps : List ℕ) (p : ℕ)
    → All (λ q. has_hash es hash q ≡ false) ps
    → has_hash es hash p ≡ true
    → first_with_hash es hash (ps ++ p ∷ []) ≡ some p
unfolding first_with_hash
first_with_hash-append es hash [] p h e = rw e
first_with_hash-append es hash (q ∷ ps) p h e = rw h.0 (first_with_hash-append es hash ps p h.1 e)

pub has_hash-lt : (es : List CashElement) (hash p : ℕ) → has_hash es hash p ≡ true → p < length es
unfolding has_hash
has_hash-lt es hash p h = elim (Option-cases (get_elem? es p)) [
  | inl n ↦ absurd (cc (rw (n, has_hash) at h))
  | inr (e, s) ↦ get_elem?-lt es p e s
]

pub has_hash-get :
    (es : List CashElement) (hash p : ℕ)
    → has_hash es hash p ≡ true
    → (e : CashElement) × (get_elem? es p ≡ some e) × (e.hash_request_heading ≡ hash)
unfolding has_hash
has_hash-get es hash p h = elim (Option-cases (get_elem? es p)) [
  | inl n ↦ absurd (cc (rw (n, has_hash) at h))
  | inr (e, s) ↦ (e, s, ground arith)
]

-- An appended element changes no other.
pub has_hash-append :
    (es : List CashElement) (e : CashElement) (hash p : ℕ)
    → p < length es
    → has_hash (es ++ e ∷ []) hash p ≡ has_hash es hash p
unfolding has_hash
has_hash-append es e hash p h = rw (get_elem?-append_left es (e ∷ []) p h, has_hash)

pub has_hash-new :
    (es : List CashElement) (e : CashElement) (hash : ℕ)
    → e.hash_request_heading ≡ hash
    → has_hash (es ++ e ∷ []) hash (length es) ≡ true
unfolding has_hash
has_hash-new es e hash h = rw (get_elem?-append_length es [] e, has_hash, h) (==_self hash)

pub without_hash-All {κ} :
    (P : ℕ → Type κ) (es : List CashElement) (hash : ℕ) (ps : List ℕ)
    → All P ps
    → All P (without_hash es hash ps)
unfolding without_hash
without_hash-All P es hash [] h = h
without_hash-All P es hash (p ∷ ps) h = elim (Bool-cases (has_hash es hash p)) [
  | inl hit ↦ rw hit h.1
  | inr miss ↦ rw miss (h.0, without_hash-All P es hash ps h.1)
]

-- The outcome of a lookup that finds the pointer p.
pub record Finds (os : Platform) (c : Cash) (heading : Bytes) (p : ℕ) (c' : Cash) : Type 0 where
  pub answer : find_response_in_cash os c heading ≡ (some p, c')
  pub is_element : is_element_in_cash os c heading ≡ true
  pub same_hash : has_hash c.elements (os.hasher heading) p ≡ true
  pub same_pointers : Perm c.list_cash c'.list_cash
  pub newest : c'.list_cash ≡ without_hash c.elements (os.hasher heading) c.list_cash ++ p ∷ []
  pub same_elements : c'.elements ≡ c.elements
  pub same_bytes : c'.byte_in_cash ≡ c.byte_in_cash

-- `isElementInCash` says whether `findResponseInCash` will find an element. If so, the element found
-- has the hash of the heading, and the lookup only moves its pointer to the end of the list;
-- otherwise the lookup answers nullptr and changes nothing.
pub find_response_in_cash-cases :
    (os : Platform) (c : Cash) (heading : Bytes)
    → ((is_element_in_cash os c heading ≡ false) × (find_response_in_cash os c heading ≡ (none, c)))
      ⊎ ((p : ℕ) × (c' : Cash) × Finds os c heading p c')
unfolding find_response_in_cash is_element_in_cash
find_response_in_cash-cases os c heading = elim (Bool-cases (c.mutex == 0)) [
  | inr locked ↦ inl (rw locked, rw locked)
  | inl free ↦
      let hash : ℕ = os.hasher heading in
      elim (Option-cases (first_with_hash c.elements hash c.list_cash)) [
        | inl miss ↦
            inl (rw (free, miss, is_element_in_cash), rw (free, miss, find_response_in_cash))
        | inr (p, hit) ↦
            let moved : List ℕ = without_hash c.elements hash c.list_cash in
            inr (
              p,
              record c { list_cash = moved ++ p ∷ [] },
              record {
                answer = rw (free, hit, find_response_in_cash);
                is_element = rw (free, hit, is_element_in_cash);
                same_hash = first_with_hash-hit c.elements hash c.list_cash p hit;
                same_pointers = without_hash-perm c.elements hash c.list_cash p hit;
                newest = refl;
                same_elements = refl;
                same_bytes = refl;
              },
            )
      ]
]
