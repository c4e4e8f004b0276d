-- ===== src/Lab32v2/Cash/Evictions.antt =====
-- The eviction loop as a relation.
use operating_systems_labs.Base.{
  subst, some-inj, ℕ, ◌≡◌, inl, inr, refl, arith, true, false, Option, none, some, List, [], ◌∷◌,
  All, In, Bool-cases, ℤ, pos, ◌-ℤ◌, ◌≤ℤ◌, int_laws,
}
use operating_systems_labs.Lab32v2.Cash.Element.{CashElement}
use operating_systems_labs.Lab32v2.Cash.{has_room, is_idle, weight, evict, keep_first}

keep_first-some :
    (p : ℕ) (r : Option (List ℕ × ℤ)) (ps : List ℕ) (b : ℤ)
    → keep_first p r ≡ some (ps, b)
    → (qs : List ℕ) × (r ≡ some (qs, b)) × (ps ≡ p ∷ qs)
keep_first-some p none ps b h = cc
keep_first-some p (some (qs, b')) ps b h = (qs, ground arith, ground arith)

-- The runs of the eviction loop that are defined: it drops idle pointers until there is room,
-- passing over the pointer behind each one dropped in vain.
pub data Evicts (es : List CashElement) (d : ℤ) : ℤ → List ℕ → List ℕ → ℤ → Type 0 where
  done : {b : ℤ} → Evicts es d b [] [] b
  makes_room :
      {b left : ℤ} {p : ℕ} {ps : List ℕ}
      → is_idle es p ≡ true
      → left ≡ b -ℤ pos (weight es p)
      → has_room d left ≡ true
      → Evicts es d b (p ∷ ps) ps left
  passes_over :
      {b left b' : ℤ} {p q : ℕ} {ps ps' : List ℕ}
      → is_idle es p ≡ true
      → left ≡ b -ℤ pos (weight es p)
      → has_room d left ≡ false
      → Evicts es d left ps ps' b'
      → Evicts es d b (p ∷ q ∷ ps) (q ∷ ps') b'
  keeps :
      {b b' : ℤ} {p : ℕ} {ps ps' : List ℕ}
      → is_idle es p ≡ false
      → Evicts es d b ps ps' b'
      → Evicts es d b (p ∷ ps) (p ∷ ps') b'

Evicts-cast :
    (es : List CashElement) (d b : ℤ) (ps qs rs : List ℕ) (b' b'' : ℤ)
    → ◌≡◌ {A = Option (List ℕ × ℤ)} (some (qs, b')) (some (rs, b''))
    → Evicts es d b ps qs b'
    → Evicts es d b ps rs b''
Evicts-cast es d b ps qs rs b' b'' e h =
    subst (λ (r : List ℕ × ℤ). Evicts es d b ps r.0 r.1) (some-inj (qs, b') (rs, b'') e) h

keep_first-Evicts :
    (es : List CashElement) (d b left : ℤ) (ps qs : List ℕ) (p : ℕ)
    → ((ps' : List ℕ) (b' : ℤ)
        → evict es d left qs ≡ some (ps', b')
        → Evicts es d b ps (p ∷ ps') b')
    → (ps' : List ℕ) (b' : ℤ) → keep_first p (evict es d left qs) ≡ some (ps', b')
    → Evicts es d b ps ps' b'
keep_first-Evicts es d b left ps qs p step ps' b' e =
    let (rs, run, same) = keep_first-some p (evict es d left qs) ps' b' e in
    rw same (step rs b' run)

-- Every defined run of the loop is one of these.
pub evict-Evicts :
    (es : List CashElement) (d b : ℤ) (ps ps' : List ℕ) (b' : ℤ)
    → evict es d b ps ≡ some (ps', b')
    → Evicts es d b ps ps' b'
unfolding evict
evict-Evicts es d b [] ps' b' e = Evicts-cast es d b [] [] ps' b b' e done
evict-Evicts es d b (p ∷ []) ps' b' e = elim (Bool-cases (is_idle es p)) [
  | inl idle ↦ elim (Bool-cases (has_room d (b -ℤ pos (weight es p)))) [
    | inl room ↦
        Evicts-cast es d b (p ∷ []) [] ps' (b -ℤ pos (weight es p)) b' (rw (idle, evict, room) at e)
          (makes_room idle refl room)
    | inr full ↦ absurd (cc (rw (idle, evict, full) at e))
  ]
  | inr busy ↦
      Evicts-cast es d b (p ∷ []) (p ∷ []) ps' b b' (rw (busy, evict) at e) (keeps busy done)
]
evict-Evicts es d b (p ∷ q ∷ ps) ps' b' e = elim (Bool-cases (is_idle es p)) [
  | inl idle ↦ elim (Bool-cases (has_room d (b -ℤ pos (weight es p)))) [
    | inl room ↦
        Evicts-cast es d b (p ∷ q ∷ ps) (q ∷ ps) ps' (b -ℤ pos (weight es p)) b'
          (rw (idle, evict, room) at e) (makes_room idle refl room)
    | inr full ↦
        keep_first-Evicts es d b (b -ℤ pos (weight es p)) (p ∷ q ∷ ps) ps q
          (λ rs c run.
            passes_over idle refl full (evict-Evicts es d (b -ℤ pos (weight es p)) ps rs c run))
          ps' b' (rw (idle, evict, full) at e)
  ]
  | inr busy ↦
      keep_first-Evicts es d b b (p ∷ q ∷ ps) (q ∷ ps) p
        (λ rs c run. keeps busy (evict-Evicts es d b (q ∷ ps) rs c run)) ps' b'
        (rw (busy, evict) at e)
]

-- A pointer whose element has readers stays.
pub Evicts-In :
    {es : List CashElement} {d b : ℤ} {ps ps' : List ℕ} {b' : ℤ} (p : ℕ)
    → is_idle es p ≡ false
    → Evicts es d b ps ps' b'
    → In p ps
    → In p ps'
Evicts-In p busy done h = h
Evicts-In p busy (makes_room idle l r) (inl e) = absurd (cc (rw e at busy))
Evicts-In p busy (makes_room idle l r) (inr h) = h
Evicts-In p busy (passes_over idle l r run) (inl e) = absurd (cc (rw e at busy))
Evicts-In p busy (passes_over idle l r run) (inr (inl e)) = inl e
Evicts-In p busy (passes_over idle l r run) (inr (inr h)) = inr (Evicts-In p busy run h)
Evicts-In p busy (keeps b run) (inl e) = inl e
Evicts-In p busy (keeps b run) (inr h) = inr (Evicts-In p busy run h)

-- Eviction adds no pointer.
pub Evicts-All {κ} :
    {es : List CashElement} {d b : ℤ} {ps ps' : List ℕ} {b' : ℤ} (P : ℕ → Type κ)
    → Evicts es d b ps ps' b'
    → All P ps
    → All P ps'
Evicts-All P done h = h
Evicts-All P (makes_room idle l r) h = h.1
Evicts-All P (passes_over idle l r run) h = (h.1.0, Evicts-All P run h.1.1)
Evicts-All P (keeps busy run) h = (h.0, Evicts-All P run h.1)

le-sub : (b left : ℤ) (n : ℕ) → left ≡ b -ℤ pos n → left ≤ℤ b
le-sub b left n e = rw e (omega int_laws)

-- Nor does it raise the count of bytes.
pub Evicts-le :
    {es : List CashElement} {d b : ℤ} {ps ps' : List ℕ} {b' : ℤ} → Evicts es d b ps ps' b' → b' ≤ℤ b
Evicts-le done = omega arith
Evicts-le {es} {b = b} (makes_room {left = left} {p = p} idle l r) = le-sub b left (weight es p) l
Evicts-le {es} {b = b} (passes_over {left = left} {p = p} idle l r run) =
    omega (arith, Evicts-le run, le-sub b left (weight es p) l)
Evicts-le (keeps busy run) = Evicts-le run
