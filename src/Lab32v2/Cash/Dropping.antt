-- ===== src/Lab32v2/Cash/Dropping.antt =====
-- What a run of the eviction loop drops, and what it takes off the count of bytes.
use operating_systems_labs.Base.{
  ℕ, ◌+◌, ◌≡◌, arith, true, false, List, [], ◌∷◌, All, ℤ, pos, ◌+ℤ◌, ◌-ℤ◌,
}
use operating_systems_labs.Lab32v2.Cash.Element.{CashElement}
use operating_systems_labs.Lab32v2.Cash.{is_idle, weight}
use operating_systems_labs.Lab32v2.Cash.Evictions.{Evicts, done, makes_room, passes_over, keeps}

-- A list falls into what is dropped and what is kept, both in their old order.
pub data Splits : List ℕ → List ℕ → List ℕ → Type 0 where
  ends : Splits [] [] []
  drops : {p : ℕ} {ps ds ks : List ℕ} → Splits ps ds ks → Splits (p ∷ ps) (p ∷ ds) ks
  stays : {p : ℕ} {ps ds ks : List ℕ} → Splits ps ds ks → Splits (p ∷ ps) ds (p ∷ ks)

pub none_dropped : (ps : List ℕ) → Splits ps [] ps
none_dropped [] = ends
none_dropped (p ∷ ps) = stays (none_dropped ps)

-- The bytes of the elements at some pointers, with their headings.
abbrev pub total : List CashElement → List ℕ → ℕ
total es [] = 0
total es (p ∷ ps) = weight es p + total es ps

-- A run of the eviction loop.
pub record Counts (es : List CashElement) (d b : ℤ) (ps kept : List ℕ) (left : ℤ) : Type 0 where
  pub dropped : List ℕ
  pub splits : Splits ps dropped kept
  pub idle : All (λ p. is_idle es p ≡ true) dropped
  pub count : left +ℤ pos (total es dropped) ≡ b
  pub tried : dropped ≡ [] → All (λ p. is_idle es p ≡ false) ps

taken_off :
    (b left : ℤ) (n m : ℕ) (c : ℤ) → left ≡ b -ℤ pos n → c +ℤ pos m ≡ left → c +ℤ pos (n + m) ≡ b
unfolding ◌+ℤ◌ ◌-ℤ◌
taken_off b left n m c h k = ground (arith, h, k)

pub nothing_off : (b : ℤ) → b +ℤ pos 0 ≡ b
unfolding ◌+ℤ◌
nothing_off b = ground arith

pub Evicts-Counts :
    {es : List CashElement} {d b : ℤ} {ps ps' : List ℕ} {b' : ℤ}
    → Evicts es d b ps ps' b'
    → Counts es d b ps ps' b'
Evicts-Counts {b = b} done = record {
  dropped = [];
  splits = ends;
  idle = tt;
  count = nothing_off b;
  tried = λ e. tt;
}
Evicts-Counts {es} {b = b} (makes_room {left = left} {p = p} {ps = ps} idle l r) = record {
  dropped = p ∷ [];
  splits = drops (none_dropped ps);
  idle = (idle, tt);
  count = taken_off b left (weight es p) 0 left l (nothing_off left);
  tried = λ e. cc;
}
Evicts-Counts {es} {b = b} {b' = b'} (passes_over {left = left} {p = p} idle l r run) =
    let c = Evicts-Counts run in
    record {
      dropped = p ∷ c.dropped;
      splits = drops (stays c.splits);
      idle = (idle, c.idle);
      count = taken_off b left (weight es p) (total es c.dropped) b' l c.count;
      tried = λ e. cc;
    }
Evicts-Counts (keeps busy run) =
    let c = Evicts-Counts run in
    record {
      dropped = c.dropped;
      splits = stays c.splits;
      idle = c.idle;
      count = c.count;
      tried = λ e. (busy, c.tried e);
    }
