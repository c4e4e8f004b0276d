-- ===== src/Base/Text.antt =====
-- Byte strings, as `std::string` holds them, with the searches that the proxies use.
use Prim.Native.Nat.{ℕ, zero, suc, ◌≤◌, ◌<◌}
use Prim.Native.Char.{code}
use Prim.Native.String.{String}
use mathlib.Core.Path.{◌≡◌, refl, ap}
use mathlib.Core.Logic.{inl, inr}
use mathlib.Core.Bool.{Bool, true, false, ◌&&◌}
use mathlib.Core.List.{List, [], ◌∷◌, ◌++◌}
use mathlib.Core.Option.{Option, none, some}
use mathlib.Core.Option
use native.Mathlib.Omega.{arith}
use operating_systems_labs.Base.Tests.{ltb, ltb→lt, ◌==◌, if◌then◌else◌, Bool-cases, Option-cases}
use operating_systems_labs.Base.Lists.{length, drop}

abbrev pub Bytes : Type 0
Bytes = List ℕ

-- The bytes of an ASCII literal.
abbrev pub codes : String → Bytes
codes String.[] = []
codes (String.◌∷◌ c s) = code c ∷ codes s

unfoldable pub bytes_eq : Bytes → Bytes → Bool
bytes_eq [] [] = true
bytes_eq (x ∷ xs) (y ∷ ys) = x == y && bytes_eq xs ys
bytes_eq _ _ = false

unfoldable pub starts_with : Bytes → Bytes → Bool
starts_with [] s = true
starts_with (p ∷ ps) [] = false
starts_with (p ∷ ps) (c ∷ s) = p == c && starts_with ps s

-- `s.find(p)`, with `none` for `npos`: the leftmost occurrence.
unfoldable pub find : Bytes → Bytes → Option ℕ
unfolding starts_with
find p [] = if starts_with p [] then some 0 else none
find p (c ∷ s) = if starts_with p (c ∷ s) then some 0 else Option.map suc (find p s)

pub bytes_eq_refl : (xs : Bytes) → bytes_eq xs xs ≡ true
unfolding bytes_eq
bytes_eq_refl [] = refl
bytes_eq_refl (x ∷ xs) = ground (arith, bytes_eq_refl xs)

pub bytes_eq-eq : (xs ys : Bytes) → bytes_eq xs ys ≡ true → xs ≡ ys
unfolding bytes_eq
bytes_eq-eq [] [] h = refl
bytes_eq-eq [] (y ∷ ys) h = cc
bytes_eq-eq (x ∷ xs) [] h = cc
bytes_eq-eq (x ∷ xs) (y ∷ ys) h = ground (arith, bytes_eq-eq xs ys)

pub starts_with-append : (p s : Bytes) → starts_with p (p ++ s) ≡ true
unfolding starts_with
starts_with-append [] s = refl
starts_with-append (x ∷ p) s = ground (arith, starts_with-append p s)

pub starts_with-eq : (p s : Bytes) → starts_with p s ≡ true → s ≡ p ++ drop (length p) s
unfolding starts_with
starts_with-eq [] s h = refl
starts_with-eq (x ∷ p) [] h = cc
starts_with-eq (x ∷ p) (c ∷ s) h = ground (arith, starts_with-eq p s)

-- `Occurs p s k` says that `p` stands in `s` at offset `k`.
abbrev pub Occurs : Bytes → Bytes → ℕ → Type 0
Occurs p s k = starts_with p (drop k s) ≡ true

pub Occurs-append : (pre p s : Bytes) → Occurs p (pre ++ p ++ s) (length pre)
Occurs-append [] p s = starts_with-append p s
Occurs-append (x ∷ pre) p s = Occurs-append pre p s

-- `Leftmost p s k` says that it stands at no earlier offset.
abbrev pub Leftmost : Bytes → Bytes → ℕ → Type 0
Leftmost p s k = Occurs p s k × ((j : ℕ) → j < k → ¬ Occurs p s j)

drop-nil {ℓ} : {A : Type ℓ} (k : ℕ) → drop {A = A} k [] ≡ []
drop-nil zero = refl
drop-nil (suc k) = refl

Occurs-zero : (p s : Bytes) → Occurs p s 0 → Leftmost p s 0
Occurs-zero p s h = (h, λ j lt _. absurd (omega arith))

Leftmost-suc :
    (p : Bytes) (c : ℕ) (s : Bytes) (k : ℕ)
    → starts_with p (c ∷ s) ≡ false
    → Leftmost p s k
    → Leftmost p (c ∷ s) (suc k)
Leftmost-suc p c s k no_match h =
    (h.0, elim [ zero ↦ λ lt o. cc | suc j ↦ λ lt o. h.1 j (omega arith) o ])

pub find-Leftmost : (p s : Bytes) (k : ℕ) → find p s ≡ some k → Leftmost p s k
unfolding find
find-Leftmost p [] zero h = Occurs-zero p [] (ground arith)
find-Leftmost p [] (suc k) h = absurd (ground arith)
find-Leftmost p (c ∷ s) zero h = Occurs-zero p (c ∷ s) (ground arith)
find-Leftmost p (c ∷ s) (suc k) h =
    Leftmost-suc p c s k (ground arith) (find-Leftmost p s k (ground arith))

pub find-none : (p s : Bytes) → find p s ≡ none → (k : ℕ) → ¬ Occurs p s k
unfolding find
find-none p [] h k o = ground (arith, drop-nil {A = ℕ} k)
find-none p (c ∷ s) h zero o = ground arith
find-none p (c ∷ s) h (suc k) o = find-none p s (ground arith) k o

Leftmost-unique : (p s : Bytes) (j k : ℕ) → Leftmost p s j → Leftmost p s k → j ≡ k
Leftmost-unique p s j k hj hk = elim (Bool-cases (ltb j k)) [
  | inl lt ↦ absurd (hk.1 j (ltb→lt j k lt) hj.0)
  | inr ge ↦ elim (Bool-cases (ltb k j)) [
    | inl lt ↦ absurd (hj.1 k (ltb→lt k j lt) hk.0)
    | inr eq ↦ ground arith
  ]
]

-- The search finds exactly the leftmost occurrence.
pub find-eq : (p s : Bytes) (k : ℕ) → Leftmost p s k → find p s ≡ some k
find-eq p s k h = elim (Option-cases (find p s)) [
  | inl e ↦ absurd (find-none p s e k h.0)
  | inr (j, e) ↦ rw e (ap some (Leftmost-unique p s j k (find-Leftmost p s j e) h))
]

pub find_bound : (p s : Bytes) (k : ℕ) → find p s ≡ some k → k ≤ length s
unfolding find
find_bound p [] k h = ground arith
find_bound p (c ∷ s) zero h = omega arith
find_bound p (c ∷ s) (suc k) h = omega (arith, find_bound p s k (ground arith))
