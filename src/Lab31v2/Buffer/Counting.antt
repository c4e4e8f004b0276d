-- ===== src/Lab31v2/Buffer/Counting.antt =====
-- How lab31/v2 counts what is left of a body, in an `unsigned long long`.
use operating_systems_labs.Base.{
  ℕ, ◌+◌, ◌-◌, ◌^◌, ◌≤◌, ◌<◌, ◌≡◌, refl, ap, ◌∙◌, Bool, false, ◌&&◌, ◌||◌, List, [], ◌∷◌, Bytes,
  length, leb, leb→le, ◌==◌, Bool-cases, inl, inr, arith,
}
use operating_systems_labs.Lab31v2.Words.{sub_word}
use operating_systems_labs.Lab31v2.Buffer.{Buffer, wright_request_body}

pub sub_word-le : (a b : ℕ) → a < 2 ^ 64 → b ≤ a → sub_word a b ≡ a - b
unfolding sub_word
sub_word-le a b h l = omega arith

sub_word-gt : (a b : ℕ) → a < b → b < 2 ^ 64 → sub_word a b ≡ 2 ^ 64 + a - b
unfolding sub_word
sub_word-gt a b l h = omega arith

unfoldable pub read_pieces : List Bytes → Buffer → Buffer
unfolding wright_request_body
read_pieces [] b = b
read_pieces (p ∷ ps) b = read_pieces ps (wright_request_body p b)

unfoldable pub total : List Bytes → ℕ
total [] = 0
total (p ∷ ps) = length p + total ps

-- Some of the first pieces have n bytes between them, one piece at least.
unfoldable pub adds_up : ℕ → List Bytes → Bool
adds_up n [] = false
adds_up n (p ∷ ps) =
    let rest : Bool = adds_up (n - length p) ps in length p == n || (leb (length p) n && rest)

adds_up-small : (n : ℕ) (ps : List Bytes) → total ps < n → adds_up n ps ≡ false
unfolding adds_up total
adds_up-small n [] h = refl
adds_up-small n (p ∷ ps) h = ground (arith, adds_up-small (n - length p) ps (omega arith))

-- Whether the count comes to 0 with one of the pieces, and the count then.
unfoldable pub comes_to_zero : ℕ → List Bytes → Bool
comes_to_zero left [] = false
comes_to_zero left (p ∷ ps) =
    let left' : ℕ = sub_word left (length p) in left' == 0 || comes_to_zero left' ps

-- With wrap-around the count comes to 0 only where the pieces add up to it.
pub comes_to_zero-adds_up :
    (left : ℕ) (ps : List Bytes)
    → left < 2 ^ 64
    → total ps < 2 ^ 64
    → comes_to_zero left ps ≡ adds_up left ps
unfolding comes_to_zero adds_up total
comes_to_zero-adds_up left [] hb ht = refl
comes_to_zero-adds_up left (p ∷ ps) hb ht = elim (Bool-cases (leb (length p) left)) [
  | inl le ↦
      let e : sub_word left (length p) ≡ left - length p =
        sub_word-le left (length p) hb (leb→le (length p) left le) in
      rw (e, comes_to_zero-adds_up (left - length p) ps (omega arith) (omega arith))
        (ground (arith, le))
  | inr gt ↦
      let over : left < length p = ground arith in
      let left' : ℕ = 2 ^ 64 + left - length p in
      let e : sub_word left (length p) ≡ left' = sub_word-gt left (length p) over (omega arith) in
      rw
        (
          e,
          comes_to_zero-adds_up left' ps (omega arith) (omega arith),
          adds_up-small left' ps (omega arith),
        )
        (ground (arith, gt))
]

end-body :
    (p : Bytes) (b : Buffer)
    → (wright_request_body p b).is_end_send
      ≡ (sub_word b.length_body (length p) == 0 || b.is_end_send)
unfolding wright_request_body
end-body p b = ground arith

pub left-body :
    (p : Bytes) (b : Buffer)
    → (wright_request_body p b).length_body ≡ sub_word b.length_body (length p)
unfolding wright_request_body
left-body p b = ground arith

end-pieces :
    (ps : List Bytes) (b : Buffer)
    → (read_pieces ps b).is_end_send ≡ (b.is_end_send || comes_to_zero b.length_body ps)
unfolding read_pieces comes_to_zero
end-pieces [] b = ground arith
end-pieces (p ∷ ps) b =
    end-pieces ps (wright_request_body p b) ∙ rw (left-body p b, end-body p b) (ground arith)

-- A body is taken to have been read once some of the first pieces have exactly as many bytes between
-- them as were left, and only then: if the reads go past that number without meeting it, no
-- later one ends the body. All pieces have less than 2 ^ 64 bytes between them.
pub read_pieces-adds_up :
    (ps : List Bytes) (b : Buffer)
    → b.length_body < 2 ^ 64
    → total ps < 2 ^ 64
    → (read_pieces ps b).is_end_send ≡ (b.is_end_send || adds_up b.length_body ps)
read_pieces-adds_up ps b hb ht =
    end-pieces ps b
    ∙ ap (λ ended. b.is_end_send || ended) (comes_to_zero-adds_up b.length_body ps hb ht)
