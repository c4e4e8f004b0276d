-- ===== src/Lab31v2/BinaryString/Shifting.antt =====
-- `shiftDataNotMalloc`, which bounds its loop by the new size.
use operating_systems_labs.Base.{
  ℕ, ◌+◌, ◌≤◌, ◌≡◌, refl, ap, ◌∙◌, arith, some, List, ◌++◌, take, drop, length, length-append, pos,
  ◌-ℤ◌,
}
use operating_systems_labs.Lab31v2.BinaryString.{
  Cell, block, copy_out, copy_in, rounds, shift_data_not_malloc,
}
use operating_systems_labs.Lab31v2.BinaryString.Appending.{string}

left-size : (m n : ℕ) → pos (m + n) -ℤ pos m ≡ pos n
unfolding ◌-ℤ◌
left-size m n = ground arith

no_rounds : (m n : ℕ) → n ≤ m → rounds (pos n -ℤ pos m) ≡ 0
unfolding ◌-ℤ◌
no_rounds m n h = ground arith

copy_nothing :
    (cells : List Cell) (offset : ℕ)
    → copy_out (block cells) (pos offset) 0 ≡ some (take 0 (drop offset cells))
unfolding copy_out
copy_nothing cells offset = refl

-- When a proper string of xs and ys is to be shifted by the length of xs, and xs is at least as long as
-- ys, the size becomes that of ys and no cell is moved: what the string then shows is the beginning of
-- xs, not ys.
pub shift_data_not_malloc-lost :
    (xs ys spare : List Cell)
    → length ys ≤ length xs
    → shift_data_not_malloc (string (xs ++ ys) spare) (pos (length xs)) (string (xs ++ ys) spare)
      ≡ some (record (string (xs ++ ys) spare) { data_size = pos (length ys) })
unfolding shift_data_not_malloc copy_in
shift_data_not_malloc-lost xs ys spare h =
    let size : pos (length (xs ++ ys)) -ℤ pos (length xs) ≡ pos (length ys) =
      ap (λ (k : ℕ). pos k -ℤ pos (length xs)) (length-append xs ys)
      ∙ left-size (length xs) (length ys) in
    rw (size, no_rounds (length xs) (length ys) h, copy_nothing ((xs ++ ys) ++ spare) (length xs))
      refl
