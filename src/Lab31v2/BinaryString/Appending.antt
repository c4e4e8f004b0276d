-- ===== src/Lab31v2/BinaryString/Appending.antt =====
-- Strings that are kept properly: copying and appending.
use operating_systems_labs.Base.{
  inl, inr, ℕ, suc, ◌+◌, ◌-◌, ◌≤◌, ◌≡◌, refl, sym, ap, ◌∙◌, arith, true, false, ◌||◌, Option, none,
  some, List, [], ◌∷◌, ◌++◌, Bool-cases, append_assoc, length, take, drop, replicate, length-append,
  length-drop, length-replicate, leb, ◌==◌, if_true, if_false, ℤ, pos, ◌+ℤ◌, ltb_ℤ,
}
use operating_systems_labs.Lab31v2.BinaryString.{
  Cell, Memory, block, BinaryString, new_block, free, copy_out, copy_in, copy_of, join_data, add,
  add_to_malloced_buf,
}

-- A string of the given cells, with spare cells behind them in its array.
abbrev pub string : List Cell → List Cell → BinaryString
string cells spare = record {
  data_size = pos (length cells);
  array = block (cells ++ spare);
  malloced_size = pos (length (cells ++ spare));
}

take-append : (xs ys : List Cell) → take (length xs) (xs ++ ys) ≡ xs
take-append [] ys = refl
take-append (x ∷ xs) ys = ap (λ (l : List Cell). x ∷ l) (take-append xs ys)

drop-append : (xs ys : List Cell) (n : ℕ) → drop (length xs + n) (xs ++ ys) ≡ drop n ys
drop-append [] ys n = ap (λ k. drop k ys) (omega arith)
drop-append (x ∷ xs) ys n =
    ap (λ k. drop k (x ∷ (xs ++ ys))) (suc_add (length xs) n) ∙ drop-append xs ys n
  where
    suc_add : (m k : ℕ) → suc m + k ≡ suc (m + k)
    suc_add m k = omega arith

copy_out-front :
    (xs spare : List Cell) → copy_out (block (xs ++ spare)) (pos 0) (length xs) ≡ some xs
unfolding copy_out
copy_out-front xs spare =
    let fits : leb (0 + length xs) (length (xs ++ spare)) ≡ true =
      ground (arith, length-append xs spare) in
    if_true (length xs == 0 || leb (0 + length xs) (length (xs ++ spare))) _ none
      (ground (arith, fits))
    ∙ ap some (take-append xs spare)

copy_in-behind :
    (xs ys spare : List Cell)
    → length ys ≤ length spare
    → copy_in (block (xs ++ spare)) (pos (length xs)) ys
      ≡ some (block (xs ++ (ys ++ drop (length ys) spare)))
unfolding copy_in
copy_in-behind xs [] spare h = refl
copy_in-behind xs (y ∷ ys) spare h =
    let fits : leb (length xs + length (y ∷ ys)) (length (xs ++ spare)) ≡ true =
      ground (arith, length-append xs spare) in
    if_true _ _ _ fits
    ∙ ap
        (λ (l : List Cell).
          some (block (l ++ ((y ∷ ys) ++ drop (length xs + length (y ∷ ys)) (xs ++ spare)))))
        (take-append xs spare)
    ∙ ap (λ (l : List Cell). some (block (xs ++ ((y ∷ ys) ++ l))))
        (drop-append xs spare (length (y ∷ ys)))

pos-add : (m n : ℕ) → pos m +ℤ pos n ≡ pos (m + n)
unfolding ◌+ℤ◌
pos-add m n = ground arith

-- The spare cells of a new array of n.
abbrev spare_of : ℕ → List Cell → List Cell
spare_of n xs = drop (length xs) (replicate n none)

length-spare_of : (n : ℕ) (xs : List Cell) → length (spare_of n xs) ≡ n - length xs
length-spare_of n xs = omega (
  arith,
  length-drop {A = Cell} (length xs) (replicate n none),
  length-replicate {A = Cell} n none,
)

new_block-copy :
    (n : ℕ) (xs : List Cell)
    → length xs ≤ n
    → copy_in (block (replicate n none)) (pos 0) xs ≡ some (block (xs ++ spare_of n xs))
new_block-copy n xs h =
    copy_in-behind [] xs (replicate n none) (omega (arith, length-replicate {A = Cell} n none))

join_data-append :
    (xs ys spare spare' : List Cell) (n : ℕ)
    → length xs + length ys ≤ n
    → join_data (string xs spare) (string ys spare') (pos n)
      ≡ some (block (xs ++ (ys ++ drop (length ys) (spare_of n xs))))
unfolding join_data new_block
join_data-append xs ys spare spare' n h = rw (copy_out-front xs spare) (
    rw (new_block-copy n xs (omega arith)) (
      rw (copy_out-front ys spare')
        (copy_in-behind xs ys (spare_of n xs) (omega (arith, length-spare_of n xs)))))

string-by :
    (cells spare : List Cell) (size malloced : ℤ) (array : Memory)
    → size ≡ pos (length cells)
    → array ≡ block (cells ++ spare)
    → malloced ≡ pos (length (cells ++ spare))
    → ◌≡◌ {A = Option BinaryString}
        (some (record { data_size = size; array = array; malloced_size = malloced }))
        (some (string cells spare))
string-by cells spare size malloced array e1 e2 e3 = rw (e1, e2, e3) refl

length-cells :
    (xs ys spare : List Cell) (n : ℕ)
    → length spare ≡ n - length xs - length ys
    → length xs + length ys ≤ n
    → length ((xs ++ ys) ++ spare) ≡ n
length-cells xs ys spare n h k = omega (arith, length-append (xs ++ ys) spare, length-append xs ys)

-- A string of xs and ys in a new array of n.
abbrev fresh_spare : ℕ → List Cell → List Cell → List Cell
fresh_spare n xs ys = drop (length ys) (spare_of n xs)

length-fresh_spare :
    (n : ℕ) (xs ys : List Cell)
    → length xs + length ys ≤ n
    → length ((xs ++ ys) ++ fresh_spare n xs ys) ≡ n
length-fresh_spare n xs ys h =
    length-cells xs ys (fresh_spare n xs ys) n
      (omega (arith, length-drop {A = Cell} (length ys) (spare_of n xs), length-spare_of n xs)) h

string-fresh :
    (xs ys : List Cell) (n : ℕ) (size malloced : ℤ)
    → length xs + length ys ≤ n
    → size ≡ pos (length xs + length ys)
    → malloced ≡ pos n
    → ◌≡◌ {A = Option BinaryString}
        (some (record {
          data_size = size;
          array = block (xs ++ (ys ++ fresh_spare n xs ys));
          malloced_size = malloced;
        }))
        (some (string (xs ++ ys) (fresh_spare n xs ys)))
string-fresh xs ys n size malloced h e1 e2 =
    string-by (xs ++ ys) (fresh_spare n xs ys) size malloced
      (block (xs ++ (ys ++ fresh_spare n xs ys))) (e1 ∙ ap pos (sym (length-append xs ys)))
      (ap block (sym (append_assoc xs ys (fresh_spare n xs ys))))
      (e2 ∙ ap pos (sym (length-fresh_spare n xs ys h)))

room-fits : (m n k total : ℕ) → total ≡ m + k → ltb_ℤ (pos total) (pos (m + n)) ≡ false → n ≤ k
room-fits m n k total e h = ground arith

same-length :
    (xs ys spare : List Cell)
    → length ys ≤ length spare
    → length (xs ++ spare) ≡ length ((xs ++ ys) ++ drop (length ys) spare)
same-length xs ys spare h = omega (
  arith,
  length-append xs spare,
  length-append xs ys,
  length-append (xs ++ ys) (drop (length ys) spare),
  length-drop (length ys) spare,
)

-- A proper string that another one is appended to by `addToMallocedBuf` holds the cells of both, one
-- behind the other, whether its array has room for them or a larger one is made; and it is proper
-- again: its size and the size of its array are those that it records.
pub add_to_malloced_buf-append :
    (xs ys spare spare' : List Cell)
    → (left : List Cell) × (add_to_malloced_buf (string ys spare') (string xs spare)
        ≡ some (string (xs ++ ys) left))
unfolding add_to_malloced_buf free
add_to_malloced_buf-append xs ys spare spare' =
    let sum : pos (length xs) +ℤ pos (length ys) ≡ pos (length xs + length ys) =
      pos-add (length xs) (length ys) in
    elim (Bool-cases (ltb_ℤ (pos (length (xs ++ spare))) (pos (length xs) +ℤ pos (length ys)))) [
      | inl small ↦
          let n : ℕ = length xs + length ys + 10 in
          (
            fresh_spare n xs ys,
            if_true _ _ _ small
                ∙ rw (sum, pos-add (length xs + length ys) 10)
                    (rw (join_data-append xs ys spare spare' n (omega arith)) (
                      string-fresh xs ys n (pos (length xs + length ys)) (pos n) (omega arith) refl
                        refl)),
          )
      | inr room ↦
          let fits : length ys ≤ length spare =
            room-fits (length xs) (length ys) (length spare) (length (xs ++ spare))
              (length-append xs spare) (rw sum at room) in
          (
            drop (length ys) spare,
            if_false _ _ _ room
                ∙ rw (copy_out-front ys spare') (
                    rw (copy_in-behind xs ys spare fits) (
                      string-by (xs ++ ys) (drop (length ys) spare) _ _ _
                        (sum ∙ ap pos (sym (length-append xs ys)))
                        (ap block (sym (append_assoc xs ys (drop (length ys) spare))))
                        (ap pos (same-length xs ys spare fits)))),
          )
    ]

-- A copy of a proper string is the proper string of the same cells.
copy_of-string :
    (ys spare : List Cell) → copy_of (string ys spare) ≡ some (string ys (spare_of (length ys) ys))
unfolding copy_of new_block
copy_of-string ys spare = rw (copy_out-front ys spare) (
    rw (new_block-copy (length ys) ys (omega arith)) (
      string-by ys (spare_of (length ys) ys) (pos (length ys)) (pos (length ys))
        (block (ys ++ spare_of (length ys) ys)) refl refl
        (ap pos (
          omega
            (arith, length-append ys (spare_of (length ys) ys), length-spare_of (length ys) ys)))))

-- `add` of one proper string to another gives the proper string of the cells of both, one behind the
-- other, in an array without spare cells.
pub add-append :
    (xs ys spare spare' : List Cell)
    → (left : List Cell) × (add (string ys spare') (string xs spare)
        ≡ some (string (xs ++ ys) left))
      × (length left ≡ 0)
unfolding add free
add-append xs ys spare spare' =
    let sum : pos (length xs) +ℤ pos (length ys) ≡ pos (length xs + length ys) =
      pos-add (length xs) (length ys) in
    let n : ℕ = length xs + length ys in
    (
      fresh_spare n xs ys,
      rw (copy_of-string ys spare', sum)
          (rw (join_data-append xs ys spare (spare_of (length ys) ys) n (omega arith))
            (string-fresh xs ys n (pos n) (pos n) (omega arith) refl refl)),
      omega (
        arith,
        length-fresh_spare n xs ys (omega arith),
        length-append (xs ++ ys) (fresh_spare n xs ys),
        length-append xs ys,
      ),
    )
