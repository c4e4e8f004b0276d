-- ===== src/Lab31v2/BinaryString.antt =====
-- lab31/v2/binaryString: BinaryString.cpp, a byte string that manages its memory by hand. `none` for a
-- result is undefined behaviour (a read or a write outside the array, a use after `delete[]`), or the
-- exception of a `new` with a negative size. A method's `other` is an object other than the one it is
-- called on, and the loops with an `int` count run below 2 GiB.
pub mod Appending
pub mod Shifting
use operating_systems_labs.Base.{
  ℕ, ◌+◌, Bool, true, false, ◌||◌, Option, none, some, List, [], ◌∷◌, ◌++◌, length, take, drop,
  replicate, leb, ◌==◌, if◌then◌else◌, ◌>>=◌, ℤ, pos, negsuc, ◌+ℤ◌, ◌-ℤ◌, leb_ℤ, ltb_ℤ, pos_part,
}

-- A byte, `none` before it is written.
abbrev pub Cell : Type 0
Cell = Option ℕ

-- What `_data` points to.
pub data Memory : Type 0 where
  null : Memory
  block : List Cell → Memory
  freed : Memory

pub record BinaryString : Type 0 where
  pub data_size : ℤ
  pub array : Memory
  pub malloced_size : ℤ

-- `new char[n]`
unfoldable pub new_block : ℤ → Option Memory
new_block (pos n) = some (block (replicate n none))
new_block (negsuc n) = none

-- `delete[]`
unfoldable pub free : Memory → Option Memory
free null = some null
free (block cells) = some freed
free freed = none

-- The reads of n cells from an offset on.
unfoldable pub copy_out : Memory → ℤ → ℕ → Option (List Cell)
copy_out (block cells) (pos offset) n =
    if n == 0 || leb (offset + n) (length cells) then some (take n (drop offset cells)) else none
copy_out memory offset n = if n == 0 then some [] else none

-- The writes of cells from an offset on.
unfoldable pub copy_in : Memory → ℤ → List Cell → Option Memory
copy_in memory offset [] = some memory
copy_in (block cells) (pos offset) (c ∷ cs) =
    if leb (offset + length (c ∷ cs)) (length cells)
    then some (block (take offset cells ++ ((c ∷ cs) ++ drop (offset + length (c ∷ cs)) cells)))
    else none
copy_in memory offset (c ∷ cs) = none

-- A loop makes as many rounds as a size says, none for a negative one.
abbrev pub rounds : ℤ → ℕ
rounds n = pos_part n

abbrev pub empty : BinaryString
empty = record { data_size = pos 0; array = null; malloced_size = pos 0 }

unfoldable pub from_data : Memory → ℤ → Option BinaryString
from_data other_data other_length =
    if ltb_ℤ (pos 0) other_length
    then (do
      memory ← new_block other_length
      cells ← copy_out other_data (pos 0) (rounds other_length)
      array ← copy_in memory (pos 0) cells
      some (record { data_size = other_length; array = array; malloced_size = other_length }))
    else some (record { data_size = other_length; array = null; malloced_size = pos 0 })

-- A new array of the size with a copy of the cells of `other`, for the copy constructor,
-- `operator=` and `copyAndCreateData`.
unfoldable pub copy_of : BinaryString → Option BinaryString
copy_of other = do
  memory ← new_block other.data_size
  cells ← copy_out other.array (pos 0) (rounds other.data_size)
  array ← copy_in memory (pos 0) cells
  some (record { data_size = other.data_size; array = array; malloced_size = other.data_size })

unfoldable pub assign : BinaryString → BinaryString → Option BinaryString
assign other this = do old ← free this.array; copy_of other

-- The result, which is returned without a copy, is the new string and the old one, whose `_mallocedSize` is set.
unfoldable pub sub_binary_string : ℤ → ℤ → BinaryString → Option (BinaryString × BinaryString)
sub_binary_string position_start position_end this = do
  let size : ℤ =
      if leb_ℤ (position_end -ℤ position_start) this.data_size
      then position_end -ℤ position_start
      else this.data_size
  memory ← new_block size
  cells ← copy_out this.array position_start (rounds size)
  array ← copy_in memory (pos 0) cells
  some (
    record { data_size = size; array = array; malloced_size = pos 0 },
    record this { malloced_size = size },
  )

-- The arrays of two strings one behind the other in a new array.
unfoldable pub join_data : BinaryString → BinaryString → ℤ → Option Memory
join_data first second size = do
  memory ← new_block size
  cells ← copy_out first.array (pos 0) (rounds first.data_size)
  half ← copy_in memory (pos 0) cells
  more ← copy_out second.array (pos 0) (rounds second.data_size)
  copy_in half first.data_size more

unfoldable pub plus : BinaryString → BinaryString → Option BinaryString
plus other1 other2 = do
  buf ← join_data other1 other2 (other1.data_size +ℤ other2.data_size)
  from_data buf (other1.data_size +ℤ other2.data_size)

-- The argument is passed by value, so it is copied first.
unfoldable pub add : BinaryString → BinaryString → Option BinaryString
add other this = do
  binary_string ← copy_of other
  let new_size : ℤ = this.data_size +ℤ binary_string.data_size
  new_data ← join_data this binary_string new_size
  old ← free this.array
  some (record { data_size = new_size; array = new_data; malloced_size = new_size })

unfoldable pub clear_data : BinaryString → Option BinaryString
clear_data this = do
  array ← copy_in this.array (pos 0) (replicate (rounds this.malloced_size) (some 0))
  some (record this { data_size = pos 0; array = array })

unfoldable pub set_binary_string : Memory → ℤ → BinaryString → Option BinaryString
set_binary_string other_data other_length this = do
  cells ← copy_out other_data (pos 0) (rounds other_length)
  array ← copy_in this.array (pos 0) cells
  some (record this { data_size = other_length; array = array })

unfoldable pub copy_data : BinaryString → BinaryString → Option BinaryString
copy_data other this = set_binary_string other.array other.data_size this

-- The cells of `other` from start to end, written to the front of the array.
unfoldable pub set_new_data_not_malloc_with_ptr :
    BinaryString → ℤ → ℤ → BinaryString → Option BinaryString
set_new_data_not_malloc_with_ptr other start end this = do
  cells ← copy_out other.array start (rounds (end -ℤ start))
  array ← copy_in this.array (pos 0) cells
  some (record this { data_size = end -ℤ start; array = array })

-- The array that `setNewDataNotMalloc` writes to.
unfoldable pub with_room : ℤ → BinaryString → Option BinaryString
with_room size this =
    if ltb_ℤ this.malloced_size size
    then (do
      old ← free this.array
      array ← new_block (size +ℤ pos 10)
      some (record this { array = array; malloced_size = size +ℤ pos 10 }))
    else some this

unfoldable pub set_new_data_not_malloc : BinaryString → ℤ → ℤ → BinaryString → Option BinaryString
set_new_data_not_malloc other start end this = do
  this' ← with_room (end -ℤ start) this
  set_new_data_not_malloc_with_ptr other start end this'

-- The loop runs from size to the size that is left, not to the old one.
unfoldable pub shift_data_not_malloc : BinaryString → ℤ → BinaryString → Option BinaryString
shift_data_not_malloc other size this = do
  let left : ℤ = this.data_size -ℤ size
  cells ← copy_out other.array size (rounds (left -ℤ size))
  array ← copy_in this.array (pos 0) cells
  some (record this { data_size = left; array = array })

unfoldable pub copy_and_create_data : BinaryString → BinaryString → Option BinaryString
copy_and_create_data other this = copy_of other

unfoldable pub malloc_need_size : ℤ → BinaryString → Option BinaryString
malloc_need_size size this = do
  array ← new_block (size +ℤ pos 10)
  some (record { data_size = pos 0; array = array; malloced_size = size +ℤ pos 10 })

unfoldable pub add_to_malloced_buf : BinaryString → BinaryString → Option BinaryString
add_to_malloced_buf other this =
    let size : ℤ = this.data_size +ℤ other.data_size in
    if ltb_ℤ this.malloced_size size
    then (do
      new_buf ← join_data this other (size +ℤ pos 10)
      old ← free this.array
      some (record { data_size = size; array = new_buf; malloced_size = size +ℤ pos 10 }))
    else (do
      cells ← copy_out other.array (pos 0) (rounds other.data_size)
      array ← copy_in this.array this.data_size cells
      some (record this { data_size = size; array = array }))

-- The pointer keeps its value.
unfoldable pub delete_malloced_buf : BinaryString → Option BinaryString
delete_malloced_buf this = do
  array ← free this.array
  some (record { data_size = pos 0; array = array; malloced_size = pos 0 })

unfoldable pub delete_data : BinaryString → Option BinaryString
delete_data this = do
  old ← free this.array
  some (record { data_size = pos 0; array = null; malloced_size = pos 0 })
