-- ===== src/Lab32v2/Parser/Regex.antt =====
-- The two regular expressions of lab32v2/Constants.h, as `std::regex_search` matches them (leftmost,
-- greedy; every repetition may be empty, so no match is ever given back), and `atoi`.
use operating_systems_labs.Base.{
  ℕ, ◌+◌, ◌-◌, ◌*◌, ◌^◌, Bool, ◌&&◌, ◌||◌, Option, none, some, [], ◌∷◌, ◌++◌, Bytes, codes, find,
  drop, length, ltb, leb, ◌==◌, if◌then◌else◌, ℤ, to_int, min,
}

-- `\d`
abbrev pub is_digit : ℕ → Bool
is_digit c = leb b'0' c && leb c b'9'

-- `[\w.\d-]`
unfoldable pub host_char : ℕ → Bool
host_char c =
    (leb b'a' c && leb c b'z')
    || (leb b'A' c && leb c b'Z')
    || is_digit c
    || c == b'_'
    || c == b'.'
    || c == b'-'

-- What follows the leftmost occurrence of a literal.
unfoldable pub after : Bytes → Bytes → Option Bytes
after p s = elim (find p s) [ none ↦ none | some k ↦ some (drop (length p) (drop k s)) ]

abbrev pub host_literal : Bytes
host_literal = codes "Host: "

abbrev pub content_length_literal : Bytes
content_length_literal = codes "Content-Length: "

-- The longest prefix of bytes that pass the test, and the rest.
unfoldable pub span : (ℕ → Bool) → Bytes → Bytes × Bytes
span test [] = ([], [])
span test (c ∷ s) = let (run, rest) = span test s in if test c then (c ∷ run, rest) else ([], c ∷ s)

-- A round of `(:(\d)+)` is complete when it has a digit.
unfoldable pub commit : Bytes → Bytes → Bytes
commit last round = if ltb 1 (length round) then round else last

pub data Reading : Type 0 where
  digit colon stop : Reading

-- What the next byte does to the round under way: a digit extends it, a colon opens the next one,
-- and any other byte ends the match.
unfoldable pub reading : Bytes → ℕ → Reading
reading [] c = if c == b':' then colon else stop
reading (x ∷ []) c = if is_digit c then digit else stop
reading (x ∷ y ∷ round) c = if is_digit c then digit else if c == b':' then colon else stop

unfoldable pub port_rounds : Bytes → Bytes → Bytes → Bytes
unfolding commit reading
port_rounds last round [] = commit last round
port_rounds last round (c ∷ s) = elim (reading round c) [
  | digit ↦ port_rounds last (round ++ c ∷ []) s
  | colon ↦ port_rounds (commit last round) (c ∷ []) s
  | stop ↦ commit last round
]

-- The second group of `(:(\d)+)*`: the text of its last round, empty if there is none.
unfoldable pub port_group : Bytes → Bytes
unfolding port_rounds
port_group s = port_rounds [] [] s

-- The value of the leading digits.
unfoldable pub digits_value : ℕ → Bytes → ℕ
digits_value n [] = n
digits_value n (c ∷ s) =
    let rest = digits_value (n * 10 + (c - 48)) s in if is_digit c then rest else n

-- `atoi` on a text that starts with a digit or is empty: `(int) strtol(s, 0, 10)`, and `strtol`
-- stops at `LONG_MAX`.
unfoldable pub atoi : Bytes → ℤ
unfolding digits_value
atoi s = to_int (min (digits_value 0 s) (2 ^ 63 - 1))
