-- ===== src/Lab32v2/Parser/Ends.antt =====
-- What the searches for the end of a heading and of a body answer, as `int` offsets.
use operating_systems_labs.Base.{
  ℕ, ◌+◌, ◌<◌, ◌^◌, ◌≡◌, ◌⊎◌, inl, inr, arith, Bytes, find, find_bound, find-Leftmost, find-none,
  Leftmost, Occurs, length, ℤ, pos, negsuc, to_int-small, to_int-npos, add_int-small, Option-cases,
}
use operating_systems_labs.Lab32v2.Parser.{
  ResultPars, end_heading, end_body, nothing, find_int, is_npos, end_answer, end_of_heading,
  end_of_body, find_end_heading, find_end_body,
}

-- The two answers of a search for p that reports `found`.
abbrev pub EndOf : Bytes → ResultPars → Bytes → ResultPars × ℤ → Type 0
EndOf p found buf answer =
    ((k : ℕ) × Leftmost p buf k × (answer ≡ (found, pos (k + length p))))
    ⊎ (((k : ℕ) → ¬ Occurs p buf k) × (answer ≡ (nothing, negsuc 0)))

end_answer-EndOf :
    (p : Bytes) (found : ResultPars) (buf : Bytes)
    → length buf + length p < 2 ^ 31
    → EndOf p found buf (end_answer found (length p) (find_int p buf))
unfolding end_answer is_npos find_int
end_answer-EndOf p found buf h = elim (Option-cases (find p buf)) [
  | inl e ↦ inr (find-none p buf e, rw (e, find_int, to_int-npos))
  | inr (k, e) ↦
      let fits : k + length p < 2 ^ 31 = omega (arith, find_bound p buf k e) in
      inl (
        k,
        find-Leftmost p buf k e,
        rw (e, find_int, to_int-small k (omega arith), add_int-small k (length p) fits),
      )
]

-- In a buffer below 2 GiB the end of the heading is found exactly where the first blank line ends,
-- and NOTHING with -1 is answered exactly when there is no blank line.
pub find_end_heading-EndOf :
    (buf : Bytes)
    → length buf + 4 < 2 ^ 31
    → EndOf end_of_heading end_heading buf (find_end_heading buf)
unfolding find_end_heading
find_end_heading-EndOf buf h = end_answer-EndOf end_of_heading end_heading buf h

-- In a buffer below 2 GiB the end of a chunked body is found exactly where the first "0" that a
-- blank line follows is, and NOTHING with -1 is answered exactly when there is none.
pub find_end_body-EndOf :
    (buf : Bytes) → length buf + 5 < 2 ^ 31 → EndOf end_of_body end_body buf (find_end_body buf)
unfolding find_end_body
find_end_body-EndOf buf h = end_answer-EndOf end_of_body end_body buf h
