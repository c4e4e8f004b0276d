-- ===== src/Lab32v2/Parser/Response.antt =====
-- What a response heading is parsed to.
use operating_systems_labs.Base.{
  ℕ, ◌<◌, ◌^◌, ◌≡◌, ◌↔◌, inl, inr, refl, sym, subst, ap, arith, none, Bytes, find, find-none,
  find_bound, find-Leftmost, Leftmost, Occurs, length, drop, take, pos, Option-cases, Bool-cases,
  true, false, ◌∷◌, ◌++◌, codes, starts_with-eq, to_int-small, to_int-npos, append_assoc,
  take-append-drop, Occurs-append, ◌∙◌,
}
use operating_systems_labs.Lab32v2.Parser.{
  ResultParseHeading, invalid, with_type, parsing_response_heading, normal, find_content_length,
  find_int, is_npos, after, content_length_literal, atoi, is_digit, digits_value,
}
use operating_systems_labs.Lab32v2.Parser.Heading.{Passes, after-append, span-append, min-small}

abbrev ok_line : Bytes
ok_line = codes "HTTP/1.1 200 OK"

abbrev pub ok_mark : Bytes
ok_mark = codes "200 OK"

-- Where the whole status line stands, its end stands too.
ok_mark-Occurs : (s : Bytes) (k : ℕ) → Occurs ok_line s k → (j : ℕ) × Occurs ok_mark s j
ok_mark-Occurs s k h =
    let t : Bytes = drop (length ok_line) (drop k s) in
    let pre : Bytes = take k s ++ codes "HTTP/1.1 " in
    let split : pre ++ ok_mark ++ t ≡ s =
      append_assoc pre ok_mark t
      ∙ append_assoc (take k s) (codes "HTTP/1.1 ") (ok_mark ++ t)
      ∙ ap (λ (r : Bytes). take k s ++ r) (sym (starts_with-eq ok_line (drop k s) h))
      ∙ take-append-drop k s in
    (
      length pre,
      subst (λ (r : Bytes). Occurs ok_mark r (length pre)) split (Occurs-append pre ok_mark t),
    )

is_npos-find :
    (p buf : Bytes) → length buf < 2 ^ 31 → (is_npos (find_int p buf) ≡ true) ↔ (find p buf ≡ none)
unfolding is_npos find_int
is_npos-find p buf h = elim (Option-cases (find p buf)) [
  | inl e ↦ (λ _. e, λ _. rw (e, find_int, to_int-npos))
  | inr (k, e) ↦ (
    λ t. cc (rw (e, find_int, to_int-small k (omega (arith, find_bound p buf k e))) at t),
    λ t. cc,
  )
]

present :
    (p buf : Bytes)
    → length buf < 2 ^ 31
    → is_npos (find_int p buf) ≡ false
    → (k : ℕ) × Occurs p buf k
present p buf h e = elim (Option-cases (find p buf)) [
  | inl n ↦ absurd (cc (e, (is_npos-find p buf h).1 n))
  | inr (k, f) ↦ (k, (find-Leftmost p buf k f).0)
]

absent :
    (p buf : Bytes)
    → length buf < 2 ^ 31
    → is_npos (find_int p buf) ≡ true
    → (k : ℕ) → ¬ Occurs p buf k
absent p buf h e = find-none p buf ((is_npos-find p buf h).0 e)

error-find_content_length :
    (r : ResultParseHeading) (buf : Bytes)
    → (find_content_length r buf).response_with_error ≡ r.response_with_error
unfolding find_content_length
error-find_content_length r buf = ground arith

-- A response heading below 2 GiB counts as an error exactly when "200 OK" stands nowhere in it.
pub parsing_response_heading-error_iff :
    (heading : Bytes)
    → length heading < 2 ^ 31
    → ((parsing_response_heading heading).response_with_error ≡ true)
      ↔ ((k : ℕ) → ¬ Occurs ok_mark heading k)
unfolding parsing_response_heading normal
parsing_response_heading-error_iff heading h =
    elim (Bool-cases (is_npos (find_int ok_line heading))) [
      | inr line ↦
          let (k, o) = present ok_line heading h line in
          let (j, m) = ok_mark-Occurs heading k o in
          (
            λ e. ground (arith, error-find_content_length (normal) heading),
            λ none_ok. absurd (none_ok j m),
          )
      | inl no_line ↦ elim (Bool-cases (is_npos (find_int ok_mark heading))) [
        | inr mark ↦
            let (j, m) = present ok_mark heading h mark in
            (
              λ e. ground (arith, error-find_content_length (normal) heading),
              λ none_ok. absurd (none_ok j m),
            )
        | inl no_mark ↦ (
          λ e. absent ok_mark heading h no_mark,
          λ none_ok.
              rw (no_line, no_mark)
                (error-find_content_length
                  (record (with_type invalid) { response_with_error = true }) heading),
        )
      ]
    ]

response_start :
    (heading : Bytes)
    → (r : ResultParseHeading) × (parsing_response_heading heading ≡ find_content_length r heading)
unfolding parsing_response_heading normal
response_start heading = elim (Bool-cases (is_npos (find_int ok_line heading))) [
  | inr line ↦ (normal, rw line)
  | inl no_line ↦ elim (Bool-cases (is_npos (find_int ok_mark heading))) [
    | inr mark ↦ (normal, rw (no_line, mark))
    | inl no_mark ↦
        (record (with_type invalid) { response_with_error = true }, rw (no_line, no_mark))
  ]
]

have-find_content_length :
    (r : ResultParseHeading) (heading : Bytes)
    → ((find_content_length r heading).have_content_length ≡ true)
      ↔ ((k : ℕ) × Occurs content_length_literal heading k)
unfolding find_content_length after
have-find_content_length r heading = elim (Option-cases (find content_length_literal heading)) [
  | inl e ↦ (λ t. ground arith, λ (k, o). absurd (find-none content_length_literal heading e k o))
  | inr (k, e) ↦ (
    λ t. (k, (find-Leftmost content_length_literal heading k e).0),
    λ _. rw (e, find_content_length),
  )
]

-- A response heading has a content length exactly when it says "Content-Length: ".
pub parsing_response_heading-length_iff :
    (heading : Bytes)
    → ((parsing_response_heading heading).have_content_length ≡ true)
      ↔ ((k : ℕ) × Occurs content_length_literal heading k)
parsing_response_heading-length_iff heading =
    let (r, e) = response_start heading in rw e (have-find_content_length r heading)

-- The length that a response heading states for the first time after `pre`, in digits that a
-- carriage return follows, is the length that it is parsed to, if it is below 2 ^ 31.
pub parsing_response_heading-length :
    (pre digits rest : Bytes)
    → Leftmost content_length_literal
        (pre ++ (content_length_literal ++ (digits ++ 13 ∷ rest)))
        (length pre)
    → Passes is_digit digits
    → digits_value 0 digits < 2 ^ 31
    → (parsing_response_heading
        (pre ++ (content_length_literal ++ (digits ++ 13 ∷ rest)))).content_length
      ≡ pos (digits_value 0 digits)
unfolding find_content_length atoi
parsing_response_heading-length pre digits rest first ds small =
    let (r, e) = response_start (pre ++ (content_length_literal ++ (digits ++ 13 ∷ rest))) in
    rw
      (
        e,
        after-append content_length_literal pre (digits ++ 13 ∷ rest) first,
        find_content_length,
        span-append is_digit digits 13 rest ds refl,
        min-small (digits_value 0 digits) small,
      )
      (to_int-small (digits_value 0 digits) small)
