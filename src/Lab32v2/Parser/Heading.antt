-- ===== src/Lab32v2/Parser/Heading.antt =====
-- What a request heading is parsed to, and when it is refused.
use operating_systems_labs.Base.{
  ℕ, suc, ◌≤◌, ◌<◌, ◌^◌, ◌≡◌, ◌⊎◌, ◌↔◌, inl, inr, refl, ap, arith, none, some, Bytes, find,
  find-none, find-eq, find-Leftmost, Leftmost, Occurs, length, take, drop, pos, Option-cases,
  Bool-cases, Bool, true, false, [], ◌∷◌, ◌++◌, ltb, bytes_eq-eq, bytes_eq_refl, codes,
  length-append, min, ◌-◌, append_assoc, append-nil, ◌∙◌, to_int-small,
}
use operating_systems_labs.Lab32v2.Parser.Regex.{Reading}
use operating_systems_labs.Lab32v2.Parser.{
  ResultParseHeading, get_request, parsing_heading, with_type, find_host_and_port,
  find_content_length, request_type, after, host_literal, span, is_digit, host_char, port_group,
  port_rounds, commit, reading, atoi, digits_value, port_of,
}

abbrev pub Passes : (ℕ → Bool) → Bytes → Type 0
Passes test [] = Unit
Passes test (x ∷ xs) = (test x ≡ true) × Passes test xs

drop-length-append : (xs ys : Bytes) → drop (length xs) (xs ++ ys) ≡ ys
drop-length-append [] ys = refl
drop-length-append (x ∷ xs) ys = drop-length-append xs ys

pub span-append :
    (test : ℕ → Bool) (xs : Bytes) (c : ℕ) (s : Bytes)
    → Passes test xs
    → test c ≡ false
    → span test (xs ++ c ∷ s) ≡ (xs, c ∷ s)
unfolding span
span-append test [] c s h e = ground arith
span-append test (x ∷ xs) c s h e = ground (arith, span-append test xs c s h.1 e)

reading-digit :
    (x : ℕ) (round : Bytes) (d : ℕ) → is_digit d ≡ true → reading (x ∷ round) d ≡ Reading.digit
unfolding reading
reading-digit x [] d h = rw h
reading-digit x (y ∷ round) d h = rw h

reading-return : (x : ℕ) (round : Bytes) → reading (x ∷ round) 13 ≡ Reading.stop
unfolding reading
reading-return x [] = refl
reading-return x (y ∷ round) = refl

-- Digits extend a round that has its colon, and a carriage return ends the match.
port_rounds-digits :
    (last : Bytes) (x : ℕ) (round ds : Bytes) (s : Bytes)
    → Passes is_digit ds
    → port_rounds last (x ∷ round) (ds ++ 13 ∷ s) ≡ commit last (x ∷ (round ++ ds))
unfolding port_rounds
port_rounds-digits last x round [] s h = rw (reading-return x round, port_rounds, append-nil round)
port_rounds-digits last x round (d ∷ ds) s h =
    rw (reading-digit x round d h.0, port_rounds)
      (port_rounds-digits last x (round ++ d ∷ []) ds s h.1
        ∙ ap (λ r. commit last (x ∷ r)) (append_assoc round (d ∷ []) ds))

pub after-append :
    (p pre s : Bytes)
    → Leftmost p (pre ++ (p ++ s)) (length pre)
    → after p (pre ++ (p ++ s)) ≡ some s
unfolding after
after-append p pre s h =
    rw (find-eq p (pre ++ (p ++ s)) (length pre) h, after, drop-length-append pre (p ++ s))
      (ap some (drop-length-append p s))

find_host_and_port-none_iff :
    (result : ResultParseHeading) (buf : Bytes)
    → (find_host_and_port result buf ≡ none) ↔ (find host_literal buf ≡ none)
unfolding find_host_and_port after
find_host_and_port-none_iff result buf = (λ h. ground arith, λ h. rw (h, find_host_and_port))

-- A heading is refused exactly when it has at most three bytes or nowhere says "Host: ".
pub parsing_heading-none_iff :
    (heading : Bytes)
    → (parsing_heading heading ≡ none)
      ↔ ((length heading ≤ 3) ⊎ ((k : ℕ) → ¬ Occurs host_literal heading k))
unfolding parsing_heading
parsing_heading-none_iff heading = (refused, refuses)
  where
    start : ResultParseHeading
    start = find_content_length (with_type (request_type heading)) heading

    refused :
        parsing_heading heading ≡ none
        → (length heading ≤ 3) ⊎ ((k : ℕ) → ¬ Occurs host_literal heading k)
    refused h = elim (Bool-cases (ltb 3 (length heading))) [
      | inl long ↦ inr (
          find-none host_literal heading
            ((find_host_and_port-none_iff start heading).0 (rw long at h)))
      | inr short ↦ inl (ground arith)
    ]

    refuses :
        (length heading ≤ 3) ⊎ ((k : ℕ) → ¬ Occurs host_literal heading k)
        → parsing_heading heading ≡ none
    refuses (inl short) = ground arith
    refuses (inr absent) = elim (Option-cases (find host_literal heading)) [
      | inl e ↦ ground (arith, (find_host_and_port-none_iff start heading).1 e)
      | inr (k, e) ↦ absurd (absent k (find-Leftmost host_literal heading k e).0)
    ]

-- A heading that says "Host: host:digits" after `pre`.
abbrev pub with_host : Bytes → Bytes → Bytes → Bytes → Bytes
with_host pre host digits rest = pre ++ (host_literal ++ (host ++ b':' ∷ (digits ++ 13 ∷ rest)))

two_or_more : (n : ℕ) → ltb 1 (suc (suc n)) ≡ true
two_or_more n = ground arith

port_group-digits :
    (d : ℕ) (digits rest : Bytes)
    → Passes is_digit (d ∷ digits)
    → port_group (b':' ∷ ((d ∷ digits) ++ 13 ∷ rest)) ≡ b':' ∷ d ∷ digits
unfolding port_group commit reading
port_group-digits d digits rest h =
    rw (port_rounds-digits [] b':' [] (d ∷ digits) rest h, two_or_more (length digits))

pub min-small : (n : ℕ) → n < 2 ^ 31 → min n (2 ^ 63 - 1) ≡ n
min-small n h = omega arith

port_of-digits :
    (d : ℕ) (digits : Bytes)
    → digits_value 0 (d ∷ digits) < 2 ^ 31
    → port_of (b':' ∷ d ∷ digits) ≡ pos (digits_value 0 (d ∷ digits))
unfolding port_of atoi
port_of-digits d digits small =
    rw (two_or_more (length digits), min-small (digits_value 0 (d ∷ digits)) small)
      (to_int-small (digits_value 0 (d ∷ digits)) small)

find_host_and_port-with_host :
    (result : ResultParseHeading) (pre host : Bytes) (d : ℕ) (digits rest : Bytes)
    → Leftmost host_literal (with_host pre host (d ∷ digits) rest) (length pre)
    → Passes host_char host
    → Passes is_digit (d ∷ digits)
    → digits_value 0 (d ∷ digits) < 2 ^ 31
    → find_host_and_port result (with_host pre host (d ∷ digits) rest)
      ≡ some (record result { host_name = host; port = pos (digits_value 0 (d ∷ digits)) })
unfolding find_host_and_port
find_host_and_port-with_host result pre host d digits rest first hs ds small = rw (
  after-append host_literal pre (host ++ b':' ∷ ((d ∷ digits) ++ 13 ∷ rest)) first,
  find_host_and_port,
  span-append host_char host b':' ((d ∷ digits) ++ 13 ∷ rest) hs (unfold host_char in refl),
  port_group-digits d digits rest ds,
  port_of-digits d digits small,
)

long-with_host :
    (pre host digits rest : Bytes) → ltb 3 (length (with_host pre host digits rest)) ≡ true
long-with_host pre host digits rest =
    ground (arith, length-append pre (host_literal ++ (host ++ b':' ∷ (digits ++ 13 ∷ rest))))

request_type_lem :
    (heading : Bytes) → (request_type heading ≡ get_request) ↔ (take 3 heading ≡ codes "GET")
unfolding request_type
request_type_lem heading = (
  λ h. bytes_eq-eq (take 3 heading) (codes "GET") (ground arith),
  λ h. rw (h, bytes_eq_refl (codes "GET")),
)

type-find_content_length :
    (r : ResultParseHeading) (buf : Bytes) → (find_content_length r buf).type ≡ r.type
unfolding find_content_length
type-find_content_length r buf = ground arith

-- A request whose heading says "Host: host:digits" for the first time after `pre`, with at least one
-- digit and a carriage return behind them, is parsed to that host and to the number that the digits
-- write, if that is below 2 ^ 31; and it is a GET request exactly when it starts with "GET".
pub parsing_heading-with_host :
    (pre host : Bytes) (d : ℕ) (digits rest : Bytes)
    → Leftmost host_literal (with_host pre host (d ∷ digits) rest) (length pre)
    → Passes host_char host
    → Passes is_digit (d ∷ digits)
    → digits_value 0 (d ∷ digits) < 2 ^ 31
    → (r : ResultParseHeading) × (parsing_heading (with_host pre host (d ∷ digits) rest) ≡ some r)
      × (r.host_name ≡ host)
      × (r.port ≡ pos (digits_value 0 (d ∷ digits)))
      × ((r.type ≡ get_request) ↔ (take 3 (with_host pre host (d ∷ digits) rest) ≡ codes "GET"))
unfolding parsing_heading
parsing_heading-with_host pre host d digits rest first hs ds small =
    let heading : Bytes = with_host pre host (d ∷ digits) rest in
    let start : ResultParseHeading =
      find_content_length (with_type (request_type heading)) heading in
    let type : start.type ≡ request_type heading =
      type-find_content_length (with_type (request_type heading)) heading in
    (
      record start { host_name = host; port = pos (digits_value 0 (d ∷ digits)) },
      rw (long-with_host pre host (d ∷ digits) rest)
          (find_host_and_port-with_host start pre host d digits rest first hs ds small),
      refl,
      refl,
      rw type (request_type_lem heading),
    )
