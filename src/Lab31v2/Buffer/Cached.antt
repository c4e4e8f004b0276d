-- ===== src/Lab31v2/Buffer/Cached.antt =====
-- lab31/v2: what a client gets of a cached response.
use operating_systems_labs.Base.{
  ℕ, zero, suc, ◌+◌, ◌-◌, ◌≤◌, ◌≡◌, refl, sym, ap, ◌∙◌, true, false, some, [], ◌∷◌, ◌++◌,
  append-nil, Bytes, length, length-append, length-take, length-drop, length-replicate, take, drop,
  ltb, leb, take-length, if_true, if_false, Bool-cases, inl, inr, arith, replicate,
}
use operating_systems_labs.Lab32v2.Buffer.{end_work, resize}
use operating_systems_labs.Lab31v2.Constants.{buf_size}
use operating_systems_labs.Lab31v2.Cash.Element.{CashElement}
use operating_systems_labs.Lab31v2.Buffer.{
  Buffer, World, element_of, copied, send_cached, send_buf, proof_send_cached, proof_send,
}

length-resize : (n : ℕ) (s : Bytes) → length (resize n s) ≡ n
unfolding resize
length-resize n s = omega (
  arith,
  length-append (take n s) (replicate (n - length s) 0),
  length-take n s,
  length-replicate {A = ℕ} (n - length s) 0,
)

drop_all : (n : ℕ) (s : Bytes) → length s ≤ n → drop n s ≡ []
drop_all zero [] h = refl
drop_all zero (x ∷ s) h = absurd (omega arith)
drop_all (suc n) [] h = refl
drop_all (suc n) (x ∷ s) h = drop_all n s (omega arith)

copied-take : (n : ℕ) (source target : Bytes) → copied n source target ≡ take n source
unfolding copied
copied-take n source target =
    ap (λ rest. take n source ++ rest)
      (drop_all n (resize n target) (omega (arith, length-resize n target)))
    ∙ append-nil (take n source)

not_long :
    (count size : ℕ) (s : Bytes)
    → length s ≡ size - count
    → leb (count + buf_size - 1) size ≡ false
    → length s ≤ buf_size - 1
not_long count size s e short = ground arith

-- One send takes what is left, but at most BUF_SIZE - 1 bytes.
pub send_cached-take :
    (count : ℕ) (e : CashElement) → send_cached count e [] ≡ take (buf_size - 1) (drop count e.cash)
unfolding send_cached
send_cached-take count e = elim (Bool-cases (ltb count (length e.cash))) [
  | inl more ↦ elim (Bool-cases (leb (count + buf_size - 1) (length e.cash))) [
    | inl long ↦
        if_true _ _ _ more ∙ if_true _ _ _ long ∙ copied-take (buf_size - 1) (drop count e.cash) []
    | inr short ↦
        let rest : length (drop count e.cash) ≡ length e.cash - count = length-drop count e.cash in
        if_true _ _ _ more
        ∙ if_false _ _ _ short
        ∙ copied-take (length e.cash - count) (drop count e.cash) []
        ∙ take-length (length e.cash - count) (drop count e.cash) (omega (arith, rest))
        ∙ sym (
            take-length (buf_size - 1) (drop count e.cash)
              (not_long count (length e.cash) (drop count e.cash) rest short))
  ]
  | inr done ↦
      let none_left : drop count e.cash ≡ [] = drop_all count e.cash (ground arith) in
      if_false _ _ _ done ∙ sym (ap (take (buf_size - 1)) none_left)
]

-- A client that reads a response whose cached element is complete is sent one part of it, at most
-- BUF_SIZE - 1 bytes from the place that it has come to, and with that send its exchange ends: a longer
-- response is cut off there.
pub send-complete_cut :
    (w : World) (e : CashElement)
    → w.buffer.is_data_get_cash ≡ true
    → element_of w ≡ some e
    → e.is_cash_end ≡ true
    → (w' : World) × (send_buf [] w
        ≡ some (take (buf_size - 1) (drop w.buffer.count_byte_read_from_cash e.cash)))
      × (proof_send (take (buf_size - 1) (drop w.buffer.count_byte_read_from_cash e.cash)) w
          ≡ some w')
      × (w'.buffer.status_client ≡ end_work)
      × (w'.buffer.is_end_send ≡ true)
unfolding send_buf proof_send proof_send_cached
send-complete_cut w e from_cash at complete =
    let count : ℕ = w.buffer.count_byte_read_from_cash in
    let sent : Bytes = take (buf_size - 1) (drop count e.cash) in
    (
      record w { buffer = proof_send_cached sent e w.buffer },
      rw (from_cash, at) (ap some (send_cached-take count e)),
      rw (from_cash, at) refl,
      ap (λ (b : Buffer). b.status_client) (if_true _ _ _ complete),
      ap (λ (b : Buffer). b.is_end_send) (if_true _ _ _ complete),
    )
