-- ===== src/Lab32v2/Buffer/Delivery.antt =====
-- What is sent: a chunk of the buffered bytes, or of the cached response.
use operating_systems_labs.Base.{
  ℕ, zero, suc, ◌+◌, ◌-◌, ◌≤◌, ◌<◌, ◌≡◌, ◌↔◌, inl, inr, refl, sym, ap, ◌∙◌, arith, true, false,
  some, some-inj, List, [], ◌∷◌, ◌++◌, Bytes, Bool-cases, if◌then◌else◌, if_true, if_false, length,
  take, drop, replicate, length-take, length-drop, length-append, length-replicate, take-length,
  append-nil, ltb, leb, min,
}
use operating_systems_labs.Lab32v2.Constants.{buf_size}
use operating_systems_labs.Lab32v2.Cash.Element.{CashElement, mem_copy_from_cash, get_length}
use operating_systems_labs.Lab32v2.Buffer.{
  Buffer, World, element_of, resize, send_cached, send_buffered, send_buf, proof_send_cached,
  proof_send_buffered, proof_send, is_ready_to_send,
}

pub drop_all {ℓ} : {A : Type ℓ} (n : ℕ) (xs : List A) → length xs ≤ n → drop n xs ≡ []
drop_all zero [] h = refl
drop_all zero (x ∷ xs) h = absurd (omega arith)
drop_all (suc n) [] h = refl
drop_all (suc n) (x ∷ xs) h = drop_all n xs (omega arith)

length-resize : (n : ℕ) (s : Bytes) → length (resize n s) ≡ n
unfolding resize
length-resize n s = omega (
  arith,
  length-append (take n s) (replicate (n - length s) 0),
  length-take n s,
  length-replicate {A = ℕ} (n - length s) 0,
)

-- Over a target of its own size the copy is the part of the element.
mem_copy-resize :
    (n : ℕ) (s : Bytes) (count : ℕ) (e : CashElement)
    → mem_copy_from_cash (resize n s) count n e ≡ take n (drop count e.cash)
unfolding mem_copy_from_cash
mem_copy-resize n s count e =
    rw (drop_all n (resize n s) (omega (arith, length-resize n s)))
      (append-nil (take n (drop count e.cash)))

-- The two branches for a buffer of any size b, of which b - 1 bytes are used.
cached_chunk :
    (b count : ℕ) (e : CashElement) (bs : Bytes)
    → (if leb (count + b - 1) (get_length e)
        then mem_copy_from_cash (resize (b - 1) bs) count (b - 1) e
        else mem_copy_from_cash (resize (get_length e - count) bs) count (get_length e - count) e)
      ≡ take (b - 1) (drop count e.cash)
cached_chunk b count e bs = elim (Bool-cases (leb (count + b - 1) (get_length e))) [
  | inl full ↦ rw full (mem_copy-resize (b - 1) bs count e)
  | inr last ↦
      let size : length (drop count e.cash) ≡ get_length e - count = length-drop count e.cash in
      rw (last, mem_copy-resize (get_length e - count) bs count e)
        (take-length (get_length e - count) (drop count e.cash) (omega (arith, size))
          ∙ sym (take-length (b - 1) (drop count e.cash) (ground (arith, size))))
]

-- The cached bytes that one send takes: as many as fit in a buffer, from those not yet sent.
pub send_cached_lem :
    (count : ℕ) (e : CashElement) (bs : Bytes)
    → ltb count (get_length e) ≡ true
    → send_cached count e bs ≡ take (buf_size - 1) (drop count e.cash)
unfolding send_cached
send_cached_lem count e bs h = rw h (cached_chunk buf_size count e bs)

chunk-take : (n : ℕ) (buf : Bytes) → (if leb n (length buf) then take n buf else buf) ≡ take n buf
chunk-take n buf = ground (arith, take-length n buf)

send_buffered_lem : (buf : Bytes) → send_buffered buf ≡ take (buf_size - 1) buf
unfolding send_buffered
send_buffered_lem buf = chunk-take (buf_size - 1) buf

take-drop-length : (n : ℕ) (xs : Bytes) → take n xs ++ drop (length (take n xs)) xs ≡ xs
take-drop-length zero xs = refl
take-drop-length (suc n) [] = refl
take-drop-length (suc n) (x ∷ xs) = ap (λ (l : Bytes). x ∷ l) (take-drop-length n xs)

buf-proof_send_buffered :
    (bs : Bytes) (b : Buffer) → (proof_send_buffered bs b).buf ≡ drop (length bs) b.buf
unfolding proof_send_buffered
buf-proof_send_buffered bs b = ground arith

-- A send of buffered bytes followed by its `proofSend` takes the sent chunk off the front of the
-- buffer and nothing else, leaves the cache alone, and sends at least one byte if there is any.
pub proof_send-send_buf :
    (bs chunk : Bytes) (w w' : World)
    → w.buffer.is_data_get_cash ≡ false
    → send_buf bs w ≡ some chunk
    → proof_send chunk w ≡ some w'
    → (chunk ++ w'.buffer.buf ≡ w.buffer.buf)
      × (w'.cash ≡ w.cash)
      × (length chunk ≤ buf_size - 1)
      × ((0 < length w.buffer.buf) ↔ (0 < length chunk))
unfolding send_buf proof_send
proof_send-send_buf bs chunk w w' direct sent proved =
    let c : send_buffered w.buffer.buf ≡ chunk =
      some-inj _ chunk (sym (if_false _ _ _ direct) ∙ sent) in
    let c' : chunk ≡ take (buf_size - 1) w.buffer.buf = sym c ∙ send_buffered_lem w.buffer.buf in
    let e : record w { buffer = proof_send_buffered chunk w.buffer } ≡ w' =
      some-inj _ w' (sym (if_false _ _ _ direct) ∙ proved) in
    let size : length chunk ≡ min (buf_size - 1) (length w.buffer.buf) =
      ap length c' ∙ length-take (buf_size - 1) w.buffer.buf in
    (
      rw (← e, buf-proof_send_buffered chunk w.buffer, c')
          (take-drop-length (buf_size - 1) w.buffer.buf),
      rw (← e) refl,
      omega (arith, size),
      (λ h. omega (arith, size), λ h. omega (arith, size)),
    )

-- What `isReadyToSend` answers while a cached response is being sent.
module _ (w : World) (e : CashElement) (cached : w.buffer.is_data_get_cash ≡ true)
    (stands : element_of w ≡ some e) where
  pub is_ready_to_send-more :
      ltb w.buffer.count_byte_read_from_cash (get_length e) ≡ true
      → is_ready_to_send w
        ≡ some (true, record w { buffer = record w.buffer { is_ready_to_send = true } })
  unfolding is_ready_to_send
  is_ready_to_send-more more = ground arith

  pub is_ready_to_send-done :
      ltb w.buffer.count_byte_read_from_cash (get_length e) ≡ false
      → w.buffer.is_ready_to_send ≡ false
      → is_ready_to_send w ≡ some (false, w)
  unfolding is_ready_to_send
  is_ready_to_send-done nothing_left unset = ground arith

  pub send_buf-cached :
      (bs : Bytes)
      → ltb w.buffer.count_byte_read_from_cash (get_length e) ≡ true
      → send_buf bs w ≡ some (take (buf_size - 1) (drop w.buffer.count_byte_read_from_cash e.cash))
  unfolding send_buf
  send_buf-cached bs more =
      if_true _ _ _ cached
      ∙ rw stands (ap some (send_cached_lem w.buffer.count_byte_read_from_cash e bs more))

  pub proof_send-cached :
      (bs : Bytes) → proof_send bs w ≡ some (record w { buffer = proof_send_cached bs e w.buffer })
  unfolding proof_send
  proof_send-cached bs = if_true _ _ _ cached ∙ rw stands refl
