-- ===== src/Lab32v2/Handler/Rounds.antt =====
-- One round of `sendAll` over a cached response.
use operating_systems_labs.Base.{
  ℕ, zero, suc, ◌+◌, ◌-◌, ◌≤◌, ◌≡◌, ◌⊎◌, inl, inr, refl, sym, ap, ◌∙◌, arith, true, false, Option,
  some, List, [], ◌∷◌, ◌++◌, Bytes, Bool-cases, All, length, take, drop, length-take, length-drop,
  take-length, ltb, ◌==◌, min,
}
use operating_systems_labs.Lab32v2.Constants.{buf_size}
use operating_systems_labs.Lab32v2.Cash.Element.{CashElement, get_length}
use operating_systems_labs.Lab32v2.Buffer.{Buffer, World, element_of, proof_send_cached}
use operating_systems_labs.Lab32v2.Buffer.Delivery.{drop_all, send_buf-cached, proof_send-cached}
use operating_systems_labs.Lab32v2.Handler.{Sent, sent_before, send_round}

-- A reader of a cached response: its element, what it has read so far, and that the flag is down once
-- it has read all.
pub record Reads (w : World) (e : CashElement) : Type 0 where
  pub cached : w.buffer.is_data_get_cash ≡ true
  pub stands : element_of w ≡ some e
  pub within : w.buffer.count_byte_read_from_cash ≤ get_length e
  pub flag :
      (ltb w.buffer.count_byte_read_from_cash (get_length e) ≡ true)
      ⊎ (w.buffer.is_ready_to_send ≡ false)

-- Every write takes all that it is given.
abbrev pub TakesAll : List (Option ℕ) → Type 0
TakesAll = All (λ r. (n : ℕ) × (r ≡ some n) × (buf_size - 1 ≤ n))

-- The world after a chunk has been sent.
abbrev pub after_chunk : Bytes → CashElement → World → World
after_chunk chunk e w = record w { buffer = proof_send_cached chunk e w.buffer }

abbrev pub chunk_of : CashElement → World → Bytes
chunk_of e w = take (buf_size - 1) (drop w.buffer.count_byte_read_from_cash e.cash)

pub count-proof_send_cached :
    (bs : Bytes) (e : CashElement) (b : Buffer)
    → (proof_send_cached bs e b).count_byte_read_from_cash ≡ b.count_byte_read_from_cash + length bs
unfolding proof_send_cached
count-proof_send_cached bs e b = ground arith

flag-proof_send_cached :
    (bs : Bytes) (e : CashElement) (b : Buffer)
    → (get_length e == b.count_byte_read_from_cash + length bs) ≡ true
    → (proof_send_cached bs e b).is_ready_to_send ≡ false
unfolding proof_send_cached
flag-proof_send_cached bs e b h = ground arith

stays-proof_send_cached :
    (bs : Bytes) (e : CashElement) (b : Buffer)
    → ((proof_send_cached bs e b).is_data_get_cash ≡ b.is_data_get_cash)
      × ((proof_send_cached bs e b).cash_element ≡ b.cash_element)
unfolding proof_send_cached
stays-proof_send_cached bs e b = ground arith

element_of-after :
    (bs : Bytes) (e : CashElement) (w : World) → element_of (after_chunk bs e w) ≡ element_of w
unfolding element_of
element_of-after bs e w = rw ((stays-proof_send_cached bs e w.buffer).1)

pub Reads-after :
    (chunk : Bytes) (w : World) (e : CashElement)
    → Reads w e
    → w.buffer.count_byte_read_from_cash + length chunk ≤ get_length e
    → Reads (after_chunk chunk e w) e
Reads-after chunk w e r fits = record {
  cached = (stays-proof_send_cached chunk e w.buffer).0 ∙ r.cached;
  stands = element_of-after chunk e w ∙ r.stands;
  within = rw (count-proof_send_cached chunk e w.buffer) fits;
  flag = elim (Bool-cases (get_length e == w.buffer.count_byte_read_from_cash + length chunk)) [
    | inl all ↦ inr (flag-proof_send_cached chunk e w.buffer all)
    | inr more ↦ inl (rw (count-proof_send_cached chunk e w.buffer) (ground arith))
  ];
}

pub length-chunk_of :
    (e : CashElement) (w : World)
    → length (chunk_of e w) ≡ min (buf_size - 1) (get_length e - w.buffer.count_byte_read_from_cash)
length-chunk_of e w =
    length-take (buf_size - 1) (drop w.buffer.count_byte_read_from_cash e.cash)
    ∙ ap (min (buf_size - 1)) (length-drop w.buffer.count_byte_read_from_cash e.cash)

-- One round: the world after it is the same however little of the chunk the socket takes.
pub send_round-any :
    (n : ℕ) (rest : World → Option Sent) (w : World) (e : CashElement)
    → Reads w e
    → ltb w.buffer.count_byte_read_from_cash (get_length e) ≡ true
    → send_round (some n) rest w
      ≡ sent_before (take n (chunk_of e w)) (rest (after_chunk (chunk_of e w) e w))
unfolding send_round
send_round-any n rest w e r more =
    rw (send_buf-cached w e r.cached r.stands [] more)
      (rw (proof_send-cached w e r.cached r.stands (chunk_of e w)) refl)

-- One round in which the socket takes the whole chunk.
pub send_round-takes :
    (n : ℕ) (rest : World → Option Sent) (w : World) (e : CashElement)
    → Reads w e
    → ltb w.buffer.count_byte_read_from_cash (get_length e) ≡ true
    → buf_size - 1 ≤ n
    → send_round (some n) rest w
      ≡ sent_before (chunk_of e w) (rest (after_chunk (chunk_of e w) e w))
send_round-takes n rest w e r more takes =
    send_round-any n rest w e r more
    ∙ ap (λ (c : Bytes). sent_before c (rest (after_chunk (chunk_of e w) e w)))
        (take-length n (chunk_of e w) (omega (arith, length-chunk_of e w)))

suc_add : (m n : ℕ) → suc (m + n) ≡ suc m + n
suc_add m n = omega arith

drop-add : (m n : ℕ) (xs : Bytes) → drop n (drop m xs) ≡ drop (m + n) xs
drop-add zero n xs = ap (λ k. drop k xs) (omega arith)
drop-add (suc m) n [] = drop_all n [] (omega arith) ∙ sym (drop_all (suc m + n) [] (omega arith))
drop-add (suc m) n (x ∷ xs) = drop-add m n xs ∙ ap (λ k. drop k (x ∷ xs)) (suc_add m n)

take-drop : (n : ℕ) (xs : Bytes) → take n xs ++ drop (length (take n xs)) xs ≡ xs
take-drop zero xs = refl
take-drop (suc n) [] = refl
take-drop (suc n) (x ∷ xs) = ap (λ (l : Bytes). x ∷ l) (take-drop n xs)

-- A chunk and the bytes behind it are those that were left.
pub chunk_of-drop :
    (e : CashElement) (w : World)
    → chunk_of e w ++ drop (w.buffer.count_byte_read_from_cash + length (chunk_of e w)) e.cash
      ≡ drop w.buffer.count_byte_read_from_cash e.cash
chunk_of-drop e w =
    rw (← drop-add w.buffer.count_byte_read_from_cash (length (chunk_of e w)) e.cash)
      (take-drop (buf_size - 1) (drop w.buffer.count_byte_read_from_cash e.cash))

-- The world in which `isReadyToSend` has set its flag.
abbrev pub ready : World → World
ready w = record w { buffer = record w.buffer { is_ready_to_send = true } }
