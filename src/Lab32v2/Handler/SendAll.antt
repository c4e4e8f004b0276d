-- ===== src/Lab32v2/Handler/SendAll.antt =====
-- `sendAll` over a cached response, with whole and with short writes.
use operating_systems_labs.Base.{
  ℕ, suc, ◌+◌, ◌-◌, ◌*◌, ◌≤◌, ◌<◌, ◌≡◌, inl, inr, refl, ap, ◌∙◌, arith, true, false, Option, some,
  List, [], ◌∷◌, Bytes, Bool-cases, length, take, drop, length-drop, take-length, append-nil, ltb,
}
use operating_systems_labs.Lab32v2.Constants.{buf_size}
use operating_systems_labs.Lab32v2.Cash.Element.{CashElement, get_length}
use operating_systems_labs.Lab32v2.Buffer.{World, element_of}
use operating_systems_labs.Lab32v2.Buffer.Delivery.{
  drop_all, is_ready_to_send-more, is_ready_to_send-done,
}
use operating_systems_labs.Lab32v2.Handler.{success, Sent, if_ready, send_round, send_all}
use operating_systems_labs.Lab32v2.Handler.Rounds.{
  Reads, TakesAll, Reads-after, after_chunk, chunk_of, count-proof_send_cached, length-chunk_of,
  send_round-any, send_round-takes, chunk_of-drop, ready,
}

abbrev pub Delivered : World → CashElement → Option Sent → Type 0
Delivered w e result =
    (w' : World) × (result ≡ some (success, drop w.buffer.count_byte_read_from_cash e.cash, w'))
    × (w'.buffer.count_byte_read_from_cash ≡ get_length e)

-- Nothing is left: the loop ends at once.
pub if_ready-done :
    (round : World → Option Sent) (w : World) (e : CashElement)
    → Reads w e
    → ltb w.buffer.count_byte_read_from_cash (get_length e) ≡ false
    → Delivered w e (if_ready w round)
if_ready-done round w e r nothing_left =
    let over : get_length e ≤ w.buffer.count_byte_read_from_cash = ground arith in
    let unset : w.buffer.is_ready_to_send ≡ false = elim r.flag [
      | inl more ↦ absurd (ground arith)
      | inr f ↦ f
    ] in
    (
      w,
      rw
          (
            is_ready_to_send-done w e r.cached r.stands nothing_left unset,
            drop_all w.buffer.count_byte_read_from_cash e.cash over,
          )
          refl,
      omega (arith, over, r.within),
    )

pub if_ready-more :
    (round : World → Option Sent) (w : World) (e : CashElement)
    → Reads w e
    → ltb w.buffer.count_byte_read_from_cash (get_length e) ≡ true
    → if_ready w round ≡ round (ready w)
if_ready-more round w e r more = rw (is_ready_to_send-more w e r.cached r.stands more) refl

pub Reads-ready :
    (w : World) (e : CashElement)
    → Reads w e
    → ltb w.buffer.count_byte_read_from_cash (get_length e) ≡ true
    → Reads (ready w) e
unfolding element_of
Reads-ready w e r more = record {
  cached = r.cached;
  stands = r.stands;
  within = r.within;
  flag = inl more;
}

chunk-fits :
    (w : World) (e : CashElement)
    → w.buffer.count_byte_read_from_cash ≤ get_length e
    → w.buffer.count_byte_read_from_cash + length (chunk_of e w) ≤ get_length e
chunk-fits w e h = omega (arith, length-chunk_of e w)

pub Reads-next :
    (w : World) (e : CashElement)
    → Reads w e
    → ltb w.buffer.count_byte_read_from_cash (get_length e) ≡ true
    → Reads (after_chunk (chunk_of e (ready w)) e (ready w)) e
Reads-next w e r more =
    Reads-after (chunk_of e (ready w)) (ready w) e (Reads-ready w e r more)
      (chunk-fits (ready w) e r.within)

enough-next :
    (results : List (Option ℕ)) (w : World) (e : CashElement)
    → get_length e ≤ w.buffer.count_byte_read_from_cash + suc (length results) * (buf_size - 1)
    → get_length e
      ≤ (after_chunk (chunk_of e (ready w)) e (ready w)).buffer.count_byte_read_from_cash
        + length results * (buf_size - 1)
enough-next results w e enough =
    rw (count-proof_send_cached (chunk_of e (ready w)) e (ready w).buffer)
      (omega (arith, length-chunk_of e (ready w)))

delivers_round :
    (result : Option ℕ) (results : List (Option ℕ)) (w : World) (e : CashElement)
    → Reads w e
    → (n : ℕ) × (result ≡ some n) × (buf_size - 1 ≤ n)
    → ltb w.buffer.count_byte_read_from_cash (get_length e) ≡ true
    → Delivered
        (after_chunk (chunk_of e (ready w)) e (ready w))
        e
        (send_all results (after_chunk (chunk_of e (ready w)) e (ready w)))
    → Delivered w e (send_all (result ∷ results) w)
unfolding send_all
delivers_round result results w e r (n, got, takes) more (w', rest, all) = (
  w',
  if_ready-more (send_round result (send_all results)) w e r more
      ∙ rw
          (
            got,
            send_round-takes n (send_all results) (ready w) e (Reads-ready w e r more) more takes,
            rest,
          )
          (ap (λ (l : Bytes). some (success, l, w'))
            (rw (count-proof_send_cached (chunk_of e (ready w)) e (ready w).buffer)
              (chunk_of-drop e (ready w)))),
  all,
)

-- `sendAll` over a cached response, when every write takes the whole chunk that it is given and there
-- are rounds enough for what is left: it returns true, the socket has got the rest of the cached
-- response, in order and without gaps, and all of it counts as read.
pub send_all-delivers :
    (results : List (Option ℕ)) (w : World) (e : CashElement)
    → Reads w e
    → TakesAll results
    → get_length e ≤ w.buffer.count_byte_read_from_cash + length results * (buf_size - 1)
    → Delivered w e (send_all results w)
unfolding send_all
send_all-delivers [] w e r takes enough = if_ready-done _ w e r (ground arith)
send_all-delivers (result ∷ results) w e r (t, takes) enough =
    elim (Bool-cases (ltb w.buffer.count_byte_read_from_cash (get_length e))) [
      | inr nothing_left ↦ if_ready-done _ w e r nothing_left
      | inl more ↦ delivers_round result results w e r t more (
          send_all-delivers results (after_chunk (chunk_of e (ready w)) e (ready w)) e
            (Reads-next w e r more) takes (enough-next results w e enough))
    ]

last_chunk :
    (w : World) (e : CashElement)
    → get_length e ≤ w.buffer.count_byte_read_from_cash + (buf_size - 1)
    → chunk_of e w ≡ drop w.buffer.count_byte_read_from_cash e.cash
last_chunk w e fits =
    take-length (buf_size - 1) (drop w.buffer.count_byte_read_from_cash e.cash)
      (omega (arith, length-drop w.buffer.count_byte_read_from_cash e.cash))

short_write_round :
    (n : ℕ) (w : World) (e : CashElement)
    → Reads w e
    → ltb w.buffer.count_byte_read_from_cash (get_length e) ≡ true
    → chunk_of e (ready w) ≡ drop w.buffer.count_byte_read_from_cash e.cash
    → get_length e
      ≤ (after_chunk (chunk_of e (ready w)) e (ready w)).buffer.count_byte_read_from_cash
    → Delivered
        (after_chunk (chunk_of e (ready w)) e (ready w))
        e
        (send_all [] (after_chunk (chunk_of e (ready w)) e (ready w)))
    → (w' : World) × (send_all (some n ∷ []) w
        ≡ some (success, take n (drop w.buffer.count_byte_read_from_cash e.cash), w'))
      × (w'.buffer.count_byte_read_from_cash ≡ get_length e)
unfolding send_all
short_write_round n w e r more last over (w', rest, all) = (
  w',
  if_ready-more (send_round (some n) (send_all [])) w e r more
      ∙ rw (send_round-any n (send_all []) (ready w) e (Reads-ready w e r more) more, rest)
          (ap (λ (l : Bytes). some (success, l, w'))
            (rw
              (
                drop_all
                    (after_chunk (chunk_of e (ready w)) e
                      (ready w)).buffer.count_byte_read_from_cash
                    e.cash over,
                last,
              )
              (append-nil (take n (drop w.buffer.count_byte_read_from_cash e.cash))))),
  all,
)

next-over :
    (w : World) (e : CashElement)
    → get_length e ≤ w.buffer.count_byte_read_from_cash + (buf_size - 1)
    → get_length e
      ≤ (after_chunk (chunk_of e (ready w)) e (ready w)).buffer.count_byte_read_from_cash
next-over w e fits =
    rw (count-proof_send_cached (chunk_of e (ready w)) e (ready w).buffer)
      (omega (arith, length-chunk_of e (ready w)))

-- A short write is not made up for: when what is left of a cached response fits one chunk and the
-- socket takes n bytes of it, `sendAll` returns true after this one round and counts all as read, and
-- the socket has got the first n bytes only.
pub send_all-short_write :
    (n : ℕ) (w : World) (e : CashElement)
    → Reads w e
    → w.buffer.count_byte_read_from_cash < get_length e
    → get_length e ≤ w.buffer.count_byte_read_from_cash + (buf_size - 1)
    → (w' : World) × (send_all (some n ∷ []) w
        ≡ some (success, take n (drop w.buffer.count_byte_read_from_cash e.cash), w'))
      × (w'.buffer.count_byte_read_from_cash ≡ get_length e)
unfolding send_all
send_all-short_write n w e r some_left fits =
    let more : ltb w.buffer.count_byte_read_from_cash (get_length e) ≡ true = ground arith in
    let over = next-over w e fits in
    short_write_round n w e r more (last_chunk (ready w) e fits) over (
      if_ready-done _ (after_chunk (chunk_of e (ready w)) e (ready w)) e (Reads-next w e r more)
        (ground arith))
