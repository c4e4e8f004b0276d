-- ===== src/Lab32v2/Handler/Streams.antt =====
-- What a client gets from an element that may grow meanwhile, and `sendAll` in these terms.
use operating_systems_labs.Base.{
  ℕ, zero, suc, ◌≤◌, ◌≡◌, ◌⊎◌, inl, inr, refl, sym, ap, ◌∙◌, arith, true, false, Option, some, List,
  [], ◌∷◌, ◌++◌, Bytes, Bool-cases, length, drop, length-append, append_assoc, append-nil, ltb,
}
use operating_systems_labs.Lab32v2.Cash.Element.{CashElement, get_length}
use operating_systems_labs.Lab32v2.Buffer.{World, is_ready_to_send}
use operating_systems_labs.Lab32v2.Buffer.Delivery.{is_ready_to_send-more, is_ready_to_send-done}
use operating_systems_labs.Lab32v2.Handler.{
  Exit, success, failure, pending, Sent, sent_before, send_all,
}
use operating_systems_labs.Lab32v2.Handler.Rounds.{
  Reads, TakesAll, after_chunk, chunk_of, count-proof_send_cached, send_round-takes, chunk_of-drop,
  ready,
}
use operating_systems_labs.Lab32v2.Handler.SendAll.{Reads-ready, Reads-next}

-- The response has grown at its end.
abbrev pub Extends : CashElement → CashElement → Type 0
Extends e e' = (more : Bytes) × (e'.cash ≡ e.cash ++ more)

-- What the exit says: on success all of the response has been read, and a write has never failed.
abbrev pub Ended : Exit → World → CashElement → Type 0
Ended success w e = w.buffer.count_byte_read_from_cash ≡ get_length e
Ended failure w e = ⊥
Ended pending w e = Unit

-- The result is defined, the reader stands at a later place of a response that has at most grown, and
-- the socket has got the bytes between the two places.
pub record Streams (w : World) (e : CashElement) (result : Option Sent) : Type 0 where
  pub exit : Exit
  pub bytes : Bytes
  pub after : World
  pub element : CashElement
  pub is_result : result ≡ some (exit, bytes, after)
  pub reads : Reads after element
  pub grown : Extends e element
  pub in_order :
      bytes ++ drop after.buffer.count_byte_read_from_cash element.cash
      ≡ drop w.buffer.count_byte_read_from_cash element.cash
  pub ended : Ended exit after element

pub Extends-trans : (a b c : CashElement) → Extends a b → Extends b c → Extends a c
Extends-trans a b c (m, h) (n, k) =
    (m ++ n, k ∙ ap (λ (l : Bytes). l ++ n) h ∙ append_assoc a.cash m n)

pub Extends-self : (e : CashElement) → Extends e e
Extends-self e = ([], sym (append-nil e.cash))

pub drop-append : (k : ℕ) (xs ys : Bytes) → k ≤ length xs → drop k (xs ++ ys) ≡ drop k xs ++ ys
drop-append zero xs ys h = refl
drop-append (suc k) [] ys h = elim h [ ]
drop-append (suc k) (x ∷ xs) ys h = drop-append k xs ys (omega arith)

-- A step that sends nothing.
pub Streams-quiet :
    (w w' : World) (e e' : CashElement) (result result' : Option Sent)
    → result ≡ result'
    → w'.buffer.count_byte_read_from_cash ≡ w.buffer.count_byte_read_from_cash
    → Extends e e'
    → Streams w' e' result'
    → Streams w e result
Streams-quiet w w' e e' result result' same count grown s = record {
  exit = s.exit;
  bytes = s.bytes;
  after = s.after;
  element = s.element;
  is_result = same ∙ s.is_result;
  reads = s.reads;
  grown = Extends-trans e e' s.element grown s.grown;
  in_order = s.in_order ∙ ap (λ (n : ℕ). drop n s.element.cash) count;
  ended = s.ended;
}

joined :
    (c c1 : ℕ) (bytes : Bytes) (e e2 : CashElement) (rest : Bytes)
    → bytes ++ drop c1 e.cash ≡ drop c e.cash
    → c ≤ get_length e
    → c1 ≤ get_length e
    → Extends e e2
    → rest ≡ drop c1 e2.cash
    → bytes ++ rest ≡ drop c e2.cash
joined c c1 bytes e e2 rest sent within within1 (more, grown) left =
    rw (left, grown, drop-append c1 e.cash more within1, drop-append c e.cash more within)
      (sym (append_assoc bytes (drop c1 e.cash) more) ∙ ap (λ (l : Bytes). l ++ more) sent)

pub Extends-le : (e e' : CashElement) → Extends e e' → get_length e ≤ get_length e'
Extends-le e e' (more, h) = omega (arith, ap (λ (l : Bytes). length l) h, length-append e.cash more)

-- A step that sends bytes.
pub Streams-before :
    (w w1 : World) (e e1 : CashElement) (bytes : Bytes) (result result1 : Option Sent)
    → Reads w e
    → Reads w1 e1
    → Extends e e1
    → bytes ++ drop w1.buffer.count_byte_read_from_cash e1.cash
      ≡ drop w.buffer.count_byte_read_from_cash e1.cash
    → result ≡ sent_before bytes result1
    → Streams w1 e1 result1
    → Streams w e result
Streams-before w w1 e e1 bytes result result1 r r1 grown sent same s = record {
  exit = s.exit;
  bytes = bytes ++ s.bytes;
  after = s.after;
  element = s.element;
  is_result = same ∙ ap (sent_before bytes) s.is_result;
  reads = s.reads;
  grown = Extends-trans e e1 s.element grown s.grown;
  in_order =
      append_assoc bytes s.bytes (drop s.after.buffer.count_byte_read_from_cash s.element.cash)
      ∙ joined w.buffer.count_byte_read_from_cash w1.buffer.count_byte_read_from_cash bytes e1
          s.element (s.bytes ++ drop s.after.buffer.count_byte_read_from_cash s.element.cash) sent
          (omega (arith, r.within, Extends-le e e1 grown)) r1.within s.grown s.in_order;
  ended = s.ended;
}

-- A loop that stops where it stands.
pub Streams-stop :
    (exit : Exit) (w w' : World) (e : CashElement)
    → Reads w' e
    → w'.buffer.count_byte_read_from_cash ≡ w.buffer.count_byte_read_from_cash
    → Ended exit w' e
    → Streams w e (some (exit, [], w'))
Streams-stop exit w w' e r count ended = record {
  exit = exit;
  bytes = [];
  after = w';
  element = e;
  is_result = refl;
  reads = r;
  grown = Extends-self e;
  in_order = ap (λ (n : ℕ). drop n e.cash) count;
  ended = ended;
}

-- What `isReadyToSend` answers to a reader.
pub reader_ready :
    (w : World) (e : CashElement)
    → Reads w e
    → ((ltb w.buffer.count_byte_read_from_cash (get_length e) ≡ true)
        × (is_ready_to_send w ≡ some (true, ready w)))
      ⊎ ((w.buffer.count_byte_read_from_cash ≡ get_length e)
          × (is_ready_to_send w ≡ some (false, w)))
reader_ready w e r = elim (Bool-cases (ltb w.buffer.count_byte_read_from_cash (get_length e))) [
  | inl more ↦ inl (more, is_ready_to_send-more w e r.cached r.stands more)
  | inr all ↦
      let unset : w.buffer.is_ready_to_send ≡ false = elim r.flag [
        | inl more ↦ absurd (ground arith)
        | inr f ↦ f
      ] in
      inr (ground (arith, r.within), is_ready_to_send-done w e r.cached r.stands all unset)
]

chunk-in_order :
    (w : World) (e : CashElement)
    → chunk_of e (ready w)
        ++ drop
            (after_chunk (chunk_of e (ready w)) e (ready w)).buffer.count_byte_read_from_cash
            e.cash
      ≡ drop w.buffer.count_byte_read_from_cash e.cash
chunk-in_order w e =
    rw (count-proof_send_cached (chunk_of e (ready w)) e (ready w).buffer)
      (chunk_of-drop e (ready w))

-- `sendAll` streams, however many rounds are given.
pub send_all-Streams :
    (results : List (Option ℕ)) (w : World) (e : CashElement)
    → Reads w e
    → TakesAll results
    → Streams w e (send_all results w)
unfolding send_all
send_all-Streams [] w e r takes = elim (reader_ready w e r) [
  | inl (more, is_ready) ↦
      rw is_ready (Streams-stop pending w (ready w) e (Reads-ready w e r more) refl tt)
  | inr (all, is_ready) ↦ rw is_ready (Streams-stop success w w e r refl all)
]
send_all-Streams (result ∷ results) w e r ((n, got, enough), takes) = elim (reader_ready w e r) [
  | inr (all, is_ready) ↦ rw is_ready (Streams-stop success w w e r refl all)
  | inl (more, is_ready) ↦
      let next : World = after_chunk (chunk_of e (ready w)) e (ready w) in
      Streams-before w next e e (chunk_of e (ready w)) _ (send_all results next) r
        (Reads-next w e r more) (Extends-self e) (chunk-in_order w e)
        (rw is_ready (
          rw got (
            send_round-takes n (send_all results) (ready w) e (Reads-ready w e r more) more
              enough)))
        (send_all-Streams results next e (Reads-next w e r more) takes)
]
