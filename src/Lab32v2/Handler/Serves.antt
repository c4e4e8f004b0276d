-- ===== src/Lab32v2/Handler/Serves.antt =====
-- `getFromCash`, whose loop serves a client from an element that another thread may be filling.
use operating_systems_labs.Base.{
  ℕ, ◌≡◌, inl, inr, refl, sym, ap, ◌∙◌, arith, Bool, true, false, Option, some, List, [], ◌∷◌, ◌++◌,
  Bytes, Bool-cases, All, length, drop, append-nil, if_true, if_false,
}
use operating_systems_labs.Lab32v2.Cash.Element.{
  CashElement, get_length, add_cond_var, dell_cond_var,
}
use operating_systems_labs.Lab32v2.Buffer.{World, element_of, is_ready_to_send}
use operating_systems_labs.Lab32v2.Handler.{
  Exit, success, failure, pending, Sent, sent_before, send_all,
}
use operating_systems_labs.Lab32v2.Handler.Rounds.{Reads, TakesAll, ready}
use operating_systems_labs.Lab32v2.Handler.SendAll.{Reads-ready}
use operating_systems_labs.Lab32v2.Handler.Streams.{
  Extends, Extends-trans, Extends-self, Ended, Streams, Streams-quiet, Streams-before, Streams-stop,
  reader_ready, send_all-Streams,
}
use operating_systems_labs.Lab32v2.Handler.FromCash.{
  Waited, goes_on, gives_up, waiting, wait_ready, Turn, go_again, after_send, after_wait, serve,
  leave, get_from_cash,
}
use operating_systems_labs.Lab32v2.Handler.Waits.{
  update_element-at, update_element-Grown, wait_ready-Grown,
}

-- The rest of the loop, wherever the reader stands.
abbrev StreamsOn : (World → Option Sent) → Type 0
StreamsOn again = (w : World) (e : CashElement) → Reads w e → Streams w e (again w)

go_again-Streams :
    (run : Bool) (again : World → Option Sent) (w : World) (e : CashElement)
    → StreamsOn again
    → Reads w e
    → w.buffer.count_byte_read_from_cash ≡ get_length e
    → Streams w e (go_again run again w)
go_again-Streams true again w e on r all = on w e r
go_again-Streams false again w e on r all = Streams-stop success w w e r refl all

sent_step :
    (run : Bool) (again : World → Option Sent) (w w1 : World) (e e1 : CashElement) (exit : Exit)
    (bytes : Bytes)
    → StreamsOn again
    → Reads w e
    → Reads w1 e1
    → Extends e e1
    → bytes ++ drop w1.buffer.count_byte_read_from_cash e1.cash
      ≡ drop w.buffer.count_byte_read_from_cash e1.cash
    → Ended exit w1 e1
    → Streams w e (after_send run again (exit, bytes, w1))
unfolding after_send
sent_step run again w w1 e e1 success bytes on r r1 grown sent all =
    Streams-before w w1 e e1 bytes (sent_before bytes (go_again run again w1))
      (go_again run again w1) r r1 grown sent refl (go_again-Streams run again w1 e1 on r1 all)
sent_step run again w w1 e e1 pending bytes on r r1 grown sent ended = record {
  exit = pending;
  bytes = bytes;
  after = w1;
  element = e1;
  is_result = refl;
  reads = r1;
  grown = grown;
  in_order = sent;
  ended = tt;
}
sent_step run again w w1 e e1 failure bytes on r r1 grown sent ended = elim ended [ ]

-- The three ways on from the waits.
module _ (run : Bool) (writes : List (Option ℕ)) (again : World → Option Sent) (w : World)
    (e : CashElement) (stands : element_of w ≡ some e) where
  pub after_wait-gone :
      e.is_server_connected ≡ false → after_wait run writes again w ≡ send_all writes w
  unfolding after_wait
  after_wait-gone gone = rw stands (if_false _ _ _ gone)

  after_wait-nothing :
      e.is_server_connected ≡ true
      → is_ready_to_send w ≡ some (false, w)
      → after_wait run writes again w ≡ go_again run again w
  unfolding after_wait
  after_wait-nothing connected is_ready = rw stands (if_true _ _ _ connected ∙ rw is_ready refl)

  after_wait-sends :
      (sent : Sent)
      → e.is_server_connected ≡ true
      → is_ready_to_send w ≡ some (true, ready w)
      → send_all writes (ready w) ≡ some sent
      → after_wait run writes again w ≡ after_send run again sent
  unfolding after_wait
  after_wait-sends sent connected is_ready sends =
      rw stands (if_true _ _ _ connected ∙ rw (is_ready, sends) refl)

after_wait-Streams :
    (run : Bool) (writes : List (Option ℕ)) (again : World → Option Sent) (w : World)
    (e : CashElement)
    → TakesAll writes
    → StreamsOn again
    → Reads w e
    → Streams w e (after_wait run writes again w)
after_wait-Streams run writes again w e takes on r = elim (Bool-cases e.is_server_connected) [
  | inr gone ↦
      Streams-quiet w w e e _ (send_all writes w)
        (after_wait-gone run writes again w e r.stands gone) refl (Extends-self e)
        (send_all-Streams writes w e r takes)
  | inl connected ↦ elim (reader_ready w e r) [
    | inr (all, is_ready) ↦
        Streams-quiet w w e e _ (go_again run again w)
          (after_wait-nothing run writes again w e r.stands connected is_ready) refl
          (Extends-self e) (go_again-Streams run again w e on r all)
    | inl (more, is_ready) ↦
        let r' : Reads (ready w) e = Reads-ready w e r more in
        let s : Streams (ready w) e (send_all writes (ready w)) =
          send_all-Streams writes (ready w) e r' takes in
        Streams-quiet w w e e _ (after_send run again (s.exit, s.bytes, s.after))
          (after_wait-sends run writes again w e r.stands (s.exit, s.bytes, s.after) connected
            is_ready s.is_result)
          refl (Extends-self e)
          (sent_step run again w s.after e s.element s.exit s.bytes on r s.reads s.grown s.in_order
            s.ended)
  ]
]

-- What a turn does once its waits are over.
unfoldable pub after_waits : Waited → List (Option ℕ) → List Turn → World → Option Sent
after_waits goes_on writes turns w = after_wait true writes (serve turns) w
after_waits gives_up writes turns w = after_wait false writes (serve turns) w
after_waits waiting writes turns w = some (pending, [], w)

after_waits-Streams :
    (waited : Waited) (writes : List (Option ℕ)) (turns : List Turn) (w : World) (e : CashElement)
    → TakesAll writes
    → StreamsOn (serve turns)
    → Reads w e
    → Streams w e (after_waits waited writes turns w)
unfolding after_waits
after_waits-Streams goes_on writes turns w e takes on r =
    after_wait-Streams true writes (serve turns) w e takes on r
after_waits-Streams gives_up writes turns w e takes on r =
    after_wait-Streams false writes (serve turns) w e takes on r
after_waits-Streams waiting writes turns w e takes on r = Streams-stop pending w w e r refl tt

pub serve-turn :
    (waited : Waited) (turn : Turn) (turns : List Turn) (w w1 : World)
    → wait_ready turn.waits w ≡ some (waited, w1)
    → serve (turn ∷ turns) w ≡ after_waits waited turn.writes turns w1
unfolding serve after_waits
serve-turn goes_on turn turns w w1 h = rw h refl
serve-turn gives_up turn turns w w1 h = rw h refl
serve-turn waiting turn turns w w1 h = rw h refl

serve-Streams :
    (turns : List Turn) (w : World) (e : CashElement)
    → Reads w e
    → All (λ t. TakesAll t.writes) turns
    → Streams w e (serve turns w)
unfolding serve
serve-Streams [] w e r takes = Streams-stop pending w w e r refl tt
serve-Streams (turn ∷ turns) w e r (takes, rest) =
    let on : (w' : World) (e' : CashElement) → Reads w' e' → Streams w' e' (serve turns w') =
      λ w' e' r'. serve-Streams turns w' e' r' rest in
    let (waited, w1, waits, g) = wait_ready-Grown turn.waits w e r in
    Streams-quiet w w1 e g.element _ (after_waits waited turn.writes turns w1)
      (serve-turn waited turn turns w w1 waits) g.count g.grown
      (after_waits-Streams waited turn.writes turns w1 g.element takes on g.reads)

pub add_cond_var-cash : (cond : ℕ) (e : CashElement) → (add_cond_var cond e).cash ≡ e.cash
unfolding add_cond_var
add_cond_var-cash cond e = ground arith

pub dell_cond_var-cash : (cond : ℕ) (e : CashElement) → (dell_cond_var cond e).cash ≡ e.cash
unfolding dell_cond_var
dell_cond_var-cash cond e = ground arith

leave-Streams :
    (cond : ℕ) (w w1 : World) (e e1 : CashElement) (exit : Exit) (bytes : Bytes)
    → Reads w1 e1
    → Extends e e1
    → bytes ++ drop w1.buffer.count_byte_read_from_cash e1.cash
      ≡ drop w.buffer.count_byte_read_from_cash e1.cash
    → Ended exit w1 e1
    → Streams w e (leave true cond (exit, bytes, w1))
unfolding leave
leave-Streams cond w w1 e e1 pending bytes r1 grown sent ended = record {
  exit = pending;
  bytes = bytes;
  after = w1;
  element = e1;
  is_result = refl;
  reads = r1;
  grown = grown;
  in_order = sent;
  ended = tt;
}
leave-Streams cond w w1 e e1 failure bytes r1 grown sent ended = elim ended [ ]
leave-Streams cond w w1 e e1 success bytes r1 grown sent all =
    let same : (dell_cond_var cond e1).cash ≡ e1.cash = dell_cond_var-cash cond e1 in
    let (w2, run, (g, is_element)) =
      update_element-at (λ e. (dell_cond_var cond e, [])) w1 e1 r1
        ([], same ∙ sym (append-nil e1.cash)) in
    let same_cash : g.element.cash ≡ e1.cash = ap (λ (x : CashElement). x.cash) is_element ∙ same in
    record {
      exit = success;
      bytes = bytes;
      after = w2;
      element = g.element;
      is_result = rw run refl;
      reads = g.reads;
      grown = Extends-trans e e1 g.element grown g.grown;
      in_order = rw (g.count, same_cash) sent;
      ended = g.count ∙ all ∙ ap (λ (l : Bytes). length l) (sym same_cash);
    }

-- From any place of a cached response, however the waits end and whatever the filling thread appends
-- meanwhile, if the mutex can be locked and unlocked and every write takes the whole chunk: `getFromCash` has a
-- defined result; the socket has got exactly the bytes between the old place and the new one, of a
-- response that has only grown at its end; and if it has returned, rather than used up the given
-- rounds, then all that the element holds has been sent.
pub get_from_cash-Streams :
    (cond : ℕ) (turns : List Turn) (w : World) (e : CashElement)
    → Reads w e
    → All (λ t. TakesAll t.writes) turns
    → Streams w e (get_from_cash true true cond turns w)
unfolding get_from_cash
get_from_cash-Streams cond turns w e r takes =
    let same : (add_cond_var cond e).cash ≡ e.cash = add_cond_var-cash cond e in
    let (w1, run, g) =
      update_element-Grown (λ e. (add_cond_var cond e, [])) w e r
        ([], same ∙ sym (append-nil e.cash)) in
    let s : Streams w1 g.element (serve turns w1) =
      serve-Streams turns w1 g.element g.reads takes in
    Streams-quiet w w1 e g.element _ (leave true cond (s.exit, s.bytes, s.after))
      (rw (run, s.is_result) refl) g.count g.grown
      (leave-Streams cond w1 s.after g.element s.element s.exit s.bytes s.reads s.grown s.in_order
        s.ended)
