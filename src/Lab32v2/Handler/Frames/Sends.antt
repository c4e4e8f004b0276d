-- ===== src/Lab32v2/Handler/Frames/Sends.antt =====
-- What `sendAll` leaves alone of a buffer and of the element it reads.
use operating_systems_labs.Base.{
  ℕ, ◌≡◌, refl, sym, ap, ◌∙◌, Bool, true, false, Option, none, some, some-inj, List, [], ◌∷◌, ◌++◌,
  Bytes, ℤ, get_elem?, set, get_elem?-set_self, get_elem?-lt, >>=-some, if◌then◌else◌, arith,
}
use operating_systems_labs.Lab32v2.Cash.Element.{CashElement}
use operating_systems_labs.Lab32v2.Buffer.{
  World, element_of, update_element, send_buf, proof_send, is_ready_to_send,
}
use operating_systems_labs.Lab32v2.Handler.{
  Exit, success, failure, pending, Sent, sent_before, if_ready, send_round, send_all,
}

-- The count of an element's readers, with the mutex that guards it.
abbrev pub users : CashElement → ℤ × ℕ
users e = (e.count_connected_users, e.mutex_for_subscribers)

abbrev pub users_of : Option CashElement → Option (ℤ × ℕ)
users_of none = none
users_of (some e) = some (users e)

-- Whether the buffer is connected to an HTTP server, and its element with the count of its readers.
abbrev pub kept : World → Bool × Option ℕ × Option (ℤ × ℕ)
kept w = (w.buffer.is_server_connect, w.buffer.cash_element, users_of (element_of w))

abbrev pub Same : World → World → Type 0
Same w w' = kept w' ≡ kept w

-- Wherever a step has a defined result, that holds of the world after it.
abbrev pub SameAfter : World → Option Sent → Type 0
SameAfter w o = (sent : Sent) → o ≡ some sent → Same w sent.2

-- The end of a run.
pub stops :
    (exit : Exit) (bytes : Bytes) (w : World) (sent : Sent)
    → some (exit, bytes, w) ≡ some sent
    → Same w sent.2
stops exit bytes w sent h = ap (λ (s : Sent). kept s.2) (sym (some-inj (exit, bytes, w) sent h))

Same-fields :
    (w w' : World)
    → w'.buffer.is_server_connect ≡ w.buffer.is_server_connect
    → w'.buffer.cash_element ≡ w.buffer.cash_element
    → w'.cash ≡ w.cash
    → Same w w'
unfolding element_of
Same-fields w w' server pointer cash = rw (server, pointer, cash) refl

pub update_element-Same :
    (f : CashElement → CashElement × List ℕ) (w w' : World)
    → ((e : CashElement) → users (f e).0 ≡ users e)
    → update_element f w ≡ some w'
    → Same w w'
unfolding update_element
update_element-Same f w w' same h =
    let (p, pointer, h1) = >>=-some w.buffer.cash_element _ w' h in
    let (e, at, h2) = >>=-some (get_elem? w.cash.elements p) _ w' h1 in
    ap kept (sym (some-inj _ w' h2)) ∙ updated p e pointer at
  where
    updated :
        (p : ℕ) (e : CashElement)
        → w.buffer.cash_element ≡ some p
        → get_elem? w.cash.elements p ≡ some e
        → kept (record w {
          cash = record w.cash { elements = set w.cash.elements p (f e).0 };
          signalled = w.signalled ++ (f e).1;
        })
          ≡ kept w
    updated p e pointer at =
        rw
          (
            pointer,
            at,
            get_elem?-set_self w.cash.elements p (f e).0 (get_elem?-lt w.cash.elements p e at),
            same e,
          )
          refl

pub is_ready-Same :
    (w w' : World) (ready : Bool) → is_ready_to_send w ≡ some (ready, w') → Same w w'
unfolding is_ready_to_send
is_ready-Same w w' ready h = Same-fields w w' (ground arith) (ground arith) (ground arith)

proof_send-Same : (bs : Bytes) (w w' : World) → proof_send bs w ≡ some w' → Same w w'
unfolding proof_send
proof_send-Same bs w w' h = Same-fields w w' (ground arith) (ground arith) (ground arith)

pub sent_before-Same :
    (w : World) (bs : Bytes) (o : Option Sent) → SameAfter w o → SameAfter w (sent_before bs o)
sent_before-Same w bs none k sent h = absurd (cc)
sent_before-Same w bs (some (exit, rest, w')) k sent h =
    stops exit (bs ++ rest) w' sent h ∙ k (exit, rest, w') refl

if_ready-Same :
    (w : World) (round : World → Option Sent)
    → ((w' : World) → SameAfter w' (round w'))
    → SameAfter w (if_ready w round)
if_ready-Same w round k sent h =
    let (r, ran, h1) = >>=-some (is_ready_to_send w) _ sent h in
    branch r.0 r.1 h1 ∙ is_ready-Same w r.1 r.0 ran
  where
    branch :
        (b : Bool) (w' : World)
        → (if b then round w' else some (success, [], w')) ≡ some sent
        → Same w' sent.2
    branch true w' e = k w' sent e
    branch false w' e = stops success [] w' sent e

send_round-Same :
    (result : Option ℕ) (rest : World → Option Sent) (w : World)
    → ((w' : World) → SameAfter w' (rest w'))
    → SameAfter w (send_round result rest w)
unfolding send_round
send_round-Same none rest w k sent h =
    let (chunk, ran, h1) = >>=-some (send_buf [] w) _ sent h in stops failure [] w sent h1
send_round-Same (some n) rest w k sent h =
    let (chunk, ran, h1) = >>=-some (send_buf [] w) _ sent h in
    let (w', ran', h2) = >>=-some (proof_send chunk w) _ sent h1 in
    sent_before-Same w' _ (rest w') (k w') sent h2 ∙ proof_send-Same chunk w w' ran'

pub send_all-Same : (results : List (Option ℕ)) (w : World) → SameAfter w (send_all results w)
unfolding send_all
send_all-Same [] w = if_ready-Same w _ (λ w' sent h. stops pending [] w' sent h)
send_all-Same (result ∷ results) w =
    if_ready-Same w _ (λ w'. send_round-Same result (send_all results) w' (send_all-Same results))
