-- ===== src/Lab32v2/Handler/Frames.antt =====
-- What `getFromCash` leaves alone of a buffer and of the element it reads.
pub mod Sends
use operating_systems_labs.Base.{
  ℕ, ◌≡◌, refl, sym, ap, ◌∙◌, Bool, true, false, not, Option, none, some, some-inj, List, [], ◌∷◌,
  ◌++◌, Bytes, >>=-some, ◌>>=◌, if◌then◌else◌, arith,
}
use operating_systems_labs.Lab32v2.Cash.Element.{
  CashElement, append_string_to_cash, add_cond_var, dell_cond_var, set_is_server_connect,
}
use operating_systems_labs.Lab32v2.Buffer.{
  World, element_of, update_element, send_buf, proof_send, is_ready_to_send,
}
use operating_systems_labs.Lab32v2.Handler.{
  Exit, success, failure, pending, Sent, sent_before, if_ready, send_round, send_all,
}
use operating_systems_labs.Lab32v2.Handler.FromCash.{
  Call, appends, ends_download, connects, run_call, run_calls, Wait, woken, failed, Waited, goes_on,
  gives_up, waiting, is_blocked, wait_ready, Turn, go_again, after_send, after_wait, serve, leave,
  get_from_cash,
}
use operating_systems_labs.Lab32v2.Handler.Frames.Sends.{
  users, kept, Same, SameAfter, stops, update_element-Same, is_ready-Same, sent_before-Same,
  send_all-Same,
}

appends-users : (bs : Bytes) (e : CashElement) → users (append_string_to_cash bs e).0 ≡ users e
unfolding append_string_to_cash
appends-users bs e = ground arith

connects-users :
    (connected : Bool) (e : CashElement) → users (set_is_server_connect connected e).0 ≡ users e
unfolding set_is_server_connect
connects-users connected e = refl

add-users : (cond : ℕ) (e : CashElement) → users (add_cond_var cond e) ≡ users e
unfolding add_cond_var
add-users cond e = ground arith

dell-users : (cond : ℕ) (e : CashElement) → users (dell_cond_var cond e) ≡ users e
unfolding dell_cond_var
dell-users cond e = ground arith

run_calls-Same : (calls : List Call) (w w' : World) → run_calls calls w ≡ some w' → Same w w'
unfolding run_calls run_call
run_calls-Same [] w w' h = ground arith
run_calls-Same (call ∷ calls) w w' h =
    let (w1, ran, h1) = >>=-some (run_call call w) _ w' h in
    run_calls-Same calls w1 w' h1 ∙ one call w1 ran
  where
    one : (call : Call) (w1 : World) → run_call call w ≡ some w1 → Same w w1
    one (appends bs) w1 ran = update_element-Same _ w w1 (appends-users bs) ran
    one (ends_download var) w1 ran = update_element-Same _ w w1 (λ e. refl) ran
    one (connects connected) w1 ran =
        update_element-Same (set_is_server_connect connected) w w1 (connects-users connected) ran

is_blocked-Same : (w w' : World) (blocked : Bool) → is_blocked w ≡ some (blocked, w') → Same w w'
unfolding is_blocked
is_blocked-Same w w' blocked h =
    let (e, at, h1) = >>=-some (element_of w) _ (blocked, w') h in
    connected e.is_server_connected h1
  where
    connected :
        (b : Bool)
        → (if b
            then ◌>>=◌ {B = Bool × World} (is_ready_to_send w) (λ x. some (not x.0, x.1))
            else some (false, w))
          ≡ some (blocked, w')
        → Same w w'
    connected false e =
        ap (λ (s : Bool × World). kept s.1) (sym (some-inj (false, w) (blocked, w') e))
    connected true e =
        let (r, ran, e1) = >>=-some (is_ready_to_send w) _ (blocked, w') e in
        ap (λ (s : Bool × World). kept s.1) (sym (some-inj (not r.0, r.1) (blocked, w') e1))
        ∙ is_ready-Same w r.1 r.0 ran

wait_ready-Same :
    (waits : List Wait) (w w' : World) (k : Waited) → wait_ready waits w ≡ some (k, w') → Same w w'
unfolding wait_ready
wait_ready-Same [] w w' k h =
    let (r, ran, h1) = >>=-some (is_blocked w) _ (k, w') h in
    ap (λ (s : Waited × World). kept s.1)
      (sym (some-inj ((if r.0 then waiting else goes_on), r.1) (k, w') h1))
    ∙ is_blocked-Same w r.1 r.0 ran
wait_ready-Same (wait ∷ waits) w w' k h =
    let (r, ran, h1) = >>=-some (is_blocked w) _ (k, w') h in
    branch r.0 r.1 wait (λ w1. wait_ready-Same waits w1 w' k) h1 ∙ is_blocked-Same w r.1 r.0 ran
  where
    branch :
        (b : Bool) (w1 : World) (wait : Wait)
        → ((w2 : World) → wait_ready waits w2 ≡ some (k, w') → Same w2 w')
        → (if b
            then elim wait as (λ _. Option (Waited × World)) [
              | failed ↦ some (gives_up, w1)
              | woken calls ↦ do w2 ← run_calls calls w1; wait_ready waits w2
            ]
            else some (goes_on, w1))
          ≡ some (k, w')
        → Same w1 w'
    branch false w1 wait again e =
        ap (λ (s : Waited × World). kept s.1) (sym (some-inj (goes_on, w1) (k, w') e))
    branch true w1 failed again e =
        ap (λ (s : Waited × World). kept s.1) (sym (some-inj (gives_up, w1) (k, w') e))
    branch true w1 (woken calls) again e =
        let (w2, ran, e1) = >>=-some (run_calls calls w1) _ (k, w') e in
        again w2 e1 ∙ run_calls-Same calls w1 w2 ran

go_again-Same :
    (run : Bool) (again : World → Option Sent) (w : World)
    → ((w' : World) → SameAfter w' (again w'))
    → SameAfter w (go_again run again w)
go_again-Same true again w k sent h = k w sent h
go_again-Same false again w k sent h = stops success [] w sent h

after_send-Same :
    (run : Bool) (again : World → Option Sent) (sent : Sent)
    → ((w' : World) → SameAfter w' (again w'))
    → SameAfter sent.2 (after_send run again sent)
unfolding after_send
after_send-Same run again (success, bytes, w) k sent h =
    sent_before-Same w bytes (go_again run again w) (go_again-Same run again w k) sent h
after_send-Same run again (failure, bytes, w) k sent h = stops failure bytes w sent h
after_send-Same run again (pending, bytes, w) k sent h = stops pending bytes w sent h

after_wait-Same :
    (run : Bool) (writes : List (Option ℕ)) (again : World → Option Sent) (w : World)
    → ((w' : World) → SameAfter w' (again w'))
    → SameAfter w (after_wait run writes again w)
unfolding after_wait
after_wait-Same run writes again w k sent h =
    let (e, at, h1) = >>=-some (element_of w) _ sent h in connected e.is_server_connected h1
  where
    sends :
        (b : Bool) (w' : World)
        → (if b then (do s ← send_all writes w'; after_send run again s) else go_again run again w')
          ≡ some sent
        → Same w' sent.2
    sends false w' h = go_again-Same run again w' k sent h
    sends true w' h =
        let (s, ran, h1) = >>=-some (send_all writes w') _ sent h in
        after_send-Same run again s k sent h1 ∙ send_all-Same writes w' s ran

    connected :
        (b : Bool)
        → (if b
            then (do
              (ready, w') ← is_ready_to_send w
              if ready
                  then (do s ← send_all writes w'; after_send run again s)
                  else go_again run again w')
            else send_all writes w)
          ≡ some sent
        → Same w sent.2
    connected false h = send_all-Same writes w sent h
    connected true h =
        let (r, ran, h1) = >>=-some (is_ready_to_send w) _ sent h in
        sends r.0 r.1 h1 ∙ is_ready-Same w r.1 r.0 ran

serve-Same : (turns : List Turn) (w : World) → SameAfter w (serve turns w)
unfolding serve
serve-Same [] w sent h = stops pending [] w sent h
serve-Same (turn ∷ turns) w sent h =
    let (r, ran, h1) = >>=-some (wait_ready turn.waits w) _ sent h in
    branch r.0 r.1 (serve-Same turns) h1 ∙ wait_ready-Same turn.waits w r.1 r.0 ran
  where
    branch :
        (k : Waited) (w1 : World)
        → ((w' : World) → SameAfter w' (serve turns w'))
        → (elim k as (λ _. Option Sent) [
          | goes_on ↦ after_wait true turn.writes (serve turns) w1
          | gives_up ↦ after_wait false turn.writes (serve turns) w1
          | waiting ↦ some (pending, [], w1)
        ])
          ≡ some sent
        → Same w1 sent.2
    branch goes_on w1 again e = after_wait-Same true turn.writes (serve turns) w1 again sent e
    branch gives_up w1 again e = after_wait-Same false turn.writes (serve turns) w1 again sent e
    branch waiting w1 again e = stops pending [] w1 sent e

leave-Same : (cond : ℕ) (sent : Sent) → SameAfter sent.2 (leave true cond sent)
unfolding leave
leave-Same cond (success, bytes, w) sent h =
    let (w', ran, h1) = >>=-some (update_element _ w) _ sent h in
    stops success bytes w' sent h1 ∙ update_element-Same _ w w' (dell-users cond) ran
leave-Same cond (failure, bytes, w) sent h =
    let (w', ran, h1) = >>=-some (update_element _ w) _ sent h in
    stops failure bytes w' sent h1 ∙ update_element-Same _ w w' (dell-users cond) ran
leave-Same cond (pending, bytes, w) sent h = stops pending bytes w sent h

-- Whenever `getFromCash` has a defined result, the buffer reads the same element, whose count of
-- readers is as it was, and is still connected to an HTTP server exactly if it was before.
pub get_from_cash-Same :
    (cond : ℕ) (turns : List Turn) (w : World) → SameAfter w (get_from_cash true true cond turns w)
unfolding get_from_cash
get_from_cash-Same cond turns w sent h =
    let (w1, ran, h1) = >>=-some (update_element _ w) _ sent h in
    let (s, served, h2) = >>=-some (serve turns w1) _ sent h1 in
    leave-Same cond s sent h2
    ∙ serve-Same turns w1 s served
    ∙ update_element-Same _ w w1 (add-users cond) ran
