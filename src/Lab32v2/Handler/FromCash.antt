-- ===== src/Lab32v2/Handler/FromCash.antt =====
-- lab32v2/server/HandlerOneClientImpl.cpp: `getFromCash`, which serves a client from an element of the
-- cache while another thread may still be filling it. The others run while this thread waits: each
-- wait comes with the calls that they make on the element meanwhile.
use operating_systems_labs.Base.{
  ℕ, Bool, true, false, not, Option, some, List, [], ◌∷◌, Bytes, if◌then◌else◌, ◌>>=◌,
}
use operating_systems_labs.Lab32v2.Cash.Element.{
  append_string_to_cash, set_download_end, set_is_server_connect, add_cond_var, dell_cond_var,
}
use operating_systems_labs.Lab32v2.Buffer.{World, element_of, update_element, is_ready_to_send}
use operating_systems_labs.Lab32v2.Handler.{success, failure, pending, Sent, sent_before, send_all}

-- What the thread that fills the element calls.
pub data Call : Type 0 where
  appends : Bytes → Call
  ends_download : Bool → Call
  connects : Bool → Call

unfoldable pub run_call : Call → World → Option World
run_call (appends bs) w = update_element (append_string_to_cash bs) w
run_call (ends_download var) w = update_element (λ e. (set_download_end var e, [])) w
run_call (connects connected) w = update_element (set_is_server_connect connected) w

unfoldable pub run_calls : List Call → World → Option World
run_calls [] w = some w
run_calls (call ∷ calls) w = do w' ← run_call call w; run_calls calls w'

-- How a call of `condWait` ends.
pub data Wait : Type 0 where
  woken : List Call → Wait
  failed : Wait

-- How the inner loop ends; `waiting` when the waits that are given run out first.
pub data Waited : Type 0 where
  goes_on gives_up waiting : Waited

-- The test of the inner loop: the server is connected and there is nothing to send.
unfoldable pub is_blocked : World → Option (Bool × World)
is_blocked w = do
  e ← element_of w
  if e.is_server_connected
      then (do (ready, w') ← is_ready_to_send w; some (not ready, w'))
      else some (false, w)

unfoldable pub wait_ready : List Wait → World → Option (Waited × World)
wait_ready [] w = do (blocked, w') ← is_blocked w; some (if blocked then waiting else goes_on, w')
wait_ready (wait ∷ waits) w = do
  (blocked, w') ← is_blocked w
  if blocked
      then elim wait [
        | failed ↦ some (gives_up, w')
        | woken calls ↦ do w'' ← run_calls calls w'; wait_ready waits w''
      ]
      else some (goes_on, w')

-- One round of the outer loop: its waits, and the results of `write` in its `sendAll`.
pub record Turn : Type 0 where
  pub waits : List Wait
  pub writes : List (Option ℕ)

-- `run` is the condition of the outer loop.
abbrev pub go_again : Bool → (World → Option Sent) → World → Option Sent
go_again run again w = if run then again w else some (success, [], w)

-- What follows a `sendAll` of a server that is still connected.
unfoldable pub after_send : Bool → (World → Option Sent) → Sent → Option Sent
after_send run again (success, bytes, w) = sent_before bytes (go_again run again w)
after_send run again (failure, bytes, w) = some (failure, bytes, w)
after_send run again (pending, bytes, w) = some (pending, bytes, w)

unfoldable pub after_wait : Bool → List (Option ℕ) → (World → Option Sent) → World → Option Sent
after_wait run writes again w = do
  e ← element_of w
  if e.is_server_connected
      then (do
        (ready, w') ← is_ready_to_send w
        if ready
            then (do sent ← send_all writes w'; after_send run again sent)
            else go_again run again w')
      else send_all writes w

unfoldable pub serve : List Turn → World → Option Sent
serve [] w = some (pending, [], w)
serve (turn ∷ turns) w = do
  (waited, w') ← wait_ready turn.waits w
  elim waited [
    | goes_on ↦ after_wait true turn.writes (serve turns) w'
    | gives_up ↦ after_wait false turn.writes (serve turns) w'
    | waiting ↦ some (pending, [], w')
  ]

-- After the loop the condition variable leaves the element, unless unlocking the mutex fails.
unfoldable pub leave : Bool → ℕ → Sent → Option Sent
leave unlocks cond (pending, bytes, w) = some (pending, bytes, w)
leave unlocks cond (exit, bytes, w) =
    if unlocks
    then (do w' ← update_element (λ e. (dell_cond_var cond e, [])) w; some (exit, bytes, w'))
    else some (exit, bytes, w)

-- `locks` says that the mutex and the condition variable could be made, and the mutex locked;
-- `unlocks` that it could be unlocked.
unfoldable pub get_from_cash : Bool → Bool → ℕ → List Turn → World → Option Sent
get_from_cash locks unlocks cond turns w =
    if locks
    then (do
      w1 ← update_element (λ e. (add_cond_var cond e, [])) w
      sent ← serve turns w1
      leave unlocks cond sent)
    else some (success, [], w)
