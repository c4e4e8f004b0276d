-- ===== src/Lab32v2/Handler.antt =====
-- lab32v2/server/HandlerOneClientImpl.cpp: `sendAll`, which a reader of the cache runs. The results
-- of the calls of `write` are an argument, one for each round of the loop: `none` for a negative
-- code, otherwise the number of bytes that the socket took.
pub mod Rounds
mod Tests
pub mod SendAll
pub mod FromCash
pub mod Streams
mod Waits
pub mod Returns
pub mod Serves
pub mod Frames
use operating_systems_labs.Base.{
  ℕ, Bool, true, false, Option, none, some, List, [], ◌∷◌, ◌++◌, Bytes, take, if◌then◌else◌, ◌>>=◌,
}
use operating_systems_labs.Lab32v2.Buffer.{World, is_ready_to_send, send_buf, proof_send}

-- `pending` when the rounds that are given run out first.
pub data Exit : Type 0 where
  success failure pending : Exit

-- How the loop ended, what the socket took, and the world after it.
abbrev pub Sent : Type 0
Sent = Exit × Bytes × World

abbrev pub sent_before : Bytes → Option Sent → Option Sent
sent_before bytes none = none
sent_before bytes (some (exit, rest, w)) = some (exit, bytes ++ rest, w)

-- The test of the loop, and a round if there is something to send.
abbrev pub if_ready : World → (World → Option Sent) → Option Sent
if_ready w round = do
  (ready, w') ← is_ready_to_send w
  if ready then round w' else some (success, [], w')

-- One round. The code asks only whether the result of `write` is negative.
unfoldable pub send_round : Option ℕ → (World → Option Sent) → World → Option Sent
send_round result rest w = do
  chunk ← send_buf [] w
  elim result [
    | none ↦ some (failure, [], w)
    | some n ↦ do w' ← proof_send chunk w; sent_before (take n chunk) (rest w')
  ]

unfoldable pub send_all : List (Option ℕ) → World → Option Sent
unfolding send_round
send_all [] w = if_ready w (λ w'. some (pending, [], w'))
send_all (result ∷ results) w = if_ready w (send_round result (send_all results))
