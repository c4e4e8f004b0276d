-- ===== src/Lab32v2/Polling/Delivering.antt =====
-- lab32v2: the rounds in which a response body of a stated length goes from the HTTP server to the user.
mod Tests
use operating_systems_labs.Base.{
  ℕ, ◌-◌, ◌≤◌, ◌<◌, ◌≡◌, refl, ap, sym, ◌∙◌, Bool, true, false, Option, none, some, List, [], ◌∷◌,
  ◌++◌, Bytes, ℤ, pos, negsuc, ◌-ℤ◌, eqb_ℤ, length, arith, if◌then◌else◌, Bool-cases, inl, inr,
  ◌>>=◌, append_assoc,
}
use operating_systems_labs.Lab32v2.Constants.{buf_size}
use operating_systems_labs.Lab32v2.Cash.Element.{Platform}
use operating_systems_labs.Lab32v2.Buffer.{World}
use operating_systems_labs.Lab32v2.Client.{Client, Events, all_events, no_events}
use operating_systems_labs.Lab32v2.Polling.{
  Thread, Visit, Pass, passed, Round, Finish, returns, handling_event, start_handler, handle_client,
  moves, poll_clients,
}
use operating_systems_labs.Lab32v2.Polling.Shapes.{Socket, paired, freed}
use operating_systems_labs.Lab32v2.Polling.Rounds.{
  answered, answer_to, poll_clients-paired, after_pass, start_handler-round,
}
use operating_systems_labs.Lab32v2.Polling.Relaying.{
  relaying, taken, emptied, is_last, from_server, to_user, with_events, reads, sends, sends_last,
}

-- A piece that is not empty: its first byte and the others.
abbrev pub Piece : Type 0
Piece = ℕ × Bytes

abbrev pub bytes_of : Piece → Bytes
bytes_of (x, xs) = x ∷ xs

still_left : (left n : ℕ) → n ≤ left → pos left -ℤ pos n ≡ pos (left - n)
unfolding ◌-ℤ◌
still_left left n h = ground arith

goes_on : (left : ℕ) (piece : Bytes) → length piece < left → is_last left piece ≡ false
unfolding ◌-ℤ◌
goes_on left piece h = ground arith

comes_to_end : (left : ℕ) (piece : Bytes) → left ≤ length piece → is_last left piece ≡ true
unfolding ◌-ℤ◌
comes_to_end left piece h = ground arith

emptied-relaying :
    (left : ℕ) (piece : Bytes) (w : World)
    → length piece ≤ left
    → emptied left piece w ≡ relaying (left - length piece) w
emptied-relaying left piece w h =
    ap (λ (z : ℤ). record w { buffer = record (relaying left w).buffer { length_body = z } })
      (still_left left (length piece) h)

abbrev polled : Socket → Socket → World → List (ℤ × Bytes) → Thread
polled u h w written =
    paired w written (record u { revents = to_user }) (record h { revents = from_server })

-- One pass of handlingEvent over the HTTP server and the user.
module _ (os : Platform) (wraps : Bool) (left : ℕ) (x : ℕ) (xs : Bytes) (w : World)
    (written : List (ℤ × Bytes)) (v1 v2 : Visit) (vs : List Visit) (u h : Socket)
    (received : v1.received ≡ some (x ∷ xs)) (small : length (x ∷ xs) ≤ buf_size - 1) where
  pass_on :
      length (x ∷ xs) < left
      → handling_event os wraps (v1 ∷ v2 ∷ vs) (polled u h (relaying left w) written)
        ≡ some (
          passed,
          paired
              (emptied left (x ∷ xs) w)
              (written ++ (u.fd, x ∷ xs) ∷ [])
              (with_events all_events no_events u)
              (record h { revents = no_events }),
        )
  unfolding handling_event
  pass_on short =
      rw (reads os wraps left x xs w written v1 v2 u h false received (goes_on left (x ∷ xs) short))
        (rw (sends os wraps left x xs w written v1 v2 u (record h { revents = no_events }) small)
          refl)

  pass_last :
      left ≤ length (x ∷ xs)
      → handling_event os wraps (v1 ∷ v2 ∷ vs) (polled u h (relaying left w) written) ≡ (
          if wraps
          then some (passed, freed w (written ++ (u.fd, x ∷ xs) ∷ []) (none ∷ none ∷ []))
          else none)
  unfolding handling_event
  pass_last long =
      rw
        (reads os wraps left x xs w written v1 v2 u h true received
          (comes_to_end left (x ∷ xs) long))
        (rw
          (sends_last os wraps left x xs w written v1 v2 u (record h { revents = no_events }) small)
          (elim (Bool-cases wraps) [ inl e ↦ rw e refl | inr e ↦ rw e refl ]))

-- A round in which the HTTP server has sent the piece, and the user can be written to.
pub record Relayed (r : Round) (piece : Piece) : Type 0 where
  pub code : eqb_ℤ r.code (negsuc 0) ≡ false
  pub answers : r.answers ≡ from_server ∷ to_user ∷ []
  pub first : Visit
  pub second : Visit
  pub visits : List Visit
  pub visited : r.visits ≡ first ∷ second ∷ visits
  pub received : first.received ≡ some (bytes_of piece)
  pub small : length (bytes_of piece) ≤ buf_size - 1

-- The pieces come in one a round, and the last one is the first to reach the end of the body.
abbrev pub Relays : ℕ → List Round → Piece → List Piece → Type 0
Relays left [] piece pieces = ⊥
Relays left (r ∷ rounds) piece [] = Relayed r piece × left ≤ length (bytes_of piece)
Relays left (r ∷ rounds) piece (next ∷ pieces) =
    Relayed r piece
    × length (bytes_of piece) < left
    × Relays (left - length (bytes_of piece)) rounds next pieces

abbrev pub written_to : ℤ → Piece → List Piece → List (ℤ × Bytes)
written_to fd piece [] = (fd, bytes_of piece) ∷ []
written_to fd piece (next ∷ pieces) = (fd, bytes_of piece) ∷ written_to fd next pieces

module _ (os : Platform) (wraps : Bool) where
  polls :
      (r : Round) (piece : Piece) (left : ℕ) (w : World) (written : List (ℤ × Bytes)) (u h : Socket)
      → Relayed r piece
      → poll_clients r (paired (relaying left w) written u h)
        ≡ some (polled u h (relaying left w) written)
  polls r piece left w written u h t =
      poll_clients-paired r (relaying left w) written u h
      ∙ ap
          (λ (l : List Events). some (
            paired (relaying left w) written (record u { revents = answer_to l 1 })
              (record h { revents = answer_to l 0 })))
          t.answers

  round_runs :
      (r : Round) (piece : Piece) (rounds : List Round) (left : ℕ) (w : World)
      (written : List (ℤ × Bytes)) (u h : Socket) (result : Option (Pass × Thread))
      → (t : Relayed r piece)
      → handling_event os wraps
          (t.first ∷ t.second ∷ t.visits)
          (polled u h (relaying left w) written)
        ≡ result
      → start_handler os wraps (r ∷ rounds) (paired (relaying left w) written u h)
        ≡ (result >>= λ t. after_pass os wraps r rounds t.0 t.1)
  round_runs r piece rounds left w written u h result t ran =
      start_handler-round os wraps r rounds 1 (0 ∷ []) (paired (relaying left w) written u h)
        (polled u h (relaying left w) written) result refl (polls r piece left w written u h t)
        t.code
        (ap (λ (l : List Visit). handling_event os wraps l (polled u h (relaying left w) written))
            t.visited
          ∙ ran)

  returns_freed :
      (r : Round) (rounds : List Round) (w : World) (written : List (ℤ × Bytes))
      (clients : List (Option Client)) (b : Bool)
      → ((if b then some (passed, freed w written clients) else none) >>= λ (t : Pass × Thread).
          after_pass os wraps r rounds t.0 t.1)
        ≡ (if b then some (returns, freed w written clients) else none)
  unfolding start_handler
  returns_freed r [] w written clients true = refl
  returns_freed r (q ∷ rounds) w written clients true = refl
  returns_freed r rounds w written clients false = refl

  -- A user and its HTTP server, after a heading that states a length and with nothing cached: `left`
  -- bytes of the body are to come, and nothing waits in the buffer. In each round `poll` succeeds and
  -- reports input from the HTTP server and that the user can be written to, and the read gives the next
  -- piece of the body, which is not empty and fits into one chunk; every piece but the last is shorter
  -- than what is left, and the last one is not. Then startHandler hands the pieces to `write`, on the
  -- user's socket, each once and in order, and returns with both clients and the buffer deleted, where
  -- the increment of end() leads to the first element; else it has no defined result.
  pub start_handler-Relays :
      (rounds : List Round) (piece : Piece) (pieces : List Piece) (left : ℕ) (w : World)
      (written : List (ℤ × Bytes)) (u h : Socket)
      → Relays left rounds piece pieces
      → start_handler os wraps rounds (paired (relaying left w) written u h) ≡ (
          if wraps
          then some (returns, freed w (written ++ written_to u.fd piece pieces) (none ∷ none ∷ []))
          else none)
  start_handler-Relays [] piece pieces left w written u h rs = absurd rs
  start_handler-Relays (r ∷ rounds) (x, xs) [] left w written u h (t, long) =
      round_runs r (x, xs) rounds left w written u h _ t
        (pass_last os wraps left x xs w written t.first t.second t.visits u h t.received t.small
          long)
      ∙ returns_freed r rounds w (written ++ (u.fd, x ∷ xs) ∷ []) (none ∷ none ∷ []) wraps
  start_handler-Relays (r ∷ rounds) (x, xs) (next ∷ pieces) left w written u h (t, short, rs) =
      round_runs r (x, xs) rounds left w written u h _ t
        (pass_on os wraps left x xs w written t.first t.second t.visits u h t.received t.small
          short)
      ∙ ap
          (λ (y : World).
            start_handler os wraps rounds (paired y (written ++ (u.fd, x ∷ xs) ∷ []) u1 h1))
          (emptied-relaying left (x ∷ xs) w (omega arith))
      ∙ start_handler-Relays rounds next pieces (left - length (x ∷ xs)) w
          (written ++ (u.fd, x ∷ xs) ∷ []) u1 h1 rs
      ∙ ap
          (λ (l : List (ℤ × Bytes)).
            if wraps then some (returns, freed w l (none ∷ none ∷ [])) else none)
          (append_assoc written ((u.fd, x ∷ xs) ∷ []) (written_to u.fd next pieces))
    where
      u1 : Socket
      u1 = with_events all_events no_events u

      h1 : Socket
      h1 = record h { revents = no_events }
