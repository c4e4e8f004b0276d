-- ===== src/Lab32v2/Polling/Turns.antt =====
-- lab32v2/server/HandlerOneClientImpl.cpp: the loop of handlingEvent, the poll set, and startHandler.
use operating_systems_labs.Base.{
  ℕ, Bool, Option, none, some, List, [], ◌∷◌, ◌++◌, Bytes, length, leb, ◌>>=◌, ℤ, negsuc, eqb_ℤ,
  if◌then◌else◌,
}
use operating_systems_labs.Lab32v2.Cash.Element.{Platform}
use operating_systems_labs.Lab32v2.Client.{
  Events, no_events, PollFd, get_poll_fd, set_poll_element, deref,
}
use operating_systems_labs.Lab32v2.Handler.{Exit, pending}
use operating_systems_labs.Lab32v2.Handler.FromCash.{Turn, get_from_cash}
use operating_systems_labs.Lab32v2.Polling.State.{Thread, in_client, in_buffer, begin_of, advance}
use operating_systems_labs.Lab32v2.Polling.Deleting.{delete_client, delete_client_user}
use operating_systems_labs.Lab32v2.Polling.Steps.{Visit, moves, serves, exits}
use operating_systems_labs.Lab32v2.Polling.Handling.{handle_client}

-- How the loop of handlingEvent ends: it returns false, it returns true, the thread ends, or the
-- visits that are given are used up.
pub data Pass : Type 0 where
  passed returns_true thread_ends unfinished : Pass

module _ (os : Platform) (wraps : Bool) where
  unfoldable pub visit_clients : List Visit → Option ℕ → Thread → Option (Pass × Thread)
  unfolding advance
  visit_clients visits none s = some (passed, s)
  visit_clients [] (some p) s = some (unfinished, s)
  visit_clients (v ∷ visits) (some p) s = do
    (outcome, s') ← handle_client os wraps v p s
    elim outcome [
      | moves it ↦ do it' ← advance wraps it s'.client_list; visit_clients visits it' s'
      | serves ↦ some (returns_true, s')
      | exits ↦ some (thread_ends, s')
    ]

  unfoldable pub handling_event : List Visit → Thread → Option (Pass × Thread)
  unfolding visit_clients
  handling_event visits s = visit_clients visits (begin_of s.client_list) s

-- The elements of the poll set; `_pollSet` has two, and the write of a third has no defined result.
unfoldable pub poll_elements : List ℕ → Thread → Option (List PollFd)
unfolding deref
poll_elements [] s = some []
poll_elements (p ∷ ps) s = do
  c ← deref s.clients p
  elements ← poll_elements ps s
  some (get_poll_fd c ∷ elements)

unfoldable pub set_poll_set_before_poll : Thread → Option (List PollFd)
unfolding poll_elements deref
set_poll_set_before_poll s =
    if leb (length s.client_list) 2 then poll_elements s.client_list s else none

-- What `poll` does to the set; where no answer is given, it reports no event.
unfoldable pub poll_set : List Events → List PollFd → List PollFd
poll_set answers [] = []
poll_set [] (element ∷ elements) = record element { revents = no_events } ∷ poll_set [] elements
poll_set (answer ∷ answers) (element ∷ elements) =
    record element { revents = answer } ∷ poll_set answers elements

unfoldable pub save_poll_elements : List ℕ → List PollFd → Thread → Option Thread
unfolding in_client
save_poll_elements (p ∷ ps) (element ∷ elements) s = do
  s' ← in_client p (set_poll_element element) s
  save_poll_elements ps elements s'
save_poll_elements _ _ s = some s

-- `saveResultPollSet`.
unfoldable pub save_result_poll_set : List PollFd → Thread → Option Thread
unfolding save_poll_elements
save_result_poll_set elements s = save_poll_elements s.client_list elements s

-- What one round of the loop in startHandler is given: what `poll` returns and reports, the visits,
-- and what `getFromCash` is given, should it be called.
pub record Round : Type 0 where
  pub code : ℤ
  pub answers : List Events
  pub visits : List Visit
  pub locks : Bool
  pub unlocks : Bool
  pub cond : ℕ
  pub turns : List Turn

-- The poll set is built, polled and saved.
unfoldable pub poll_clients : Round → Thread → Option Thread
unfolding set_poll_set_before_poll poll_set save_result_poll_set
poll_clients r s = do
  elements ← set_poll_set_before_poll s
  save_result_poll_set (poll_set r.answers elements) s

-- How startHandler ends: it returns, the thread ends in it, or what is given is used up.
pub data Finish : Type 0 where
  returns thread_exits waits : Finish

module _ (wraps : Bool) where
  -- `getFromCash` and the deletion of the user, after which the thread ends.
  unfoldable pub serve_user : Round → Thread → Option (Finish × Thread)
  unfolding in_buffer deref delete_client
  serve_user r s = do
    c ← deref s.clients s.client
    ((exit, bytes), s1) ←
        in_buffer {A = Exit × Bytes} s.client
          (λ w. do
            (exit, bytes, w') ← get_from_cash r.locks r.unlocks r.cond r.turns w
            some ((exit, bytes), w'))
          s
    let s2 = record s1 { written = s1.written ++ (c.fd, bytes) ∷ [] }
    elim exit [
      | pending ↦ some (waits, s2)
      | _ ↦ do
        s3 ← delete_client_user wraps (delete_client 1 wraps) s.client s2
        some (thread_exits, s3)
    ]

module _ (os : Platform) (wraps : Bool) where
  unfoldable pub start_handler : List Round → Thread → Option (Finish × Thread)
  unfolding handling_event poll_clients serve_user
  start_handler [] s = elim s.client_list [ [] ↦ some (returns, s) | ◌∷◌ p ps ↦ some (waits, s) ]
  start_handler (r ∷ rounds) s = elim s.client_list [
    | [] ↦ some (returns, s)
    | ◌∷◌ p ps ↦ do
      s1 ← poll_clients r s
      if eqb_ℤ r.code (negsuc 0) then some (returns, s1) else (do
        (pass, s2) ← handling_event os wraps r.visits s1
        elim pass [
          | passed ↦ start_handler rounds s2
          | returns_true ↦ serve_user wraps r s2
          | thread_ends ↦ some (thread_exits, s2)
          | unfinished ↦ some (waits, s2)
        ])
  ]
