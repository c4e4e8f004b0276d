-- ===== src/Lab32v2/Polling/Rounds.antt =====
-- lab32v2/server/HandlerOneClientImpl.cpp: rounds of the loop in startHandler.
use operating_systems_labs.Base.{
  ℕ, zero, suc, ◌≡◌, refl, ap, ◌∙◌, Bool, true, false, Option, none, some, List, [], ◌∷◌, Bytes, ℤ,
  negsuc, eqb_ℤ, if_false, ◌>>=◌, bind_some,
}
use operating_systems_labs.Lab32v2.Cash.Element.{Platform}
use operating_systems_labs.Lab32v2.Buffer.{World}
use operating_systems_labs.Lab32v2.Client.{Events, no_events, Client, PollFd, get_poll_fd}
use operating_systems_labs.Lab32v2.Polling.State.{Thread}
use operating_systems_labs.Lab32v2.Polling.Turns.{
  Pass, passed, returns_true, thread_ends, unfinished, Round, Finish, thread_exits, waits, poll_set,
  save_result_poll_set, poll_clients, handling_event, serve_user, start_handler,
}
use operating_systems_labs.Lab32v2.Polling.Shapes.{Socket, user_of, server_of, lone, paired}

-- What `poll` reports for the n-th client of the list.
abbrev pub answer_to : List Events → ℕ → Events
answer_to [] n = no_events
answer_to (a ∷ answers) zero = a
answer_to (a ∷ answers) (suc n) = answer_to answers n

abbrev pub answered : Round → ℕ → Socket → Socket
answered r n s = record s { revents = answer_to r.answers n }

-- What is visited has been polled for input, and is no hang-up.
pub record HasInput (answer : Events) : Type 0 where
  pub input : answer.pollin ≡ true
  pub stays : answer.pollrdhup ≡ false

abbrev pub after_input : Socket → Socket
after_input u = record u { revents = no_events }

abbrev reported : PollFd → Events → PollFd
reported element answer = record element { revents = answer }

poll_set-one :
    (answers : List Events) (a : PollFd)
    → poll_set answers (a ∷ []) ≡ reported a (answer_to answers 0) ∷ []
unfolding poll_set
poll_set-one [] a = refl
poll_set-one (x ∷ answers) a = ap (λ (l : List PollFd). reported a x ∷ l) (no_elements answers)
  where
    no_elements : (answers : List Events) → poll_set answers [] ≡ []
    no_elements [] = refl
    no_elements (x ∷ answers) = refl

poll_set-two :
    (answers : List Events) (a b : PollFd)
    → poll_set answers (a ∷ b ∷ [])
      ≡ reported a (answer_to answers 0) ∷ reported b (answer_to answers 1) ∷ []
unfolding poll_set
poll_set-two [] a b = refl
poll_set-two (x ∷ answers) a b = ap (λ (l : List PollFd). reported a x ∷ l) (poll_set-one answers b)

-- Each client is given what `poll` has reported for its place in the list, and keeps the rest.
module _ (r : Round) (w : World) (written : List (ℤ × Bytes)) where
  pub poll_clients-paired :
      (u h : Socket)
      → poll_clients r (paired w written u h)
        ≡ some (paired w written (answered r 1 u) (answered r 0 h))
  unfolding poll_clients
  poll_clients-paired u h =
      ap (λ (l : List PollFd). save_result_poll_set l (paired w written u h))
        (poll_set-two r.answers (get_poll_fd (server_of h (0 ∷ [])))
          (get_poll_fd (user_of u (some 1))))

  pub poll_clients-lone :
      (others : List (Option Client)) (u : Socket)
      → poll_clients r (lone w written others u) ≡ some (lone w written others (answered r 0 u))
  unfolding poll_clients
  poll_clients-lone others u =
      ap (λ (l : List PollFd). save_result_poll_set l (lone w written others u))
        (poll_set-one r.answers (get_poll_fd (user_of u none)))

-- What startHandler does once handlingEvent has ended.
module _ (os : Platform) (wraps : Bool) (r : Round) (rounds : List Round) where
  abbrev pub after_pass : Pass → Thread → Option (Finish × Thread)
  after_pass passed s = start_handler os wraps rounds s
  after_pass returns_true s = serve_user wraps r s
  after_pass thread_ends s = some (thread_exits, s)
  after_pass unfinished s = some (waits, s)

  -- A round whose `poll` succeeds, whether handlingEvent has a defined result or not.
  pub start_handler-round :
      (p : ℕ) (ps : List ℕ) (s s1 : Thread) (result : Option (Pass × Thread))
      → s.client_list ≡ p ∷ ps
      → poll_clients r s ≡ some s1
      → eqb_ℤ r.code (negsuc 0) ≡ false
      → handling_event os wraps r.visits s1 ≡ result
      → start_handler os wraps (r ∷ rounds) s ≡ (result >>= λ t. after_pass t.0 t.1)
  unfolding start_handler
  start_handler-round p ps s s1 result list polled code ran =
      elim_cons s.client_list _ _ list
      ∙ bind_some (poll_clients r s) _ s1 polled
      ∙ if_false _ _ _ code
      ∙ goes_on (handling_event os wraps r.visits s1)
      ∙ ap (λ (o : Option (Pass × Thread)). o >>= (λ t. after_pass t.0 t.1)) ran
    where
      elim_cons :
          (l : List ℕ) (x : Option (Finish × Thread)) (y : Option (Finish × Thread))
          → l ≡ p ∷ ps
          → (elim l as (λ _. Option (Finish × Thread)) [ [] ↦ x | ◌∷◌ q qs ↦ y ]) ≡ y
      elim_cons l x y e = rw e refl

      ends : Pass × Thread → Option (Finish × Thread)
      ends (pass, s) = elim pass as (λ _. Option (Finish × Thread)) [
        | passed ↦ start_handler os wraps rounds s
        | returns_true ↦ serve_user wraps r s
        | thread_ends ↦ some (thread_exits, s)
        | unfinished ↦ some (waits, s)
      ]

      goes_on :
          (result : Option (Pass × Thread))
          → (result >>= ends) ≡ (result >>= λ t. after_pass t.0 t.1)
      goes_on none = refl
      goes_on (some (passed, s)) = refl
      goes_on (some (returns_true, s)) = refl
      goes_on (some (thread_ends, s)) = refl
      goes_on (some (unfinished, s)) = refl
