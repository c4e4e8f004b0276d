-- ===== src/Lab32/Cleaner/Ending.antt =====
-- When the loop of the cleaner of lab32 is left, and with what threads.
use operating_systems_labs.Base.{
  ◌≡◌, refl, ap, sym, subst, ◌∙◌, ◌≢◌, ◌<◌, ℕ, ◌^◌, Bool, true, false, not, ◌||◌, none, some,
  some-inj, List, [], ◌∷◌, ◌++◌, length, if_true, if_false, Bool-cases, inl, inr, ℤ, pos, eqb_ℤ,
  to_int, to_int-small, arith,
}
use operating_systems_labs.Lab32.Context.{Thread, Context, join_dead_clients}
use operating_systems_labs.Lab32.Context.Joining.{
  Ascending, at_work, join_dead_clients-at_work, add_client-Ascending, finish_thread-Ascending,
}
use operating_systems_labs.Lab32.Cleaner.{
  Event, client_added, thread_finished, happen, happen_all, Turn, clean, start_cleaner,
}

happen_all-Ascending :
    (events : List Event) (context : Context)
    → Ascending context.thread_map
    → Ascending (happen_all events context).thread_map
unfolding happen_all
happen_all-Ascending [] context h = h
happen_all-Ascending (client_added code tid fd ∷ events) context h =
    happen_all-Ascending events (happen (client_added code tid fd) context)
      (add_client-Ascending code tid fd context h)
happen_all-Ascending (thread_finished tid ∷ events) context h =
    happen_all-Ascending events (happen (thread_finished tid) context)
      (finish_thread-Ascending tid context.thread_map h)

-- The context after a turn that goes into the loop.
abbrev pub after_turn : Turn → Context → Context
after_turn turn context = (join_dead_clients (happen_all turn.events context)).context

after_turn-Ascending :
    (turn : Turn) (context : Context)
    → Ascending context.thread_map
    → Ascending (after_turn turn context).thread_map
after_turn-Ascending turn context h =
    let happened : Context = happen_all turn.events context in
    (join_dead_clients-at_work happened (happen_all-Ascending turn.events context h)).2

unfoldable pub after_turns : List Turn → Context → Context
after_turns [] context = context
after_turns (turn ∷ turns) context = after_turns turns (after_turn turn context)

-- Whatever clients are added and whatever threads finish between the calls of joinDeadClients, the map
-- of threads keeps its keys strictly ascending, each thread identifier once.
pub after_turns-Ascending :
    (turns : List Turn) (context : Context)
    → Ascending context.thread_map
    → Ascending (after_turns turns context).thread_map
unfolding after_turns
after_turns-Ascending [] context h = h
after_turns-Ascending (turn ∷ turns) context h =
    after_turns-Ascending turns (after_turn turn context) (after_turn-Ascending turn context h)

alive-zero :
    (context : Context)
    → Ascending context.thread_map
    → at_work context.thread_map ≡ []
    → (join_dead_clients context).alive ≡ pos 0
alive-zero context h none_left =
    (join_dead_clients-at_work context h).1
    ∙ ap (λ l. to_int (length l)) none_left
    ∙ to_int-small 0 (omega arith)

clean-stops :
    (turns : List Turn) (turn last : Turn) (rest : List Turn) (alive : ℤ) (context : Context)
    → Ascending context.thread_map
    → turn.is_working ≡ false
    → last.is_working ≡ false
    → at_work (happen_all turn.events (after_turns turns context)).thread_map ≡ []
    → clean (turns ++ turn ∷ last ∷ rest) alive context ≢ none
unfolding clean after_turns
clean-stops [] turn last rest alive context h off off' dead =
    let happened : Context = happen_all turn.events context in
    let zero_left : (join_dead_clients happened).alive ≡ pos 0 =
      alive-zero happened (happen_all-Ascending turn.events context h) dead in
    elim (Bool-cases (not (eqb_ℤ alive (pos 0)))) [
      | inl e ↦ rw (off, e, off', zero_left) (λ eq. cc)
      | inr e ↦ rw (off, e) (λ eq. cc)
    ]
clean-stops (t ∷ turns) turn last rest alive context h off off' dead =
    elim (Bool-cases (t.is_working || not (eqb_ℤ alive (pos 0)))) [
      | inl e ↦ rw e (
          clean-stops turns turn last rest (join_dead_clients (happen_all t.events context)).alive
            (after_turn t context) (after_turn-Ascending t context h) off off' dead)
      | inr e ↦ rw e (λ eq. cc)
    ]

-- The loop of the cleaner is left at the latest with the second test that reads the flag as false, if
-- no thread is at work at the call of joinDeadClients between the two.
pub start_cleaner-stops :
    (turns : List Turn) (turn last : Turn) (rest : List Turn) (context : Context)
    → Ascending context.thread_map
    → turn.is_working ≡ false
    → last.is_working ≡ false
    → at_work (happen_all turn.events (after_turns turns context)).thread_map ≡ []
    → start_cleaner (turns ++ turn ∷ last ∷ rest) context ≢ none
unfolding start_cleaner
start_cleaner-stops turns turn last rest context h off off' dead =
    clean-stops turns turn last rest (pos 0) context h off off' dead

length-zero : (entries : List (ℕ × Thread)) → length entries ≡ 0 → entries ≡ []
length-zero [] h = refl
length-zero (entry ∷ entries) h = absurd (omega arith)

none_left :
    (entries : List (ℕ × Thread))
    → length entries < 2 ^ 31
    → not (eqb_ℤ (to_int (length entries)) (pos 0)) ≡ false
    → entries ≡ []
none_left entries small h =
    let e : to_int (length entries) ≡ pos (length entries) = to_int-small (length entries) small in
    length-zero entries (ground (arith, e))

or-false : (a b : Bool) → (a || b) ≡ false → b ≡ false
or-false a b h = ground arith

clean-empty :
    (turns : List Turn) (alive : ℤ) (context left : Context)
    → alive ≡ to_int (length context.thread_map)
    → clean turns alive context ≡ some left
    → length left.thread_map < 2 ^ 31
    → left.thread_map ≡ []
unfolding clean join_dead_clients
clean-empty [] alive context left h e small = cc
clean-empty (turn ∷ turns) alive context left h e small =
    let happened : Context = happen_all turn.events context in
    elim (Bool-cases (turn.is_working || not (eqb_ℤ alive (pos 0)))) [
      | inl go ↦
          clean-empty turns (join_dead_clients happened).alive (join_dead_clients happened).context
            left refl (sym (if_true _ _ _ go) ∙ e) small
      | inr stop ↦
          let same : context ≡ left = some-inj context left (sym (if_false _ _ _ stop) ∙ e) in
          let zero_left : not (eqb_ℤ (to_int (length context.thread_map)) (pos 0)) ≡ false =
            subst (λ a. not (eqb_ℤ a (pos 0)) ≡ false) h
              (or-false turn.is_working (not (eqb_ℤ alive (pos 0))) stop) in
          subst (λ c. c.thread_map ≡ []) same
            (none_left context.thread_map
              (subst (λ c. length c.thread_map < 2 ^ 31) (sym same) small) zero_left)
    ]

-- When the first test of its loop has read the flag as true, the cleaner leaves the loop with an empty
-- map: every client thread has been joined. The map is taken to have fewer than 2 ^ 31 threads.
pub start_cleaner-empty :
    (turn : Turn) (turns : List Turn) (context left : Context)
    → turn.is_working ≡ true
    → start_cleaner (turn ∷ turns) context ≡ some left
    → length left.thread_map < 2 ^ 31
    → left.thread_map ≡ []
unfolding start_cleaner clean join_dead_clients
start_cleaner-empty turn turns context left on e small =
    let happened : Context = happen_all turn.events context in
    clean-empty turns (join_dead_clients happened).alive (join_dead_clients happened).context left
      refl (sym (if_true _ _ _ (ap (λ b. b || not (eqb_ℤ (pos 0) (pos 0))) on)) ∙ e) small
