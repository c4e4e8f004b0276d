-- ===== src/Lab32/Cleaner/Tests.antt =====
-- Examples for the cleaner of lab32: a client is added, its thread ends, and the cleaner is stopped.
use operating_systems_labs.Base.{refl, ◌≢◌, true, false, none, [], ◌∷◌, ◌++◌, pos}
use operating_systems_labs.Lab32.Context.{Context, add_client, join_dead_clients, finish_thread}
use operating_systems_labs.Lab32.Context.Joining.{Ascending, at_work}
use operating_systems_labs.Lab32.Cleaner.{
  client_added, thread_finished, happen_all, Turn, start_cleaner,
}
use operating_systems_labs.Lab32.Cleaner.Ending.{
  after_turns, after_turns-Ascending, start_cleaner-stops,
}

abbrev empty : Context
empty = record { thread_map = [] }

abbrev adding : Turn
adding = record { is_working = true; events = client_added (pos 0) 7 (pos 4) ∷ [] }

abbrev finishing : Turn
finishing = record { is_working = false; events = thread_finished 7 ∷ [] }

abbrev quiet : Turn
quiet = record { is_working = false; events = [] }

after_turns-Ascending_example : Ascending (after_turns (adding ∷ finishing ∷ []) empty).thread_map
unfolding Ascending
after_turns-Ascending_example = after_turns-Ascending (adding ∷ finishing ∷ []) empty tt

start_cleaner-stops_example : start_cleaner ((adding ∷ []) ++ finishing ∷ quiet ∷ []) empty ≢ none
unfolding Ascending happen_all after_turns add_client join_dead_clients finish_thread at_work
start_cleaner-stops_example =
    start_cleaner-stops (adding ∷ []) finishing quiet [] empty tt refl refl refl
