-- ===== src/Lab32/Cleaner.antt =====
-- lab32/cleaner/Cleaner.cpp: the thread that joins the threads of the clients. A turn is one test of
-- the loop condition: the flag as it is read, and what the other threads do between the test and the
-- call of joinDeadClients.
mod Tests
pub mod Ending
use operating_systems_labs.Base.{
  ℕ, Bool, true, false, not, ◌||◌, Option, none, some, List, [], ◌∷◌, if◌then◌else◌, ℤ, pos, eqb_ℤ,
}
use operating_systems_labs.Lab32.Constants.{correct_code}
use operating_systems_labs.Lab32.Context.{Context, add_client, finish_thread, join_dead_clients}

-- A client is added, with the code and the thread identifier that pthread_create gives; or the routine
-- of a thread ends.
pub data Event : Type 0 where
  client_added : ℤ → ℕ → ℤ → Event
  thread_finished : ℕ → Event

unfoldable pub happen : Event → Context → Context
happen (client_added create_code tid client_fd) context =
    (add_client create_code tid client_fd context).0
happen (thread_finished tid) context = record context {
  thread_map = finish_thread tid context.thread_map;
}

unfoldable pub happen_all : List Event → Context → Context
unfolding happen
happen_all [] context = context
happen_all (event ∷ events) context = happen_all events (happen event context)

pub record Turn : Type 0 where
  pub is_working : Bool
  pub events : List Event

-- The flag after the constructor, with the code of pthread_create.
unfoldable pub new_cleaner : ℤ → Bool
new_cleaner create_code = if not (eqb_ℤ create_code correct_code) then false else true

-- The context when the loop is left; `none` if it is not left within the turns. The counter starts at 0.
unfoldable pub clean : List Turn → ℤ → Context → Option Context
unfolding happen_all
clean [] alive_thread_count context = none
clean (turn ∷ turns) alive_thread_count context =
    let happened : Context = happen_all turn.events context in
    let rest : Option Context =
      clean turns (join_dead_clients happened).alive (join_dead_clients happened).context in
    if turn.is_working || not (eqb_ℤ alive_thread_count (pos 0)) then rest else some context

unfoldable pub start_cleaner : List Turn → Context → Option Context
unfolding clean
start_cleaner turns context = clean turns (pos 0) context
