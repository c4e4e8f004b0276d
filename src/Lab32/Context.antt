-- ===== src/Lab32/Context.antt =====
-- lab32/context/Context.cpp, with the constructor of ThreadContext. The map from thread identifiers is
-- a list in the order of the keys, as a `std::map` goes through them. A key 0 stands for `_tid = 0`.
mod Tests
pub mod Joining
use operating_systems_labs.Base.{
  ℕ, ◌<◌, Bool, true, false, not, Option, List, [], ◌∷◌, ltb, ◌==◌, if◌then◌else◌, ℤ, eqb_ℤ, to_int,
  length, All,
}
use operating_systems_labs.Lab32.Constants.{correct_code}
use operating_systems_labs.Lab32.ThreadContext.{Call, close_socket}

-- What the map needs of a ThreadContext.
pub record Thread : Type 0 where
  pub is_working : Bool
  pub socket_fd : ℤ

pub record Context : Type 0 where
  pub thread_map : List (ℕ × Thread)

-- The constructor of ThreadContext: the key, the thread and the calls made.
unfoldable pub new_thread_context : ℤ → ℕ → ℤ → ℕ × Thread × List Call
new_thread_context create_code tid socket_fd =
    if not (eqb_ℤ create_code correct_code)
    then (0, record { is_working = false; socket_fd = socket_fd }, close_socket socket_fd ∷ [])
    else (tid, record { is_working = true; socket_fd = socket_fd }, [])

-- `_threadMap.insert`: a key that is there already keeps its thread.
unfoldable pub insert : ℕ → Thread → List (ℕ × Thread) → List (ℕ × Thread)
insert key thread [] = (key, thread) ∷ []
insert key thread (entry ∷ entries) =
    let rest : List (ℕ × Thread) = insert key thread entries in
    if key == entry.0
    then entry ∷ entries
    else (if ltb key entry.0 then (key, thread) ∷ entry ∷ entries else entry ∷ rest)

unfoldable pub add_client : ℤ → ℕ → ℤ → Context → Context × List Call
unfolding new_thread_context insert
add_client create_code tid client_fd context =
    let (key, thread, calls) = new_thread_context create_code tid client_fd in
    (record context { thread_map = insert key thread context.thread_map }, calls)

unfoldable pub keys_to_delete : List (ℕ × Thread) → List ℕ
keys_to_delete [] = []
keys_to_delete (entry ∷ entries) =
    if not entry.1.is_working then entry.0 ∷ keys_to_delete entries else keys_to_delete entries

unfoldable pub erase : ℕ → List (ℕ × Thread) → List (ℕ × Thread)
erase key [] = []
erase key (entry ∷ entries) =
    let rest : List (ℕ × Thread) = erase key entries in
    if key == entry.0 then entries else entry ∷ rest

unfoldable pub erase_all : List ℕ → List (ℕ × Thread) → List (ℕ × Thread)
unfolding erase
erase_all [] entries = entries
erase_all (key ∷ keys) entries = erase_all keys (erase key entries)

-- The context, the threads joined and deleted, and the answer. What `pthread_join` returns is logged.
pub record Joined : Type 0 where
  pub context : Context
  pub joined : List ℕ
  pub alive : ℤ

unfoldable pub join_dead_clients : Context → Joined
unfolding keys_to_delete erase_all
join_dead_clients context =
    let keys : List ℕ = keys_to_delete context.thread_map in
    let left : List (ℕ × Thread) = erase_all keys context.thread_map in
    record {
      context = record context { thread_map = left };
      joined = keys;
      alive = to_int (length left);
    }

-- The end of the routine of a thread.
unfoldable pub finish_thread : ℕ → List (ℕ × Thread) → List (ℕ × Thread)
finish_thread tid [] = []
finish_thread tid (entry ∷ entries) =
    let rest : List (ℕ × Thread) = finish_thread tid entries in
    if tid == entry.0
    then (entry.0, record entry.1 { is_working = false }) ∷ entries
    else entry ∷ rest
