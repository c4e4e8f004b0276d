-- ===== src/Lab32/Context/Joining.antt =====
-- The map of threads in lab32: its order, and what joinDeadClients leaves.
use operating_systems_labs.Base.{
  ◌≡◌, refl, ap, sym, subst, ◌∙◌, if_true, if_false, ◌<◌, ℕ, false, not, List, [], ◌∷◌, ltb, ltb→lt,
  ◌==◌, ==_self, if◌then◌else◌, ℤ, to_int, length, All, All-map, Bool-cases, inl, inr, arith,
}
use operating_systems_labs.Lab32.ThreadContext.{Call}
use operating_systems_labs.Lab32.Context.{
  Thread, Context, new_thread_context, insert, add_client, keys_to_delete, erase, erase_all,
  join_dead_clients, finish_thread,
}

-- The keys are strictly ascending.
unfoldable pub Ascending : List (ℕ × Thread) → Type 0
Ascending [] = Unit
Ascending (entry ∷ entries) = All (λ later. entry.0 < later.0) entries × Ascending entries

All-insert :
    (k key : ℕ) (thread : Thread) (entries : List (ℕ × Thread))
    → k < key
    → All (λ later. k < later.0) entries
    → All (λ later. k < later.0) (insert key thread entries)
unfolding insert
All-insert k key thread [] h all = (h, tt)
All-insert k key thread (entry ∷ entries) h all = elim (Bool-cases (key == entry.0)) [
  | inl e ↦ rw e all
  | inr e ↦ elim (Bool-cases (ltb key entry.0)) [
    | inl l ↦ rw (e, l) (h, all)
    | inr l ↦ rw (e, l) (all.0, All-insert k key thread entries h all.1)
  ]
]

insert-Ascending :
    (key : ℕ) (thread : Thread) (entries : List (ℕ × Thread))
    → Ascending entries
    → Ascending (insert key thread entries)
unfolding insert Ascending
insert-Ascending key thread [] h = (tt, tt)
insert-Ascending key thread (entry ∷ entries) h = elim (Bool-cases (key == entry.0)) [
  | inl e ↦ rw e h
  | inr e ↦ elim (Bool-cases (ltb key entry.0)) [
    | inl l ↦
        rw (e, l)
          (
            (
              ltb→lt key entry.0 l,
              All-map (λ later. entry.0 < later.0) (λ later. key < later.0) entries
                  (λ x lt. omega (arith, ltb→lt key entry.0 l)) h.0,
            ),
            h,
          )
    | inr l ↦
        rw (e, l)
          (
            All-insert entry.0 key thread entries (ground arith) h.0,
            insert-Ascending key thread entries h.1,
          )
  ]
]

-- The threads that are at work.
unfoldable pub at_work : List (ℕ × Thread) → List (ℕ × Thread)
at_work [] = []
at_work (entry ∷ entries) = if entry.1.is_working then entry ∷ at_work entries else at_work entries

All-keys_to_delete :
    (k : ℕ) (entries : List (ℕ × Thread))
    → All (λ later. k < later.0) entries
    → All (λ key. k < key) (keys_to_delete entries)
unfolding keys_to_delete
All-keys_to_delete k [] h = tt
All-keys_to_delete k (entry ∷ entries) h = elim (Bool-cases entry.1.is_working) [
  | inl w ↦ rw w (All-keys_to_delete k entries h.1)
  | inr w ↦ rw w (h.0, All-keys_to_delete k entries h.1)
]

erase_all-later :
    (keys : List ℕ) (entry : ℕ × Thread) (entries : List (ℕ × Thread))
    → All (λ key. entry.0 < key) keys
    → erase_all keys (entry ∷ entries) ≡ entry ∷ erase_all keys entries
unfolding erase_all
erase_all-later [] entry entries h = refl
erase_all-later (key ∷ keys) entry entries h =
    let other : (key == entry.0) ≡ false = ground (arith, h.0) in
    rw other (erase_all-later keys entry (erase key entries) h.1)

erase_all-dead :
    (entries : List (ℕ × Thread))
    → Ascending entries
    → erase_all (keys_to_delete entries) entries ≡ at_work entries
unfolding Ascending keys_to_delete at_work erase_all
erase_all-dead [] h = refl
erase_all-dead (entry ∷ entries) h = elim (Bool-cases entry.1.is_working) [
  | inl w ↦
      ap (λ keys. erase_all keys (entry ∷ entries)) (if_false _ _ _ (ap not w))
      ∙ erase_all-later (keys_to_delete entries) entry entries
          (All-keys_to_delete entry.0 entries h.0)
      ∙ ap (λ l. entry ∷ l) (erase_all-dead entries h.1)
      ∙ sym (if_true _ _ _ w)
  | inr w ↦ rw (w, ==_self entry.0) (erase_all-dead entries h.1)
]

All-at_work {κ} :
    (P : ℕ × Thread → Type κ) (entries : List (ℕ × Thread))
    → All P entries
    → All P (at_work entries)
unfolding at_work
All-at_work P [] h = tt
All-at_work P (entry ∷ entries) h = elim (Bool-cases entry.1.is_working) [
  | inl w ↦ subst (All P) (sym (if_true _ _ _ w)) (h.0, All-at_work P entries h.1)
  | inr w ↦ subst (All P) (sym (if_false _ _ _ w)) (All-at_work P entries h.1)
]

at_work-Ascending : (entries : List (ℕ × Thread)) → Ascending entries → Ascending (at_work entries)
unfolding at_work Ascending
at_work-Ascending [] h = tt
at_work-Ascending (entry ∷ entries) h = elim (Bool-cases entry.1.is_working) [
  | inl w ↦
      rw w (All-at_work (λ later. entry.0 < later.0) entries h.0, at_work-Ascending entries h.1)
  | inr w ↦ rw w (at_work-Ascending entries h.1)
]

finish_thread-All :
    (k tid : ℕ) (entries : List (ℕ × Thread))
    → All (λ later. k < later.0) entries
    → All (λ later. k < later.0) (finish_thread tid entries)
unfolding finish_thread
finish_thread-All k tid [] h = tt
finish_thread-All k tid (entry ∷ entries) h = elim (Bool-cases (tid == entry.0)) [
  | inl e ↦ rw e (h.0, h.1)
  | inr e ↦ rw e (h.0, finish_thread-All k tid entries h.1)
]

pub finish_thread-Ascending :
    (tid : ℕ) (entries : List (ℕ × Thread))
    → Ascending entries
    → Ascending (finish_thread tid entries)
unfolding finish_thread Ascending
finish_thread-Ascending tid [] h = tt
finish_thread-Ascending tid (entry ∷ entries) h = elim (Bool-cases (tid == entry.0)) [
  | inl e ↦ rw e (h.0, h.1)
  | inr e ↦
      rw e (finish_thread-All entry.0 tid entries h.0, finish_thread-Ascending tid entries h.1)
]

pub add_client-Ascending :
    (code : ℤ) (tid : ℕ) (fd : ℤ) (context : Context)
    → Ascending context.thread_map
    → Ascending (add_client code tid fd context).0.thread_map
unfolding add_client
add_client-Ascending code tid fd context h =
    let created : ℕ × Thread × List Call = new_thread_context code tid fd in
    insert-Ascending created.0 created.1 context.thread_map h

-- With the keys in ascending order, as the map has them, joinDeadClients leaves exactly the threads
-- that are at work, in order, and answers with their number as an `int`.
pub join_dead_clients-at_work :
    (context : Context)
    → Ascending context.thread_map
    → ((join_dead_clients context).context.thread_map ≡ at_work context.thread_map)
      × ((join_dead_clients context).alive ≡ to_int (length (at_work context.thread_map)))
      × Ascending (join_dead_clients context).context.thread_map
unfolding join_dead_clients
join_dead_clients-at_work context h =
    let left : _ = erase_all-dead context.thread_map h in
    (
      left,
      ap (λ l. to_int (length l)) left,
      subst Ascending (sym left) (at_work-Ascending context.thread_map h),
    )
