-- ===== src/Lab32v2/Polling/Leaving.antt =====
-- lab32v2: what is left of a thread's objects when its clients are deleted.
use operating_systems_labs.Base.{
  ℕ, ◌≡◌, refl, sym, subst, Bool, true, false, none, some, List, [], ◌∷◌, ◌++◌, Bytes, get_elem?,
  set, ℤ, arith, if◌then◌else◌,
}
use operating_systems_labs.Lab32v2.Cash.Element.{CashElement, set_is_server_connect}
use operating_systems_labs.Lab32v2.Buffer.{Buffer, World, end_work}
use operating_systems_labs.Lab32v2.Polling.{Thread, delete_client}
use operating_systems_labs.Lab32v2.Polling.Shapes.{Socket, paired, orphaned, freed}

-- The world once a client that uses no cached element has left.
abbrev pub without_user : World → World
without_user w = record w {
  buffer = record w.buffer { status_client = end_work; is_client_connect = false };
}

abbrev pub without_server : World → World
without_server w = record w {
  buffer = record w.buffer { status_http_server = end_work; is_server_connect = false };
}

-- What holds of a world whose buffer is written out holds of the world.
pub World_subst {κ} :
    (P : World → Type κ) (b : Buffer) (w : World) → w.buffer ≡ b → P (record w { buffer = b }) → P w
World_subst P b w e h = subst (λ (b : Buffer). P (record w { buffer = b })) (sym e) h

-- The user and the HTTP server share the buffer, and none of its bytes come from the cache.
pub record IsShared (b : Buffer) : Type 0 where
  pub reads : b.is_data_get_cash ≡ false
  pub client : b.is_client_connect ≡ true
  pub server : b.is_server_connect ≡ true

-- The user has gone, and the response is still written to the element at p.
pub record IsOrphaned (p : ℕ) (b : Buffer) : Type 0 where
  pub adds : b.is_add_data_to_cash ≡ true
  pub client : b.is_client_connect ≡ false
  pub element : b.cash_element ≡ some p

abbrev sharing : Bool → Buffer → Buffer
sharing adds b = record b {
  is_data_get_cash = false;
  is_add_data_to_cash = adds;
  is_client_connect = true;
  is_server_connect = true;
}

IsShared-sharing :
    (b : Buffer) (adds : Bool) → IsShared b → b.is_add_data_to_cash ≡ adds → b ≡ sharing adds b
IsShared-sharing b adds s e = ground (arith, s.reads, s.client, s.server)

abbrev filling : ℕ → Buffer → Buffer
filling p b = record b {
  is_add_data_to_cash = true;
  is_client_connect = false;
  cash_element = some p;
}

IsOrphaned-filling : (p : ℕ) (b : Buffer) → IsOrphaned p b → b ≡ filling p b
IsOrphaned-filling p b o = ground (arith, o.adds, o.client, o.element)

-- The cached element at p is told that its HTTP server has left.
abbrev pub ended_world : ℕ → CashElement → World → World
ended_world p e w =
    let (e', signals) = set_is_server_connect false e in
    record w {
      cash = record w.cash { elements = set w.cash.elements p e' };
      signalled = w.signalled ++ signals;
    }

-- The states of the thread after the user of a pair has been deleted.
abbrev pub user_left : World → List (ℤ × Bytes) → Bool → Socket → Thread
user_left w written adds h =
    if adds then orphaned (without_user w) written h else freed w written (none ∷ none ∷ [])

module _ (wraps : Bool) (w : World) (written : List (ℤ × Bytes)) where
  pub user_leaves :
      (u h : Socket) (adds : Bool)
      → IsShared w.buffer
      → w.buffer.is_add_data_to_cash ≡ adds
      → delete_client 2 wraps 0 (paired w written u h) ≡ some (none, user_left w written adds h)
  unfolding delete_client
  user_leaves u h adds shared e =
      World_subst
        (λ (x : World).
          delete_client 2 wraps 0 (paired x written u h)
          ≡ some (
            none,
            (if adds
                then orphaned (without_user x) written h
                else freed x written (none ∷ none ∷ [])),
          ))
        (sharing adds w.buffer) w (IsShared-sharing w.buffer adds shared e)
        (elim adds
          as (λ a.
            let x : World = record w { buffer = sharing a w.buffer } in
            delete_client 2 wraps 0 (paired x written u h)
            ≡ some (
              none,
              (if a
                  then orphaned (without_user x) written h
                  else freed x written (none ∷ none ∷ [])),
            )) [ true ↦ refl | false ↦ refl ])

  -- When the user of a pair is deleted: if the response is being cached, only the user goes, and the
  -- HTTP server keeps the buffer, which is told that the user is gone; otherwise both clients and the
  -- buffer are deleted, each once. Either way the iterator is at the end of the list.
  pub delete_client-paired :
      (u h : Socket)
      → IsShared w.buffer
      → delete_client 2 wraps 0 (paired w written u h)
        ≡ some (none, user_left w written w.buffer.is_add_data_to_cash h)
  delete_client-paired u h shared = user_leaves u h w.buffer.is_add_data_to_cash shared refl

  -- When the HTTP server, which has gone on caching a response after the user left, is deleted: it
  -- and the buffer are deleted, the cached element is told that its server has left, and the threads
  -- that read the element are signalled.
  pub delete_client-orphaned :
      (h : Socket) (p : ℕ) (e : CashElement)
      → IsOrphaned p w.buffer
      → get_elem? w.cash.elements p ≡ some e
      → delete_client 2 wraps 1 (orphaned w written h)
        ≡ some (none, freed (ended_world p e w) written (none ∷ none ∷ []))
  unfolding delete_client
  delete_client-orphaned h p e orphan stands =
      World_subst
        (λ (x : World).
          get_elem? x.cash.elements p ≡ some e
          → delete_client 2 wraps 1 (orphaned x written h)
            ≡ some (none, freed (ended_world p e w) written (none ∷ none ∷ [])))
        (filling p w.buffer) w (IsOrphaned-filling p w.buffer orphan) (λ at. rw at refl) stands
