-- ===== src/Lab32v2/Polling/Deleting.antt =====
-- lab32v2/server/HandlerOneClientImpl.cpp: `deleteClient`, `deleteClientUser` and
-- `deleteClientServer`.
use operating_systems_labs.Base.{
  ℕ, zero, suc, ◌+◌, Bool, false, Option, none, some, [], set, length, ◌==◌, if◌then◌else◌, ◌>>=◌,
}
use operating_systems_labs.Lab32v2.Cash.Element.{minus_count_users, set_is_server_connect}
use operating_systems_labs.Lab32v2.Buffer.{Buffer, World, end_work, update_element}
use operating_systems_labs.Lab32v2.Client.{
  TypeClient, user, http_server, set_events, set_pair, all_events, erase_first, erase_it, deref,
}
use operating_systems_labs.Lab32v2.Polling.State.{
  Thread, put_client, in_client, in_clients, world_of, begin_of, next_of, advance,
}

abbrev if_set : Bool → (World → Option World) → World → Option World
if_set b f w = if b then f w else some w

-- What the cached element and the buffer are told when a client leaves.
unfoldable pub leave : TypeClient → World → Option World
unfolding update_element
leave user w = do
  w' ← if_set w.buffer.is_data_get_cash (update_element (λ e. (minus_count_users e, []))) w
  some (record w' {
    buffer = record w'.buffer { status_client = end_work; is_client_connect = false };
  })
leave http_server w = do
  w' ← if_set w.buffer.is_add_data_to_cash (update_element (set_is_server_connect false)) w
  some (record w' {
    buffer = record w'.buffer { status_http_server = end_work; is_server_connect = false };
  })

-- Whether the client at the other side of the buffer is still there.
abbrev pub is_other_connected : TypeClient → Buffer → Bool
is_other_connected user b = b.is_server_connect
is_other_connected http_server b = b.is_client_connect

-- The buffer at q is deleted, unless the other client is still there.
unfoldable pub release : TypeClient → Option ℕ → Thread → Option Thread
unfolding leave deref
release t none s = some s
release t (some q) s = do
  b ← deref s.buffers q
  w ← leave t (world_of b s)
  some (record s {
    cash = w.cash;
    signalled = w.signalled;
    buffers = set s.buffers q (if is_other_connected t w.buffer then some w.buffer else none);
  })

-- `deleteClientServer`: the users that it serves lose their pair.
unfoldable pub delete_client_server : ℕ → Thread → Option Thread
unfolding release deref in_clients
delete_client_server p s = do
  c ← deref s.clients p
  s1 ← in_clients c.list_handling_event (λ u. set_events all_events (set_pair none u)) s
  s2 ← release http_server c.buffer s1
  some (put_client p none s2)

abbrev is_pointer : Option ℕ → ℕ → Bool
is_pointer none q = false
is_pointer (some p) q = q == p

-- `delete` is `deleteClient`, which returns what it sets the iterator to.
module _ (wraps : Bool) (delete : ℕ → Thread → Option (Option ℕ × Thread)) where
  -- The loop of `deleteClientUser` over the list, which asks for the pair at every element; each
  -- deletion makes the list shorter, and so the loop ends.
  unfoldable pub delete_pairs : ℕ → ℕ → Option ℕ → Thread → Option Thread
  unfolding deref advance
  delete_pairs fuel p none s = some s
  delete_pairs zero p (some q) s = none
  delete_pairs (suc fuel) p (some q) s = do
    c ← deref s.clients p
    (it, s') ← if is_pointer c.pair q then delete q s else some (some q, s)
    it' ← advance wraps it s'.client_list
    delete_pairs fuel p it' s'

  -- The server of a response that is being cached stays.
  unfoldable pub leave_pair : ℕ → ℕ → Thread → Option Thread
  unfolding delete_pairs deref in_client erase_it
  leave_pair p h s = do
    s1 ← in_client h (erase_it p) s
    c ← deref s1.clients p
    elim c.buffer [
      | none ↦ some s1
      | some q ↦ do
        b ← deref s1.buffers q
        if b.is_add_data_to_cash
            then some s1
            else delete_pairs (length s1.client_list + length s1.client_list) p
                (begin_of s1.client_list) s1
    ]

  unfoldable pub delete_client_user : ℕ → Thread → Option Thread
  unfolding leave_pair release deref
  delete_client_user p s = do
    c ← deref s.clients p
    s1 ← elim c.pair [ none ↦ some s | some h ↦ leave_pair p h s ]
    s2 ← release user c.buffer s1
    some (put_client p none s2)

-- `deleteClient` and `deleteClientUser` call one another: the first argument bounds the depth. The
-- second result is the state, the first the iterator, which `erase` sets to the element behind p's.
unfoldable pub delete_client : ℕ → Bool → ℕ → Thread → Option (Option ℕ × Thread)
unfolding delete_client_user delete_client_server deref next_of erase_first
delete_client zero wraps p s = none
delete_client (suc depth) wraps p s = do
  c ← deref s.clients p
  s1 ← elim c.type_client [
    | user ↦ delete_client_user wraps (delete_client depth wraps) p s
    | http_server ↦ delete_client_server p s
  ]
  it ← next_of p s1.client_list
  some (it, record s1 { client_list = erase_first p s1.client_list })
