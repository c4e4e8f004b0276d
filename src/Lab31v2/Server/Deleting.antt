-- ===== src/Lab31v2/Server/Deleting.antt =====
-- lab31/v2/server/ServerImpl.cpp: `deleteClient`, without the list and its iterator.
use operating_systems_labs.Base.{ℕ, Bool, false, Option, none, some, set, ◌>>=◌, if◌then◌else◌}
use operating_systems_labs.Lab32v2.Buffer.{end_work}
use operating_systems_labs.Lab31v2.Cash.Element.{minus_count_users, set_is_server_connect}
use operating_systems_labs.Lab31v2.Buffer.{Buffer, World, update_element}
use operating_systems_labs.Lab31v2.Server.State.{
  TypeClient, user, http_server, Server, deref, set_client,
}

abbrev if_set : Bool → (World → Option World) → World → Option World
if_set b f w = if b then f w else some w

-- What the cached element and the buffer are told when a client leaves.
unfoldable pub leave : TypeClient → World → Option World
unfolding update_element
leave user w = do
  w' ← if_set w.buffer.is_data_get_cash (update_element minus_count_users) w
  some (record w' {
    buffer = record w'.buffer { status_client = end_work; is_client_connect = false };
  })
leave http_server w = do
  w' ← if_set w.buffer.is_add_data_to_cash (update_element (set_is_server_connect false)) w
  some (record w' {
    buffer = record w'.buffer { status_http_server = end_work; is_server_connect = false };
  })

-- Whether the client at the other side of the buffer is still there.
abbrev pub is_other_connected : TypeClient → Buffer → Bool
is_other_connected user b = b.is_server_connect
is_other_connected http_server b = b.is_client_connect

-- The buffer at q is deleted, unless the other client is still there.
unfoldable pub release : TypeClient → ℕ → Server → Option Server
unfolding leave
release t q s = do
  b ← deref s.buffers q
  w ← leave t (record { buffer = b; cash = s.cash })
  some (record s {
    cash = w.cash;
    buffers = set s.buffers q (if is_other_connected t w.buffer then some w.buffer else none);
  })

unfoldable pub delete_client : ℕ → Server → Option Server
unfolding release
delete_client p s = do
  c ← deref s.clients p
  s' ← elim c.buffer [ none ↦ some s | some q ↦ release c.type_client q s ]
  some (set_client p none s')
