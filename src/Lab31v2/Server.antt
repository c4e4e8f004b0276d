-- ===== src/Lab31v2/Server.antt =====
-- lab31/v2/server/ServerImpl.cpp: the poll loop over the list of clients.
mod Tests
mod State
mod Deleting
mod Handling
pub mod Releases
pub mod Sharing
pub mod Iterators
pub mod Effects
pub mod Visits
pub mod Lists
pub mod Rounds
pub use State.{
  TypeClient, user, http_server, Client, new_client, set_revents_zero, Server, set_client, Network,
}
unfoldable pub use State.{deref, in_buffer_at, accept_new_client, connect_to_client}
pub use Deleting.{is_other_connected}
unfoldable pub use Deleting.{leave, release, delete_client}
pub use Handling.{Visit, Visited, deleted_client}
unfoldable pub use Handling.{
  is_over, connect_http_server, handle_input, handle_output, handle_rest, handle_client,
}
use operating_systems_labs.Base.{
  ℕ, Bool, true, false, ◌||◌, Option, none, some, List, [], ◌∷◌, ◌++◌, Bytes, ◌>>=◌, ℤ, pos, negsuc,
  eqb_ℤ, if◌then◌else◌,
}

-- The loop of handlingEvent: `before` are the clients that the iterator has passed, and the list from
-- it on is given. The first result tells whether the loop has come to its end within the visits.
-- `deleteClient` sets the iterator to the client behind the deleted one, and the loop then steps over
-- that; behind the last one this goes past `end()`, which is undefined.
unfoldable pub visit_clients :
    (Bytes → ℕ) → List Visit → List ℕ → List ℕ → Server → Option (Bool × Server)
visit_clients hasher visits before [] s = some (true, record s { client_list = before })
visit_clients hasher [] before (p ∷ ps) s =
    some (false, record s { client_list = before ++ p ∷ ps })
visit_clients hasher (v ∷ visits) before (p ∷ ps) s = do
  r ← handle_client hasher v p s
  if r.deleted
      then (elim ps [
        | [] ↦ none
        | ◌∷◌ q qs ↦ visit_clients hasher visits (before ++ q ∷ []) qs r.server
      ])
      else visit_clients hasher visits (before ++ p ∷ []) (ps ++ r.pushed) r.server

unfoldable pub handling_event : (Bytes → ℕ) → List Visit → Server → Option (Bool × Server)
unfolding visit_clients
handling_event hasher visits s = visit_clients hasher visits [] s.client_list s

-- What one turn of the loop in startServer is given: what `poll` returns, the bits POLLIN and POLLOUT
-- for the clients in the order of the list, the visits, POLLIN for the server's socket, and what
-- `accept` returns.
pub record Round : Type 0 where
  pub code : ℤ
  pub revents : List (Bool × Bool)
  pub visits : List Visit
  pub socket_ready : Bool
  pub client_sock : ℤ

-- The poll set, which has the clients in the order of the list, gives each its bits; what it has no
-- answer for has no bits.
unfoldable pub set_poll_elements : List (Bool × Bool) → List ℕ → Server → Option Server
unfolding deref
set_poll_elements revents [] s = some s
set_poll_elements [] (p ∷ ps) s = do
  c ← deref s.clients p
  set_poll_elements [] ps (set_client p (some (set_revents_zero c)) s)
set_poll_elements (bits ∷ revents) (p ∷ ps) s = do
  c ← deref s.clients p
  set_poll_elements revents ps
      (set_client p (some (record c { pollin = bits.0; pollout = bits.1 })) s)

-- How a turn of the loop, or the loop, stands: it goes on; or the ConnectException leaves startServer,
-- as `catch (std::exception *)` does not catch what is thrown by value; or the visits are used up.
pub data Stand : Type 0 where
  goes_on uncaught unfinished : Stand

unfoldable pub accept_if_ready : Round → Server → Stand × Server
unfolding accept_new_client
accept_if_ready r s =
    if r.socket_ready
    then (elim (accept_new_client r.client_sock s) [
      | none ↦ (uncaught, s)
      | some s' ↦ (goes_on, s')
    ])
    else (goes_on, s)

unfoldable pub server_round : (Bytes → ℕ) → Round → Server → Option (Stand × Server)
unfolding set_poll_elements handling_event accept_if_ready
server_round hasher r s = do
  s1 ← set_poll_elements r.revents s.client_list s
  if eqb_ℤ r.code (negsuc 0) || eqb_ℤ r.code (pos 0) then some (goes_on, s1) else (do
    result ← handling_event hasher r.visits s1
    some (if result.0 then accept_if_ready r result.1 else (unfinished, result.1)))

unfoldable pub start_server : (Bytes → ℕ) → List Round → Server → Option (Stand × Server)
unfolding server_round
start_server hasher [] s = some (goes_on, s)
start_server hasher (r ∷ rounds) s = do
  turn ← server_round hasher r s
  elim turn.0 [ goes_on ↦ start_server hasher rounds turn.1 | _ ↦ some turn ]
