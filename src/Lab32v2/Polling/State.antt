-- ===== src/Lab32v2/Polling/State.antt =====
-- lab32v2/server/HandlerOneClientImpl.h: the state of the thread that serves one user, and the ways
-- in which the handler reaches the clients and their buffers. Also socket/ServerSocketImpl.cpp:
-- `connectToClient`.
use operating_systems_labs.Base.{
  ℕ, Bool, Option, none, some, List, [], ◌∷◌, Bytes, set, ◌==◌, if◌then◌else◌, ◌>>=◌, ℤ, negsuc,
  to_port, eqb_ℤ,
}
use operating_systems_labs.Lab32v2.Cash.{Cash}
use operating_systems_labs.Lab32v2.Buffer.{Buffer, World}
use operating_systems_labs.Lab32v2.Client.{Client, deref}

-- `client` is `_client`. `written` is what has been written to the sockets, in order; `signalled` the
-- condition variables that have been signalled.
pub record Thread : Type 0 where
  pub client_list : List ℕ
  pub client : ℕ
  pub clients : List (Option Client)
  pub buffers : List (Option Buffer)
  pub cash : Cash
  pub signalled : List ℕ
  pub written : List (ℤ × Bytes)

abbrev pub put_client : ℕ → Option Client → Thread → Thread
put_client p c s = record s { clients = set s.clients p c }

-- A method of the client at p.
unfoldable pub in_client : ℕ → (Client → Client) → Thread → Option Thread
unfolding deref
in_client p f s = do c ← deref s.clients p; some (put_client p (some (f c)) s)

-- A method of each client of a list.
unfoldable pub in_clients : List ℕ → (Client → Client) → Thread → Option Thread
unfolding in_client
in_clients [] f s = some s
in_clients (p ∷ ps) f s = do s' ← in_client p f s; in_clients ps f s'

-- The buffer at q, with the shared cache.
abbrev pub world_of : Buffer → Thread → World
world_of b s = record { buffer = b; cash = s.cash; signalled = s.signalled }

abbrev pub put_world : ℕ → World → Thread → Thread
put_world q w s = record s {
  buffers = set s.buffers q (some w.buffer);
  cash = w.cash;
  signalled = w.signalled;
}

-- `getBuffer()` of the client at p, where a null pointer has no defined result.
unfoldable pub buffer_at : ℕ → Thread → Option Buffer
unfolding deref
buffer_at p s = do c ← deref s.clients p; q ← c.buffer; deref s.buffers q

-- A method of that buffer, which may also change the cache.
unfoldable pub in_buffer :
    {A : Type 0} → ℕ → (World → Option (A × World)) → Thread → Option (A × Thread)
unfolding deref
in_buffer p f s = do
  c ← deref s.clients p
  q ← c.buffer
  b ← deref s.buffers q
  (a, w) ← f (world_of b s)
  some (a, put_world q w s)

-- The iterators of `_clientList`. Each client stands in it once, so an iterator is a client, or
-- `none` for end().
abbrev pub begin_of : List ℕ → Option ℕ
begin_of [] = none
begin_of (p ∷ ps) = some p

-- The iterator behind p's; an iterator whose element has been erased has no successor.
unfoldable pub next_of : ℕ → List ℕ → Option (Option ℕ)
next_of p [] = none
next_of p (q ∷ qs) = if p == q then some (begin_of qs) else next_of p qs

-- `it++`. The language leaves the increment of end() undefined; if `wraps`, the list is a ring of
-- nodes in which end() stands before begin(), as libstdc++ keeps it.
unfoldable pub advance : Bool → Option ℕ → List ℕ → Option (Option ℕ)
unfolding next_of
advance wraps none ps = if wraps then some (begin_of ps) else none
advance wraps (some p) ps = next_of p ps

-- What the system calls of `connectToClient` give.
pub record Network : Type 0 where
  pub host_address : Bytes → Option Bytes
  pub socket_fd : ℤ
  pub connect_code : Bytes → ℕ → ℤ

-- The socket of the new client; `none` is the ConnectException.
unfoldable pub connect_to_client : Network → Bytes → ℤ → Option ℤ
connect_to_client n url port = do
  address ← n.host_address url
  if eqb_ℤ n.socket_fd (negsuc 0)
      then none
      else (if eqb_ℤ (n.connect_code address (to_port port)) (negsuc 0)
          then none
          else some n.socket_fd)
