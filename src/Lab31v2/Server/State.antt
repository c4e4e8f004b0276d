-- ===== src/Lab31v2/Server/State.antt =====
-- lab31/v2: the clients (client/ClientImpl), and the state that ServerImpl keeps. Clients and buffers
-- stand in stores; a pointer is an index, and a deleted object is `none`.
use operating_systems_labs.Base.{
  ℕ, Bool, true, false, Option, none, some, List, [], ◌∷◌, ◌++◌, Bytes, get_elem?, set, length,
  ◌>>=◌, ℤ, negsuc, to_port, pos, eqb_ℤ, ltb_ℤ, if◌then◌else◌,
}
use operating_systems_labs.Lab31v2.Cash.{Cash}
use operating_systems_labs.Lab31v2.Buffer.{Buffer, World, new_buffer}

pub data TypeClient : Type 0 where
  user http_server : TypeClient

-- Of `_structPollFd` the bits of `revents` that are read.
pub record Client : Type 0 where
  pub fd : ℤ
  pub type_client : TypeClient
  pub buffer : Option ℕ
  pub pollin : Bool
  pub pollout : Bool

-- The constructor of ClientImpl.
abbrev pub new_client : ℤ → TypeClient → Option ℕ → Client
new_client sock type_client buf = record {
  fd = sock;
  type_client = type_client;
  buffer = buf;
  pollin = false;
  pollout = false;
}

-- `setReventsZero`.
abbrev pub set_revents_zero : Client → Client
set_revents_zero c = record c { pollin = false; pollout = false }

-- `written` is what has been written to the sockets, in order.
pub record Server : Type 0 where
  pub client_list : List ℕ
  pub clients : List (Option Client)
  pub buffers : List (Option Buffer)
  pub cash : Cash
  pub written : List (ℤ × Bytes)

-- What a pointer points to; a stray one, or one to a deleted object, has no defined result.
unfoldable pub deref {ℓ} : {A : Type ℓ} → List (Option A) → ℕ → Option A
deref xs p = do o ← get_elem? xs p; o

-- A method of the buffer at q, which also changes the cache.
unfoldable pub in_buffer_at : ℕ → (World → Option World) → Server → Option Server
unfolding deref
in_buffer_at q f s = do
  b ← deref s.buffers q
  w ← f (record { buffer = b; cash = s.cash })
  some (record s { buffers = set s.buffers q (some w.buffer); cash = w.cash })

abbrev pub set_client : ℕ → Option Client → Server → Server
set_client p c s = record s { clients = set s.clients p c }

-- `acceptNewClient`, with what `accept` returns, and the `push_back` of its result; `none` is the
-- ConnectException.
unfoldable pub accept_new_client : ℤ → Server → Option Server
accept_new_client client_sock s =
    if ltb_ℤ client_sock (pos 0)
    then none
    else some (record s {
      client_list = s.client_list ++ length s.clients ∷ [];
      clients = s.clients ++ some (new_client client_sock user (some (length s.buffers))) ∷ [];
      buffers = s.buffers ++ some (record new_buffer { is_client_connect = true }) ∷ [];
    })

-- What the system calls of `connectToClient` give.
pub record Network : Type 0 where
  pub host_address : Bytes → Option Bytes
  pub socket_fd : ℤ
  pub connect_code : Bytes → ℕ → ℤ

-- The socket of the new client; `none` is the ConnectException.
unfoldable pub connect_to_client : Network → Bytes → ℤ → Option ℤ
connect_to_client n url port = do
  address ← n.host_address url
  if eqb_ℤ n.socket_fd (negsuc 0)
      then none
      else (if eqb_ℤ (n.connect_code address (to_port port)) (negsuc 0)
          then none
          else some n.socket_fd)
