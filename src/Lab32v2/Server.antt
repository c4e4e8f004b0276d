-- ===== src/Lab32v2/Server.antt =====
-- lab32v2/server/NewServerImpl.cpp, socket/ServerSocketImpl.cpp without `connectToClient`, and
-- main.cpp: the server's socket, and the loop that gives each accepted client a thread. The answers
-- of the system calls are arguments.
mod Tests
pub mod Accepting
use operating_systems_labs.Base.{
  Bool, true, false, Option, none, some, List, [], ◌∷◌, ◌++◌, if◌then◌else◌, ℤ, pos, eqb_ℤ, ltb_ℤ,
}
use operating_systems_labs.Lab32v2.Cash.{Cash}
use operating_systems_labs.Lab32v2.Cash.Element.{Platform}
use operating_systems_labs.Lab32v2.Buffer.{start}
use operating_systems_labs.Lab32v2.Client.{Client, new_client, user}
use operating_systems_labs.Lab32v2.Polling.{Thread, Round, Finish, start_handler}

-- The calls of `connectSocket`, in their order.
pub data Call : Type 0 where
  socket_call reuse_addr_call reuse_port_call bind_call listen_call : Call

-- What they return.
pub record Opening : Type 0 where
  pub sock_fd : ℤ
  pub reuse_addr : ℤ
  pub reuse_port : ℤ
  pub bind_code : ℤ
  pub listen_code : ℤ

-- The descriptor of the server's socket, or the call after which the ConnectException is thrown, with
-- the descriptor that is still open then.
pub data Opened : Type 0 where
  opened : ℤ → Opened
  refused : Call → Option ℤ → Opened

unfoldable pub connect_socket : Opening → Opened
connect_socket o =
    if ltb_ℤ o.sock_fd (pos 0)
    then refused socket_call none
    else (if ltb_ℤ o.reuse_addr (pos 0)
        then refused reuse_addr_call (some o.sock_fd)
        else (if ltb_ℤ o.reuse_port (pos 0)
            then refused reuse_port_call (some o.sock_fd)
            else (if ltb_ℤ o.bind_code (pos 0)
                then refused bind_call (some o.sock_fd)
                else (if ltb_ℤ o.listen_code (pos 0)
                    then refused listen_call (some o.sock_fd)
                    else opened o.sock_fd))))

-- `acceptNewClientSock`, with what `accept` returns; `none` is the ConnectException.
unfoldable pub accept_new_client_sock : ℤ → Option ℤ
accept_new_client_sock client_sock = if ltb_ℤ client_sock (pos 0) then none else some client_sock

-- What `accept`, pthread_create and pthread_detach return in one round.
pub record Accept : Type 0 where
  pub client_sock : ℤ
  pub create_code : ℤ
  pub detach_code : ℤ

-- `listFd`, whose nodes the threads point to, and the sockets for which a thread has been started, in
-- order. The cache is the same for all.
pub record Started : Type 0 where
  pub list_fd : List ℤ
  pub threads : List ℤ

-- A failed pthread_create starts no thread; a failed pthread_detach changes nothing more.
unfoldable pub start_thread : Accept → ℤ → Started → Started
start_thread a sock s =
    let s' : Started = record s { list_fd = sock ∷ s.list_fd } in
    if eqb_ℤ a.create_code (pos 0) then record s' { threads = s'.threads ++ sock ∷ [] } else s'

-- The ConnectException is thrown by value, and `catch (std::exception *)` does not catch it.
pub data Exit : Type 0 where
  uncaught running : Exit

unfoldable pub start_server : List Accept → Started → Exit × Started
unfolding accept_new_client_sock start_thread
start_server [] s = (running, s)
start_server (a ∷ accepts) s = elim (accept_new_client_sock a.client_sock) [
  | none ↦ (uncaught, s)
  | some sock ↦ start_server accepts (start_thread a sock s)
]

abbrev nothing : Started
nothing = record { list_fd = []; threads = [] }

-- What `main` does with the server, by how its constructor has opened the socket.
unfoldable pub run_opened : Opened → List Accept → Exit × Started
unfolding start_server
run_opened (refused call fd) accepts = (uncaught, nothing)
run_opened (opened fd) accepts = start_server accepts nothing

-- `main` returns when an exception reaches it, from the constructor or from startServer; with it end
-- all threads.
unfoldable pub run_main : Opening → List Accept → Exit × Started
unfolding connect_socket run_opened
run_main o accepts = run_opened (connect_socket o) accepts

-- The client and the buffer that a thread begins with.
unfoldable pub new_thread : ℤ → Cash → Thread
unfolding new_client
new_thread sock cash = record {
  client_list = 0 ∷ [];
  client = 0;
  clients = some (new_client sock user (some 0)) ∷ [];
  buffers = some (record start { is_client_connect = true }) ∷ [];
  cash = cash;
  signalled = [];
  written = [];
}

unfoldable pub starting_method_for_thread :
    Platform → Bool → List Round → ℤ → Cash → Option (Finish × Thread)
unfolding new_thread start_handler
starting_method_for_thread os wraps rounds sock cash =
    start_handler os wraps rounds (new_thread sock cash)
