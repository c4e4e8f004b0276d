-- ===== src/Lab32v2/Polling/Shapes.antt =====
-- lab32v2: the states of a thread. The user is the first client that the thread makes, its buffer the
-- first buffer, and the HTTP server the second client.
use operating_systems_labs.Base.{ℕ, Option, none, some, List, [], ◌∷◌, Bytes, ℤ}
use operating_systems_labs.Lab32v2.Buffer.{World}
use operating_systems_labs.Lab32v2.Client.{Events, user, http_server, Client}
use operating_systems_labs.Lab32v2.Polling.{Thread}

-- A socket with what it is polled for, and what has been reported.
pub record Socket : Type 0 where
  pub fd : ℤ
  pub events : Events
  pub revents : Events

abbrev pub user_of : Socket → Option ℕ → Client
user_of socket pair = record {
  fd = socket.fd;
  type_client = user;
  buffer = some 0;
  list_handling_event = [];
  pair = pair;
  events = socket.events;
  revents = socket.revents;
}

abbrev pub server_of : Socket → List ℕ → Client
server_of socket users = record {
  fd = socket.fd;
  type_client = http_server;
  buffer = some 0;
  list_handling_event = users;
  pair = none;
  events = socket.events;
  revents = socket.revents;
}

module _ (w : World) (written : List (ℤ × Bytes)) where
  -- The user alone; `others` are the clients made after it, which have been deleted.
  abbrev pub lone : List (Option Client) → Socket → Thread
  lone others u = record {
    client_list = 0 ∷ [];
    client = 0;
    clients = some (user_of u none) ∷ others;
    buffers = some w.buffer ∷ [];
    cash = w.cash;
    signalled = w.signalled;
    written = written;
  }

  abbrev pub alone : Socket → Thread
  alone u = lone [] u

  -- The user with its HTTP server, which has been pushed to the front.
  abbrev pub paired : Socket → Socket → Thread
  paired u h = record {
    client_list = 1 ∷ 0 ∷ [];
    client = 0;
    clients = some (user_of u (some 1)) ∷ some (server_of h (0 ∷ [])) ∷ [];
    buffers = some w.buffer ∷ [];
    cash = w.cash;
    signalled = w.signalled;
    written = written;
  }

  -- The HTTP server has left.
  abbrev pub widowed : Socket → Thread
  widowed u = lone (none ∷ []) u

  -- The user has left, and its HTTP server goes on.
  abbrev pub orphaned : Socket → Thread
  orphaned h = record {
    client_list = 1 ∷ [];
    client = 0;
    clients = none ∷ some (server_of h []) ∷ [];
    buffers = some w.buffer ∷ [];
    cash = w.cash;
    signalled = w.signalled;
    written = written;
  }

  -- All clients and the buffer have been deleted; there have been so many clients.
  abbrev pub freed : List (Option Client) → Thread
  freed clients = record {
    client_list = [];
    client = 0;
    clients = clients;
    buffers = none ∷ [];
    cash = w.cash;
    signalled = w.signalled;
    written = written;
  }
