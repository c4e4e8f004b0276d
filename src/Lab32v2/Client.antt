-- ===== src/Lab32v2/Client.antt =====
-- lab32v2/client/ClientImpl: a socket with what it is polled for. Clients and buffers are shared by
-- pointers: they stand in stores, a pointer is an index, and a deleted object is `none`.
use operating_systems_labs.Base.{
  ℕ, Bool, true, false, Option, none, some, List, [], ◌∷◌, ◌++◌, Bytes, get_elem?, ◌==◌,
  if◌then◌else◌, ◌>>=◌, ℤ,
}

-- The bits POLLIN, POLLOUT and POLLRDHUP.
pub record Events : Type 0 where
  pub pollin : Bool
  pub pollout : Bool
  pub pollrdhup : Bool

abbrev pub no_events : Events
no_events = record { pollin = false; pollout = false; pollrdhup = false }

abbrev pub all_events : Events
all_events = record { pollin = true; pollout = true; pollrdhup = true }

abbrev pub input_events : Events
input_events = record { pollin = true; pollout = false; pollrdhup = true }

abbrev pub hang_up_only : Events
hang_up_only = record { pollin = false; pollout = false; pollrdhup = true }

pub data TypeClient : Type 0 where
  user http_server : TypeClient

-- `_isInClientList` is never used.
pub record Client : Type 0 where
  pub fd : ℤ
  pub type_client : TypeClient
  pub buffer : Option ℕ
  pub list_handling_event : List ℕ
  pub pair : Option ℕ
  pub events : Events
  pub revents : Events

abbrev first_events : TypeClient → Events
first_events user = input_events
first_events http_server = all_events

-- The constructor.
unfoldable pub new_client : ℤ → TypeClient → Option ℕ → Client
new_client sock type_client buf = record {
  fd = sock;
  type_client = type_client;
  buffer = buf;
  list_handling_event = [];
  pair = none;
  events = first_events type_client;
  revents = no_events;
}

abbrev pub set_buffer : ℕ → Client → Client
set_buffer q c = record c { buffer = some q }

-- `setPollElement`, whose `fd` is the client's own.
pub record PollFd : Type 0 where
  pub fd : ℤ
  pub events : Events
  pub revents : Events

abbrev pub get_poll_fd : Client → PollFd
get_poll_fd c = record { fd = c.fd; events = c.events; revents = c.revents }

-- The descriptor of the poll element is a copy; the client reads and writes by `_fd`.
abbrev pub set_poll_element : PollFd → Client → Client
set_poll_element element c = record c { events = element.events; revents = element.revents }

abbrev pub set_revents_zero : Client → Client
set_revents_zero c = record c { revents = no_events }

abbrev pub set_events : Events → Client → Client
set_events event c = record c { events = event }

abbrev pub set_pair : Option ℕ → Client → Client
set_pair pair c = record c { pair = pair }

-- The first that is equal leaves the list.
unfoldable pub erase_first : ℕ → List ℕ → List ℕ
erase_first client [] = []
erase_first client (c ∷ cs) = if client == c then cs else c ∷ erase_first client cs

unfoldable pub erase_it : ℕ → Client → Client
unfolding erase_first
erase_it client c = record c { list_handling_event = erase_first client c.list_handling_event }

abbrev pub add_client_to_handling_event : ℕ → Client → Client
add_client_to_handling_event client c = record c {
  list_handling_event = c.list_handling_event ++ client ∷ [];
}

-- `readBuf`, with what `read` gives: `none` for a negative result. The string is resized to what has
-- been read, and all of it is copied over.
unfoldable pub read_buf : Option Bytes → Bytes → Bool × Bytes
read_buf none buf = (false, buf)
read_buf (some bytes) buf = (true, bytes)

-- What a pointer points to; a stray one, or one to a deleted object, has no defined result.
unfoldable pub deref {ℓ} : {A : Type ℓ} → List (Option A) → ℕ → Option A
deref xs p = do o ← get_elem? xs p; o
