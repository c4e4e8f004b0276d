-- ===== src/Lab32v2/Polling/Serving.antt =====
-- lab32v2: how a user whose request is in the cache gets from the poll loop to `getFromCash`, and from
-- there to the end of the thread.
use operating_systems_labs.Base.{
  ℕ, ◌≡◌, refl, Bool, true, false, Option, none, some, List, [], ◌∷◌, ◌++◌, Bytes, ℤ, get_elem?,
  set, append-nil, arith,
}
use operating_systems_labs.Lab32v2.Cash.Element.{Platform, CashElement, minus_count_users}
use operating_systems_labs.Lab32v2.Buffer.{Buffer, World, returned, read_response, read_from_socket}
use operating_systems_labs.Lab32v2.Handler.{success}
use operating_systems_labs.Lab32v2.Handler.FromCash.{get_from_cash}
use operating_systems_labs.Lab32v2.Client.{Events}
use operating_systems_labs.Lab32v2.Polling.{
  Thread, Network, Visit, returns_true, Round, thread_exits, handling_event, handle_client,
  serve_user,
}
use operating_systems_labs.Lab32v2.Polling.Shapes.{Socket, alone, freed}
use operating_systems_labs.Lab32v2.Polling.Leaving.{World_subst}
use operating_systems_labs.Lab32v2.Polling.Rounds.{HasInput, after_input}

-- A read that ends with the buffer cached_buffer from the cache.
pub record FindsCached (os : Platform) (bytes : Bytes) (w w1 : World) : Type 0 where
  pub reads : read_from_socket os bytes w ≡ some (returned, w1)
  pub status : w1.buffer.status_client ≡ read_response
  pub cached : w1.buffer.is_data_get_cash ≡ true

abbrev from_cash : Buffer → Buffer
from_cash b = record b { status_client = read_response; is_data_get_cash = true }

module _ (os : Platform) (wraps : Bool) (w w1 : World) (written : List (ℤ × Bytes)) where
  pub input_found :
      (v : Visit) (vs : List Visit) (x : ℕ) (xs : Bytes) (u : Socket)
      → v.received ≡ some (x ∷ xs)
      → HasInput u.revents
      → FindsCached os (x ∷ xs) w w1
      → handling_event os wraps (v ∷ vs) (alone w written u)
        ≡ some (returns_true, alone w1 written (after_input u))
  unfolding handling_event handle_client
  input_found v vs x xs u received input found =
      World_subst
        (λ (y : World).
          read_from_socket os (x ∷ xs) w ≡ some (returned, y)
          → handling_event os wraps (v ∷ vs) (alone w written u)
            ≡ some (returns_true, alone y written (after_input u)))
        (from_cash w1.buffer) w1 (ground (arith, found.status, found.cached))
        (λ reads.
          visit u.fd u.events u.revents.pollin u.revents.pollout u.revents.pollrdhup v.received
            v.network received input.input input.stays reads)
        found.reads
    where
      visit :
          (fd : ℤ) (events : Events) (i o hup : Bool) (received : Option Bytes) (network : Network)
          → received ≡ some (x ∷ xs)
          → i ≡ true
          → hup ≡ false
          → let u : Socket = record {
            fd = fd;
            events = events;
            revents = record { pollin = i; pollout = o; pollrdhup = hup };
          } in
            let y : World = record w1 { buffer = from_cash w1.buffer } in
            read_from_socket os (x ∷ xs) w ≡ some (returned, y)
            → handling_event os wraps
                (record { received = received; network = network } ∷ vs)
                (alone w written u)
              ≡ some (returns_true, alone y written (after_input u))
      visit fd events i o hup received network e1 e2 e3 reads = rw (e1, e2, e3, reads) refl

-- The element at p has lost a reader.
abbrev pub without_reader : ℕ → CashElement → World → World
without_reader p e w = record w {
  cash = record w.cash { elements = set w.cash.elements p (minus_count_users e) };
}

-- The user's client and its buffer have been deleted. The list, which nothing reads any more, still
-- has its pointer.
abbrev pub served : World → List (ℤ × Bytes) → Thread
served w written = record (freed w written (none ∷ [])) { client_list = 0 ∷ [] }

abbrev pub sent_to : Socket → Bytes → List (ℤ × Bytes) → List (ℤ × Bytes)
sent_to u bytes written = written ++ (u.fd, bytes) ∷ []

abbrev pub cached_buffer : ℕ → Buffer → Buffer
cached_buffer p b = record b {
  is_data_get_cash = true;
  is_server_connect = false;
  cash_element = some p;
}

module _ (wraps : Bool) (r : Round) (w w1 : World) (written : List (ℤ × Bytes)) where
  pub user_served :
      (u : Socket) (bytes : Bytes) (p : ℕ) (e : CashElement)
      → get_from_cash r.locks r.unlocks r.cond r.turns w ≡ some (success, bytes, w1)
      → w1.buffer ≡ cached_buffer p w1.buffer
      → get_elem? w1.cash.elements p ≡ some e
      → serve_user wraps r (alone w written u)
        ≡ some (thread_exits, served (without_reader p e w1) (sent_to u bytes written))
  unfolding serve_user
  user_served u bytes p e got reads stands =
      World_subst
        (λ (y : World).
          get_from_cash r.locks r.unlocks r.cond r.turns w ≡ some (success, bytes, y)
          → get_elem? y.cash.elements p ≡ some e
          → serve_user wraps r (alone w written u)
            ≡ some (thread_exits, served (without_reader p e y) (sent_to u bytes written)))
        (cached_buffer p w1.buffer) w1 reads
        (λ got at. rw (got, at) (rw (append-nil w1.signalled) refl)) got stands
