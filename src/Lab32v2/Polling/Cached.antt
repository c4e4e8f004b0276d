-- ===== src/Lab32v2/Polling/Cached.antt =====
-- lab32v2: a user whose request is in the cache, from the poll loop through `getFromCash` to the end
-- of the thread.
use operating_systems_labs.Base.{
  ℕ, ◌+◌, ◌-◌, ◌*◌, ◌≤◌, ◌≡◌, refl, sym, ap, subst, ◌∙◌, Bool, true, false, some, some-inj, List,
  [], ◌∷◌, Bytes, ℤ, negsuc, eqb_ℤ, All, pos, ◌-ℤ◌, ◌==◌, if◌then◌else◌, length, drop, get_elem?,
  >>=-some, arith,
}
use operating_systems_labs.Lab32v2.Constants.{buf_size}
use operating_systems_labs.Lab32v2.Cash.Element.{
  Platform, CashElement, get_length, minus_count_users,
}
use operating_systems_labs.Lab32v2.Buffer.{World, element_of}
use operating_systems_labs.Lab32v2.Handler.{success, Sent}
use operating_systems_labs.Lab32v2.Handler.Rounds.{Reads, TakesAll}
use operating_systems_labs.Lab32v2.Handler.Streams.{Streams}
use operating_systems_labs.Lab32v2.Handler.FromCash.{Turn, get_from_cash}
use operating_systems_labs.Lab32v2.Handler.Serves.{get_from_cash-Streams}
use operating_systems_labs.Lab32v2.Handler.Returns.{get_from_cash-returns}
use operating_systems_labs.Lab32v2.Handler.Frames.Sends.{users, users_of, kept}
use operating_systems_labs.Lab32v2.Handler.Frames.{get_from_cash-Same}
use operating_systems_labs.Lab32v2.Polling.{
  Visit, returns_true, Round, thread_exits, start_handler, handling_event,
}
use operating_systems_labs.Lab32v2.Polling.Shapes.{Socket, alone}
use operating_systems_labs.Lab32v2.Polling.Rounds.{
  HasInput, after_input, answered, poll_clients-lone, start_handler-round,
}
use operating_systems_labs.Lab32v2.Polling.Serving.{
  FindsCached, input_found, without_reader, served, sent_to, cached_buffer, user_served,
}

-- The round in which the request comes in, from an element whose HTTP server is gone.
pub record Serves (os : Platform) (r : Round) (u : Socket) (w w1 : World) (e : CashElement)
    : Type 0 where
  pub code : eqb_ℤ r.code (negsuc 0) ≡ false
  pub visit : Visit
  pub visits : List Visit
  pub visited : r.visits ≡ visit ∷ visits
  pub first : ℕ
  pub rest : Bytes
  pub received : visit.received ≡ some (first ∷ rest)
  pub input : HasInput (answered r 0 u).revents
  pub found : FindsCached os (first ∷ rest) w w1
  pub unserved : w1.buffer.is_server_connect ≡ false
  pub reads : Reads w1 e
  pub gone : e.is_server_connected ≡ false
  pub locks : r.locks ≡ true
  pub unlocks : r.unlocks ≡ true
  pub turn : Turn
  pub turns : List Turn
  pub given : r.turns ≡ turn ∷ turns
  pub takes : All (λ t. TakesAll t.writes) (turn ∷ turns)
  pub enough :
      get_length e ≤ w1.buffer.count_byte_read_from_cash + length turn.writes * (buf_size - 1)

-- What the reader of a cached response has behind it.
record Finished (r : Round) (w1 : World) (e : CashElement) : Type 0 where
  left : World
  element : CashElement
  p : ℕ
  got :
      get_from_cash r.locks r.unlocks r.cond r.turns w1
      ≡ some (success, drop w1.buffer.count_byte_read_from_cash e.cash, left)
  reads : left.buffer ≡ cached_buffer p left.buffer
  stands : get_elem? left.cash.elements p ≡ some element
  place : w1.buffer.cash_element ≡ some p
  same_users : users element ≡ users e

finishes :
    (os : Platform) (r : Round) (u : Socket) (w w1 : World) (e : CashElement)
    → Serves os r u w w1 e
    → Finished r w1 e
finishes os r u w w1 e s =
    let turns : List Turn = s.turn ∷ s.turns in
    let (w2, ran) =
      get_from_cash-returns r.cond s.turn s.turns w1 e s.reads s.gone s.takes.0 s.enough in
    let stream : Streams w1 e (get_from_cash true true r.cond turns w1) =
      get_from_cash-Streams r.cond turns w1 e s.reads s.takes in
    let same : stream.after ≡ w2 =
      ap (λ (x : Sent). x.2)
        (some-inj {A = Sent} (stream.exit, stream.bytes, stream.after) (success, _, w2)
          (sym stream.is_result ∙ ran)) in
    let r2 : Reads w2 stream.element =
      subst (λ (x : World). Reads x stream.element) same stream.reads in
    let same_kept : kept w2 ≡ kept w1 = get_from_cash-Same r.cond turns w1 (success, _, w2) ran in
    let unserved : w2.buffer.is_server_connect ≡ false = ap (λ k. k.0) same_kept ∙ s.unserved in
    let (p, pointer, stands) =
      >>=-some w2.buffer.cash_element (λ q. get_elem? w2.cash.elements q) stream.element
        (unfold element_of in r2.stands) in
    record {
      left = w2;
      element = stream.element;
      p = p;
      got =
          ap (λ (b : Bool). get_from_cash b r.unlocks r.cond r.turns w1) s.locks
          ∙ ap (λ (b : Bool). get_from_cash true b r.cond r.turns w1) s.unlocks
          ∙ ap (λ (l : List Turn). get_from_cash true true r.cond l w1) s.given
          ∙ ran;
      reads = ground (arith, r2.cached, unserved, pointer);
      stands = stands;
      place = sym (ap (λ k. k.1) same_kept) ∙ pointer;
      same_users =
          some-inj _ _
            (sym (ap users_of r2.stands) ∙ ap (λ k. k.2) same_kept ∙ ap users_of s.reads.stands);
    }

-- The count of a reader's element once the reader has gone.
one_less :
    (element e : CashElement)
    → users element ≡ users e
    → (minus_count_users element).count_connected_users ≡ (
        if e.mutex_for_subscribers == 0
        then e.count_connected_users -ℤ pos 1
        else e.count_connected_users)
unfolding minus_count_users
one_less element e same =
    let count : element.count_connected_users ≡ e.count_connected_users = ap (λ k. k.0) same in
    let mutex : element.mutex_for_subscribers ≡ e.mutex_for_subscribers = ap (λ k. k.1) same in
    ground (arith, count, mutex)

-- A user whose request is found in the cache, as an element whose HTTP server is gone, where the two
-- locks of getFromCash are got and the user's socket takes all that is written: in that round
-- startHandler writes to the user what the element holds from the reader's place on, deletes the
-- user's client and its buffer, and ends the thread. The count of the readers of this very element is
-- one less than at the start of the reading, or, if its mutex cannot be locked, the same.
pub start_handler-from_cash :
    (os : Platform) (wraps : Bool) (r : Round) (rounds : List Round) (u : Socket) (w w1 : World)
    (e : CashElement) (written : List (ℤ × Bytes))
    → Serves os r u w w1 e
    → (after : World) × (p : ℕ) × (element : CashElement) × (w1.buffer.cash_element ≡ some p)
      × (get_elem? after.cash.elements p ≡ some element)
      × ((minus_count_users element).count_connected_users ≡ (
          if e.mutex_for_subscribers == 0
          then e.count_connected_users -ℤ pos 1
          else e.count_connected_users))
      × (start_handler os wraps (r ∷ rounds) (alone w written u)
          ≡ some (
            thread_exits,
            served
                (without_reader p element after)
                (sent_to u (drop w1.buffer.count_byte_read_from_cash e.cash) written),
          ))
start_handler-from_cash os wraps r rounds u w w1 e written s =
    let f : Finished r w1 e = finishes os r u w w1 e s in
    let u1 : Socket = answered r 0 u in
    (
      f.left,
      f.p,
      f.element,
      f.place,
      f.stands,
      one_less f.element e f.same_users,
      start_handler-round os wraps r rounds 0 [] (alone w written u) (alone w written u1)
            (some (returns_true, alone w1 written (after_input u1))) refl
            (poll_clients-lone r w written [] u) s.code
            (ap (λ (l : List Visit). handling_event os wraps l (alone w written u1)) s.visited
              ∙ input_found os wraps w w1 written s.visit s.visits s.first s.rest u1 s.received
                  s.input s.found)
          ∙ user_served wraps r w1 f.left written (after_input u1) _ f.p f.element f.got f.reads
              f.stands,
    )
