-- ===== src/Lab31v2/Server/Releases.antt =====
-- lab31/v2: what is left of a shared buffer when its clients leave.
use operating_systems_labs.Base.{
  ℕ, ◌≡◌, refl, ap, ◌∙◌, ◌≢◌, ◌⊎◌, inl, inr, Bool, true, false, Option, none, some, List, get_elem?,
  set, get_elem?-set_self, get_elem?-set_ne, get_elem?-lt, ◌>>=◌, >>=-some, bind_some,
  if◌then◌else◌,
}
use operating_systems_labs.Lab32v2.Buffer.{end_work}
use operating_systems_labs.Lab31v2.Cash.{Cash}
use operating_systems_labs.Lab31v2.Cash.Element.{
  CashElement, minus_count_users, set_is_server_connect,
}
use operating_systems_labs.Lab31v2.Buffer.{Buffer, World, element_of, update_element}
use operating_systems_labs.Lab31v2.Server.{
  TypeClient, user, http_server, Client, Server, deref, set_client, leave, release, delete_client,
  is_other_connected,
}

-- The buffer once a client of the type has left.
abbrev pub left_buffer : TypeClient → Buffer → Buffer
left_buffer user b = record b { status_client = end_work; is_client_connect = false }
left_buffer http_server b = record b { status_http_server = end_work; is_server_connect = false }

-- Whether the client's leaving changes a cached element.
abbrev pub uses_element : TypeClient → Buffer → Bool
uses_element user b = b.is_data_get_cash
uses_element http_server b = b.is_add_data_to_cash

-- `_cashElement` points to an element, if it is used.
unfoldable pub IsSafe : TypeClient → World → Type 0
IsSafe t w = (uses_element t w.buffer ≡ false) ⊎ ((e : CashElement) × (element_of w ≡ some e))

update_element-returns :
    (f : CashElement → CashElement) (w : World) (e : CashElement)
    → element_of w ≡ some e
    → (w' : World) × (update_element f w ≡ some w') × (w'.buffer ≡ w.buffer)
unfolding update_element element_of
update_element-returns f w e h =
    let (p, pointer, stands) =
      >>=-some w.buffer.cash_element (λ q. get_elem? w.cash.elements q) e h in
    (
      record w { cash = record w.cash { elements = set w.cash.elements p (f e) } },
      rw (pointer, stands) refl,
      refl,
    )

if_set-returns :
    (flag : Bool) (g : World → Option World) (w : World)
    → (flag ≡ false) ⊎ ((w1 : World) × (g w ≡ some w1) × (w1.buffer ≡ w.buffer))
    → (w1 : World) × ((if flag then g w else some w) ≡ some w1) × (w1.buffer ≡ w.buffer)
if_set-returns true g w (inl off) = absurd (cc)
if_set-returns true g w (inr found) = found
if_set-returns false g w h = (w, refl, refl)

departs :
    (stays : Option World) (f : Buffer → Buffer) (w1 : World)
    → stays ≡ some w1
    → (stays >>= (λ w'. some (record w' { buffer = f w'.buffer })))
      ≡ some (record w1 { buffer = f w1.buffer })
departs stays f w1 e = rw e refl

element_change :
    (f : CashElement → CashElement) (flag : Bool) (w : World)
    → (flag ≡ false) ⊎ ((e : CashElement) × (element_of w ≡ some e))
    → (flag ≡ false) ⊎ ((w1 : World) × (update_element f w ≡ some w1) × (w1.buffer ≡ w.buffer))
element_change f flag w (inl off) = inl off
element_change f flag w (inr (e, at)) = inr (update_element-returns f w e at)

leave-returns :
    (t : TypeClient) (w : World)
    → IsSafe t w
    → (w' : World) × (leave t w ≡ some w') × (w'.buffer ≡ left_buffer t w.buffer)
unfolding IsSafe leave
leave-returns user w h =
    let (w1, run, same) =
      if_set-returns w.buffer.is_data_get_cash (update_element minus_count_users) w
        (element_change minus_count_users w.buffer.is_data_get_cash w h) in
    (
      record w1 { buffer = left_buffer user w1.buffer },
      departs (if w.buffer.is_data_get_cash then update_element minus_count_users w else some w)
          (left_buffer user) w1 run,
      ap (left_buffer user) same,
    )
leave-returns http_server w h =
    let (w1, run, same) =
      if_set-returns w.buffer.is_add_data_to_cash (update_element (set_is_server_connect false)) w
        (element_change (set_is_server_connect false) w.buffer.is_add_data_to_cash w h) in
    (
      record w1 { buffer = left_buffer http_server w1.buffer },
      departs
          (if w.buffer.is_add_data_to_cash
            then update_element (set_is_server_connect false) w
            else some w)
          (left_buffer http_server) w1 run,
      ap (left_buffer http_server) same,
    )

-- What becomes of the buffer when a client of the type leaves.
abbrev pub remains : TypeClient → Buffer → Option Buffer
remains t b = if is_other_connected t (left_buffer t b) then some (left_buffer t b) else none

deref-set :
    {A : Type 0} (xs : List (Option A)) (p : ℕ) (x : A) (o : Option A)
    → deref xs p ≡ some x
    → deref (set xs p o) p ≡ o
unfolding deref
deref-set xs p x o h =
    let (before, at, found) = >>=-some (get_elem? xs p) (λ y. y) x h in
    rw (get_elem?-set_self xs p o (get_elem?-lt xs p before at)) refl

deref-set_ne :
    {A : Type 0} (xs : List (Option A)) (p : ℕ) (o : Option A) (j : ℕ)
    → p ≢ j
    → deref (set xs p o) j ≡ deref xs j
unfolding deref
deref-set_ne xs p o j h = ap (λ found. found >>= (λ y. y)) (get_elem?-set_ne xs p j o h)

release-returns :
    (t : TypeClient) (q : ℕ) (s : Server) (b : Buffer)
    → deref s.buffers q ≡ some b
    → IsSafe t (record { buffer = b; cash = s.cash })
    → (cash : Cash) × (release t q s
        ≡ some (record s { cash = cash; buffers = set s.buffers q (remains t b) }))
unfolding release
release-returns t q s b at safe =
    let (w', run, same) = leave-returns t (record { buffer = b; cash = s.cash }) safe in
    (
      w'.cash,
      bind_some (deref s.buffers q) _ b at
          ∙ bind_some (leave t (record { buffer = b; cash = s.cash })) _ w' run
          ∙ ap
              (λ (b' : Buffer). some (record s {
                cash = w'.cash;
                buffers = set s.buffers q (if is_other_connected t b' then some b' else none);
              }))
              same,
    )

-- A client that has a buffer, of which it holds one side.
pub record Sides (s : Server) (p : ℕ) (t : TypeClient) (q : ℕ) (b : Buffer) : Type 0 where
  pub client : Client
  pub stands : deref s.clients p ≡ some client
  pub type_client : client.type_client ≡ t
  pub pointer : client.buffer ≡ some q
  pub shared : deref s.buffers q ≡ some b

-- deleteClient returns for a client with a live buffer and, if its cached element is changed, with a
-- live element: the client is gone, and the buffer is deleted if the client of the other type is gone
-- too; otherwise it stays, with the status of the client that left at END_WORK and its flag off. No
-- other client changes.
pub delete_client-returns :
    (s : Server) (p : ℕ) (t : TypeClient) (q : ℕ) (b : Buffer)
    → Sides s p t q b
    → IsSafe t (record { buffer = b; cash = s.cash })
    → (s' : Server) × (delete_client p s ≡ some s')
      × (deref s'.clients p ≡ none)
      × (deref s'.buffers q ≡ remains t b)
      × ((j : ℕ) → p ≢ j → deref s'.clients j ≡ deref s.clients j)
unfolding delete_client
delete_client-returns s p t q b sides safe =
    let (cash, run) = release-returns t q s b sides.shared safe in
    let s1 : Server = record s { cash = cash; buffers = set s.buffers q (remains t b) } in
    let freed : Option ℕ → TypeClient → Option Server =
      λ o t'. elim o as (λ x. Option Server) [ none ↦ some s | some q' ↦ release t' q' s ] in
    (
      set_client p none s1,
      bind_some (deref s.clients p) _ sides.client sides.stands
          ∙ bind_some (freed sides.client.buffer sides.client.type_client) _ s1
              (rw (sides.pointer, sides.type_client) run),
      deref-set s.clients p sides.client none sides.stands,
      deref-set s.buffers q b (remains t b) sides.shared,
      deref-set_ne s.clients p none,
    )
