-- ===== src/Lab31v2/Server/Sharing.antt =====
-- lab31/v2: the buffer that a user and an HTTP server share, when both leave.
use operating_systems_labs.Base.{
  ℕ, ◌≡◌, refl, ◌∙◌, ◌≢◌, inl, Bool, true, false, none, some, if_true,
}
use operating_systems_labs.Lab31v2.Buffer.{Buffer}
use operating_systems_labs.Lab31v2.Server.{
  TypeClient, user, http_server, Server, deref, delete_client, is_other_connected,
}
use operating_systems_labs.Lab31v2.Server.Releases.{
  left_buffer, uses_element, IsSafe, remains, Sides, delete_client-returns,
}

abbrev pub other : TypeClient → TypeClient
other user = http_server
other http_server = user

-- The side of the type is connected.
abbrev pub is_connected : TypeClient → Buffer → Bool
is_connected t b = is_other_connected (other t) b

remains_first :
    (t : TypeClient) (b : Buffer)
    → is_connected (other t) b ≡ true
    → remains t b ≡ some (left_buffer t b)
remains_first user b h = if_true _ _ _ h
remains_first http_server b h = if_true _ _ _ h

remains_last : (t : TypeClient) (b : Buffer) → remains (other t) (left_buffer t b) ≡ none
remains_last user b = refl
remains_last http_server b = refl

uncached :
    (t : TypeClient) (b : Buffer)
    → uses_element (other t) b ≡ false
    → uses_element (other t) (left_buffer t b) ≡ false
uncached user b h = h
uncached http_server b h = h

-- When a user and the HTTP server share a buffer and no cached element is concerned, deleteClient on
-- the one, and then on the other, returns; the buffer outlives the first and is deleted with the
-- second, whichever of them leaves first.
pub delete_client-both :
    (s : Server) (p p' : ℕ) (t : TypeClient) (q : ℕ) (b : Buffer)
    → p ≢ p'
    → Sides s p t q b
    → Sides s p' (other t) q b
    → is_connected (other t) b ≡ true
    → uses_element t b ≡ false
    → uses_element (other t) b ≡ false
    → (s' : Server) × (s'' : Server) × (delete_client p s ≡ some s')
      × (deref s'.buffers q ≡ some (left_buffer t b))
      × (delete_client p' s' ≡ some s'')
      × (deref s''.buffers q ≡ none)
unfolding IsSafe
delete_client-both s p p' t q b apart first second connected off off' =
    let (s', run, gone, kept, frame) = delete_client-returns s p t q b first (inl off) in
    let shared : deref s'.buffers q ≡ some (left_buffer t b) = kept ∙ remains_first t b connected in
    let sides : Sides s' p' (other t) q (left_buffer t b) = record {
      client = second.client;
      stands = frame p' apart ∙ second.stands;
      type_client = second.type_client;
      pointer = second.pointer;
      shared = shared;
    } in
    let (s'', run', gone', freed, frame') =
      delete_client-returns s' p' (other t) q (left_buffer t b) sides (inl (uncached t b off')) in
    (s', s'', run, shared, run', freed ∙ remains_last t b)
