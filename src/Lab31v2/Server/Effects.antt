-- ===== src/Lab31v2/Server/Effects.antt =====
-- lab31/v2: what a visit of one client does to the store of the clients.
use operating_systems_labs.Base.{
  ℕ, ◌≤◌, ◌<◌, ◌≡◌, refl, ap, sym, subst, ◌∙◌, ◌≢◌, true, false, Option, none, some, some-inj, List,
  [], ◌∷◌, ◌++◌, get_elem?, set, length, get_elem?-set_self, get_elem?-set_ne, length-set,
  length-append, get_elem?-append_left, get_elem?-append_length, get_elem?-lt, >>=-some, arith,
}
use operating_systems_labs.Lab31v2.Buffer.{World}
use operating_systems_labs.Lab31v2.Server.{
  TypeClient, Client, Server, set_client, deref, in_buffer_at, leave, release, delete_client,
  Visited, deleted_client,
}

-- The store has changed at p only, and may have grown.
pub record Changes (p : ℕ) (xs ys : List (Option Client)) : Type 0 where
  pub same : (j : ℕ) → p ≢ j → j < length xs → get_elem? ys j ≡ get_elem? xs j
  pub grows : length xs ≤ length ys

-- The client at p is live.
unfoldable pub Live : List (Option Client) → ℕ → Type 0
Live xs p = (c : Client) × (get_elem? xs p ≡ some (some c))

pub Changes-refl : (p : ℕ) (xs : List (Option Client)) → Changes p xs xs
Changes-refl p xs = record { same = λ j h l. refl; grows = omega arith }

Changes-trans :
    (p : ℕ) (xs ys zs : List (Option Client)) → Changes p xs ys → Changes p ys zs → Changes p xs zs
Changes-trans p xs ys zs h k = record {
  same = λ j apart l. k.same j apart (omega (arith, h.grows)) ∙ h.same j apart l;
  grows = omega (arith, h.grows, k.grows);
}

Changes-set : (p : ℕ) (xs : List (Option Client)) (o : Option Client) → Changes p xs (set xs p o)
Changes-set p xs o = record {
  same = λ j apart l. get_elem?-set_ne xs p j o apart;
  grows = omega (arith, length-set xs p o);
}

Changes-append : (p : ℕ) (xs ys : List (Option Client)) → Changes p xs (xs ++ ys)
Changes-append p xs ys = record {
  same = λ j apart l. get_elem?-append_left xs ys j l;
  grows = omega (arith, length-append xs ys);
}

-- The ways in which a visit of p comes out, by the clients before it.
pub data Effect (p : ℕ) (xs : List (Option Client)) (r : Visited) : Type 0 where
  goes : Changes p xs r.server.clients → r.deleted ≡ true → Effect p xs r
  keeps :
      Changes p xs r.server.clients
      → r.deleted ≡ false
      → r.pushed ≡ []
      → Live r.server.clients p
      → Effect p xs r
  grows :
      Changes p xs r.server.clients
      → r.deleted ≡ false
      → r.pushed ≡ length xs ∷ []
      → Live r.server.clients p
      → Live r.server.clients (length xs)
      → Effect p xs r

pub in_buffer_at-clients :
    (q : ℕ) (f : World → Option World) (s s' : Server)
    → in_buffer_at q f s ≡ some s'
    → s'.clients ≡ s.clients
unfolding in_buffer_at
in_buffer_at-clients q f s s' h =
    let (b, at, h1) = >>=-some (deref s.buffers q) _ s' h in
    let (w, run, h2) = >>=-some (f (record { buffer = b; cash = s.cash })) _ s' h1 in
    ap (λ (t : Server). t.clients) (sym (some-inj _ s' h2))

release-clients :
    (t : TypeClient) (q : ℕ) (s s' : Server) → release t q s ≡ some s' → s'.clients ≡ s.clients
unfolding release
release-clients t q s s' h =
    let (b, at, h1) = >>=-some (deref s.buffers q) _ s' h in
    let (w, run, h2) = >>=-some (leave t (record { buffer = b; cash = s.cash })) _ s' h1 in
    ap (λ (t : Server). t.clients) (sym (some-inj _ s' h2))

delete_client-Changes :
    (p : ℕ) (s s' : Server) → delete_client p s ≡ some s' → Changes p s.clients s'.clients
unfolding delete_client
delete_client-Changes p s s' h =
    let (c, at, h1) = >>=-some (deref s.clients p) _ s' h in
    let (s1, run, h2) =
      >>=-some
        (elim c.buffer as (λ x. Option Server) [
          | none ↦ some s
          | some q ↦ release c.type_client q s
        ])
        _ s' h1 in
    let e : s1.clients ≡ s.clients = freed c.buffer c.type_client s1 run in
    subst (λ (t : Server). Changes p s.clients t.clients) (some-inj _ s' h2)
      (subst (λ xs. Changes p s.clients (set xs p none)) (sym e) (Changes-set p s.clients none))
  where
    freed :
        (o : Option ℕ) (t : TypeClient) (s1 : Server)
        → (elim o as (λ x. Option Server) [ none ↦ some s | some q ↦ release t q s ]) ≡ some s1
        → s1.clients ≡ s.clients
    freed none t s1 run = ap (λ (u : Server). u.clients) (sym (some-inj _ s1 run))
    freed (some q) t s1 run = release-clients t q s s1 run

-- The store during a visit of p, by the clients before it.
pub record Now (p : ℕ) (xs : List (Option Client)) (s : Server) : Type 0 where
  pub changes : Changes p xs s.clients
  pub live : Live s.clients p
  pub size : length s.clients ≡ length xs

pub Now-same :
    (p : ℕ) (xs : List (Option Client)) (s s' : Server)
    → Now p xs s
    → s'.clients ≡ s.clients
    → Now p xs s'
Now-same p xs s s' now e = record {
  changes = subst (Changes p xs) (sym e) now.changes;
  live = subst (λ ys. Live ys p) (sym e) now.live;
  size = ap length e ∙ now.size;
}

pub Now-set :
    (p : ℕ) (xs : List (Option Client)) (s : Server) (c : Client)
    → Now p xs s
    → Now p xs (set_client p (some c) s)
unfolding Live
Now-set p xs s c now = record {
  changes =
      Changes-trans p xs s.clients (set s.clients p (some c)) now.changes
        (Changes-set p s.clients (some c));
  live = (
    c,
    get_elem?-set_self s.clients p (some c) (get_elem?-lt s.clients p (some now.live.0) now.live.1),
  );
  size = length-set s.clients p (some c) ∙ now.size;
}

pub deleted_client-Effect :
    (p : ℕ) (xs : List (Option Client)) (s : Server) (r : Visited)
    → Now p xs s
    → deleted_client p s ≡ some r
    → Effect p xs r
deleted_client-Effect p xs s r now h =
    let (s', run, h1) = >>=-some (delete_client p s) _ r h in
    subst (Effect p xs) (some-inj _ r h1) (
      goes (Changes-trans p xs s.clients s'.clients now.changes (delete_client-Changes p s s' run))
        refl)

pub stays-Effect :
    (p : ℕ) (xs : List (Option Client)) (s : Server) (r : Visited)
    → Now p xs s
    → some (record { deleted = false; pushed = []; server = s }) ≡ some r
    → Effect p xs r
stays-Effect p xs s r now h =
    subst (Effect p xs) (some-inj (record { deleted = false; pushed = []; server = s }) r h)
      (keeps now.changes refl refl now.live)

pub pushed-Effect :
    (p : ℕ) (xs : List (Option Client)) (s : Server) (cl : Client)
    → Now p xs s
    → Effect p xs (record {
      deleted = false;
      pushed = length s.clients ∷ [];
      server = record s { clients = s.clients ++ some cl ∷ [] };
    })
unfolding Live
pushed-Effect p xs s cl now =
    grows
      (Changes-trans p xs s.clients (s.clients ++ some cl ∷ []) now.changes
        (Changes-append p s.clients (some cl ∷ [])))
      refl (ap (λ n. n ∷ []) now.size)
      (
        now.live.0,
        get_elem?-append_left s.clients (some cl ∷ []) p
              (get_elem?-lt s.clients p (some now.live.0) now.live.1)
            ∙ now.live.1,
      )
      (
        cl,
        ap (get_elem? (s.clients ++ some cl ∷ [])) (sym now.size)
            ∙ get_elem?-append_length s.clients [] (some cl),
      )
