-- ===== src/Lab31v2/Server/Visits.antt =====
-- lab31/v2: how a visit of one client comes out.
use operating_systems_labs.Base.{
  ℕ, ◌≡◌, refl, subst, Bool, true, false, Option, none, some, some-inj, List, [], ◌∷◌, ◌++◌, Bytes,
  ◌>>=◌, >>=-some, if◌then◌else◌,
}
use operating_systems_labs.Lab31v2.Buffer.{World, send_buf, proof_send, is_ready_to_send}
use operating_systems_labs.Lab31v2.Server.{
  http_server, Client, new_client, set_revents_zero, Server, set_client, deref, in_buffer_at,
  connect_to_client, Visit, Visited, is_over, connect_http_server, handle_input, handle_output,
  handle_rest, handle_client,
}
use operating_systems_labs.Lab31v2.Server.Effects.{
  Changes-refl, Live, Effect, in_buffer_at-clients, Now, Now-same, Now-set, deleted_client-Effect,
  stays-Effect, pushed-Effect,
}

-- The ways through a do block, a match and a test.
module _ {C : Type 0} (r : Visited) where
  through :
      {A : Type 0} (m : Option A) (f : A → Option Visited)
      → (m >>= f) ≡ some r
      → ((a : A) → m ≡ some a → f a ≡ some r → C)
      → C
  through m f h k = let (a, e, rest) = >>=-some m f r h in k a e rest

  through_if :
      (b : Bool) (x y : Option Visited)
      → (if b then x else y) ≡ some r
      → (x ≡ some r → C)
      → (y ≡ some r → C)
      → C
  through_if true x y h k l = k h
  through_if false x y h k l = l h

  through_option :
      {A : Type 0} (o : Option A) (x : Option Visited) (f : A → Option Visited)
      → (elim o as (λ y. Option Visited) [ none ↦ x | some a ↦ f a ]) ≡ some r
      → (x ≡ some r → C)
      → ((a : A) → f a ≡ some r → C)
      → C
  through_option none x f h k l = k h
  through_option (some a) x f h k l = l a h

  through_bytes :
      (bs : Bytes) (x : Option Visited) (y : Option Visited)
      → (elim bs as (λ z. Option Visited) [ [] ↦ x | ◌∷◌ b rest ↦ y ]) ≡ some r
      → (x ≡ some r → C)
      → (y ≡ some r → C)
      → C
  through_bytes [] x y h k l = k h
  through_bytes (b ∷ bs) x y h k l = l h

module _ (p : ℕ) (xs : List (Option Client)) where
  after_buffer :
      (q : ℕ) (f : World → Option World) (s s' : Server)
      → Now p xs s
      → in_buffer_at q f s ≡ some s'
      → Now p xs s'
  after_buffer q f s s' now run = Now-same p xs s s' now (in_buffer_at-clients q f s s' run)

  connect-Effect :
      (v : Visit) (q : ℕ) (s : Server) (r : Visited)
      → Now p xs s
      → connect_http_server v p q s ≡ some r
      → Effect p xs r
  unfolding connect_http_server
  connect-Effect v q s r now h = through r (deref s.buffers q) _ h (λ b at h1.
      through r b.result_parse_heading _ h1 (λ res parsed h2.
        through r (in_buffer_at q _ s) _ h2 (λ s2 run h3.
          let now2 : Now p xs s2 = after_buffer q _ s s2 now run in
          through_option r (connect_to_client v.network res.host_name res.port) _ _ h3
            (deleted_client-Effect p xs s2 r now2)
            (λ sock h4. through r (in_buffer_at q _ s2) _ h4 (λ s3 run' h5.
              subst (Effect p xs) (some-inj _ r h5) (
                pushed-Effect p xs s3 (new_client sock http_server (some q))
                  (after_buffer q _ s2 s3 now2 run')))))))

  handle_input-Effect :
      (hasher : Bytes → ℕ) (v : Visit) (c : Client) (s : Server) (r : Visited)
      → Now p xs s
      → handle_input hasher v p c s ≡ some r
      → Effect p xs r
  unfolding handle_input
  handle_input-Effect hasher v c s r now h =
      let s0 : Server = set_client p (some (set_revents_zero c)) s in
      let now0 : Now p xs s0 = Now-set p xs s (set_revents_zero c) now in
      through_bytes r v.bytes _ _ h (deleted_client-Effect p xs s0 r now0) (λ h0.
        through r c.buffer _ h0 (λ q pointer h1. through r (in_buffer_at q _ s0) _ h1 (λ s1 run h2.
          let now1 : Now p xs s1 = after_buffer q _ s0 s1 now0 run in
          through r (deref s1.buffers q) _ h2 (λ b at h3.
            through_if r b.is_ready_connect_http_server _ _ h3 (connect-Effect v q s1 r now1)
              (stays-Effect p xs s1 r now1)))))

  handle_output-Effect :
      (q : ℕ) (c : Client) (s : Server) (r : Visited)
      → Now p xs s
      → handle_output p q c s ≡ some r
      → Effect p xs r
  unfolding handle_output
  handle_output-Effect q c s r now h =
      let s0 : Server = set_client p (some (set_revents_zero c)) s in
      let now0 : Now p xs s0 = Now-set p xs s (set_revents_zero c) now in
      through r (deref s0.buffers q) _ h (λ b at h1.
        through r (is_ready_to_send (record { buffer = b; cash = s0.cash })) _ h1 (λ ready ran h2.
          through r (in_buffer_at q (λ w0. some ready.1) s0) _ h2 (λ s1 run h3.
            let now1 : Now p xs s1 = after_buffer q (λ w0. some ready.1) s0 s1 now0 run in
            through_if r _ _ _ h3
              (λ h4. through r (send_buf [] ready.1) _ h4 (λ bytes sent h5.
                through r (in_buffer_at q (proof_send bytes) s1) _ h5 (λ s2 run' h6.
                  stays-Effect p xs (record s2 { written = s2.written ++ (c.fd, bytes) ∷ [] }) r
                    (Now-same p xs s2 (record s2 { written = s2.written ++ (c.fd, bytes) ∷ [] })
                      (after_buffer q (proof_send bytes) s1 s2 now1 run') refl)
                    h6)))
              (stays-Effect p xs s1 r now1))))

  handle_rest-Effect :
      (c : Client) (s : Server) (r : Visited)
      → Now p xs s
      → handle_rest p c s ≡ some r
      → Effect p xs r
  unfolding handle_rest
  handle_rest-Effect c s r now h = through r c.buffer _ h (λ q pointer h1.
      through r (deref s.buffers q) _ h1 (λ b at h2.
        through r (is_over c.type_client (record { buffer = b; cash = s.cash })) _ h2
          (λ over ran h3. through r (in_buffer_at q (λ w0. some over.1) s) _ h3 (λ s1 run h4.
            let now1 : Now p xs s1 = after_buffer q (λ w0. some over.1) s s1 now run in
            through_if r over.0 _ _ h4 (deleted_client-Effect p xs s1 r now1) (λ h5.
              through_if r c.pollout _ _ h5 (handle_output-Effect q c s1 r now1)
                (stays-Effect p xs s1 r now1))))))

-- Every visit of a live client that has a defined result comes out in one of the three ways.
pub handle_client-Effect :
    (hasher : Bytes → ℕ) (v : Visit) (p : ℕ) (s : Server) (r : Visited)
    → Live s.clients p
    → handle_client hasher v p s ≡ some r
    → Effect p s.clients r
unfolding handle_client
handle_client-Effect hasher v p s r live h =
    let now : Now p s.clients s = record {
      changes = Changes-refl p s.clients;
      live = live;
      size = refl;
    } in
    through r (deref s.clients p) _ h (λ c at h1.
      through_if r c.pollin _ _ h1 (handle_input-Effect p s.clients hasher v c s r now)
        (handle_rest-Effect p s.clients c s r now))
