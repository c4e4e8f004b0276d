-- ===== src/Lab31v2/Server/Rounds.antt =====
-- lab31/v2: the list of the clients over the turns of the server's loop.
use operating_systems_labs.Base.{
  ℕ, ◌<◌, ◌≡◌, ap, sym, subst, ◌∙◌, ◌||◌, Bool, Option, some, some-inj, List, [], ◌∷◌, ◌++◌, Bytes,
  get_elem?, set, length, get_elem?-lt, get_elem?-set_self, get_elem?-set_ne, get_elem?-append_left,
  get_elem?-append_length, >>=-some, if_true, if_false, Bool-cases, inl, inr, All-map, All-append,
  arith, ◌==◌, ==_iff, pos, negsuc, eqb_ℤ, ltb_ℤ,
}
use operating_systems_labs.Lab31v2.Server.{
  Client, new_client, user, Server, deref, set_client, set_revents_zero, handling_event, Round,
  set_poll_elements, Stand, goes_on, uncaught, unfinished, accept_if_ready, server_round,
  start_server,
}
use operating_systems_labs.Lab31v2.Server.Effects.{Live}
use operating_systems_labs.Lab31v2.Server.Lists.{IsLinked, Distinct-last, handling_event-IsLinked}

Live-set :
    (xs : List (Option Client)) (p : ℕ) (c : Client) (j : ℕ)
    → Live xs j
    → Live (set xs p (some c)) j
unfolding Live
Live-set xs p c j (d, at) = elim (Bool-cases (p == j)) [
  | inl e ↦
      let same : p ≡ j = (==_iff p j).0 e in
      subst (λ k. (c' : Client) × (get_elem? (set xs p (some c)) k ≡ some (some c'))) same
        (
          c,
          get_elem?-set_self xs p (some c)
              (get_elem?-lt xs p (some d) (ap (get_elem? xs) same ∙ at)),
        )
  | inr e ↦ (d, get_elem?-set_ne xs p j (some c) (λ same. ground (arith, e, same)) ∙ at)
]

-- A server whose list of clients is linked to its store.
abbrev pub IsSound : Server → Type 0
IsSound s = IsLinked s.clients s.client_list

set_client-IsSound :
    (p : ℕ) (c : Client) (s : Server) → IsSound s → IsSound (set_client p (some c) s)
unfolding IsLinked
set_client-IsSound p c s h = (
  All-map (Live s.clients) (Live (set s.clients p (some c))) s.client_list
      (λ j l. Live-set s.clients p c j l) h.0,
  h.1,
)

set_poll_elements-IsSound :
    (revents : List (Bool × Bool)) (ps : List ℕ) (s s' : Server)
    → IsSound s
    → set_poll_elements revents ps s ≡ some s'
    → IsSound s'
unfolding set_poll_elements
set_poll_elements-IsSound revents [] s s' h e = subst IsSound (some-inj s s' e) h
set_poll_elements-IsSound [] (p ∷ ps) s s' h e =
    let (c, at, e1) = >>=-some (deref s.clients p) _ s' e in
    set_poll_elements-IsSound [] ps (set_client p (some (set_revents_zero c)) s) s'
      (set_client-IsSound p (set_revents_zero c) s h) e1
set_poll_elements-IsSound (bits ∷ revents) (p ∷ ps) s s' h e =
    let (c, at, e1) = >>=-some (deref s.clients p) _ s' e in
    let c' : Client = record c { pollin = bits.0; pollout = bits.1 } in
    set_poll_elements-IsSound revents ps (set_client p (some c') s) s' (set_client-IsSound p c' s h)
      e1

append-IsLinked :
    (xs : List (Option Client)) (ps : List ℕ) (c : Client)
    → IsLinked xs ps
    → IsLinked (xs ++ some c ∷ []) (ps ++ length xs ∷ [])
unfolding IsLinked Live
append-IsLinked xs ps c h =
    let ys : List (Option Client) = xs ++ some c ∷ [] in
    (
      All-append (Live ys) ps (length xs ∷ [])
          (All-map (Live xs) (Live ys) ps
            (λ j l. (
              l.0,
              get_elem?-append_left xs (some c ∷ []) j (get_elem?-lt xs j (some l.0) l.1) ∙ l.1,
            ))
            h.0)
          ((c, get_elem?-append_length xs [] (some c)), tt),
      Distinct-last ps (length xs)
          (All-map (Live xs) (λ j. j < length xs) ps (λ j l. get_elem?-lt xs j (some l.0) l.1) h.0)
          h.1,
    )

accept-IsSound : (r : Round) (s : Server) → IsSound s → IsSound (accept_if_ready r s).1
unfolding accept_if_ready
accept-IsSound r s h = elim (Bool-cases r.socket_ready) [
  | inr off ↦ subst (λ (t : Stand × Server). IsSound t.1) (sym (if_false _ _ _ off)) h
  | inl on ↦
      subst (λ (t : Stand × Server). IsSound t.1) (sym (if_true _ _ _ on))
        (elim (Bool-cases (ltb_ℤ r.client_sock (pos 0))) [
          | inl e ↦ rw e h
          | inr e ↦ rw e (
              append-IsLinked s.clients s.client_list
                (new_client r.client_sock user (some (length s.buffers))) h)
        ])
]

server_round-IsSound :
    (hasher : Bytes → ℕ) (r : Round) (s : Server) (turn : Stand × Server)
    → IsSound s
    → server_round hasher r s ≡ some turn
    → IsSound turn.1
unfolding server_round
server_round-IsSound hasher r s turn h e =
    let (s1, set, e1) = >>=-some (set_poll_elements r.revents s.client_list s) _ turn e in
    let h1 : IsSound s1 = set_poll_elements-IsSound r.revents s.client_list s s1 h set in
    elim (Bool-cases (eqb_ℤ r.code (negsuc 0) || eqb_ℤ r.code (pos 0))) [
      | inl idle ↦
          subst (λ (t : Stand × Server). IsSound t.1)
            (some-inj _ turn (sym (if_true _ _ _ idle) ∙ e1)) h1
      | inr ready ↦
          let (result, ran, e2) =
            >>=-some (handling_event hasher r.visits s1) _ turn (sym (if_false _ _ _ ready) ∙ e1) in
          let h2 : IsSound result.1 = handling_event-IsLinked hasher r.visits s1 result h1 ran in
          subst (λ (t : Stand × Server). IsSound t.1) (some-inj _ turn e2)
            (elim (Bool-cases result.0) [
              | inl done ↦
                  subst (λ (t : Stand × Server). IsSound t.1) (sym (if_true _ _ _ done))
                    (accept-IsSound r result.1 h2)
              | inr more ↦
                  subst (λ (t : Stand × Server). IsSound t.1) (sym (if_false _ _ _ more)) h2
            ])
    ]

further :
    (more : Server → Option (Stand × Server)) (turn now : Stand × Server)
    → ((s : Server) → IsSound s → more s ≡ some turn → IsSound turn.1)
    → IsSound now.1
    → (elim now.0 as (λ x. Option (Stand × Server)) [
      | goes_on ↦ more now.1
      | uncaught ↦ some now
      | unfinished ↦ some now
    ])
      ≡ some turn
    → IsSound turn.1
further more turn (goes_on, s) rest h e = rest s h e
further more turn (uncaught, s) rest h e =
    subst (λ (t : Stand × Server). IsSound t.1) (some-inj (uncaught, s) turn e) h
further more turn (unfinished, s) rest h e =
    subst (λ (t : Stand × Server). IsSound t.1) (some-inj (unfinished, s) turn e) h

-- Over any number of turns of the server's loop, with clients that come, connect to HTTP servers and
-- leave: as long as no turn runs into undefined behaviour, every pointer in the list of the clients is
-- to a client that has not been deleted, and none stands in the list twice, if it was so at the start.
pub start_server-IsLinked :
    (hasher : Bytes → ℕ) (rounds : List Round) (s : Server) (turn : Stand × Server)
    → IsLinked s.clients s.client_list
    → start_server hasher rounds s ≡ some turn
    → IsLinked turn.1.clients turn.1.client_list
unfolding start_server
start_server-IsLinked hasher [] s turn h e =
    subst (λ (t : Stand × Server). IsSound t.1) (some-inj (goes_on, s) turn e) h
start_server-IsLinked hasher (r ∷ rounds) s turn h e =
    let (now, ran, e1) = >>=-some (server_round hasher r s) _ turn e in
    let h1 : IsSound now.1 = server_round-IsSound hasher r s now h ran in
    further (start_server hasher rounds) turn now
      (λ s' h' e'. start_server-IsLinked hasher rounds s' turn h' e') h1 e1
