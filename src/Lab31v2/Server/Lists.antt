-- ===== src/Lab31v2/Server/Lists.antt =====
-- lab31/v2: the list of the clients during handlingEvent.
use operating_systems_labs.Base.{
  ℕ, ◌<◌, ◌≡◌, ap, sym, subst, ◌∙◌, ◌≢◌, Bool, Option, none, some, some-inj, List, [], ◌∷◌, ◌++◌,
  append-nil, append_assoc, Bytes, length, get_elem?-lt, >>=-some, if_true, if_false, All, All-map,
  All-zip, All-append, arith,
}
use operating_systems_labs.Lab31v2.Server.{
  Client, Server, Visit, handle_client, visit_clients, handling_event,
}
use operating_systems_labs.Lab31v2.Server.Effects.{Changes, Live, goes, keeps, grows}
use operating_systems_labs.Lab31v2.Server.Visits.{handle_client-Effect}

unfoldable pub Distinct : List ℕ → Type 0
Distinct [] = Unit
Distinct (p ∷ ps) = All (λ j. p ≢ j) ps × Distinct ps

-- Every pointer of the list is to a live client, and none stands in it twice.
unfoldable pub IsLinked : List (Option Client) → List ℕ → Type 0
IsLinked xs ps = All (Live xs) ps × Distinct ps

All-without {κ} :
    (P : ℕ → Type κ) (before : List ℕ) (p : ℕ) (ps : List ℕ)
    → All P (before ++ p ∷ ps)
    → P p × All P (before ++ ps)
All-without P [] p ps h = h
All-without P (b ∷ before) p ps h =
    let rest : P p × All P (before ++ ps) = All-without P before p ps h.1 in (rest.0, (h.0, rest.1))

All-with {κ} :
    (P : ℕ → Type κ) (before : List ℕ) (p : ℕ) (ps : List ℕ)
    → P p
    → All P (before ++ ps)
    → All P (before ++ p ∷ ps)
All-with P [] p ps x h = (x, h)
All-with P (b ∷ before) p ps x h = (h.0, All-with P before p ps x h.1)

Distinct-without :
    (before : List ℕ) (p : ℕ) (ps : List ℕ)
    → Distinct (before ++ p ∷ ps)
    → All (λ j. p ≢ j) (before ++ ps) × Distinct (before ++ ps)
unfolding Distinct
Distinct-without [] p ps h = h
Distinct-without (b ∷ before) p ps h =
    let (apart, distinct) = Distinct-without before p ps h.1 in
    let (b_p, b_rest) = All-without (λ j. b ≢ j) before p ps h.0 in
    ((λ e. b_p (sym e), apart), (b_rest, distinct))

pub Distinct-last :
    (ps : List ℕ) (n : ℕ) → All (λ j. j < n) ps → Distinct ps → Distinct (ps ++ n ∷ [])
unfolding Distinct
Distinct-last [] n h d = (tt, tt)
Distinct-last (p ∷ ps) n h d = (
  All-append (λ j. p ≢ j) ps (n ∷ []) d.0 (λ e. omega (arith, e, h.0), tt),
  Distinct-last ps n h.1 d.1,
)

Live-Changes :
    (p : ℕ) (xs ys : List (Option Client)) (j : ℕ) → Changes p xs ys → p ≢ j → Live xs j → Live ys j
unfolding Live
Live-Changes p xs ys j changes apart (c, at) =
    (c, changes.same j apart (get_elem?-lt xs j (some c) at) ∙ at)

-- A visit of p that deletes it.
gone :
    (xs ys : List (Option Client)) (before : List ℕ) (p : ℕ) (ps : List ℕ)
    → IsLinked xs (before ++ p ∷ ps)
    → Changes p xs ys
    → IsLinked ys (before ++ ps)
unfolding IsLinked
gone xs ys before p ps linked changes =
    let (apart, distinct) = Distinct-without before p ps linked.1 in
    let (live, others) = All-without (Live xs) before p ps linked.0 in
    (
      All-map (λ j. (p ≢ j) × Live xs j) (Live ys) (before ++ ps)
          (λ j h. Live-Changes p xs ys j changes h.0 h.1)
          (All-zip (λ j. p ≢ j) (Live xs) (before ++ ps) apart others),
      distinct,
    )

-- A visit of p that keeps it.
kept :
    (xs ys : List (Option Client)) (before : List ℕ) (p : ℕ) (ps : List ℕ)
    → IsLinked xs (before ++ p ∷ ps)
    → Changes p xs ys
    → Live ys p
    → IsLinked ys (before ++ p ∷ ps)
unfolding IsLinked
kept xs ys before p ps linked changes live =
    (All-with (Live ys) before p ps live (gone xs ys before p ps linked changes).0, linked.1)

-- A visit of p that pushes a client.
grown :
    (xs ys : List (Option Client)) (before : List ℕ) (p : ℕ) (ps : List ℕ)
    → IsLinked xs (before ++ p ∷ ps)
    → Changes p xs ys
    → Live ys p
    → Live ys (length xs)
    → IsLinked ys ((before ++ p ∷ ps) ++ length xs ∷ [])
unfolding IsLinked Live
grown xs ys before p ps linked changes live new =
    let all : List ℕ = before ++ p ∷ ps in
    (
      All-append (Live ys) all (length xs ∷ []) (kept xs ys before p ps linked changes live).0
          (new, tt),
      Distinct-last all (length xs)
          (All-map (Live xs) (λ j. j < length xs) all (λ j h. get_elem?-lt xs j (some h.0) h.1)
            linked.0)
          linked.1,
    )

shift :
    {A : Type 0} (before : List A) (p : A) (ps : List A)
    → (before ++ p ∷ []) ++ ps ≡ before ++ p ∷ ps
shift before p ps = append_assoc before (p ∷ []) ps

visited_client :
    (xs : List (Option Client)) (before : List ℕ) (p : ℕ) (ps : List ℕ)
    → IsLinked xs (before ++ p ∷ ps)
    → Live xs p
unfolding IsLinked
visited_client xs before p ps linked = (All-without (Live xs) before p ps linked.0).0

visit_clients-IsLinked :
    (hasher : Bytes → ℕ) (visits : List Visit) (before rest : List ℕ) (s : Server)
    (result : Bool × Server)
    → IsLinked s.clients (before ++ rest)
    → visit_clients hasher visits before rest s ≡ some result
    → IsLinked result.1.clients result.1.client_list
unfolding visit_clients
visit_clients-IsLinked hasher visits before [] s result linked h =
    subst (λ (t : Bool × Server). IsLinked t.1.clients t.1.client_list) (some-inj _ result h)
      (subst (IsLinked s.clients) (append-nil before) linked)
visit_clients-IsLinked hasher [] before (p ∷ ps) s result linked h =
    subst (λ (t : Bool × Server). IsLinked t.1.clients t.1.client_list) (some-inj _ result h) linked
visit_clients-IsLinked hasher (v ∷ visits) before (p ∷ ps) s result linked h =
    let (r, ran, h1) = >>=-some (handle_client hasher v p s) _ result h in
    elim (handle_client-Effect hasher v p s r (visited_client s.clients before p ps linked) ran) [
      | goes changes deleted ↦
          elim ps
              as (λ l.
                IsLinked r.server.clients (before ++ l)
                → (elim l as (λ x. Option (Bool × Server)) [
                  | [] ↦ none
                  | ◌∷◌ q qs ↦ visit_clients hasher visits (before ++ q ∷ []) qs r.server
                ])
                  ≡ some result
                → IsLinked result.1.clients result.1.client_list) [
                  | [] ↦ λ left run. absurd (cc)
                  | ◌∷◌ q qs ↦ λ left run.
                      visit_clients-IsLinked hasher visits (before ++ q ∷ []) qs r.server result
                        (subst (IsLinked r.server.clients) (sym (shift before q qs)) left) run
                ]
            (gone s.clients r.server.clients before p ps linked changes)
            (sym (if_true _ _ _ deleted) ∙ h1)
      | keeps changes stays none_pushed live ↦
          visit_clients-IsLinked hasher visits (before ++ p ∷ []) (ps ++ r.pushed) r.server result
            (subst (λ new. IsLinked r.server.clients ((before ++ p ∷ []) ++ (ps ++ new)))
              (sym none_pushed)
              (subst (IsLinked r.server.clients)
                (ap (λ l. before ++ p ∷ l) (sym (append-nil ps)) ∙ sym (shift before p (ps ++ [])))
                (kept s.clients r.server.clients before p ps linked changes live)))
            (sym (if_false _ _ _ stays) ∙ h1)
      | grows changes stays one_pushed live new ↦
          visit_clients-IsLinked hasher visits (before ++ p ∷ []) (ps ++ r.pushed) r.server result
            (subst (λ new. IsLinked r.server.clients ((before ++ p ∷ []) ++ (ps ++ new)))
              (sym one_pushed)
              (subst (IsLinked r.server.clients)
                (append_assoc before (p ∷ ps) (length s.clients ∷ [])
                  ∙ sym (shift before p (ps ++ length s.clients ∷ [])))
                (grown s.clients r.server.clients before p ps linked changes live new)))
            (sym (if_false _ _ _ stays) ∙ h1)
    ]

-- Whenever handlingEvent has a defined result, every pointer in the list of the clients is still to a
-- client that has not been deleted, and none stands in the list twice, if it was so before.
pub handling_event-IsLinked :
    (hasher : Bytes → ℕ) (visits : List Visit) (s : Server) (result : Bool × Server)
    → IsLinked s.clients s.client_list
    → handling_event hasher visits s ≡ some result
    → IsLinked result.1.clients result.1.client_list
unfolding handling_event
handling_event-IsLinked hasher visits s result linked h =
    visit_clients-IsLinked hasher visits [] s.client_list s result linked h
