-- ===== src/Lab32v2/Handler/Waits.antt =====
-- Waiting readers: where the reader stands after the filling thread has run.
use operating_systems_labs.Base.{
  ℕ, ◌+◌, ◌≡◌, inl, inr, refl, sym, ap, ◌∙◌, arith, Bool, true, false, Option, some, List, [], ◌∷◌,
  ◌++◌, Bytes, Bool-cases, length, length-append, append-nil, >>=-some, if◌then◌else◌, get_elem?,
  set, get_elem?-set_self, get_elem?-lt, ◌==◌,
}
use operating_systems_labs.Lab32v2.Cash.Element.{
  CashElement, get_length, append_string_to_cash, set_download_end, set_is_server_connect,
}
use operating_systems_labs.Lab32v2.Buffer.{World, element_of, update_element}
use operating_systems_labs.Lab32v2.Handler.Rounds.{Reads, ready}
use operating_systems_labs.Lab32v2.Handler.SendAll.{Reads-ready}
use operating_systems_labs.Lab32v2.Handler.Streams.{
  Extends, Extends-trans, Extends-self, reader_ready,
}
use operating_systems_labs.Lab32v2.Handler.FromCash.{
  Call, appends, ends_download, connects, run_call, run_calls, Wait, woken, failed, Waited, goes_on,
  gives_up, waiting, is_blocked, wait_ready,
}

-- Where the reader is after others have run: at the same place, of a response that has at most grown.
pub record Grown (w : World) (e : CashElement) (w' : World) : Type 0 where
  pub element : CashElement
  pub reads : Reads w' element
  pub grown : Extends e element
  pub count : w'.buffer.count_byte_read_from_cash ≡ w.buffer.count_byte_read_from_cash

-- A method that at most appends to the element.
pub update_element-at :
    (f : CashElement → CashElement × List ℕ) (w : World) (e : CashElement)
    → Reads w e
    → Extends e (f e).0
    → (w' : World) × (update_element f w ≡ some w') × ((g : Grown w e w') × (g.element ≡ (f e).0))
unfolding update_element element_of
update_element-at f w e r (more, grown) =
    let (p, pointer, stands) =
      >>=-some w.buffer.cash_element (get_elem? w.cash.elements) e r.stands in
    let size : get_length (f e).0 ≡ get_length e + length more =
      ap (λ (l : Bytes). length l) grown ∙ length-append e.cash more in
    (
      record w {
        cash = record w.cash { elements = set w.cash.elements p (f e).0 };
        signalled = w.signalled ++ (f e).1;
      },
      rw (pointer, stands) refl,
      (
        record {
          element = (f e).0;
          reads = record {
            cached = r.cached;
            stands = rw pointer (
                get_elem?-set_self w.cash.elements p (f e).0
                  (get_elem?-lt w.cash.elements p e stands));
            within = omega (arith, size, r.within);
            flag = elim r.flag [ inl not_all ↦ inl (ground (arith, size)) | inr unset ↦ inr unset ];
          };
          grown = (more, grown);
          count = refl;
        },
        refl,
      ),
    )

pub update_element-Grown :
    (f : CashElement → CashElement × List ℕ) (w : World) (e : CashElement)
    → Reads w e
    → Extends e (f e).0
    → (w' : World) × (update_element f w ≡ some w') × Grown w e w'
update_element-Grown f w e r grown =
    let (w', run, (g, _)) = update_element-at f w e r grown in (w', run, g)

append-Extends : (bs : Bytes) (e : CashElement) → Extends e (append_string_to_cash bs e).0
unfolding append_string_to_cash
append-Extends bs e = elim (Bool-cases (e.mutex_for_data == 0)) [
  | inl free ↦ (bs, ground arith)
  | inr locked ↦ ([], ground (arith, append-nil e.cash))
]

connect-Extends : (var : Bool) (e : CashElement) → Extends e (set_is_server_connect var e).0
unfolding set_is_server_connect
connect-Extends var e = ([], sym (append-nil e.cash))

run_call-Grown :
    (call : Call) (w : World) (e : CashElement)
    → Reads w e
    → (w' : World) × (run_call call w ≡ some w') × Grown w e w'
unfolding run_call
run_call-Grown (appends bs) w e r =
    update_element-Grown (append_string_to_cash bs) w e r (append-Extends bs e)
run_call-Grown (ends_download var) w e r =
    update_element-Grown (λ e. (set_download_end var e, [])) w e r (Extends-self e)
run_call-Grown (connects var) w e r =
    update_element-Grown (set_is_server_connect var) w e r (connect-Extends var e)

Grown-trans :
    (w w1 w2 : World) (e : CashElement) (g : Grown w e w1) → Grown w1 g.element w2 → Grown w e w2
Grown-trans w w1 w2 e g h = record {
  element = h.element;
  reads = h.reads;
  grown = Extends-trans e g.element h.element g.grown h.grown;
  count = h.count ∙ g.count;
}

Grown-self :
    (w w' : World) (e : CashElement)
    → Reads w' e
    → w'.buffer.count_byte_read_from_cash ≡ w.buffer.count_byte_read_from_cash
    → Grown w e w'
Grown-self w w' e r count = record { element = e; reads = r; grown = Extends-self e; count = count }

run_calls-Grown :
    (calls : List Call) (w : World) (e : CashElement)
    → Reads w e
    → (w' : World) × (run_calls calls w ≡ some w') × Grown w e w'
unfolding run_calls
run_calls-Grown [] w e r = (w, refl, Grown-self w w e r refl)
run_calls-Grown (call ∷ calls) w e r =
    let (w1, run1, g1) = run_call-Grown call w e r in
    let (w2, run2, g2) = run_calls-Grown calls w1 g1.element g1.reads in
    (w2, rw run1 run2, Grown-trans w w1 w2 e g1 g2)

is_blocked-Grown :
    (w : World) (e : CashElement)
    → Reads w e
    → (blocked : Bool) × (w' : World) × (is_blocked w ≡ some (blocked, w')) × Grown w e w'
unfolding is_blocked
is_blocked-Grown w e r = elim (Bool-cases e.is_server_connected) [
  | inr gone ↦ (false, w, rw (r.stands, gone) refl, Grown-self w w e r refl)
  | inl connected ↦ elim (reader_ready w e r) [
    | inl (more, is_ready) ↦ (
      false,
      ready w,
      rw (r.stands, connected, is_ready) refl,
      Grown-self w (ready w) e (Reads-ready w e r more) refl,
    )
    | inr (all, is_ready) ↦
        (true, w, rw (r.stands, connected, is_ready) refl, Grown-self w w e r refl)
  ]
]

abbrev pub Waits : World → CashElement → Option (Waited × World) → Type 0
Waits w e result = (waited : Waited) × (w' : World) × (result ≡ some (waited, w')) × Grown w e w'

pub wait_ready-Grown :
    (waits : List Wait) (w : World) (e : CashElement) → Reads w e → Waits w e (wait_ready waits w)
unfolding wait_ready
wait_ready-Grown [] w e r =
    let (blocked, w1, test, g) = is_blocked-Grown w e r in
    (if blocked then waiting else goes_on, w1, rw test refl, g)
wait_ready-Grown (failed ∷ waits) w e r =
    let (blocked, w1, test, g) = is_blocked-Grown w e r in
    elim (Bool-cases blocked) [
      | inl yes_blocked ↦ (gives_up, w1, rw test (rw yes_blocked refl), g)
      | inr free ↦ (goes_on, w1, rw test (rw free refl), g)
    ]
wait_ready-Grown (woken calls ∷ waits) w e r =
    let (blocked, w1, test, g) = is_blocked-Grown w e r in
    let (w2, run, g2) = run_calls-Grown calls w1 g.element g.reads in
    let g' : Grown w e w2 = Grown-trans w w1 w2 e g g2 in
    let (waited, w3, rest, g3) = wait_ready-Grown waits w2 g'.element g'.reads in
    elim (Bool-cases blocked) [
      | inl yes_blocked ↦
          (waited, w3, rw (test, run) (rw yes_blocked rest), Grown-trans w w2 w3 e g' g3)
      | inr free ↦ (goes_on, w1, rw test (rw free refl), g)
    ]
