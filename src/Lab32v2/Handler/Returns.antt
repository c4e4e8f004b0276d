-- ===== src/Lab32v2/Handler/Returns.antt =====
-- `getFromCash` when the HTTP server is gone.
use operating_systems_labs.Base.{
  ℕ, ◌+◌, ◌-◌, ◌*◌, ◌≤◌, ◌≡◌, refl, sym, ap, ◌∙◌, arith, true, false, Option, some, List, [], ◌∷◌,
  Bytes, length, drop, append-nil, some-inj, subst, if_false,
}
use operating_systems_labs.Lab32v2.Cash.Element.{
  CashElement, get_length, add_cond_var, dell_cond_var,
}
use operating_systems_labs.Lab32v2.Buffer.{World, element_of, update_element}
use operating_systems_labs.Lab32v2.Handler.{success, Sent, send_all}
use operating_systems_labs.Lab32v2.Handler.Rounds.{Reads, TakesAll}
use operating_systems_labs.Lab32v2.Constants.{buf_size}
use operating_systems_labs.Lab32v2.Handler.SendAll.{send_all-delivers}
use operating_systems_labs.Lab32v2.Handler.Streams.{Streams, send_all-Streams}
use operating_systems_labs.Lab32v2.Handler.FromCash.{
  Wait, goes_on, is_blocked, wait_ready, Turn, serve, leave, get_from_cash,
}
use operating_systems_labs.Lab32v2.Handler.Waits.{update_element-at}
use operating_systems_labs.Lab32v2.Handler.Serves.{
  after_wait-gone, after_waits, serve-turn, add_cond_var-cash, dell_cond_var-cash,
}

add_cond_var-connected :
    (cond : ℕ) (e : CashElement) → (add_cond_var cond e).is_server_connected ≡ e.is_server_connected
unfolding add_cond_var
add_cond_var-connected cond e = ground arith

is_blocked-gone :
    (w : World) (e : CashElement)
    → element_of w ≡ some e
    → e.is_server_connected ≡ false
    → is_blocked w ≡ some (false, w)
unfolding is_blocked
is_blocked-gone w e stands gone = rw stands (if_false _ _ _ gone)

wait_ready-gone :
    (waits : List Wait) (w : World) (e : CashElement)
    → element_of w ≡ some e
    → e.is_server_connected ≡ false
    → wait_ready waits w ≡ some (goes_on, w)
unfolding wait_ready
wait_ready-gone [] w e stands gone = rw (is_blocked-gone w e stands gone) refl
wait_ready-gone (wait ∷ waits) w e stands gone = rw (is_blocked-gone w e stands gone) refl

after_waits-gone :
    (writes : List (Option ℕ)) (turns : List Turn) (w : World) (e : CashElement)
    → element_of w ≡ some e
    → e.is_server_connected ≡ false
    → after_waits goes_on writes turns w ≡ send_all writes w
unfolding after_waits
after_waits-gone writes turns w e stands gone =
    after_wait-gone true writes (serve turns) w e stands gone

-- A reader of an element whose server is gone: how one turn goes.
serve-gone :
    (turn : Turn) (turns : List Turn) (w : World) (e : CashElement)
    → element_of w ≡ some e
    → e.is_server_connected ≡ false
    → serve (turn ∷ turns) w ≡ send_all turn.writes w
serve-gone turn turns w e stands gone =
    serve-turn goes_on turn turns w w (wait_ready-gone turn.waits w e stands gone)
    ∙ after_waits-gone turn.writes turns w e stands gone

get_from_cash-chain :
    (cond : ℕ) (turns : List Turn) (w w1 w2 w3 : World) (bytes : Bytes)
    → update_element (λ e. (add_cond_var cond e, [])) w ≡ some w1
    → serve turns w1 ≡ some (success, bytes, w2)
    → update_element (λ e. (dell_cond_var cond e, [])) w2 ≡ some w3
    → get_from_cash true true cond turns w ≡ some (success, bytes, w3)
unfolding get_from_cash leave
get_from_cash-chain cond turns w w1 w2 w3 bytes first served last = rw (first, served, last) refl

-- Once the server is gone, one turn with rounds enough for what is left is enough: `getFromCash`
-- returns, and the socket has got the rest of the cached response. The conditions are that the mutex
-- can be locked and unlocked and that every write takes the whole chunk.
pub get_from_cash-returns :
    (cond : ℕ) (turn : Turn) (turns : List Turn) (w : World) (e : CashElement)
    → Reads w e
    → e.is_server_connected ≡ false
    → TakesAll turn.writes
    → get_length e ≤ w.buffer.count_byte_read_from_cash + length turn.writes * (buf_size - 1)
    → (w' : World) × (get_from_cash true true cond (turn ∷ turns) w
        ≡ some (success, drop w.buffer.count_byte_read_from_cash e.cash, w'))
get_from_cash-returns cond turn turns w e r gone takes enough =
    let same : (add_cond_var cond e).cash ≡ e.cash = add_cond_var-cash cond e in
    let (w1, run, (g, is_element)) =
      update_element-at (λ e. (add_cond_var cond e, [])) w e r
        ([], same ∙ sym (append-nil e.cash)) in
    let same_cash : g.element.cash ≡ e.cash = ap (λ (x : CashElement). x.cash) is_element ∙ same in
    let still_gone : g.element.is_server_connected ≡ false =
      ap (λ (x : CashElement). x.is_server_connected) is_element
      ∙ add_cond_var-connected cond e
      ∙ gone in
    let (w2, sends, all) =
      send_all-delivers turn.writes w1 g.element g.reads takes
        (rw (ap (λ (l : Bytes). length l) same_cash, g.count) enough) in
    let s : Streams w1 g.element (send_all turn.writes w1) =
      send_all-Streams turn.writes w1 g.element g.reads takes in
    let end : ◌≡◌ {A = Sent} (s.exit, s.bytes, s.after)
        (success, drop w1.buffer.count_byte_read_from_cash g.element.cash, w2) =
      some-inj {A = Sent} (s.exit, s.bytes, s.after)
        (success, drop w1.buffer.count_byte_read_from_cash g.element.cash, w2)
        (sym s.is_result ∙ sends) in
    let r2 : Reads w2 s.element =
      subst (λ (x : World). Reads x s.element) (ap (λ (x : Sent). x.2) end) s.reads in
    let (w3, run3, _) =
      update_element-at (λ e. (dell_cond_var cond e, [])) w2 s.element r2
        ([], dell_cond_var-cash cond s.element ∙ sym (append-nil s.element.cash)) in
    (
      w3,
      get_from_cash-chain cond (turn ∷ turns) w w1 w2 w3 _ run
            (serve-gone turn turns w1 g.element g.reads.stands still_gone ∙ sends) run3
          ∙ ap (λ (k : ℕ). some (success, drop k g.element.cash, w3)) g.count
          ∙ ap (λ (l : Bytes). some (success, drop w.buffer.count_byte_read_from_cash l, w3))
              same_cash,
    )
