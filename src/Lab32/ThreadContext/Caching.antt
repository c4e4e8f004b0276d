-- ===== src/Lab32/ThreadContext/Caching.antt =====
-- What a handled request leaves in the cache of lab32.
use operating_systems_labs.Base.{
  ◌≡◌, refl, ap, sym, ◌∙◌, inl, inr, false, List, [], ◌∷◌, ◌++◌, Bytes, ℤ, pos, eqb_ℤ, ltb_ℤ,
  Bool-cases, Option-cases,
}
use operating_systems_labs.Lab32.Constants.{correct_code, error_code}
use operating_systems_labs.Lab32.CashContext.{CashContext, contains, find_in_cash, add_to_cash}
use operating_systems_labs.Lab32.CashContext.History.{
  Addition, find_in_cash-stable, add_all, find-add_to_cash,
}
use operating_systems_labs.Lab32.Parser.{parsing_heading}
use operating_systems_labs.Lab32.ThreadContext.{
  Call, write_bytes, close_socket, Answers, returned, create_http_socket, exchange, fetch, deliver,
  handle_request, read_response, is_empty,
}
use operating_systems_labs.Lab32.ThreadContext.Requests.{
  exchange-unwritten, exchange-blocked, exchange-answered, fetch-refused, fetch-no_socket,
  fetch-exchange, handle-hit, handle-miss,
}
use operating_systems_labs.Lab32.ThreadContext.Exceptions.{is_empty_iff}

exchange-delivered :
    (a : Answers) (cash : CashContext) (client_fd : ℤ) (request : Bytes) (fd : ℤ)
    (calls : List Call)
    → (exchange a cash client_fd request fd calls).outcome ≡ returned correct_code
    → (response : Bytes) × (before : List Call) × (exchange a cash client_fd request fd calls
        ≡ deliver a cash client_fd request response before)
exchange-delivered a cash client_fd request fd calls h =
    elim (Bool-cases (ltb_ℤ a.request_write_code (pos 0))) [
      | inl w ↦ let eq : _ = exchange-unwritten a cash client_fd request fd calls w in absurd (cc)
      | inr w ↦ elim (Option-cases (read_response fd a.reads [])) [
        | inl r ↦ let eq : _ = exchange-blocked a cash client_fd request fd calls w r in absurd (cc)
        | inr (result, r) ↦ (
          result.1,
          (calls ++ write_bytes fd request ∷ []) ++ (result.2 ++ close_socket fd ∷ []),
          exchange-answered a cash client_fd request fd calls result w r,
        )
      ]
    ]

fetch-delivered :
    (a : Answers) (cash : CashContext) (client_fd : ℤ) (request : Bytes)
    → (fetch a cash client_fd request).outcome ≡ returned correct_code
    → (response : Bytes) × (before : List Call) × (fetch a cash client_fd request
        ≡ deliver a cash client_fd request response before)
fetch-delivered a cash client_fd request h = elim (Option-cases (parsing_heading request)) [
  | inl p ↦ let eq : _ = fetch-refused a cash client_fd request p in absurd (cc)
  | inr (res, p) ↦
      let created : ℤ × List Call = create_http_socket a res.host_name res.port in
      elim (Bool-cases (eqb_ℤ created.0 error_code)) [
        | inl e ↦ let eq : _ = fetch-no_socket a cash client_fd request res p e in absurd (cc)
        | inr e ↦
            let eq : fetch a cash client_fd request
                ≡ exchange a cash client_fd request created.0 created.1 =
              fetch-exchange a cash client_fd request res p e in
            let (response, before, delivered) =
              exchange-delivered a cash client_fd request created.0 created.1
                (sym (ap (λ handled. handled.outcome) eq) ∙ h) in
            (response, before, eq ∙ delivered)
      ]
]

bytes_of : Call → Bytes
bytes_of (write_bytes fd bytes) = bytes
bytes_of _ = []

last_from : Bytes → List Call → Bytes
last_from bytes [] = bytes
last_from bytes (call ∷ calls) = last_from (bytes_of call) calls

-- The bytes that the last of the calls writes.
unfoldable pub last_written : List Call → Bytes
unfolding last_from bytes_of
last_written calls = last_from [] calls

last_from-append :
    (start : Bytes) (calls : List Call) (fd : ℤ) (bytes : Bytes)
    → last_from start (calls ++ write_bytes fd bytes ∷ []) ≡ bytes
unfolding last_from bytes_of
last_from-append start [] fd bytes = refl
last_from-append start (x ∷ calls) fd bytes = last_from-append (bytes_of x) calls fd bytes

repeats :
    (a : Answers) (cash : CashContext) (client_fd : ℤ) (request response : Bytes)
    → is_empty response ≡ false
    → find_in_cash a.find_lock_code cash request ≡ response
    → (handle_request a cash client_fd request).calls ≡ write_bytes client_fd response ∷ []
repeats a cash client_fd request response h e =
    ap (λ handled. handled.calls) (handle-hit a cash client_fd request (ap is_empty e ∙ h))
    ∙ ap (λ found. write_bytes client_fd found ∷ []) e

-- A request that is not in the cache, is handled with CORRECT_CODE and gets both locks of the cache is
-- kept: when it comes again, from any client and after any further additions, and gets the lock, no
-- server is asked, and what is written to the client is what the first handling wrote last, provided
-- that this was not empty.
pub handle_request-twice :
    (a b : Answers) (cash : CashContext) (client_fd second_fd : ℤ) (request : Bytes)
    (additions : List Addition)
    → contains (add_all a.additions cash).request_response request ≡ false
    → find_in_cash a.find_lock_code cash request ≡ []
    → (handle_request a cash client_fd request).outcome ≡ returned correct_code
    → a.add_lock_code ≡ correct_code
    → b.find_lock_code ≡ correct_code
    → is_empty (last_written (handle_request a cash client_fd request).calls) ≡ false
    → (handle_request b
        (add_all additions (handle_request a cash client_fd request).cash)
        second_fd
        request).calls
      ≡ write_bytes second_fd (last_written (handle_request a cash client_fd request).calls) ∷ []
unfolding deliver last_written
handle_request-twice a b cash client_fd second_fd request additions absent missed done add_ok
      find_ok full =
    let missing : _ =
      handle-miss a cash client_fd request
        ((is_empty_iff (find_in_cash a.find_lock_code cash request)).1 missed) in
    let (response, before, delivered) =
      fetch-delivered a cash client_fd request
        (sym (ap (λ handled. handled.outcome) missing) ∙ done) in
    let handled : handle_request a cash client_fd request
        ≡ deliver a cash client_fd request response before =
      missing ∙ delivered in
    let kept : CashContext = add_all a.additions cash in
    let last : last_written (handle_request a cash client_fd request).calls ≡ response =
      ap (λ h. last_written h.calls) handled ∙ last_from-append [] before client_fd response in
    let stored : find_in_cash correct_code (handle_request a cash client_fd request).cash request
        ≡ response =
      ap (λ h. find_in_cash correct_code h.cash request) handled
      ∙ (ap (λ code. find_in_cash correct_code (add_to_cash code kept request response) request)
            add_ok
          ∙ find-add_to_cash kept request response absent) in
    let nonempty : is_empty response ≡ false = ap is_empty (sym last) ∙ full in
    let first : CashContext = (handle_request a cash client_fd request).cash in
    let again : find_in_cash correct_code (add_all additions first) request ≡ response =
      find_in_cash-stable additions first request
        (λ e. cc (sym stored ∙ e, nonempty, (is_empty_iff []).1 refl))
      ∙ stored in
    repeats b (add_all additions first) second_fd request response nonempty
      (ap (λ code. find_in_cash code (add_all additions first) request) find_ok ∙ again)
    ∙ ap (λ bytes. write_bytes second_fd bytes ∷ []) (sym last)
