-- ===== src/Lab32/ThreadContext/Sockets.antt =====
-- The rule for the sockets of a client's thread, by which the calls of ThreadContext can be checked:
-- what is opened is connected, written to and read while it is open, and closed once.
use operating_systems_labs.Base.{
  ◌≡◌, refl, ap, ◌∙◌, ◌≢◌, ◌||◌, List, [], ◌∷◌, ◌++◌, Bytes, ℤ, eqb_ℤ, ltb_ℤ, pos, Bool-cases,
  Option-cases, All, arith, if◌then◌else◌, if_true, if_false, inl, inr,
}
use operating_systems_labs.Lab32.Constants.{error_code}
use operating_systems_labs.Lab32.CashContext.{CashContext, find_in_cash}
use operating_systems_labs.Lab32.Parser.{parsing_heading}
use operating_systems_labs.Lab32.ThreadContext.{
  Call, open_socket, connect_socket, write_bytes, close_socket, read_socket, Answers, blocked,
  create_http_socket, exchange, fetch, deliver, handle_request, read_response, is_empty,
}
use operating_systems_labs.Lab32.ThreadContext.Responses.{read_response_correct}
use operating_systems_labs.Lab32.ThreadContext.Requests.{
  exchange-unwritten, exchange-blocked, exchange-answered, fetch-refused, fetch-no_socket,
  fetch-exchange, handle-hit, handle-miss,
}

-- `idle`: only the client's socket is open; `connected fd`: that one and the socket of a server;
-- `client_closed`: none; `misused`: a call has been made on a socket that is not open.
pub data Sockets : Type 0 where
  idle client_closed misused : Sockets
  connected : ℤ → Sockets

module _ (client_fd : ℤ) where
  unfoldable pub call_step : Call → Sockets → Sockets
  call_step (open_socket fd) idle = connected fd
  call_step (connect_socket fd address port) (connected http) =
      if eqb_ℤ fd http then connected http else misused
  call_step (write_bytes fd bytes) idle = if eqb_ℤ fd client_fd then idle else misused
  call_step (write_bytes fd bytes) (connected http) =
      if eqb_ℤ fd http || eqb_ℤ fd client_fd then connected http else misused
  call_step (close_socket fd) idle = if eqb_ℤ fd client_fd then client_closed else misused
  call_step (close_socket fd) (connected http) = if eqb_ℤ fd http then idle else misused
  call_step (read_socket fd) idle = if eqb_ℤ fd client_fd then idle else misused
  call_step (read_socket fd) (connected http) =
      if eqb_ℤ fd http || eqb_ℤ fd client_fd then connected http else misused
  call_step _ _ = misused

  unfoldable pub run_calls : List Call → Sockets → Sockets
  unfolding call_step
  run_calls [] s = s
  run_calls (call ∷ calls) s = run_calls calls (call_step call s)

  pub run_calls-append :
      (xs ys : List Call) (s : Sockets) → run_calls (xs ++ ys) s ≡ run_calls ys (run_calls xs s)
  unfolding run_calls
  run_calls-append [] ys s = refl
  run_calls-append (x ∷ xs) ys s = run_calls-append xs ys (call_step x s)

  pub run_write_idle : (bytes : Bytes) → run_calls (write_bytes client_fd bytes ∷ []) idle ≡ idle
  unfolding run_calls
  run_write_idle bytes = ground arith

  pub run_close_idle : run_calls (close_socket client_fd ∷ []) idle ≡ client_closed
  unfolding run_calls
  run_close_idle = ground arith

  run_write :
      (fd : ℤ) (bytes : Bytes) → run_calls (write_bytes fd bytes ∷ []) (connected fd) ≡ connected fd
  unfolding run_calls
  run_write fd bytes = ground arith

  pub run_read_idle :
      (calls : List Call) → run_calls (read_socket client_fd ∷ calls) idle ≡ run_calls calls idle
  unfolding run_calls
  run_read_idle calls = ap (run_calls calls) own
    where
      own : call_step (read_socket client_fd) idle ≡ idle
      own = ground arith

  run_reads :
      (fd : ℤ) (calls : List Call)
      → All (λ call. call ≡ read_socket fd) calls
      → run_calls calls (connected fd) ≡ connected fd
  unfolding run_calls
  run_reads fd [] h = refl
  run_reads fd (call ∷ calls) h = rw h.0 (ap (run_calls calls) own ∙ run_reads fd calls h.1)
    where
      own : call_step (read_socket fd) (connected fd) ≡ connected fd
      own = ground arith

  run_close : (fd : ℤ) → run_calls (close_socket fd ∷ []) (connected fd) ≡ idle
  unfolding run_calls
  run_close fd = ground arith

  -- What the calls of createHTTPSocket come to.
  create-sockets :
      (a : Answers) (host : Bytes) (port : ℤ)
      → run_calls (create_http_socket a host port).1 idle ≡ (
          if eqb_ℤ (create_http_socket a host port).0 error_code
          then idle
          else connected (create_http_socket a host port).0)
  unfolding create_http_socket run_calls
  create-sockets a host port = elim (Option-cases (a.host_address host)) [
    | inl e ↦ rw (e, create_http_socket, run_calls) refl
    | inr (address, e) ↦ rw (e, create_http_socket, run_calls) (ground arith)
  ]

  run_delivered :
      (fd : ℤ) (calls reads : List Call) (request : Bytes)
      → run_calls calls idle ≡ connected fd
      → All (λ call. call ≡ read_socket fd) reads
      → run_calls ((calls ++ write_bytes fd request ∷ []) ++ (reads ++ close_socket fd ∷ [])) idle
        ≡ idle
  run_delivered fd calls reads request h read =
      run_calls-append (calls ++ write_bytes fd request ∷ []) (reads ++ close_socket fd ∷ []) idle
      ∙ rw (run_calls-append calls (write_bytes fd request ∷ []) idle, h, run_write fd request)
          (run_calls-append reads (close_socket fd ∷ []) (connected fd)
            ∙ rw (run_reads fd reads read) (run_close fd))

  exchange-sockets :
      (a : Answers) (cash : CashContext) (request : Bytes) (fd : ℤ) (calls : List Call)
      → run_calls calls idle ≡ connected fd
      → (exchange a cash client_fd request fd calls).outcome ≢ blocked
      → run_calls (exchange a cash client_fd request fd calls).calls idle ≡ idle
  unfolding deliver
  exchange-sockets a cash request fd calls h answered =
      elim (Bool-cases (ltb_ℤ a.request_write_code (pos 0))) [
        | inl w ↦
            rw (exchange-unwritten a cash client_fd request fd calls w)
              (run_delivered fd calls [] request h tt)
        | inr w ↦ elim (Option-cases (read_response fd a.reads [])) [
          | inl r ↦ absurd (
              answered (
                ap (λ handled. handled.outcome)
                  (exchange-blocked a cash client_fd request fd calls w r)))
          | inr (result, r) ↦
              let done : List Call =
                (calls ++ write_bytes fd request ∷ []) ++ (result.2 ++ close_socket fd ∷ []) in
              rw (exchange-answered a cash client_fd request fd calls result w r) (
                run_calls-append done (write_bytes client_fd result.1 ∷ []) idle
                ∙ rw
                    (run_delivered fd calls result.2 request h
                      (read_response_correct fd a.reads [] result r).1)
                    (run_write_idle result.1))
        ]
      ]

  fetch-sockets :
      (a : Answers) (cash : CashContext) (request : Bytes)
      → (fetch a cash client_fd request).outcome ≢ blocked
      → run_calls (fetch a cash client_fd request).calls idle ≡ idle
  unfolding run_calls
  fetch-sockets a cash request answered = elim (Option-cases (parsing_heading request)) [
    | inl p ↦ rw (fetch-refused a cash client_fd request p) refl
    | inr (res, p) ↦
        let created : ℤ × List Call = create_http_socket a res.host_name res.port in
        let opened : run_calls created.1 idle
            ≡ (if eqb_ℤ created.0 error_code then idle else connected created.0) =
          create-sockets a res.host_name res.port in
        elim (Bool-cases (eqb_ℤ created.0 error_code)) [
          | inl e ↦ rw (fetch-no_socket a cash client_fd request res p e) (opened ∙ if_true _ _ _ e)
          | inr e ↦ rw (fetch-exchange a cash client_fd request res p e) (
              exchange-sockets a cash request created.0 created.1 (opened ∙ if_false _ _ _ e) (λ b.
                answered (
                  ap (λ handled. handled.outcome) (fetch-exchange a cash client_fd request res p e)
                  ∙ b)))
        ]
  ]

  -- When the handling of a request comes to an end, by a return or by the exception, the calls it has
  -- made keep to the rule for sockets: a socket that it opens is connected, written to and read only
  -- while it is open, and is closed once, on every path; and the client's socket is still open.
  pub handle_request-sockets :
      (a : Answers) (cash : CashContext) (request : Bytes)
      → (handle_request a cash client_fd request).outcome ≢ blocked
      → run_calls (handle_request a cash client_fd request).calls idle ≡ idle
  handle_request-sockets a cash request answered =
      elim (Bool-cases (is_empty (find_in_cash a.find_lock_code cash request))) [
        | inl e ↦ rw (handle-miss a cash client_fd request e) (
            fetch-sockets a cash request (λ b.
              answered
                (ap (λ handled. handled.outcome) (handle-miss a cash client_fd request e) ∙ b)))
        | inr e ↦
            rw (handle-hit a cash client_fd request e)
              (run_write_idle (find_in_cash a.find_lock_code cash request))
      ]
