-- ===== src/Lab32/ThreadContext/Progress.antt =====
-- When the handling of a request comes to an end.
use operating_systems_labs.Base.{
  ◌≡◌, ◌≢◌, inl, inr, true, List, [], Bytes, ℤ, pos, eqb_ℤ, leb_ℤ, ltb_ℤ, In, Bool-cases,
  Option-cases,
}
use operating_systems_labs.Lab32.Constants.{error_code}
use operating_systems_labs.Lab32.CashContext.{CashContext, find_in_cash}
use operating_systems_labs.Lab32.Parser.{parsing_heading}
use operating_systems_labs.Lab32.ThreadContext.{
  Read, byte_count, Call, Answers, blocked, handle_request, fetch, exchange, deliver, is_empty,
  read_response, create_http_socket,
}
use operating_systems_labs.Lab32.ThreadContext.Requests.{
  exchange-unwritten, exchange-answered, fetch-refused, fetch-no_socket, fetch-exchange, handle-hit,
  handle-miss,
}
use operating_systems_labs.Lab32.ThreadContext.Responses.{read_response-returns}

-- Among the reads there is the end of the stream or a failure.
unfoldable pub HasStop : List Read → Type 0
HasStop reads = (stop : Read) × In stop reads × (leb_ℤ (byte_count stop) (pos 0) ≡ true)

exchange-answers :
    (a : Answers) (cash : CashContext) (client_fd : ℤ) (request : Bytes) (fd : ℤ)
    (calls : List Call)
    → HasStop a.reads
    → (exchange a cash client_fd request fd calls).outcome ≢ blocked
unfolding deliver HasStop
exchange-answers a cash client_fd request fd calls (stop, at, stops) =
    elim (Bool-cases (ltb_ℤ a.request_write_code (pos 0))) [
      | inl w ↦ rw (exchange-unwritten a cash client_fd request fd calls w) (λ b. cc)
      | inr w ↦ elim (Option-cases (read_response fd a.reads [])) [
        | inl r ↦ absurd (read_response-returns fd a.reads [] stop at stops r)
        | inr (result, r) ↦
            rw (exchange-answered a cash client_fd request fd calls result w r) (λ b. cc)
      ]
    ]

fetch-answers :
    (a : Answers) (cash : CashContext) (client_fd : ℤ) (request : Bytes)
    → HasStop a.reads
    → (fetch a cash client_fd request).outcome ≢ blocked
fetch-answers a cash client_fd request h = elim (Option-cases (parsing_heading request)) [
  | inl p ↦ rw (fetch-refused a cash client_fd request p) (λ b. cc)
  | inr (res, p) ↦
      elim (Bool-cases (eqb_ℤ (create_http_socket a res.host_name res.port).0 error_code)) [
        | inl e ↦ rw (fetch-no_socket a cash client_fd request res p e) (λ b. cc)
        | inr e ↦ rw (fetch-exchange a cash client_fd request res p e) (
            exchange-answers a cash client_fd request
              (create_http_socket a res.host_name res.port).0
              (create_http_socket a res.host_name res.port).1 h)
      ]
]

pub handle_request-answers :
    (a : Answers) (cash : CashContext) (client_fd : ℤ) (request : Bytes)
    → HasStop a.reads
    → (handle_request a cash client_fd request).outcome ≢ blocked
handle_request-answers a cash client_fd request h =
    elim (Bool-cases (is_empty (find_in_cash a.find_lock_code cash request))) [
      | inl e ↦
          rw (handle-miss a cash client_fd request e) (fetch-answers a cash client_fd request h)
      | inr e ↦ rw (handle-hit a cash client_fd request e) (λ b. cc)
    ]
