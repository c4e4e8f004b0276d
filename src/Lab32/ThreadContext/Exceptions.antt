-- ===== src/Lab32/ThreadContext/Exceptions.antt =====
-- Which request ends the process of lab32.
use operating_systems_labs.Base.{
  ◌≡◌, refl, ap, sym, ◌∙◌, ◌≢◌, ◌↔◌, ◌⊎◌, inl, inr, true, none, List, [], ◌∷◌, Bytes, ℕ, ℤ, pos,
  eqb_ℤ, ltb_ℤ, ◌≤◌, length, Occurs, Bool-cases, Option-cases,
}
use operating_systems_labs.Lab32.Constants.{error_code}
use operating_systems_labs.Lab32.CashContext.{CashContext, find_in_cash}
use operating_systems_labs.Lab32.Parser.{parsing_heading}
use operating_systems_labs.Lab32v2.Parser.{host_literal}
use operating_systems_labs.Lab32v2.Parser.Heading.{parsing_heading-none_iff}
use operating_systems_labs.Lab32.ThreadContext.{
  Call, Answers, parse_exception, create_http_socket, exchange, fetch, deliver, handle_request,
  read_response, is_empty,
}
use operating_systems_labs.Lab32.ThreadContext.Requests.{
  exchange-unwritten, exchange-blocked, exchange-answered, fetch-refused, fetch-no_socket,
  fetch-exchange, handle-hit, handle-miss,
}

pub is_empty_iff : (s : Bytes) → (is_empty s ≡ true) ↔ (s ≡ [])
unfolding is_empty
is_empty_iff [] = (λ e. refl, λ e. refl)
is_empty_iff (x ∷ s) = (λ e. cc, λ e. cc)

exchange-no_exception :
    (a : Answers) (cash : CashContext) (client_fd : ℤ) (request : Bytes) (fd : ℤ)
    (calls : List Call)
    → (exchange a cash client_fd request fd calls).outcome ≢ parse_exception
unfolding deliver
exchange-no_exception a cash client_fd request fd calls =
    elim (Bool-cases (ltb_ℤ a.request_write_code (pos 0))) [
      | inl w ↦ rw (exchange-unwritten a cash client_fd request fd calls w) (λ b. cc)
      | inr w ↦ elim (Option-cases (read_response fd a.reads [])) [
        | inl r ↦ rw (exchange-blocked a cash client_fd request fd calls w r) (λ b. cc)
        | inr (result, r) ↦
            rw (exchange-answered a cash client_fd request fd calls result w r) (λ b. cc)
      ]
    ]

fetch-exception_iff :
    (a : Answers) (cash : CashContext) (client_fd : ℤ) (request : Bytes)
    → ((fetch a cash client_fd request).outcome ≡ parse_exception)
      ↔ (parsing_heading request ≡ none)
fetch-exception_iff a cash client_fd request = (
  λ h. elim (Option-cases (parsing_heading request)) [
    | inl p ↦ p
    | inr (res, p) ↦
        elim (Bool-cases (eqb_ℤ (create_http_socket a res.host_name res.port).0 error_code)) [
          | inl e ↦
              let eq : _ =
                ap (λ handled. handled.outcome)
                  (fetch-no_socket a cash client_fd request res p e) in
              absurd (cc)
          | inr e ↦ absurd (
              exchange-no_exception a cash client_fd request
                (create_http_socket a res.host_name res.port).0
                (create_http_socket a res.host_name res.port).1
                (sym (
                    ap (λ handled. handled.outcome)
                      (fetch-exchange a cash client_fd request res p e))
                  ∙ h))
        ]
  ],
  λ p. ap (λ handled. handled.outcome) (fetch-refused a cash client_fd request p),
)

handle_request-exception :
    (a : Answers) (cash : CashContext) (client_fd : ℤ) (request : Bytes)
    → ((handle_request a cash client_fd request).outcome ≡ parse_exception)
      ↔ ((find_in_cash a.find_lock_code cash request ≡ []) × (parsing_heading request ≡ none))
handle_request-exception a cash client_fd request =
    elim (Bool-cases (is_empty (find_in_cash a.find_lock_code cash request))) [
      | inl e ↦ rw (handle-miss a cash client_fd request e) (
        λ h. (
          (is_empty_iff (find_in_cash a.find_lock_code cash request)).0 e,
          (fetch-exception_iff a cash client_fd request).0 h,
        ),
        λ h. (fetch-exception_iff a cash client_fd request).1 h.1,
      )
      | inr e ↦ rw (handle-hit a cash client_fd request e) (
        λ h. absurd (cc),
        λ h.
            let full : _ = (is_empty_iff (find_in_cash a.find_lock_code cash request)).1 h.0 in
            absurd (cc),
      )
    ]

-- handleRequest throws the ParseException, which ends the process since nothing on the thread catches
-- it, exactly when findInCash answers with the empty string and the request is at most three bytes or
-- has "Host: " nowhere.
pub handle_request-exception_iff :
    (a : Answers) (cash : CashContext) (client_fd : ℤ) (request : Bytes)
    → ((handle_request a cash client_fd request).outcome ≡ parse_exception) ↔ (
        (find_in_cash a.find_lock_code cash request ≡ [])
        × ((length request ≤ 3) ⊎ ((k : ℕ) → ¬ Occurs host_literal request k)))
unfolding parsing_heading
handle_request-exception_iff a cash client_fd request =
    let thrown : _ = handle_request-exception a cash client_fd request in
    let refused : _ = parsing_heading-none_iff request in
    (λ h. ((thrown.0 h).0, refused.0 (thrown.0 h).1), λ h. thrown.1 (h.0, refused.1 h.1))
