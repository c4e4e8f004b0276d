-- ===== src/Lab32/ThreadContext/Requests.antt =====
-- How the handling of a request comes out: the ways through ThreadContext::handleRequest.
use operating_systems_labs.Base.{
  ◌≡◌, refl, true, false, none, some, List, [], ◌∷◌, ◌++◌, Bytes, ℤ, eqb_ℤ, ltb_ℤ, pos, arith,
  if◌then◌else◌, if_true, if_false,
}
use operating_systems_labs.Lab32.Constants.{correct_code, error_code}
use operating_systems_labs.Lab32.CashContext.{CashContext, find_in_cash}
use operating_systems_labs.Lab32.Parser.{parsing_heading}
use operating_systems_labs.Lab32v2.Parser.{ResultParseHeading}
use operating_systems_labs.Lab32.ThreadContext.{
  Call, write_bytes, close_socket, Answers, returned, parse_exception, blocked, create_http_socket,
  exchange, fetch, deliver, handle_request, read_response, is_empty, send_response,
}
use operating_systems_labs.Lab32.ThreadContext.Responses.{read_response_correct}

module _ (a : Answers) (cash : CashContext) (client_fd : ℤ) (request : Bytes) where
  pub exchange-unwritten :
      (fd : ℤ) (calls : List Call)
      → ltb_ℤ a.request_write_code (pos 0) ≡ true
      → exchange a cash client_fd request fd calls ≡ record {
        outcome = returned error_code;
        cash = cash;
        calls = (calls ++ write_bytes fd request ∷ []) ++ close_socket fd ∷ [];
      }
  unfolding exchange
  exchange-unwritten fd calls w = rw w refl

  pub exchange-blocked :
      (fd : ℤ) (calls : List Call)
      → ltb_ℤ a.request_write_code (pos 0) ≡ false
      → read_response fd a.reads [] ≡ none
      → exchange a cash client_fd request fd calls
        ≡ record { outcome = blocked; cash = cash; calls = calls ++ write_bytes fd request ∷ [] }
  unfolding exchange
  exchange-blocked fd calls w r = rw (w, r) refl

  pub exchange-answered :
      (fd : ℤ) (calls : List Call) (result : ℤ × Bytes × List Call)
      → ltb_ℤ a.request_write_code (pos 0) ≡ false
      → read_response fd a.reads [] ≡ some result
      → exchange a cash client_fd request fd calls
        ≡ deliver a cash client_fd request result.1
            ((calls ++ write_bytes fd request ∷ []) ++ (result.2 ++ close_socket fd ∷ []))
  unfolding exchange
  exchange-answered fd calls result w r =
      rw (w, r, (read_response_correct fd a.reads [] result r).0) refl

  pub fetch-refused :
      parsing_heading request ≡ none
      → fetch a cash client_fd request
        ≡ record { outcome = parse_exception; cash = cash; calls = [] }
  unfolding fetch
  fetch-refused p = rw (p, fetch) refl

  pub fetch-no_socket :
      (res : ResultParseHeading)
      → parsing_heading request ≡ some res
      → eqb_ℤ (create_http_socket a res.host_name res.port).0 error_code ≡ true
      → fetch a cash client_fd request ≡ record {
        outcome = returned error_code;
        cash = cash;
        calls = (create_http_socket a res.host_name res.port).1;
      }
  unfolding fetch
  fetch-no_socket res p e = rw (p, fetch) (if_true _ _ _ e)

  pub fetch-exchange :
      (res : ResultParseHeading)
      → parsing_heading request ≡ some res
      → eqb_ℤ (create_http_socket a res.host_name res.port).0 error_code ≡ false
      → fetch a cash client_fd request
        ≡ exchange a cash client_fd request
            (create_http_socket a res.host_name res.port).0
            (create_http_socket a res.host_name res.port).1
  unfolding fetch
  fetch-exchange res p e = rw (p, fetch) (if_false _ _ _ e)

  pub handle-hit :
      is_empty (find_in_cash a.find_lock_code cash request) ≡ false
      → handle_request a cash client_fd request ≡ record {
        outcome =
            returned (if ltb_ℤ a.response_write_code (pos 0) then error_code else correct_code);
        cash = cash;
        calls = write_bytes client_fd (find_in_cash a.find_lock_code cash request) ∷ [];
      }
  unfolding handle_request send_response
  handle-hit h = ground arith

  pub handle-miss :
      is_empty (find_in_cash a.find_lock_code cash request) ≡ true
      → handle_request a cash client_fd request ≡ fetch a cash client_fd request
  unfolding handle_request
  handle-miss h = rw h refl
