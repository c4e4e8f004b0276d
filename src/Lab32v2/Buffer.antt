-- ===== src/Lab32v2/Buffer.antt =====
-- lab32v2/buffer: BufferImpl.cpp, the state of one exchange, shared by the user's client and the
-- HTTP server's. The parts: the state, what a read does, what a send does.
mod Tests
mod State
mod Reading
mod Responses
mod Sending
pub mod Statuses
pub mod Stages
pub mod Delivery
pub mod Outcomes
pub mod Requests
pub mod Bodies
pub mod Download
pub use State.{
  StatusHttp, write_request_heading, write_request_body, read_response, read_request,
  write_response_heading, write_response_body, end_work, Buffer, World, Completion, returned,
  parse_exception,
}
pub use State.{start}
unfoldable pub use State.{element_of, update_element}
unfoldable pub use Reading.{
  end_if_read, is_get, refuse_heading, take_from_cash, connect_to_server, begin_request,
  wright_request_heading, wright_request_body,
}
unfoldable pub use Responses.{
  is_cashing_data, end_download, end_if_chunked, begin_cashing, begin_body, cash_response,
  begin_response, wright_response_heading, count_body, keep_body, wright_response_body, take_in,
  choose_handler, read_from_socket,
}
unfoldable pub use Sending.{
  resize, send_cached, send_buffered, send_buf, proof_send_cached, next_stage, ends_in_error,
  is_empty, proof_send_buffered, proof_send, is_ready_to_send,
}
