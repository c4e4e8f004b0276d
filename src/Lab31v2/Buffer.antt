-- ===== src/Lab31v2/Buffer.antt =====
-- lab31/v2/buffer: BufferImpl.cpp, the state of one exchange, shared by the user's client and the
-- HTTP server's.
mod Tests
mod State
mod Reading
mod Responses
mod Sending
pub mod Counting
pub mod Agreement
pub mod Bodies
pub mod Download
pub mod Cached
pub use State.{Buffer, World, new_buffer}
unfoldable pub use State.{element_of, update_element}
unfoldable pub use Reading.{
  refuse_heading, end_if_read, connect_to_server, wright_request_body, take_from_cash,
  begin_request, wright_request_heading,
}
unfoldable pub use Responses.{
  is_cashing_data, end_cash, end_if_chunked, set_left, begin_body, keep_body, count_body,
  wright_response_body, begin_cashing, cash_response, begin_response, wright_response_heading,
  choose_handler, read_from_socket,
}
unfoldable pub use Sending.{
  copied, send_cached, send_buffered, send_buf, proof_send_cached, next_stage, proof_send_buffered,
  proof_send, is_ready_to_send,
}
