-- ===== src/Lab32v2/Polling.antt =====
-- lab32v2/server/HandlerOneClientImpl.cpp: the poll loop of the thread that serves one user.
mod State
mod Deleting
mod TestData
mod Tests
mod Steps
mod Handling
mod Turns
pub mod Shapes
pub mod Leaving
pub mod Rounds
pub mod Serving
pub mod Cached
pub mod Connecting
pub mod Overflow
pub mod Relaying
pub mod Delivering
pub use State.{Thread, put_client, world_of, put_world, begin_of, Network}
unfoldable pub use State.{
  in_client, in_clients, buffer_at, in_buffer, next_of, advance, connect_to_client,
}
pub use Deleting.{is_other_connected}
unfoldable pub use Deleting.{
  leave, release, delete_client_server, delete_pairs, leave_pair, delete_client_user, delete_client,
}
pub use Steps.{
  Visit, Outcome, moves, serves, exits, stays, is_end_work, is_read_response, set_in_buffer,
  is_turn,
}
unfoldable pub use Steps.{is_over, is_sent, after_read}
pub use Handling.{delete_and_move}
unfoldable pub use Handling.{
  with_connection, connect_http_server, send_turn, handle_output, handle_rest, handle_bytes,
  handle_input, handle_client,
}
pub use Turns.{
  Pass, passed, returns_true, thread_ends, unfinished, Round, Finish, returns, thread_exits, waits,
}
unfoldable pub use Turns.{
  visit_clients, handling_event, poll_elements, set_poll_set_before_poll, poll_set,
  save_poll_elements, save_result_poll_set, poll_clients, serve_user, start_handler,
}
