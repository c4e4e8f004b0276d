-- ===== src/Lab31v2/Buffer/Sending.antt =====
-- lab31/v2/buffer/BufferImpl.cpp: `sendBuf`, `proofSend` and `isReadyToSend`.
use operating_systems_labs.Base.{
  ℕ, ◌+◌, ◌-◌, Bool, true, false, not, ◌&&◌, Option, some, ◌++◌, Bytes, length, take, drop, ltb,
  leb, ◌==◌, if◌then◌else◌, ◌>>=◌,
}
use operating_systems_labs.Lab32v2.Buffer.{
  read_response, read_request, write_response_heading, end_work, resize, is_empty,
}
use operating_systems_labs.Lab31v2.Constants.{buf_size}
use operating_systems_labs.Lab31v2.Cash.Element.{CashElement}
use operating_systems_labs.Lab31v2.Buffer.State.{Buffer, World, element_of}

-- `resize(n)` and a `memcpy` of n bytes of the source over the string.
unfoldable pub copied : ℕ → Bytes → Bytes → Bytes
copied n source target = take n source ++ drop n (resize n target)

-- The part of the cached response that one send takes.
unfoldable pub send_cached : ℕ → CashElement → Bytes → Bytes
unfolding copied
send_cached count e binary_string =
    if ltb count (length e.cash)
    then (if leb (count + buf_size - 1) (length e.cash)
        then copied (buf_size - 1) (drop count e.cash) binary_string
        else copied (length e.cash - count) (drop count e.cash) binary_string)
    else binary_string

unfoldable pub send_buffered : Bytes → Bytes → Bytes
unfolding copied
send_buffered buf binary_string =
    if leb (buf_size - 1) (length buf)
    then copied (buf_size - 1) buf binary_string
    else copied (length buf) buf binary_string

-- The result is what `*binaryString` holds after the call.
unfoldable pub send_buf : Bytes → World → Option Bytes
unfolding send_cached send_buffered element_of
send_buf binary_string w =
    if w.buffer.is_data_get_cash
    then (do
      e ← element_of w
      some (send_cached w.buffer.count_byte_read_from_cash e binary_string))
    else some (send_buffered w.buffer.buf binary_string)

unfoldable pub proof_send_cached : Bytes → CashElement → Buffer → Buffer
proof_send_cached binary_string e b =
    let count : ℕ = b.count_byte_read_from_cash + length binary_string in
    let b' : Buffer = record b {
      count_byte_read_from_cash = count;
      is_ready_to_send = if length e.cash == count then false else b.is_ready_to_send;
    } in
    if e.is_cash_end
    then record b' { is_end_send = true; status_client = end_work }
    else if e.is_server_connected
    then b'
    else record b' { error = true }

-- The last byte has been sent, and no error is to be told.
unfoldable pub next_stage : Buffer → Buffer
next_stage b = elim b.status_http_server [
  | read_request ↦ record b {
    status_client = read_response;
    status_http_server = write_response_heading;
    is_ready_to_send = false;
    is_end_send = false;
  }
  | _ ↦ elim b.status_client [
    | read_response ↦ record b {
      status_client = end_work;
      status_http_server = end_work;
      is_ready_to_send = false;
      is_end_send = false;
    }
    | _ ↦ record b { is_ready_to_send = false; is_end_send = false }
  ]
]

unfoldable pub ends_in_error : Buffer → Bool
ends_in_error b = elim b.status_client [ read_response ↦ b.error | _ ↦ false ]

unfoldable pub proof_send_buffered : Bytes → Buffer → Buffer
unfolding next_stage ends_in_error
proof_send_buffered binary_string b =
    let b' : Buffer = record b { buf = drop (length binary_string) b.buf } in
    if is_empty b'.buf
    then (if b'.is_end_send
        then (if ends_in_error b' then record b' { status_client = end_work } else next_stage b')
        else record b' { is_ready_to_send = false })
    else b'

unfoldable pub proof_send : Bytes → World → Option World
unfolding proof_send_cached proof_send_buffered element_of
proof_send binary_string w =
    if w.buffer.is_data_get_cash
    then (do
      e ← element_of w
      some (record w { buffer = proof_send_cached binary_string e w.buffer }))
    else some (record w { buffer = proof_send_buffered binary_string w.buffer })

-- `isReadyToSend` may set the flag that it returns.
unfoldable pub is_ready_to_send : World → Option (Bool × World)
unfolding element_of
is_ready_to_send w =
    if not w.buffer.is_ready_to_send && w.buffer.is_data_get_cash
    then (do
      e ← element_of w
      some (
          if ltb w.buffer.count_byte_read_from_cash (length e.cash)
          then (true, record w { buffer = record w.buffer { is_ready_to_send = true } })
          else (false, w)))
    else some (w.buffer.is_ready_to_send, w)
