-- ===== src/Ipc/Manager.antt =====
-- `UnixIpcManager` of src/unix_ipc_socket.hpp. A `std::vector<uint8_t>` is a list of numbers below
-- 256. `none` stands for a read behind the end of the vector, which the source does not check.
use dist_build_sys.Base.{
  ℕ, zero, suc, ◌+◌, ◌-◌, ◌*◌, ◌/◌, ◌%◌, ◌^◌, List, [], ◌∷◌, ◌++◌, Option, none, some, Bytes,
  length, take, drop, leb, if◌then◌else◌, ◌>>=◌,
}
use dist_build_sys.Base.Int.{to_u32}
use dist_build_sys.Ipc.{UnixIpcRequest, UnixIpcResponse}

-- `(value >> 24) & 0xFF` and so on, most significant byte first.
unfoldable pub append_u32 : Bytes → ℕ → Bytes
append_u32 out value =
    out ++ value / 2 ^ 24 % 256 ∷ value / 2 ^ 16 % 256 ∷ value / 2 ^ 8 % 256 ∷ value % 256 ∷ []

-- The four shifted bytes have no bit in common, so `|` is `+`. The argument is the pointer.
unfoldable pub read_u32 : Bytes → Option ℕ
read_u32 (a ∷ b ∷ c ∷ d ∷ _) = some (a * 2 ^ 24 + b * 2 ^ 16 + c * 2 ^ 8 + d)
read_u32 _ = none

unfoldable pub append_string : Bytes → Bytes → Bytes
append_string out s = append_u32 out (length s % 2 ^ 32) ++ s

-- The text, and the offset behind it.
unfoldable pub read_string : Bytes → ℕ → Option (Bytes × ℕ)
read_string data' offset = do
  len ← read_u32 (drop offset data')
  let rest = drop (offset + 4) data'
  if leb len (length rest) then some (take len rest, offset + 4 + len) else none

unfoldable pub append_strings : Bytes → List Bytes → Bytes
append_strings out [] = out
append_strings out (arg ∷ args) = append_strings (append_string out arg) args

pub serialize_request : UnixIpcRequest → Bytes
unfolding append_strings
serialize_request req =
    let out = append_string [] req.current_working_dir in
    append_strings (append_u32 out (length req.cmd_line_args % 2 ^ 32)) req.cmd_line_args

-- `for (i = 0; i < argc; ++i) args.push_back(_read_string(data, offset))`
unfoldable pub read_strings : ℕ → Bytes → ℕ → List Bytes → Option (List Bytes)
read_strings zero data' offset args = some args
read_strings (suc left) data' offset args = do
  (s, offset') ← read_string data' offset
  read_strings left data' offset' (args ++ s ∷ [])

unfoldable pub deserialize_request : Bytes → Option UnixIpcRequest
deserialize_request data' = do
  (cwd, offset) ← read_string data' 0
  argc ← read_u32 (drop offset data')
  args ← read_strings argc data' (offset + 4) []
  some (record { current_working_dir = cwd; cmd_line_args = args })

unfoldable pub serialize_response : UnixIpcResponse → Bytes
serialize_response resp =
    append_string
      (append_string (append_u32 [] (to_u32 resp.compiler_exit_code)) resp.stdout_content)
      resp.stderr_content

-- How a connection ends: with a reply, by an exception (the stream ended early), or in a read
-- behind the end of the payload.
pub data Served : Type 0 where
  replied : Bytes → Served
  closed : Served
  fault : Served

-- `async_read` of a buffer of `n` bytes: an end of the stream before that throws.
unfoldable pub read_exactly : ℕ → Bytes → Option (Bytes × Bytes)
read_exactly n stream = if leb n (length stream) then some (take n stream, drop n stream) else none

unfoldable pub answer : (UnixIpcRequest → UnixIpcResponse) → Option UnixIpcRequest → Served
answer handler none = fault
answer handler (some request) =
    let response_data = serialize_response (handler request) in
    replied (append_u32 [] (length response_data % 2 ^ 32) ++ response_data)

unfoldable pub receive_payload : Bytes → Option Bytes
receive_payload stream = do
  (size_buf, rest) ← read_exactly 4 stream
  payload_size ← read_u32 size_buf
  (payload, _) ← read_exactly payload_size rest
  some payload

unfoldable pub respond : (UnixIpcRequest → UnixIpcResponse) → Option Bytes → Served
respond handler none = closed
respond handler (some payload) = answer handler (deserialize_request payload)

-- The number of active connections comes back with the outcome.
unfoldable pub handle_session : (UnixIpcRequest → UnixIpcResponse) → ℕ → Bytes → ℕ × Served
handle_session handler active stream =
    let active' = (active + 1) % 2 ^ 32 in
    ((active' + (2 ^ 32 - 1)) % 2 ^ 32, respond handler (receive_payload stream))
