-- ===== src/Ipc/Wrapper.antt =====
-- The wrapper's side, src/distbuild_wrapper.cpp, with its own copies of the byte codecs. The
-- connection is a function from the bytes written to the bytes read; `none` is an exception.
use dist_build_sys.Base.{
  ℕ, ◌+◌, ◌*◌, ◌/◌, ◌%◌, ◌^◌, List, [], ◌∷◌, ◌++◌, Option, none, some, Bytes, length, take, drop,
  leb, if◌then◌else◌, ◌>>=◌, codes,
}
use dist_build_sys.Base.Int.{of_u32, pos}
use dist_build_sys.Ipc.Manager.{read_exactly}
use dist_build_sys.Ipc.{UnixIpcRequest, UnixIpcResponse}

unfoldable pub append_u32 : Bytes → ℕ → Bytes
append_u32 out value =
    out ++ value / 2 ^ 24 % 256 ∷ value / 2 ^ 16 % 256 ∷ value / 2 ^ 8 % 256 ∷ value % 256 ∷ []

unfoldable pub read_u32 : Bytes → Option ℕ
read_u32 (a ∷ b ∷ c ∷ d ∷ _) = some (a * 2 ^ 24 + b * 2 ^ 16 + c * 2 ^ 8 + d)
read_u32 _ = none

unfoldable pub append_string : Bytes → Bytes → Bytes
append_string out s = append_u32 out (length s % 2 ^ 32) ++ s

unfoldable pub read_string : Bytes → ℕ → Option (Bytes × ℕ)
read_string data' offset = do
  len ← read_u32 (drop offset data')
  let rest = drop (offset + 4) data'
  if leb len (length rest) then some (take len rest, offset + 4 + len) else none

unfoldable pub append_args : Bytes → List Bytes → Bytes
append_args out [] = out
append_args out (arg ∷ args) = append_args (append_string out arg) args

unfoldable pub serialize_request : UnixIpcRequest → Bytes
serialize_request req =
    let out = append_string [] req.current_working_dir in
    append_args (append_u32 out (length req.cmd_line_args % 2 ^ 32)) req.cmd_line_args

unfoldable pub deserialize_response : Bytes → Option UnixIpcResponse
deserialize_response data' = do
  exit_code ← read_u32 data'
  (stdout_content, offset) ← read_string data' 4
  (stderr_content, _) ← read_string data' offset
  some (record {
    compiler_exit_code = of_u32 exit_code;
    stdout_content = stdout_content;
    stderr_content = stderr_content;
  })

-- What the `catch` block returns; `what` is the exception's text.
abbrev pub failed_response : Bytes → UnixIpcResponse
failed_response what = record {
  compiler_exit_code = pos 1;
  stdout_content = [];
  stderr_content = codes "distbuild: " ++ what;
}

-- The payload of the framed answer. The inner `none` is a read behind the end of a vector.
unfoldable pub read_response : Bytes → Option (Option UnixIpcResponse)
read_response stream = do
  (size_buf, rest) ← read_exactly 4 stream
  response_size ← read_u32 size_buf
  (response_payload, _) ← read_exactly response_size rest
  some (deserialize_response response_payload)

unfoldable pub or_failed : Bytes → Option (Option UnixIpcResponse) → Option UnixIpcResponse
or_failed what none = some (failed_response what)
or_failed what (some response) = response

unfoldable pub send_request_to_distbuild :
    (Bytes → Option Bytes) → Bytes → UnixIpcRequest → Option UnixIpcResponse
send_request_to_distbuild connection what request =
    let payload = serialize_request request in
    let framed = append_u32 [] (length payload % 2 ^ 32) ++ payload in
    or_failed what (connection framed >>= read_response)
