-- ===== src/Ipc/RoundTrip.antt =====
-- What one side of the socket writes, the other side reads back.
use dist_build_sys.Base.{
  ◌+◌, ◌%◌, ◌^◌, ◌<◌, ◌≡◌, refl, sym, ◌∙◌, ap, List, [], ◌∷◌, ◌++◌, append_assoc, append-nil,
  flat_map, some, Bytes, length, drop, All, drop-append_add, arith, ◌>>=◌, length-append,
}
use dist_build_sys.Base.Int.{IsInt32, to_u32, of_u32-to_u32, to_u32-lt}
use dist_build_sys.Ipc.{UnixIpcRequest, UnixIpcResponse}
use dist_build_sys.Ipc.Manager
use dist_build_sys.Ipc.Wrapper
use dist_build_sys.Ipc.Codec.{
  Fits, encoded, read_u32-append_u32, length-append_u32, append_string-encoded,
  append_strings-encoded, read_string-encoded, read_strings-encoded, length-encoded,
}

-- What the length fields of a request can hold.
pub record IsSendable (req : UnixIpcRequest) : Type 0 where
  pub cwd_fits : Fits req.current_working_dir
  pub argc_fits : length req.cmd_line_args < 2 ^ 32
  pub args_fit : All Fits req.cmd_line_args

append_args-append_strings :
    (out : Bytes) (args : List Bytes)
    → Wrapper.append_args out args ≡ Manager.append_strings out args
unfolding Wrapper.append_args Wrapper.append_string Wrapper.append_u32 Manager.append_strings
    Manager.append_string Manager.append_u32
append_args-append_strings out [] = refl
append_args-append_strings out (arg ∷ args) =
    append_args-append_strings (Wrapper.append_string out arg) args

serialize_request-encoded :
    (req : UnixIpcRequest)
    → Wrapper.serialize_request req
      ≡ encoded req.current_working_dir
        ++ (Manager.append_u32 [] (length req.cmd_line_args % 2 ^ 32)
            ++ (flat_map encoded req.cmd_line_args ++ []))
unfolding Wrapper.serialize_request Wrapper.append_string Wrapper.append_u32 Manager.append_u32
serialize_request-encoded req =
    append_args-append_strings _ req.cmd_line_args
    ∙ append_strings-encoded _ req.cmd_line_args
    ∙ append_assoc (encoded req.current_working_dir) _ _
    ∙ ap
        (λ t.
          encoded req.current_working_dir
          ++ (Manager.append_u32 [] (length req.cmd_line_args % 2 ^ 32) ++ t))
        (sym (append-nil _))

module _ (cwd : Bytes) (args : List Bytes) where
  count : Bytes
  count = Manager.append_u32 [] (length args % 2 ^ 32)

  payload : Bytes
  payload = encoded cwd ++ (count ++ (flat_map encoded args ++ []))

  read_cwd : Fits cwd → Manager.read_string payload 0 ≡ some (cwd, 4 + length cwd)
  unfolding payload
  read_cwd h = read_string-encoded [] cwd _ 0 refl h

  read_argc :
      length args < 2 ^ 32 → Manager.read_u32 (drop (4 + length cwd) payload) ≡ some (length args)
  unfolding payload count
  read_argc h =
      let e : length args % 2 ^ 32 ≡ length args = omega arith in
      rw
        (
          drop-append_add (encoded cwd) (count ++ (flat_map encoded args ++ [])) 0 (4 + length cwd)
              (omega (arith, length-encoded cwd)),
          e,
        )
        (read_u32-append_u32 (length args) _ h)

  read_args :
      All Fits args → Manager.read_strings (length args) payload (4 + length cwd + 4) [] ≡ some args
  unfolding payload
  read_args h = rw (sym (append_assoc (encoded cwd) count (flat_map encoded args ++ []))) (
      read_strings-encoded args [] (encoded cwd ++ count) [] (4 + length cwd + 4)
        (unfold count in
          omega (
            arith,
            length-append (encoded cwd) count,
            length-encoded cwd,
            length-append_u32 (length args % 2 ^ 32),
          ))
        h)

-- The daemon reads from the wrapper's payload the very request that the wrapper was given, if
-- each string and the number of arguments fit the 32-bit length fields.
pub deserialize_request-serialize_request :
    (req : UnixIpcRequest)
    → IsSendable req
    → Manager.deserialize_request (Wrapper.serialize_request req) ≡ some req
unfolding Manager.deserialize_request payload count
deserialize_request-serialize_request req h =
    let cwd = req.current_working_dir in
    let args = req.cmd_line_args in
    rw (
      serialize_request-encoded req,
      read_cwd cwd args h.cwd_fits,
      ◌>>=◌,
      read_argc cwd args h.argc_fits,
      read_args cwd args h.args_fit,
    )

response_head : UnixIpcResponse → Bytes
response_head resp = Manager.append_u32 [] (to_u32 resp.compiler_exit_code)

serialize_response-encoded :
    (resp : UnixIpcResponse)
    → Manager.serialize_response resp
      ≡ response_head resp ++ (encoded resp.stdout_content ++ (encoded resp.stderr_content ++ []))
unfolding Manager.serialize_response response_head
serialize_response-encoded resp =
    rw (append_string-encoded, append_string-encoded, append_nil')
      (append_assoc (response_head resp) (encoded resp.stdout_content)
        (encoded resp.stderr_content))
  where
    append_nil' : encoded resp.stderr_content ++ [] ≡ encoded resp.stderr_content
    append_nil' = append-nil _

module _ (resp : UnixIpcResponse) where
  abbrev out_part : Bytes
  out_part = encoded resp.stdout_content

  abbrev err_part : Bytes
  err_part = encoded resp.stderr_content

  read_out :
      Fits resp.stdout_content
      → Wrapper.read_string (response_head resp ++ (out_part ++ (err_part ++ []))) 4
        ≡ some (resp.stdout_content, 4 + 4 + length resp.stdout_content)
  unfolding Wrapper.read_string Wrapper.read_u32 Manager.read_string Manager.read_u32 response_head
  read_out h =
      read_string-encoded (response_head resp) resp.stdout_content (err_part ++ []) 4
        (sym (length-append_u32 _)) h

  read_err :
      Fits resp.stderr_content
      → Wrapper.read_string
          (response_head resp ++ (out_part ++ (err_part ++ [])))
          (4 + 4 + length resp.stdout_content)
        ≡ some (
          resp.stderr_content,
          4 + 4 + length resp.stdout_content + 4 + length resp.stderr_content,
        )
  unfolding Wrapper.read_string Wrapper.read_u32 Manager.read_string Manager.read_u32
  read_err h = rw (sym (append_assoc (response_head resp) out_part (err_part ++ []))) (
      read_string-encoded (response_head resp ++ out_part) resp.stderr_content [] _
        (unfold response_head in
          omega (
            arith,
            length-append (response_head resp) out_part,
            length-encoded resp.stdout_content,
            length-append_u32 (to_u32 resp.compiler_exit_code),
          ))
        h)

-- What the length fields of a response can hold.
pub record IsReplyable (resp : UnixIpcResponse) : Type 0 where
  pub exit_code_fits : IsInt32 resp.compiler_exit_code
  pub stdout_fits : Fits resp.stdout_content
  pub stderr_fits : Fits resp.stderr_content

-- The wrapper reads from the daemon's payload the very response that the daemon serialized, exit
-- code, standard output and standard error each in its place, if the exit code is a 32-bit
-- integer and each text fits its 32-bit length field.
pub deserialize_response-serialize_response :
    (resp : UnixIpcResponse)
    → IsReplyable resp
    → Wrapper.deserialize_response (Manager.serialize_response resp) ≡ some resp
unfolding Wrapper.deserialize_response
deserialize_response-serialize_response resp h = rw (
  serialize_response-encoded resp,
  read_head,
  ◌>>=◌,
  read_out resp h.stdout_fits,
  read_err resp h.stderr_fits,
  of_u32-to_u32 resp.compiler_exit_code h.exit_code_fits,
)
  where
    read_head :
        Wrapper.read_u32 (response_head resp ++ (out_part resp ++ (err_part resp ++ [])))
        ≡ some (to_u32 resp.compiler_exit_code)
    read_head =
        unfold Wrapper.read_u32 Manager.read_u32 response_head in
        read_u32-append_u32 _ _ (to_u32-lt resp.compiler_exit_code)
