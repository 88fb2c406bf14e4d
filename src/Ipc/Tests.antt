-- ===== src/Ipc/Tests.antt =====
-- Runs of the socket's codecs, and the theorems at concrete messages.
use dist_build_sys.Base.{◌≡◌, refl, [], ◌∷◌, some, Bytes, codes, arith}
use dist_build_sys.Base.Int.{negsuc}
use dist_build_sys.Ipc.{UnixIpcRequest, UnixIpcResponse}
use dist_build_sys.Ipc.Manager
use dist_build_sys.Ipc.Manager.{replied, closed, fault}
use dist_build_sys.Ipc.Wrapper
use dist_build_sys.Ipc.RoundTrip.{IsSendable, IsReplyable}
use dist_build_sys.Ipc.Exchange.{reply, send_request_to_distbuild-handle_session}

abbrev compile_request : UnixIpcRequest
compile_request = record {
  current_working_dir = codes "/home";
  cmd_line_args = codes "cc" ∷ codes "-c" ∷ [] ∷ [];
}

abbrev crash_response : UnixIpcResponse
crash_response = record {
  compiler_exit_code = negsuc 8;
  stdout_content = codes "out";
  stderr_content = codes "err";
}

compile_request-IsSendable : IsSendable compile_request
compile_request-IsSendable = record {
  cwd_fits = omega arith;
  argc_fits = omega arith;
  args_fit = omega arith;
}

crash_response-IsReplyable : IsReplyable crash_response
crash_response-IsReplyable = record {
  exit_code_fits = omega arith;
  stdout_fits = omega arith;
  stderr_fits = omega arith;
}

send_request_to_distbuild-handle_session_example :
    (Wrapper.send_request_to_distbuild
        (λ framed. reply (Manager.handle_session (λ _. crash_response) 2 framed).1)
        []
        compile_request
      ≡ some crash_response)
    × ((framed : Bytes) → (Manager.handle_session (λ _. crash_response) 2 framed).0 ≡ 2)
unfolding Wrapper.serialize_request Wrapper.append_args Wrapper.append_string Wrapper.append_u32
    Manager.serialize_response Manager.append_string Manager.append_u32
send_request_to_distbuild-handle_session_example =
    send_request_to_distbuild-handle_session (λ _. crash_response) 2 [] compile_request
      (omega arith) compile_request-IsSendable (omega arith) crash_response-IsReplyable
      (omega arith)

-- A stream that ends early is closed without a reply.
early_end : (Manager.handle_session (λ _. crash_response) 0 (0 ∷ 0 ∷ 0 ∷ 9 ∷ 1 ∷ [])).1 ≡ closed
unfolding Manager.handle_session Manager.respond Manager.receive_payload Manager.read_exactly
    Manager.read_u32
early_end = refl

-- A length field that runs over the end of the payload is not checked.
overlong :
    (Manager.handle_session (λ _. crash_response) 0 (0 ∷ 0 ∷ 0 ∷ 4 ∷ 0 ∷ 0 ∷ 0 ∷ 9 ∷ [])).1 ≡ fault
unfolding Manager.handle_session Manager.respond Manager.receive_payload Manager.read_exactly
    Manager.read_u32 Manager.answer Manager.deserialize_request Manager.read_string
overlong = refl
