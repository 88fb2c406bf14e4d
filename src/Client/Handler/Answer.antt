-- ===== src/Client/Handler/Answer.antt =====
-- Where the answer of src/client.cpp to a wrapper comes from.
use dist_build_sys.Base.{
  ◌≡◌, refl, ◌⊎◌, inl, inr, List, ◌∷◌, false, Option, none, some, Bytes, Bool-cases, ◌>>=◌,
}
use dist_build_sys.Base.Int.{is_nonzero}
use dist_build_sys.Ipc.{UnixIpcRequest, UnixIpcResponse}
use dist_build_sys.DepFiles.State.{DepFilesState}
use dist_build_sys.CommandLine.{CompilerCall, new_call, initialize_compiler_call}
use dist_build_sys.Listener.{ServerInfo}
use dist_build_sys.Client.Connect.{ClientTables, remove_client_session}
use dist_build_sys.Client.Session.{ClientSession, LocalOutput}
use dist_build_sys.Client.Handler.{
  ProcessOutput, Handled, is_compile, first_picked, respond, run_locally, dispose, after_session,
  handle_call, handle_ipc_request,
}

-- A request with a command line, once a server is picked and its session answers: the wrapper is answered. The
-- answer is the exit code and the two outputs of the first argument, run as the compiler with all the arguments behind
-- it in the wrapper's directory, or it is the session's own and its
-- exit code is 0: an answer with another exit code is always the local compiler's.
pub handle_ipc_request-run_locally :
    (run : Bytes → Bytes → List Bytes → ProcessOutput) (local : LocalOutput) (flags : DepFilesState)
    (serve : ServerInfo → CompilerCall → Option (ClientTables × ClientSession × UnixIpcResponse))
    (rounds : List (Option ServerInfo)) (request : UnixIpcRequest) (tables : ClientTables)
    → (compiler : Bytes) (line_args : List Bytes) → request.cmd_line_args ≡ compiler ∷ line_args
    → (server : ServerInfo) → first_picked rounds ≡ some server
    → (later : ClientTables) (s : ClientSession) (response : UnixIpcResponse)
    → serve server
        (initialize_compiler_call request.current_working_dir request.cmd_line_args
          (new_call flags)).0
      ≡ some (later, s, response)
    → (h : Handled) × (handle_ipc_request run local flags serve rounds request tables ≡ some h)
      × ((h.response ≡ (
            let out = run request.current_working_dir compiler line_args in
            record {
              compiler_exit_code = out.exit_code;
              stdout_content = out.stdout_str;
              stderr_content = out.stderr_str;
            }))
          ⊎ ((is_nonzero h.response.compiler_exit_code ≡ false) × (h.response ≡ response)))
unfolding handle_ipc_request handle_call run_locally after_session respond
handle_ipc_request-run_locally run local flags serve rounds request tables compiler line_args e
      server picked later s response served =
    let call =
      (initialize_compiler_call request.current_working_dir request.cmd_line_args
        (new_call flags)).0 in
    let here = respond run (run request.current_working_dir compiler line_args) in
    let removed = remove_client_session s.receiver.session_uuid later in
    elim (Bool-cases (is_compile call.compiler_call_type)) [
      | inr other ↦ (
        record { response = here; session = none; tables = tables },
        rw (other, run_locally, e),
        inl refl,
      )
      | inl compile ↦ elim (Bool-cases (is_nonzero response.compiler_exit_code)) [
        | inl failed ↦ (
          record { response = here; session = some (dispose run local s); tables = removed },
          rw (compile, picked, ◌>>=◌, served, ◌>>=◌, failed, run_locally, e),
          inl refl,
        )
        | inr succeeded ↦ (
          record { response = response; session = some (dispose run local s); tables = removed },
          rw (compile, picked, ◌>>=◌, served, ◌>>=◌, succeeded),
          inr (succeeded, refl),
        )
      ]
    ]
