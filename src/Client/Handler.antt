-- ===== src/Client/Handler.antt =====
-- `Client::_handle_ipc_request` of src/client.cpp: how a wrapper's request is answered. What a process does, and
-- the tables, the session and its answer after `connect_to_server` and `retrieve_unix_ipc_response`, are arguments. `none` is a loop that still
-- waits for a server, a session without an answer, or the fault of a command line without a compiler.
pub mod Answer
mod Tests
use dist_build_sys.Base.{
  List, [], ◌∷◌, Bool, true, false, Option, none, some, Bytes, if◌then◌else◌, ◌>>=◌,
}
use dist_build_sys.Base.Int.{ℤ, is_nonzero}
use dist_build_sys.Ipc.{UnixIpcRequest, UnixIpcResponse}
use dist_build_sys.DepFiles.State.{DepFilesState}
use dist_build_sys.CommandLine.{
  CallType, call_type_compile, call_type_link, call_type_count, CompilerCall, new_call,
  initialize_compiler_call,
}
use dist_build_sys.Listener.{ServerInfo}
use dist_build_sys.Client.Connect.{ClientTables, remove_client_session}
use dist_build_sys.Client.Session.{
  ClientSession, LocalOutput, send_abort_to_server, terminate_client_session,
}

pub record ProcessOutput : Type 0 where
  pub exit_code : ℤ
  pub stdout_str : Bytes
  pub stderr_str : Bytes

-- The answer, the session that was disposed of, and the client's tables after that.
pub record Handled : Type 0 where
  pub response : UnixIpcResponse
  pub session : Option ClientSession
  pub tables : ClientTables

unfoldable pub is_compile : CallType → Bool
is_compile call_type_compile = true
is_compile call_type_link = false
is_compile call_type_count = false

-- The rounds of the loop that asks for a server.
unfoldable pub first_picked : List (Option ServerInfo) → Option ServerInfo
first_picked [] = none
first_picked (some server ∷ rounds) = some server
first_picked (none ∷ rounds) = first_picked rounds

-- The child processes are started in a directory, by name and arguments.
module _ (run : Bytes → Bytes → List Bytes → ProcessOutput) where
  unfoldable pub respond : ProcessOutput → UnixIpcResponse
  respond out = record {
    compiler_exit_code = out.exit_code;
    stdout_content = out.stdout_str;
    stderr_content = out.stderr_str;
  }

  -- The original command line, unchanged.
  unfoldable pub run_locally : Bytes → List Bytes → Option UnixIpcResponse
  run_locally start_dir [] = none
  run_locally start_dir (compiler ∷ line_args) = some (respond (run start_dir compiler line_args))

  unfoldable pub dispose : LocalOutput → ClientSession → ClientSession
  dispose local s = terminate_client_session local (send_abort_to_server local s)

  -- What follows the retrieved answer.
  unfoldable pub after_session :
      LocalOutput → UnixIpcRequest → ClientTables × ClientSession × UnixIpcResponse → Option Handled
  after_session local request (tables, s, response) =
      let removed = remove_client_session s.receiver.session_uuid tables in
      let again = run_locally request.current_working_dir request.cmd_line_args >>= λ r.
      some (record { response = r; session = some (dispose local s); tables = removed }) in
      if is_nonzero response.compiler_exit_code
      then again
      else some (record { response = response; session = some (dispose local s); tables = removed })

  module _ (local : LocalOutput) (flags : DepFilesState)
      (serve : ServerInfo
        → CompilerCall
        → Option (ClientTables × ClientSession × UnixIpcResponse)) where
    unfoldable pub handle_call :
        List (Option ServerInfo) → UnixIpcRequest → ClientTables → CompilerCall → Option Handled
    handle_call rounds request tables call =
        let remote = first_picked rounds >>= λ server.
        serve server call >>= λ served. after_session local request served in
        let here = run_locally request.current_working_dir request.cmd_line_args >>= λ r.
        some (record { response = r; session = none; tables = tables }) in
        if is_compile call.compiler_call_type then remote else here

    -- The answer of `initialize_compiler_call` is not looked at.
    unfoldable pub handle_ipc_request :
        List (Option ServerInfo) → UnixIpcRequest → ClientTables → Option Handled
    handle_ipc_request rounds request tables =
        handle_call rounds request tables
          (initialize_compiler_call request.current_working_dir request.cmd_line_args
            (new_call flags)).0
