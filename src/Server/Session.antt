-- ===== src/Server/Session.antt =====
-- `ServerSession` of src/server_session.hpp and src/server_session.cpp: its state, the request for a
-- compilation and the publication of its result. A pointer into the client's map of file states is
-- the path that is its key; entries are never erased, so no pointer dangles. The compiler's name is
-- that of the server's configuration.
pub mod Launch
use dist_build_sys.Base.{
  ℕ, List, [], ◌∷◌, ◌++◌, Bool, true, false, not, ◌&&◌, Option, none, some, Bytes, all,
  if◌then◌else◌,
}
use dist_build_sys.Base.Int.{ℤ, pos}
use dist_build_sys.Base.Dict.{Dict, lookup}
use dist_build_sys.Compiler.{
  CompilerManager, CompilationOutput, CompilationRequest, add_compilation_request,
}
use dist_build_sys.Server.Files.{FileStateView, is_available}
use dist_build_sys.Server.Upload.{FileTransferState}

pub record ServerSession : Type 0 where
  pub session_uuid : Bytes
  pub terminated : Bool
  pub are_args_ready : Bool
  pub is_compiler_running : Bool
  pub required_files_state : List Bytes
  pub file_transfer_states : Dict FileTransferState
  pub in_src_file : Bytes
  pub compiler_name : Bytes
  pub current_working_dir : Bytes
  pub cmd_line_args : List Bytes
  pub out_obj_file : Bytes
  pub compiler_exit_code : ℤ
  pub compiler_stdout : Bytes
  pub compiler_stderr : Bytes
  pub compile_duration : ℤ

-- The constructor. Members that it leaves out start empty.
unfoldable pub new_session : Bytes → Bytes → Bytes → Bytes → ServerSession
new_session session_uuid view_dir client_source_file compiler_bin = record {
  session_uuid = session_uuid;
  terminated = false;
  are_args_ready = false;
  is_compiler_running = false;
  required_files_state = [];
  file_transfer_states = [];
  in_src_file = client_source_file;
  compiler_name = compiler_bin;
  current_working_dir = view_dir;
  cmd_line_args = [];
  out_obj_file = [];
  compiler_exit_code = pos 0;
  compiler_stdout = [];
  compiler_stderr = [];
  compile_duration = pos 0;
}

-- `add_required_file_state`
unfoldable pub add_required_file_state : Bytes → ServerSession → ServerSession
add_required_file_state path s = record s {
  required_files_state = s.required_files_state ++ path ∷ [];
}

pub file_ready : Dict FileStateView → Bytes → Bool
file_ready states path = elim (lookup path states) [
  | none ↦ false
  | some file_state ↦ is_available file_state.file_status
]

-- The two tests at the head of `try_request_src_compilation`.
pub may_compile : Dict FileStateView → ServerSession → Bool
unfolding file_ready
may_compile states s = s.are_args_ready && all (file_ready states) s.required_files_state

unfoldable pub compilation_request : ServerSession → CompilationRequest
compilation_request s = record {
  invalidated = false;
  requester_session = s.session_uuid;
  compiler_name = s.compiler_name;
  cmd_line_args = s.cmd_line_args;
  current_working_dir = s.current_working_dir;
}

-- `try_request_src_compilation`; its two branches differ only in the lock that they take.
unfoldable pub try_request_src_compilation :
    Dict FileStateView → ServerSession → CompilerManager → ServerSession × CompilerManager
try_request_src_compilation states s m =
    if may_compile states s && not s.is_compiler_running
    then (
      record s { is_compiler_running = true },
      add_compilation_request (compilation_request s) m,
    )
    else (s, m)

-- The part of `publish_compilation_results` under the mutex.
store_results : CompilationOutput → ServerSession → ServerSession
store_results out s = record s {
  compiler_exit_code = out.exit_code;
  compiler_stdout = out.stdout_data;
  compiler_stderr = out.stderr_data;
  compile_duration = out.compiling_duration;
}
