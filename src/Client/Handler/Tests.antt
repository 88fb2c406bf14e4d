-- ===== src/Client/Handler/Tests.antt =====
-- A request whose remote compilation fails, and is run again where the wrapper is.
use dist_build_sys.Base.{◌≡◌, refl, ◌⊎◌, List, [], ◌∷◌, false, Option, none, some, Bytes, codes}
use dist_build_sys.Base.Int.{pos, is_nonzero}
use dist_build_sys.Ipc.{UnixIpcRequest, UnixIpcResponse}
use dist_build_sys.DepFiles.State.{DepFilesState}
use dist_build_sys.CommandLine.{CompilerCall}
use dist_build_sys.Listener.{ServerInfo}
use dist_build_sys.Client.Session.{ClientSession, LocalOutput}
use dist_build_sys.Client.Connect.{ClientTables, new_client_session}
use dist_build_sys.Client.Handler.{ProcessOutput, Handled, first_picked, handle_ipc_request}
use dist_build_sys.Client.Handler.Answer.{handle_ipc_request-run_locally}

abbrev request : UnixIpcRequest
request = record {
  current_working_dir = codes "/s";
  cmd_line_args = codes "/usr/bin/g++" ∷ codes "m.cc" ∷ codes "-o" ∷ codes "m.o" ∷ [];
}

abbrev run : Bytes → Bytes → List Bytes → ProcessOutput
run start_dir compiler line_args = record {
  exit_code = pos 1;
  stdout_str = [];
  stderr_str = start_dir;
}

abbrev local_output : LocalOutput
local_output = record {
  compiler_exit_code = pos 0;
  stdout_str = [];
  stderr_str = [];
  compilation_duration = pos 1;
}

abbrev flags : DepFilesState
flags = record {
  md_flag_present = false;
  mmd_flag_present = false;
  mp_flag_present = false;
  mf_flag_path = [];
  mt_flag_paths = [];
}

abbrev server : ServerInfo
server = record {
  server_uuid = codes "v";
  server_ip = codes "10.0.0.1";
  server_port = 80;
  available_jobs = 1;
  last_seen = 0;
}

abbrev no_tables : ClientTables
no_tables = record { client_sessions = []; client_compiler_calls = [] }

abbrev failed : UnixIpcResponse
failed = record { compiler_exit_code = pos 2; stdout_content = []; stderr_content = [] }

abbrev serve : ServerInfo → CompilerCall → Option (ClientTables × ClientSession × UnixIpcResponse)
serve node call = some (no_tables, new_client_session (codes "u") (codes "id") [], failed)

handle_ipc_request-run_locally_example :
    (h : Handled) × (handle_ipc_request run local_output flags serve
        (none ∷ some server ∷ [])
        request
        no_tables
      ≡ some h)
    × ((h.response ≡ (
          let out =
            run
              (codes "/s")
              (codes "/usr/bin/g++")
              (codes "m.cc" ∷ codes "-o" ∷ codes "m.o" ∷ []) in
          record {
            compiler_exit_code = out.exit_code;
            stdout_content = out.stdout_str;
            stderr_content = out.stderr_str;
          }))
        ⊎ ((is_nonzero h.response.compiler_exit_code ≡ false) × (h.response ≡ failed)))
unfolding first_picked
handle_ipc_request-run_locally_example =
    handle_ipc_request-run_locally run local_output flags serve (none ∷ some server ∷ []) request
      no_tables (codes "/usr/bin/g++") (codes "m.cc" ∷ codes "-o" ∷ codes "m.o" ∷ []) refl server
      refl no_tables (new_client_session (codes "u") (codes "id") []) failed refl
