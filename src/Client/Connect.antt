-- ===== src/Client/Connect.antt =====
-- `Client::connect_to_server` and `Client::remove_client_session` of src/client.cpp, with
-- `ClientSession::start_client_session` of src/client_session.cpp. A UUID is its text. `none` is an exception: of
-- the size of a source that is no regular file, or of a session's identifier that is no UUID; it also stands for a
-- fuel of the search for headers that ran out. The hash function, `weakly_canonical` and what a local
-- compilation gives are arguments. The message loop of the session is src/client_session.cpp's, in Client.Session.
pub mod Request
pub mod Tables
mod Tests
use dist_build_sys.Base.{
  ℕ, List, [], ◌∷◌, ◌++◌, Bool, true, false, Option, none, some, Bytes, codes, length, map, ◌>>=◌,
}
use dist_build_sys.Base.Int.{pos}
use dist_build_sys.Base.Dict.{Dict, lookup, insert, erase, try_emplace}
use dist_build_sys.Paths.{join}
use dist_build_sys.Messages.{FileInfo, ClientSessionStartRequest, ClientMessage, ServerMessage}
use dist_build_sys.IncludeDirs.{CmdLineIncludeDirs, cnvt_to_cmd_line_args}
use dist_build_sys.Includes.Cache.{IncludeInfo, IncludesCache}
use dist_build_sys.Includes.Parser.{FileSystem}
use dist_build_sys.Includes.Dependencies.{Collected, collect_src_file_dependencies}
use dist_build_sys.CommandLine.{CompilerCall, set_dirs}
use dist_build_sys.Client.ReceiveObject.{ObjFileTransferState, ObjectReceiver}
use dist_build_sys.Client.Session.{
  ClientSession, LocalOutput, perform_local_compilation, send_abort_to_server,
  terminate_client_session,
}

-- The text of `boost::uuids::uuid{0}`.
abbrev pub nil_uuid : Bytes
nil_uuid = codes "00000000-0000-0000-0000-000000000000"

unfoldable pub header_file_info : IncludeInfo → FileInfo
header_file_info info = record {
  filename = info.file_path;
  filesize = info.include_sz_bytes;
  filehash = info.include_hash;
}

-- What the client has read when it makes its request: the request, and what the search for headers left.
pub record Prepared : Type 0 where
  pub request : ClientSessionStartRequest
  pub collected : Collected

unfoldable pub start_request :
    Bytes → FileInfo → CompilerCall → List IncludeInfo → ClientSessionStartRequest
start_request client_uuid source call dependencies = record {
  client_id = client_uuid;
  client_working_dir = call.current_working_dir;
  client_source_file = call.input_src_file;
  client_compiler = call.compiler_type;
  client_cmd_line_args = call.cmd_line_args;
  client_idirs = cnvt_to_cmd_line_args call.cmd_line_include_dirs;
  required_files_info = source ∷ map header_file_info dependencies;
}

module _ (sha1 : Bytes → Bytes) (fs : FileSystem) where
  unfoldable pub read_source_info : Bytes → Option Bytes → Option FileInfo
  read_source_info path none = none
  read_source_info path (some content) = elim (fs.is_directory path) [
    | true ↦ none
    | false ↦ some (record { filename = path; filesize = length content; filehash = sha1 content })
  ]

  -- The block under the mutex. The options of the directories are those from before the system's are appended.
  unfoldable pub prepare_request :
      ℕ → Bytes → CompilerCall → IncludesCache → CmdLineIncludeDirs → Option Prepared
  prepare_request fuel client_uuid call cache system_include_dirs =
      read_source_info call.input_src_file (lookup call.input_src_file fs.files) >>= λ source.
      collect_src_file_dependencies sha1 fs fuel call.cmd_line_include_dirs cache
        call.input_src_file system_include_dirs
      >>= λ collected. some record {
        request = start_request client_uuid source call collected.include_dependencies;
        collected = collected;
      }

-- The constructor of a session. It sets no identifier: the one that is there until the session is confirmed is an
-- argument. The files are those of the client's disk.
unfoldable pub new_client_session : Bytes → Bytes → Dict Bytes → ClientSession
new_client_session unset_uuid client_uuid files = record {
  receiver = record {
    session_uuid = unset_uuid;
    transfer = none;
    files = files;
    call_duration = pos 0;
    exit_code = pos 0;
    stdout_content = [];
    stderr_content = [];
    published = [];
  };
  client_uuid = client_uuid;
  terminated = false;
  required_files = [];
  req_files_send_idx = 0;
  sent = [];
}

-- `send_msg(session_start_rqst)`
unfoldable pub send_start : ClientSessionStartRequest → ClientSession → ClientSession
send_start request s = record {
  receiver = s.receiver;
  client_uuid = s.client_uuid;
  terminated = s.terminated;
  required_files = s.required_files;
  req_files_send_idx = s.req_files_send_idx;
  sent = s.sent ++ ClientMessage.session_start request ∷ [];
}

-- A confirmed session: the object file is opened, and so emptied.
unfoldable pub confirm_session : Bytes → Bytes → List Bytes → ClientSession → ClientSession
confirm_session uuid object_file required_files s = record {
  receiver = record {
    session_uuid = uuid;
    transfer = some (record { is_finished = false; session_id = uuid; filename = object_file });
    files = insert object_file [] s.receiver.files;
    call_duration = s.receiver.call_duration;
    exit_code = s.receiver.exit_code;
    stdout_content = s.receiver.stdout_content;
    stderr_content = s.receiver.stderr_content;
    published = s.receiver.published;
  };
  client_uuid = s.client_uuid;
  terminated = s.terminated;
  required_files = required_files;
  req_files_send_idx = s.req_files_send_idx;
  sent = s.sent;
}

-- `_client_sessions` and `_client_compiler_calls`
pub record ClientTables : Type 0 where
  pub client_sessions : Dict ClientSession
  pub client_compiler_calls : Dict CompilerCall

unfoldable pub store_session : Bytes → ClientSession → CompilerCall → ClientTables → ClientTables
store_session uuid s call tables = record {
  client_sessions = try_emplace uuid s tables.client_sessions;
  client_compiler_calls = try_emplace uuid call tables.client_compiler_calls;
}

-- `remove_client_session`
unfoldable pub remove_client_session : Bytes → ClientTables → ClientTables
remove_client_session uuid tables = record {
  client_sessions = erase uuid tables.client_sessions;
  client_compiler_calls = erase uuid tables.client_compiler_calls;
}

module _ (parse_uuid : Bytes → Option Bytes) (weakly_canonical : Bytes → Bytes) where
  -- What follows the server's answer in `start_client_session`; the identifier is set if it is confirmed.
  unfoldable pub start_client_session :
      CompilerCall → ServerMessage → ClientSession → Option (ClientSession × Option Bytes)
  start_client_session call (ServerMessage.session_confirmed session_id required_files) s =
      parse_uuid session_id >>= λ uuid. some (
        confirm_session uuid (weakly_canonical (join call.current_working_dir call.output_obj_file))
            required_files s,
        some uuid,
      )
  start_client_session call (ServerMessage.session_abort session_id) s = some (s, none)
  start_client_session call (ServerMessage.file_up_complete session_id filename success) s =
      some (s, none)
  start_client_session call (ServerMessage.all_req_up_complete session_id) s = some (s, none)
  start_client_session call (ServerMessage.obj_file_chunk_transmit msg) s = some (s, none)
  start_client_session call ServerMessage.none_set s = some (s, none)

-- The session without the server: it aborts, ends and compiles locally.
unfoldable pub give_up : LocalOutput → ClientSession → ClientSession
give_up local s =
    perform_local_compilation local (terminate_client_session local (send_abort_to_server local s))

-- The rest of `connect_to_server`: the tables, and the session that the returned pointer leads to. To terminate
-- a session removes what stands under its identifier, also if that was never set.
unfoldable pub conclude_connection :
    LocalOutput
    → CompilerCall
    → ClientTables
    → ClientSession × Option Bytes
    → ClientTables × Option ClientSession
conclude_connection local call tables (s, some uuid) =
    let stored = store_session uuid s call tables in (stored, lookup uuid stored.client_sessions)
conclude_connection local call tables (s, none) =
    let removed = remove_client_session s.receiver.session_uuid tables in
    let stored = store_session nil_uuid (give_up local s) call removed in
    (stored, lookup nil_uuid stored.client_sessions)

-- The state of the client that a call of `connect_to_server` reads and changes.
pub record Connected : Type 0 where
  pub prepared : Prepared
  pub tables : ClientTables
  pub session : Option ClientSession

-- The server's answer is given as a function of the request that is sent.
module _ (sha1 : Bytes → Bytes) (fs : FileSystem) (parse_uuid : Bytes → Option Bytes)
    (weakly_canonical : Bytes → Bytes) (local : LocalOutput) where
  unfoldable pub connect_to_server :
      ℕ
      → Bytes
      → Bytes
      → CompilerCall
      → IncludesCache
      → CmdLineIncludeDirs
      → ClientTables
      → (ClientSessionStartRequest → ServerMessage)
      → Option Connected
  connect_to_server fuel unset_uuid client_uuid call cache system_include_dirs tables confirmation =
      prepare_request sha1 fs fuel client_uuid call cache system_include_dirs >>= λ prepared.
      start_client_session parse_uuid weakly_canonical call (confirmation prepared.request)
        (send_start prepared.request (new_client_session unset_uuid client_uuid fs.files))
      >>= λ started.
          let concluded =
            conclude_connection local (set_dirs prepared.collected.cmd_line_include_dirs call)
              tables started in
          some record { prepared = prepared; tables = concluded.0; session = concluded.1 }
