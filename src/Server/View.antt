-- ===== src/Server/View.antt =====
-- `ClientView` of src/client_view.hpp and src/client_view.cpp, with the parts of a session's work
-- that reach into it. The clock's reading, the session's new id, the server's configuration and the
-- hash function are arguments; the calls of one client run one after the other. Sending is the list
-- of messages put into a session's write queue.
pub mod Always
mod Announced
mod Asked
mod Handling
mod Open
mod Launches
pub mod Loop
pub mod Opening
mod Rounds
pub mod Requests
mod Tests
use dist_build_sys.Base.{
  ℕ, List, [], ◌∷◌, ◌++◌, Bool, true, false, not, ◌&&◌, Option, none, some, Bytes, all, any, map,
  is_empty, bytes_eq, if◌then◌else◌, ◌>>=◌,
}
use dist_build_sys.Base.Dict.{Dict, lookup, insert, erase, contains, try_emplace}
use dist_build_sys.Messages.{
  FileInfo, ClientSessionStartRequest, ClientFileChunkUploadRequest, ClientMessage, ServerMessage,
}
use dist_build_sys.Paths.{parent_path, cnvt_server_to_client_path}
use dist_build_sys.Compiler.{CompilerManager, invalidate_requests_for_session}
use dist_build_sys.Server.Files.{
  Status, initial, uploading, available, fault, count, FileStateView, update_file_state,
  add_file_state,
}
use dist_build_sys.Server.Upload.{Upload, Outcome, rejected, accepted, completed, receive_chunk}
use dist_build_sys.Server.Arguments.{CompilerArgs, preprocess_compiler_call}
use dist_build_sys.Server.Session.{
  ServerSession, new_session, add_required_file_state, try_request_src_compilation,
}

pub record ClientView : Type 0 where
  pub client_uuid : Bytes
  pub current_working_dir : Bytes
  pub last_active_ts : ℕ
  pub client_file_states : Dict FileStateView
  pub associated_sessions : Dict ServerSession
  pub client_created_dirs : List Bytes

-- A client's view with what its sessions work on: the queue of the compiler manager, the server's
-- files, and the messages sent so far, each with its session.
pub record World : Type 0 where
  pub view : ClientView
  pub manager : CompilerManager
  pub files : Dict Bytes
  pub sent : List (Bytes × ServerMessage)

pub send_msg : Bytes → ServerMessage → World → World
send_msg sid msg w = record w { sent = w.sent ++ (sid, msg) ∷ [] }

-- The loop of `try_compile_for_active_sessions`.
try_all :
    Dict FileStateView → Dict ServerSession → CompilerManager → Dict ServerSession × CompilerManager
try_all states [] m = ([], m)
try_all states ((sid, s) ∷ rest) m =
    let (s', m') = try_request_src_compilation states s m in
    let (rest', m'') = try_all states rest m' in ((sid, s') ∷ rest', m'')

pub try_compile_for_active_sessions : World → World
try_compile_for_active_sessions w =
    let tried = try_all w.view.client_file_states w.view.associated_sessions w.manager in
    record w { view = record w.view { associated_sessions = tried.0 }; manager = tried.1 }

-- `_create_client_dir_hierarchy`: the directories that the client did not have yet.
add_dir : Bytes → List Bytes → List Bytes
add_dir dir dirs = if any (bytes_eq dir) dirs then dirs else dirs ++ dir ∷ []

add_parents : Dict FileStateView → List Bytes → List Bytes → List Bytes
add_parents states [] dirs = dirs
add_parents states (path ∷ paths) dirs = elim (lookup path states) [
  | none ↦ add_parents states paths dirs
  | some file_state ↦
      add_parents states paths (add_dir (parent_path file_state.server_file_path) dirs)
]

create_client_dir_hierarchy : ServerSession → ClientView → ClientView
create_client_dir_hierarchy s v = record v {
  client_created_dirs =
      add_parents v.client_file_states s.required_files_state
        (add_dir s.current_working_dir v.client_created_dirs);
}

-- The loop of `add_session` over the announced files.
announce_files :
    Bytes → List FileInfo → Dict FileStateView × ServerSession → Dict FileStateView × ServerSession
announce_files dir [] acc = acc
announce_files dir (info ∷ infos) (states, s) = announce_files dir infos (
    if is_empty info.filename then (states, s) else (
      add_file_state dir info.filename info.filesize info.filehash states,
      add_required_file_state info.filename s,
    ))

-- One round of the loop over the required files: the new file states, and the requested paths.
pub request_file :
    Bytes → ℕ → Option FileStateView → Dict FileStateView → Dict FileStateView × List Bytes
request_file dir now none states = (states, [])
request_file dir now (some file_state) states =
    let client_path = cnvt_server_to_client_path dir file_state.server_file_path in
    let updated = record file_state { file_status = uploading; up_start_time = now } in
    elim file_state.file_status [
      | initial ↦ ((update_file_state client_path updated states).0, client_path ∷ [])
      | uploading ↦ (states, [])
      | available ↦ (states, [])
      | fault ↦ (states, client_path ∷ [])
      | count ↦ (states, [])
    ]

pub request_files : Bytes → ℕ → List Bytes → Dict FileStateView → Dict FileStateView × List Bytes
request_files dir now [] states = (states, [])
request_files dir now (path ∷ paths) states =
    let (states', requested) = request_file dir now (lookup path states) states in
    let (states'', rest) = request_files dir now paths states' in (states'', requested ++ rest)

with_args : CompilerArgs → ServerSession → ServerSession
with_args args s = record s {
  current_working_dir = args.current_working_dir;
  out_obj_file = args.out_obj_file;
  cmd_line_args = args.cmd_line_args;
  are_args_ready = true;
}

-- The part of `add_session` behind `preprocess_compiler_call`.
open_session : ℕ → Bytes → Dict FileStateView × ServerSession → CompilerArgs → World → World
open_session now session_uuid announced args w =
    let ready = with_args args announced.1 in
    let v =
      create_client_dir_hierarchy ready (record w.view { client_file_states = announced.0 }) in
    let requested =
      request_files w.view.current_working_dir now ready.required_files_state
        v.client_file_states in
    let opened = record w {
      view = record v {
        client_file_states = requested.0;
        associated_sessions = try_emplace session_uuid ready v.associated_sessions;
      };
    } in
    try_compile_for_active_sessions
      (send_msg session_uuid (ServerMessage.session_confirmed session_uuid requested.1) opened)

-- `add_session`. `none` is the fault of `preprocess_compiler_call`.
pub add_session : Bytes → ℕ → Bytes → ClientSessionStartRequest → World → Option World
add_session compiler_bin now session_uuid start w = do
  let dir = w.view.current_working_dir
  let s = new_session session_uuid dir start.client_source_file compiler_bin
  let announced = announce_files dir start.required_files_info (w.view.client_file_states, s)
  args ←
      preprocess_compiler_call dir w.view.client_uuid session_uuid s.in_src_file
        start.client_working_dir start.client_cmd_line_args start.client_idirs
  some (open_session now session_uuid announced args w)

-- `remove_session`
pub remove_session : Bytes → ClientView → ClientView
remove_session sid v = record v { associated_sessions = erase sid v.associated_sessions }

-- `terminate_server_session`
pub terminate_server_session : Bytes → World → World
terminate_server_session sid w = record w {
  view = remove_session sid w.view;
  manager = invalidate_requests_for_session sid w.manager;
}

module _ (sha1 : Bytes → Bytes) where
  store_upload : Bytes → ServerSession → Upload → World → World
  store_upload sid s u w = record w {
    view = record w.view {
      client_file_states = u.file_states;
      associated_sessions =
          insert sid (record s { file_transfer_states = u.transfers }) w.view.associated_sessions;
    };
    files = u.files;
  }

  after_chunk : Bytes → Bytes → World → Outcome → World × Bool
  after_chunk sid name w rejected = (w, false)
  after_chunk sid name w accepted = (w, true)
  after_chunk sid name w completed = (
    send_msg sid (ServerMessage.file_up_complete sid name true) (try_compile_for_active_sessions w),
    true,
  )

  -- `process_file_chunk` of the session `sid`, whose state is `s`.
  pub process_file_chunk :
      Bytes → ServerSession → ClientFileChunkUploadRequest → World → World × Bool
  process_file_chunk sid s msg w =
      let (u, outcome) = receive_chunk sha1 sid msg (record {
        file_states = w.view.client_file_states;
        transfers = s.file_transfer_states;
        files = w.files;
      }) in
      after_chunk sid msg.filename (store_upload sid s u w) outcome

  touch : ℕ → World → World
  touch now w = record w { view = record w.view { last_active_ts = now } }

  abort_unless : Bytes → World × Bool → World
  abort_unless sid (w, true) = w
  abort_unless sid (w, false) = send_msg sid (ServerMessage.session_abort sid) w

  upload_chunk : Bytes → Option ServerSession → ClientFileChunkUploadRequest → World → World
  upload_chunk sid none msg w = w
  upload_chunk sid (some s) msg w = abort_unless sid (process_file_chunk sid s msg w)

  -- One round of `handle_server_session`; the flag says whether the loop goes on.
  pub handle_message : Bytes → ℕ → ClientMessage → World → World × Bool
  handle_message sid now (ClientMessage.session_start start) w = (touch now w, true)
  handle_message sid now (ClientMessage.file_chunk_upload msg) w =
      (upload_chunk sid (lookup sid w.view.associated_sessions) msg (touch now w), true)
  handle_message sid now (ClientMessage.session_abort session_id client_id) w =
      (terminate_server_session sid w, false)
  handle_message sid now ClientMessage.none_set w = (terminate_server_session sid w, false)
