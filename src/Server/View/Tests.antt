-- ===== src/Server/View/Tests.antt =====
-- A client with one session, and the theorems at its states.
use dist_build_sys.Base.{
  List, any, sym, ap, ◌∙◌, inl, inr, ◌≡◌, refl, [], ◌∷◌, true, Option, none, some, Bytes, codes,
  bytes_eq, starts_with, ends_with,
}
use dist_build_sys.Base.Dict.{Dict, insert, lookup-insert_cases, lookup}
use dist_build_sys.Messages.{ClientSessionStartRequest, ClientFileChunkUploadRequest, ClientMessage}
use dist_build_sys.Paths.{join, relative_path, is_system_path, cnvt_client_to_server_path}
use dist_build_sys.Paths.RoundTrip.{IsDirectory, IsRelative}
use dist_build_sys.Compiler.{new_manager}
use dist_build_sys.Server.Files.{available, initial, uploading, FileStateView}
use dist_build_sys.Server.Session.{ServerSession, new_session}
use dist_build_sys.Server.Arguments.{translate_idirs, preprocess_compiler_call}
use dist_build_sys.Server.View.{World, request_files, add_session, handle_message}
use dist_build_sys.Server.View.Announced.{Asks, add_session-Asks}
use dist_build_sys.Server.View.Always.{Reach, opens, handles, here, next}
use dist_build_sys.Server.View.Rounds.{IsAbsolute, Placed, is_seen}
use dist_build_sys.Server.View.Requests.{request_files_absolute}

abbrev dir : Bytes
dir = codes "/w"

abbrev new_file : Bytes → FileStateView
new_file place = record {
  file_sz_bytes = 2;
  file_sha1 = codes "h";
  file_status = initial;
  up_start_time = 0;
  server_file_path = place;
}

abbrev session : ServerSession
unfolding new_session
session = record (new_session (codes "s") dir (codes "/a.c") (codes "cc")) {
  are_args_ready = true;
  required_files_state = codes "/a.c" ∷ [];
}

abbrev world : World
unfolding new_session
world = record {
  view = record {
    client_uuid = codes "c";
    current_working_dir = dir;
    last_active_ts = 0;
    client_file_states = (codes "/a.c", new_file (codes "/w/a.c")) ∷ [];
    associated_sessions = (codes "s", session) ∷ [];
    client_created_dirs = [];
  };
  manager = new_manager 2;
  files = [];
  sent = [];
}

dir-IsDirectory : IsDirectory dir
unfolding ends_with bytes_eq
dir-IsDirectory = record { named = refl; bare = refl }

a-IsRelative : IsRelative (codes "a.c")
unfolding starts_with
a-IsRelative = record { rooted = refl }

first-IsAbsolute : IsAbsolute (codes "/a.c")
unfolding is_system_path starts_with
first-IsAbsolute = record {
  tail = codes "a.c";
  is_rooted = refl;
  is_relative = a-IsRelative;
  is_own = refl;
}

second-IsAbsolute : IsAbsolute (codes "/b.h")
unfolding is_system_path starts_with
second-IsAbsolute = record {
  tail = codes "b.h";
  is_rooted = refl;
  is_relative = record { rooted = refl };
  is_own = refl;
}

-- One file is new, and one is there already.
abbrev two_states : Dict FileStateView
two_states =
    insert (codes "/a.c") (new_file (codes "/w/a.c"))
      (insert (codes "/b.h") (record (new_file (codes "/w/b.h")) { file_status = available }) [])

none_left_not : (fs : FileStateView) → ¬ (none ≡ some fs)
none_left_not fs h = cc

two_states-Placed : Placed dir two_states
unfolding lookup cnvt_client_to_server_path is_system_path starts_with relative_path join ends_with
    bytes_eq
two_states-Placed path fs h =
    elim (lookup-insert_cases (codes "/a.c") path (new_file (codes "/w/a.c")) fs
      (insert (codes "/b.h") (record (new_file (codes "/w/b.h")) { file_status = available }) [])
      h) [
        | inl new ↦
            ap (λ v. v.server_file_path) (sym new.1) ∙ ap (cnvt_client_to_server_path dir) new.0
        | inr old ↦
            elim (lookup-insert_cases (codes "/b.h") path
              (record (new_file (codes "/w/b.h")) { file_status = available }) fs [] old) [
                | inl new ↦
                    ap (λ v. v.server_file_path) (sym new.1)
                    ∙ ap (cnvt_client_to_server_path dir) new.0
                | inr none_left ↦ absurd (none_left_not fs none_left)
              ]
      ]

abbrev two_asked : Dict FileStateView × List Bytes
two_asked = request_files dir 9 (codes "/b.h" ∷ codes "/a.c" ∷ []) two_states

request_files_absolute_example :
    ((path : Bytes) (fs : FileStateView)
      → any (bytes_eq path) (codes "/b.h" ∷ codes "/a.c" ∷ []) ≡ true
      → lookup path two_states ≡ some fs
      → fs.file_status ≡ initial
      → (any (bytes_eq path) two_asked.1 ≡ true)
        × (lookup path two_asked.0
            ≡ some (record fs { file_status = uploading; up_start_time = 9 })))
    × ((other : Bytes)
        → is_seen (lookup other two_states) ≡ true
        → lookup other two_asked.0 ≡ lookup other two_states)
request_files_absolute_example =
    request_files_absolute dir 9 dir-IsDirectory (codes "/b.h" ∷ codes "/a.c" ∷ [])
      (second-IsAbsolute, (first-IsAbsolute, tt)) two_states two_states-Placed

abbrev chunk : ClientFileChunkUploadRequest
chunk = record {
  session_id = codes "s";
  filename = codes "/a.c";
  sequence_no = 1;
  offset = 0;
  chunk_data = codes "x;";
  is_last_chunk = true;
}

abbrev or_else : Option World → World → World
or_else none w = w
or_else (some w') w = w'

abbrev start_request : ClientSessionStartRequest
start_request = record {
  client_id = codes "c";
  client_working_dir = codes "/b";
  client_source_file = codes "/b/b.c";
  client_compiler = codes "cc";
  client_cmd_line_args = codes "-c" ∷ codes "/b/b.c" ∷ [];
  client_idirs = codes "-I/b" ∷ [];
  required_files_info =
      record { filename = codes "/b/b.c"; filesize = 3; filehash = codes "h" } ∷ [];
}

abbrev no_session : World
no_session = record world { view = record world.view { associated_sessions = [] } }

abbrev opened : World
opened = or_else (add_session (codes "cc") 9 (codes "t") start_request no_session) no_session

session_opens : add_session (codes "cc") 9 (codes "t") start_request no_session ≡ some opened
unfolding add_session new_session preprocess_compiler_call translate_idirs starts_with
session_opens = refl

abbrev chunk_handled : World
chunk_handled =
    (handle_message (λ s. s) (codes "t") 10 (ClientMessage.file_chunk_upload chunk) opened).0

-- A session is opened, and a chunk of a file that it did not announce comes in for it.
abbrev opened_and_sent : Reach (λ s. s) no_session chunk_handled
opened_and_sent =
    next (next here (opens (codes "cc") 9 (codes "t") start_request session_opens))
      (handles (codes "t") 10 (ClientMessage.file_chunk_upload chunk) refl)

-- The server has no file of the client yet.
abbrev no_file : World
no_file = record no_session { view = record no_session.view { client_file_states = [] } }

abbrev asking : World
asking = or_else (add_session (codes "cc") 9 (codes "t") start_request no_file) no_file

asking_opens : add_session (codes "cc") 9 (codes "t") start_request no_file ≡ some asking
unfolding add_session new_session preprocess_compiler_call translate_idirs starts_with
asking_opens = refl

b-IsAbsolute : IsAbsolute (codes "/b/b.c")
unfolding is_system_path starts_with
b-IsAbsolute = record {
  tail = codes "b/b.c";
  is_rooted = refl;
  is_relative = record { rooted = refl };
  is_own = refl;
}

add_session-Asks_example : Asks (codes "/b/b.c" ∷ []) 9 (codes "t") no_file asking
unfolding world
add_session-Asks_example =
    add_session-Asks (codes "cc") 9 (codes "t") start_request no_file asking dir-IsDirectory refl
      (b-IsAbsolute, tt) asking_opens
