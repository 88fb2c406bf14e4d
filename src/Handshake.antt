-- ===== src/Handshake.antt =====
-- `connect_to_server` of src/client.cpp against `handle_new_connection` of src/server.cpp: the client's request
-- and the server's confirmation, each as the other side makes it.
mod Tests
use dist_build_sys.Base.{
  ℕ, ◌<◌, ◌≡◌, refl, List, ◌∷◌, map, Bool, false, Option, none, some, Bytes, length, ◌>>=◌, true,
}
use dist_build_sys.Base.Dict.{lookup}
use dist_build_sys.Paths.{join}
use dist_build_sys.IncludeDirs.{CmdLineIncludeDirs, append_include_dirs}
use dist_build_sys.Includes.Cache.{IncludesCache}
use dist_build_sys.Includes.Parser.{FileSystem, ParserState, new_parser, parse_source_file_includes}
use dist_build_sys.Includes.Parser.Facts.{IsValid}
use dist_build_sys.CommandLine.{CompilerCall, set_dirs}
use dist_build_sys.Messages.{ClientMessage, ServerMessage}
use dist_build_sys.Server.Connect.{ServerState, handle_new_connection}
use dist_build_sys.Server.Connect.Laws.{Accepted, handle_new_connection-Accepted}
use dist_build_sys.Client.Session.{ClientSession, LocalOutput}
use dist_build_sys.Client.Connect.{
  Prepared, Connected, ClientTables, prepare_request, start_client_session, confirm_session,
  new_client_session, send_start, conclude_connection, connect_to_server,
}
use dist_build_sys.Client.Connect.Request.{prepare_request-IsTrueOf}
use dist_build_sys.Client.Connect.Tables.{conclude_connection-remove_client_session}

-- Both ends of a connection: the client announces its source and every header that the search finds, the server has
-- accepted the request and has the session, and the client has a session under the server's identifier that is to
-- send the files which the server asked for.
pub record Established (client_uuid session_uuid input_src_file : Bytes) (s : ServerState)
    (searched : Option (Bool × ParserState)) (prepared : Option Prepared)
    (serve : Prepared → Option (ServerState × Bool)) (connect : ServerMessage → Option Connected)
    : Type 0 where
  pub request : Prepared
  pub prepares : prepared ≡ some request
  pub found : ParserState
  pub searches : searched ≡ some (true, found)
  pub announces :
      map (λ info. info.filename) request.request.required_files_info
      ≡ input_src_file ∷ map (λ entry. entry.1.file_path) found.inc_directives
  pub accepted : Accepted client_uuid session_uuid s (serve request)
  pub connected : Connected
  pub session : ClientSession
  pub connects :
      connect (ServerMessage.session_confirmed session_uuid accepted.requested) ≡ some connected
  pub returned : connected.session ≡ some session
  pub under : session.receiver.session_uuid ≡ session_uuid
  pub asked : session.required_files ≡ accepted.requested

module _ (sha1 : Bytes → Bytes) (parse_uuid : Bytes → Option Bytes)
    (weakly_canonical : Bytes → Bytes) (local : LocalOutput) (fs : FileSystem) where
  -- The client's side of a confirmation.
  confirmed :
      (fuel : ℕ) (unset_uuid client_uuid session_uuid : Bytes)
      → parse_uuid session_uuid ≡ some session_uuid
      → (call : CompilerCall) (cache : IncludesCache) (system_dirs : CmdLineIncludeDirs)
        (p : Prepared)
      → prepare_request sha1 fs fuel client_uuid call cache system_dirs ≡ some p
      → (tables : ClientTables) → lookup session_uuid tables.client_sessions ≡ none
      → lookup session_uuid tables.client_compiler_calls ≡ none
      → (requested : List Bytes)
      → (c : Connected) × (session : ClientSession) × (connect_to_server sha1 fs parse_uuid
            weakly_canonical local fuel unset_uuid client_uuid call cache system_dirs tables
            (λ request. ServerMessage.session_confirmed session_uuid requested)
          ≡ some c)
        × (c.session ≡ some session)
        × (session.receiver.session_uuid ≡ session_uuid)
        × (session.required_files ≡ requested)
  unfolding connect_to_server start_client_session confirm_session
  confirmed fuel unset_uuid client_uuid session_uuid known call cache system_dirs p prepares tables
        new_session new_call requested =
      let object_file = weakly_canonical (join call.current_working_dir call.output_obj_file) in
      let session =
        confirm_session session_uuid object_file requested
          (send_start p.request (new_client_session unset_uuid client_uuid fs.files)) in
      let later = set_dirs p.collected.cmd_line_include_dirs call in
      let r = conclude_connection local later tables (session, some session_uuid) in
      let kept =
        conclude_connection-remove_client_session local later tables session session_uuid
          new_session new_call in
      (
        record { prepared = p; tables = r.0; session = r.1 },
        session,
        rw (prepares, ◌>>=◌, known),
        kept.0,
        refl,
        refl,
      )

  -- For a call whose source is a regular file, with more fuel than there are files, a cache whose every header is
  -- true of its file and of the kind that the call's directories let the cache keep, identifiers that are UUIDs, and a session identifier that the client does not have yet: the client
  -- makes its request, which announces the source and then all headers that its parser finds; the server accepts it,
  -- has the session in the client's view, changes no other client's view and sends its confirmation; and
  -- with that confirmation the client gets a session under the server's identifier, which is to send exactly the
  -- files that the server asked for, whichever these are.
  pub connect_to_server-handle_new_connection :
      (fuel : ℕ)
      → length fs.files < fuel
      → (unset_uuid client_uuid session_uuid : Bytes) → parse_uuid client_uuid ≡ some client_uuid
      → parse_uuid session_uuid ≡ some session_uuid
      → (call : CompilerCall) (cache : IncludesCache) (system_dirs : CmdLineIncludeDirs)
      → IsValid sha1 fs
          (append_include_dirs call.cmd_line_include_dirs system_dirs)
          (new_parser cache)
      → (content : Bytes) → lookup call.input_src_file fs.files ≡ some content
      → fs.is_directory call.input_src_file ≡ false
      → (tables : ClientTables) → lookup session_uuid tables.client_sessions ≡ none
      → lookup session_uuid tables.client_compiler_calls ≡ none
      → (compiler_bin : Bytes) (now : ℕ) (s : ServerState)
      → Established client_uuid session_uuid call.input_src_file s
          (parse_source_file_includes sha1 fs
            (append_include_dirs call.cmd_line_include_dirs system_dirs)
            fuel
            call.input_src_file
            (append_include_dirs call.cmd_line_include_dirs system_dirs).dash_include
            (new_parser cache))
          (prepare_request sha1 fs fuel client_uuid call cache system_dirs)
          (λ p.
            handle_new_connection parse_uuid compiler_bin now session_uuid
              (ClientMessage.session_start p.request)
              s)
          (λ answer.
            connect_to_server sha1 fs parse_uuid weakly_canonical local fuel unset_uuid client_uuid
              call cache system_dirs tables
              (λ request. answer))
  connect_to_server-handle_new_connection fuel enough unset_uuid client_uuid session_uuid
        client_known session_known call cache system_dirs valid content stored plain tables
        new_session new_call compiler_bin now s =
      let (p, prepares, true_of, names, id, idirs) =
        prepare_request-IsTrueOf sha1 fs fuel enough client_uuid call cache system_dirs valid
          content stored plain in
      let accepted : Accepted client_uuid session_uuid s (
          handle_new_connection parse_uuid compiler_bin now session_uuid
            (ClientMessage.session_start p.request) s) =
        rw id at (
          handle_new_connection-Accepted parse_uuid compiler_bin now session_uuid p.request s
            client_uuid (rw id client_known) call.cmd_line_include_dirs idirs) in
      let (c, session, connects, returned, under, asked) =
        confirmed fuel unset_uuid client_uuid session_uuid session_known call cache system_dirs p
          prepares tables new_session new_call accepted.requested in
      record {
        request = p;
        prepares = prepares;
        found = names.0;
        searches = names.1;
        announces = names.2;
        accepted = accepted;
        connected = c;
        session = session;
        connects = connects;
        returned = returned;
        under = under;
        asked = asked;
      }
