-- ===== src/Client/Session.antt =====
-- `ClientSession::_handle_client_session` of src/client_session.cpp and the methods that it calls. What
-- a local compilation gives is an argument; the client's table of sessions, from which the session is
-- removed at its end, is left out, and so is a termination by another task: the branches that set
-- `_terminated` return.
pub mod Answers
mod Tests
use dist_build_sys.Base.{
  ℕ, List, [], ◌∷◌, ◌++◌, map, Bool, true, false, Option, none, some, ◌&&◌, Bytes, bytes_eq,
  if◌then◌else◌,
}
use dist_build_sys.Base.Int.{ℤ}
use dist_build_sys.Ipc.{UnixIpcResponse}
use dist_build_sys.Messages.{ClientMessage, ServerMessage}
use dist_build_sys.Client.SendFile.{send_required_file}
use dist_build_sys.Client.ReceiveObject.{ObjectReceiver, process_obj_file_chunk}

pub record ClientSession : Type 0 where
  pub receiver : ObjectReceiver
  pub client_uuid : Bytes
  pub terminated : Bool
  pub required_files : List Bytes
  pub req_files_send_idx : ℕ
  pub sent : List ClientMessage

pub record LocalOutput : Type 0 where
  pub compiler_exit_code : ℤ
  pub stdout_str : Bytes
  pub stderr_str : Bytes
  pub compilation_duration : ℤ

-- `_send_required_file`, into the session's write queue.
send_file : ClientSession → ClientSession
send_file s =
    let r =
      send_required_file s.receiver.session_uuid s.receiver.files s.required_files
        s.req_files_send_idx in
    record s { req_files_send_idx = r.0; sent = s.sent ++ map ClientMessage.file_chunk_upload r.1 }

module _ (local : LocalOutput) where
  -- `perform_local_compilation`: the results are kept, and the wrapper is answered.
  compile_here : ObjectReceiver → ObjectReceiver
  compile_here r = record r {
    call_duration = local.compilation_duration;
    exit_code = local.compiler_exit_code;
    stdout_content = local.stdout_str;
    stderr_content = local.stderr_str;
    published =
        r.published
        ++ record {
          compiler_exit_code = local.compiler_exit_code;
          stdout_content = local.stdout_str;
          stderr_content = local.stderr_str;
        }
          ∷ [];
  }

  pub perform_local_compilation : ClientSession → ClientSession
  perform_local_compilation s = record s { receiver = compile_here s.receiver }

  -- `send_abort_to_server`
  pub send_abort_to_server : ClientSession → ClientSession
  send_abort_to_server s = record s {
    sent = s.sent ++ ClientMessage.session_abort s.receiver.session_uuid s.client_uuid ∷ [];
  }

  -- `terminate_client_session`
  pub terminate_client_session : ClientSession → ClientSession
  terminate_client_session s = record s { terminated = true }

  fall_back : ClientSession → ClientSession
  fall_back s = terminate_client_session (send_abort_to_server (perform_local_compilation s))

  after_object : ClientSession → ObjectReceiver × Bool → ClientSession × Bool
  after_object s (r, true) = (record s { receiver = r }, true)
  after_object s (r, false) = (fall_back (record s { receiver = r }), false)

  -- The `switch`; the flag says whether the loop goes on.
  pub handle_server_message : ServerMessage → ClientSession → ClientSession × Bool
  handle_server_message (ServerMessage.session_confirmed session_id required_files) s = (s, true)
  handle_server_message (ServerMessage.session_abort session_id) s =
      (terminate_client_session (perform_local_compilation s), false)
  handle_server_message (ServerMessage.file_up_complete session_id filename success) s =
      if bytes_eq session_id s.receiver.session_uuid && success
      then (send_file s, true)
      else (fall_back s, false)
  handle_server_message (ServerMessage.all_req_up_complete session_id) s = (s, true)
  handle_server_message (ServerMessage.obj_file_chunk_transmit msg) s =
      after_object s (process_obj_file_chunk msg s.receiver)
  handle_server_message ServerMessage.none_set s = (s, true)

  -- The `while` loop over what comes in: a message, or `none`, an exception of the socket, which leaves the loop
  -- and changes nothing. The flag says whether the loop still waits.
  pub message_loop : List (Option ServerMessage) → ClientSession × Bool → ClientSession × Bool
  message_loop msgs (s, false) = (s, false)
  message_loop [] (s, true) = (s, true)
  message_loop (none ∷ msgs) (s, true) = (s, false)
  message_loop (some msg ∷ msgs) (s, true) = message_loop msgs (handle_server_message msg s)

  pub handle_client_session : List (Option ServerMessage) → ClientSession → ClientSession × Bool
  handle_client_session msgs s = message_loop msgs (send_file s, true)
