-- ===== src/Client/Session/Tests.antt =====
-- A session that gets its object file and is then aborted.
use dist_build_sys.Base.{◌≡◌, refl, List, [], ◌∷◌, true, false, Option, some, codes}
use dist_build_sys.Base.Int.{pos}
use dist_build_sys.Messages.{ServerMessage}
use dist_build_sys.Client.Session.{ClientSession, LocalOutput, handle_client_session}
use dist_build_sys.Client.Session.Answers.{due, answers, Left, handle_client_session-answers}

abbrev local : LocalOutput
local = record {
  compiler_exit_code = pos 0;
  stdout_str = [];
  stderr_str = codes "warning";
  compilation_duration = pos 2;
}

abbrev waiting : ClientSession
waiting = record {
  receiver = record {
    session_uuid = codes "s";
    transfer =
        some (record { is_finished = false; session_id = codes "s"; filename = codes "a.o" });
    files = (codes "a.o", []) ∷ [];
    call_duration = pos 0;
    exit_code = pos 0;
    stdout_content = [];
    stderr_content = [];
    published = [];
  };
  client_uuid = codes "c";
  terminated = false;
  required_files = [];
  req_files_send_idx = 0;
  sent = [];
}

abbrev object_then_abort : List (Option ServerMessage)
object_then_abort =
    some (
      ServerMessage.obj_file_chunk_transmit (record {
        session_id = codes "s";
        compiler_exit_code = pos 0;
        compiler_call_duration = pos 1;
        compiler_stdout = codes "out";
        compiler_stderr = [];
        filesize = 2;
        is_last_chunk = true;
        chunk_data = codes "ob";
      }))
    ∷ some (ServerMessage.session_abort (codes "s"))
    ∷ []

none_due : answers waiting.receiver ≡ due waiting.receiver.transfer
unfolding due
none_due = refl

handle_client_session-answers_example :
    Left object_then_abort (handle_client_session local object_then_abort waiting)
handle_client_session-answers_example =
    handle_client_session-answers local object_then_abort waiting none_due
