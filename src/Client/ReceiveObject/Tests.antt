-- ===== src/Client/ReceiveObject/Tests.antt =====
-- Object files of six and of eight bytes in pieces of four, and a failed compilation.
use dist_build_sys.Base.{◌≡◌, refl, [], ◌∷◌, true, false, some, Bytes, codes, bytes_eq, arith}
use dist_build_sys.Base.Int.{ℤ, pos, is_nonzero}
use dist_build_sys.Base.Dict.{Dict, lookup}
use dist_build_sys.Server.Session.{ServerSession, new_session}
use dist_build_sys.Server.Object.{send_compilation_result}
use dist_build_sys.Client.ReceiveObject.{ObjectReceiver}
use dist_build_sys.Client.ReceiveObject.Laws.{Receiving, IsReceived}
use dist_build_sys.Client.ReceiveObject.Whole.{
  receive_all, swapped_response, send_compilation_result-IsReceived,
  send_compilation_result-Receiving, send_compilation_result_failed-IsReceived,
}

abbrev session : ℤ → ServerSession
unfolding new_session
session code = record (new_session (codes "s") (codes "/w") (codes "/a.c") (codes "cc")) {
  out_obj_file = codes "/o";
  compiler_exit_code = code;
  compiler_stdout = codes "out";
  compiler_stderr = codes "err";
}

abbrev server_files : Bytes → Dict Bytes
server_files content = (codes "/o", content) ∷ []

abbrev waiting : ObjectReceiver
waiting = record {
  session_uuid = codes "s";
  transfer = some (record { is_finished = false; session_id = codes "s"; filename = codes "a.o" });
  files = (codes "a.o", []) ∷ [];
  call_duration = pos 0;
  exit_code = pos 0;
  stdout_content = [];
  stderr_content = [];
  published = [];
}

waiting-Receiving : (code : ℤ) → Receiving (session code).session_uuid (codes "a.o") [] [] waiting
unfolding lookup bytes_eq new_session
waiting-Receiving code = record { session = refl; started = refl; stored = refl; sent = refl }

on_disk :
    (code : ℤ) (content : Bytes)
    → lookup (session code).out_obj_file (server_files content) ≡ some content
unfolding lookup bytes_eq new_session
on_disk code content = refl

succeeded : is_nonzero (session (pos 0)).compiler_exit_code ≡ false
unfolding new_session
succeeded = refl

has_failed : is_nonzero (session (pos 1)).compiler_exit_code ≡ true
unfolding new_session
has_failed = refl

send_compilation_result-IsReceived_example :
    IsReceived
      (session (pos 0)).session_uuid
      (codes "a.o")
      (codes "abcdef")
      []
      (swapped_response (session (pos 0)))
      (receive_all
        (send_compilation_result 4 (session (pos 0)) (server_files (codes "abcdef")))
        waiting)
send_compilation_result-IsReceived_example =
    send_compilation_result-IsReceived 4 (session (pos 0)) (server_files (codes "abcdef"))
      (codes "a.o") [] waiting (codes "abcdef") (omega arith) (omega arith) succeeded
      (on_disk (pos 0) (codes "abcdef")) (waiting-Receiving (pos 0))

send_compilation_result-Receiving_example :
    Receiving (session (pos 0)).session_uuid (codes "a.o") (codes "abcdefgh") [] (
      receive_all
        (send_compilation_result 4 (session (pos 0)) (server_files (codes "abcdefgh")))
        waiting)
send_compilation_result-Receiving_example =
    send_compilation_result-Receiving 4 (session (pos 0)) (server_files (codes "abcdefgh"))
      (codes "a.o") [] waiting 2 (codes "abcdefgh") (omega arith) (omega arith) succeeded
      (on_disk (pos 0) (codes "abcdefgh")) (waiting-Receiving (pos 0))

send_compilation_result_failed-IsReceived_example :
    IsReceived
      (session (pos 1)).session_uuid
      (codes "a.o")
      []
      []
      (swapped_response (session (pos 1)))
      (receive_all
        (send_compilation_result 4 (session (pos 1)) (server_files (codes "abcd")))
        waiting)
send_compilation_result_failed-IsReceived_example =
    send_compilation_result_failed-IsReceived 4 (session (pos 1)) (server_files (codes "abcd"))
      (codes "a.o") [] waiting has_failed (waiting-Receiving (pos 1))
