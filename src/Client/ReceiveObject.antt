-- ===== src/Client/ReceiveObject.antt =====
-- `ClientSession::_process_obj_file_chunk` of src/client_session.cpp: the object file comes in, and with
-- its last piece the answer to the wrapper. The output stream is the file of its name.
pub mod Laws
pub mod Whole
mod Tests
use dist_build_sys.Base.{
  ℕ, List, [], ◌∷◌, ◌++◌, Bool, true, false, not, Option, none, some, Bytes, bytes_eq,
  if◌then◌else◌,
}
use dist_build_sys.Base.Int.{ℤ}
use dist_build_sys.Base.Dict.{Dict, lookup, insert}
use dist_build_sys.Ipc.{UnixIpcResponse}
use dist_build_sys.Messages.{ServerObjFileChunkResponse}

pub record ObjFileTransferState : Type 0 where
  pub is_finished : Bool
  pub session_id : Bytes
  pub filename : Bytes

-- What the session keeps of the compilation: the fields of `CompilerCall` that are set, and the
-- responses put into the channel to the wrapper.
pub record ObjectReceiver : Type 0 where
  pub session_uuid : Bytes
  pub transfer : Option ObjFileTransferState
  pub files : Dict Bytes
  pub call_duration : ℤ
  pub exit_code : ℤ
  pub stdout_content : Bytes
  pub stderr_content : Bytes
  pub published : List UnixIpcResponse

pub written : Bytes → Dict Bytes → Bytes
written name files = elim (lookup name files) [ some c ↦ c | none ↦ [] ]

-- The third and the second argument of the response are the standard error and the standard output,
-- in this order, as in the source.
unfoldable pub wrapper_response : ServerObjFileChunkResponse → UnixIpcResponse
wrapper_response msg = record {
  compiler_exit_code = msg.compiler_exit_code;
  stdout_content = msg.compiler_stderr;
  stderr_content = msg.compiler_stdout;
}

unfoldable pub complete_call :
    ServerObjFileChunkResponse → ObjFileTransferState → ObjectReceiver → ObjectReceiver
complete_call msg ts r = record r {
  transfer = some (record ts { is_finished = true });
  call_duration = msg.compiler_call_duration;
  exit_code = msg.compiler_exit_code;
  stderr_content = msg.compiler_stderr;
  stdout_content = msg.compiler_stdout;
  published = r.published ++ wrapper_response msg ∷ [];
}

unfoldable pub take_piece :
    ServerObjFileChunkResponse → ObjFileTransferState → ObjectReceiver → ObjectReceiver × Bool
take_piece msg ts r =
    let wrote = record r {
      files = insert ts.filename (written ts.filename r.files ++ msg.chunk_data) r.files;
    } in
    if ts.is_finished
    then (r, true)
    else if not (bytes_eq ts.session_id r.session_uuid)
    then (record r { transfer = some (record ts { is_finished = true }) }, false)
    else if msg.is_last_chunk
    then (complete_call msg ts wrote, true)
    else (wrote, true)

unfoldable pub with_transfer :
    ServerObjFileChunkResponse
    → Option ObjFileTransferState
    → ObjectReceiver
    → ObjectReceiver × Bool
with_transfer msg none r = (r, false)
with_transfer msg (some ts) r = take_piece msg ts r

unfoldable pub process_obj_file_chunk :
    ServerObjFileChunkResponse → ObjectReceiver → ObjectReceiver × Bool
process_obj_file_chunk msg r =
    if not (bytes_eq msg.session_id r.session_uuid)
    then (r, false)
    else with_transfer msg r.transfer r
