-- ===== src/Server/Object.antt =====
-- `ServerSession::send_compilation_result` of src/server_session.cpp: the object file goes to the
-- client in pieces. An object file that cannot be opened has no entry in the server's files.
pub mod Loop
use dist_build_sys.Base.{
  ℕ, zero, suc, ◌*◌, List, [], ◌∷◌, Bool, true, false, Option, none, some, Bytes, length, take,
  drop, is_empty, ltb, if◌then◌else◌,
}
use dist_build_sys.Base.Int.{pos, is_nonzero}
use dist_build_sys.Base.Dict.{Dict, lookup}
use dist_build_sys.Messages.{ServerObjFileChunkResponse}
use dist_build_sys.Server.Session.{ServerSession}

abbrev chunk_size : ℕ
chunk_size = 64 * 1024

-- `build_msg`, with the piece; the compiler's output goes with the last one.
unfoldable pub object_message : ServerSession → ℕ → Bytes → Bool → ServerObjFileChunkResponse
object_message s file_size piece is_last = record {
  session_id = s.session_uuid;
  compiler_exit_code = s.compiler_exit_code;
  compiler_call_duration = s.compile_duration;
  compiler_stdout = if is_last then s.compiler_stdout else [];
  compiler_stderr = if is_last then s.compiler_stderr else [];
  filesize = file_size;
  is_last_chunk = is_last;
  chunk_data = piece;
}

-- The `while (true)` loop for a buffer of `sz` bytes; more fuel than bytes is enough.
pub send_loop : ℕ → ℕ → ServerSession → ℕ → Bytes → List ServerObjFileChunkResponse
send_loop sz zero s file_size rest = []
send_loop sz (suc fuel) s file_size rest =
    let piece = take sz rest in
    let later = send_loop sz fuel s file_size (drop sz rest) in
    if is_empty piece then [] else object_message s file_size piece (ltb (length piece) sz) ∷ later

send_object : ℕ → ServerSession → Option Bytes → List ServerObjFileChunkResponse
send_object sz s none = []
send_object sz s (some content) = send_loop sz (suc (length content)) s (length content) content

pub send_compilation_result : ℕ → ServerSession → Dict Bytes → List ServerObjFileChunkResponse
send_compilation_result sz s files =
    if is_nonzero s.compiler_exit_code
    then object_message s 0 [] true ∷ []
    else send_object sz s (lookup s.out_obj_file files)
