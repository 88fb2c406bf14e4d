-- ===== src/Client/ReceiveObject/Whole.antt =====
-- A whole object file over the wire: the server's messages, taken in by the client one by one.
use native.Mathlib.Nat.{mod-lt, div-add-mod'}
use dist_build_sys.Base.{
  ℕ, zero, suc, ◌+◌, ◌*◌, ◌/◌, ◌%◌, ◌<◌, ◌≡◌, refl, sym, ap, ◌∙◌, List, [], ◌∷◌, ◌++◌, append_assoc,
  append-nil, true, false, some, Bytes, length, take, drop, arith, length-drop, take-append-drop,
}
use dist_build_sys.Base.Int.{is_nonzero}
use dist_build_sys.Base.Dict.{Dict, lookup}
use dist_build_sys.Ipc.{UnixIpcResponse}
use dist_build_sys.Messages.{ServerObjFileChunkResponse}
use dist_build_sys.Server.Session.{ServerSession}
use dist_build_sys.Server.Object.{object_message, send_loop, send_compilation_result}
use dist_build_sys.Server.Object.Loop.{
  send_end, send_full, send_last, send_compilation_result-send_loop, send_compilation_result_failed,
}
use dist_build_sys.Client.ReceiveObject.{ObjectReceiver, wrapper_response, process_obj_file_chunk}
use dist_build_sys.Client.ReceiveObject.Laws.{Receiving, IsReceived, step_goes_on, step_ends}

-- The client takes the messages in order.
pub receive_all : List ServerObjFileChunkResponse → ObjectReceiver → ObjectReceiver
receive_all [] r = r
receive_all (msg ∷ msgs) r = receive_all msgs (process_obj_file_chunk msg r).0

-- The session's result as the wrapper gets to see it: with the two outputs exchanged.
abbrev pub swapped_response : ServerSession → UnixIpcResponse
swapped_response s = record {
  compiler_exit_code = s.compiler_exit_code;
  stdout_content = s.compiler_stderr;
  stderr_content = s.compiler_stdout;
}

module _ (sz : ℕ) (s : ServerSession) (file_size : ℕ) (name : Bytes)
    (out : List UnixIpcResponse) where
  last_piece :
      (rest got : Bytes) (r : ObjectReceiver)
      → Receiving s.session_uuid name got out r
      → IsReceived s.session_uuid name
          (got ++ rest)
          out
          (swapped_response s)
          (receive_all (object_message s file_size rest true ∷ []) r)
  unfolding receive_all object_message wrapper_response
  last_piece rest got r v =
      (step_ends s.session_uuid name got out (object_message s file_size rest true) r v refl refl).1

  loop_arrives :
      (k left fuel : ℕ) (rest got : Bytes) (r : ObjectReceiver)
      → 0 < left
      → left < sz
      → length rest ≡ k * sz + left
      → length rest < fuel
      → Receiving s.session_uuid name got out r
      → IsReceived s.session_uuid name
          (got ++ rest)
          out
          (swapped_response s)
          (receive_all (send_loop sz fuel s file_size rest) r)
  unfolding receive_all object_message
  loop_arrives k left zero rest got r h0 h1 hl hf v = absurd (omega arith)
  loop_arrives zero left (suc fuel) rest got r h0 h1 hl hf v =
      rw (send_last sz s file_size fuel rest (omega arith) (omega arith)) (last_piece rest got r v)
  loop_arrives (suc k) left (suc fuel) rest got r h0 h1 hl hf v =
      let msg = object_message s file_size (take sz rest) false in
      let v' = (step_goes_on s.session_uuid name got out msg r v refl refl).1 in
      let parts : (got ++ take sz rest) ++ drop sz rest ≡ got ++ rest =
        append_assoc got _ _ ∙ ap (◌++◌ got) (take-append-drop sz rest) in
      let fewer : length (drop sz rest) ≡ k * sz + left = omega (arith, length-drop sz rest) in
      rw (send_full sz s file_size fuel rest (omega arith) (omega arith), receive_all, ← parts)
        (loop_arrives k left fuel (drop sz rest) (got ++ take sz rest) _ h0 h1 fewer (omega arith)
          v')

  loop_stalls :
      (k fuel : ℕ) (rest got : Bytes) (r : ObjectReceiver)
      → 0 < sz
      → length rest ≡ k * sz
      → length rest < fuel
      → Receiving s.session_uuid name got out r
      → Receiving s.session_uuid name
          (got ++ rest)
          out
          (receive_all (send_loop sz fuel s file_size rest) r)
  unfolding receive_all object_message
  loop_stalls zero fuel [] got r h0 hl hf v = rw (send_end sz s file_size fuel, append-nil got) v
  loop_stalls zero fuel (x ∷ rest) got r h0 hl hf v = absurd (omega arith)
  loop_stalls (suc k) zero rest got r h0 hl hf v = absurd (omega arith)
  loop_stalls (suc k) (suc fuel) rest got r h0 hl hf v =
      let msg = object_message s file_size (take sz rest) false in
      let v' = (step_goes_on s.session_uuid name got out msg r v refl refl).1 in
      let parts : (got ++ take sz rest) ++ drop sz rest ≡ got ++ rest =
        append_assoc got _ _ ∙ ap (◌++◌ got) (take-append-drop sz rest) in
      let fewer : length (drop sz rest) ≡ k * sz = omega (arith, length-drop sz rest) in
      rw (send_full sz s file_size fuel rest h0 (omega arith), receive_all, ← parts)
        (loop_stalls k fuel (drop sz rest) (got ++ take sz rest) _ h0 fewer (omega arith) v')

module _ (sz : ℕ) (s : ServerSession) (files : Dict Bytes) (name : Bytes)
    (out : List UnixIpcResponse) (r : ObjectReceiver) where
  -- After a successful compilation whose object file's size is not a multiple of the buffer's, the
  -- client has the object file, byte for byte, and answers the wrapper once, with the exit code, but
  -- with the compiler's standard error in the place of its standard output and the other way round.
  pub send_compilation_result-IsReceived :
      (content : Bytes)
      → 0 < sz
      → 0 < length content % sz
      → is_nonzero s.compiler_exit_code ≡ false
      → lookup s.out_obj_file files ≡ some content
      → Receiving s.session_uuid name [] out r
      → IsReceived s.session_uuid name content out
          (swapped_response s)
          (receive_all (send_compilation_result sz s files) r)
  send_compilation_result-IsReceived content hsz hm e h v =
      rw (send_compilation_result-send_loop sz s files content e h) (
        loop_arrives sz s (length content) name out (length content / sz) (length content % sz)
          (suc (length content)) content [] r hm (mod-lt (length content) hsz)
          (sym (div-add-mod' (length content) sz)) (omega arith) v)

  -- An object file that fills the buffers exactly, or that is empty, never completes at the client:
  -- its bytes are there, but the transfer stays open and the wrapper gets no answer.
  pub send_compilation_result-Receiving :
      (k : ℕ) (content : Bytes)
      → 0 < sz
      → length content ≡ k * sz
      → is_nonzero s.compiler_exit_code ≡ false
      → lookup s.out_obj_file files ≡ some content
      → Receiving s.session_uuid name [] out r
      → Receiving s.session_uuid name content out
          (receive_all (send_compilation_result sz s files) r)
  send_compilation_result-Receiving k content hsz hl e h v =
      rw (send_compilation_result-send_loop sz s files content e h) (
        loop_stalls sz s (length content) name out k (suc (length content)) content [] r hsz hl
          (omega arith) v)

  -- After a failed compilation the wrapper is answered with the exit code, whatever is on the server's
  -- disk; the two outputs are exchanged here too, and the object file is left empty.
  pub send_compilation_result_failed-IsReceived :
      is_nonzero s.compiler_exit_code ≡ true
      → Receiving s.session_uuid name [] out r
      → IsReceived s.session_uuid name [] out
          (swapped_response s)
          (receive_all (send_compilation_result sz s files) r)
  send_compilation_result_failed-IsReceived e v =
      rw (send_compilation_result_failed sz s files e) (last_piece sz s 0 name out [] [] r v)
