-- ===== src/Client/Session/Answers.antt =====
-- How often the wrapper is answered.
use dist_build_sys.Base.{
  ℕ, ◌+◌, ◌≤◌, ◌≡◌, ◌⊎◌, refl, List, [], ◌∷◌, Bool, true, false, ◌&&◌, Option, none, some, bytes_eq,
  length, length-append, if◌then◌else◌, arith, Bool-cases, inl, inr,
}
use dist_build_sys.Messages.{ServerMessage, ServerObjFileChunkResponse}
use dist_build_sys.Client.ReceiveObject.{
  ObjFileTransferState, ObjectReceiver, wrapper_response, complete_call, take_piece, with_transfer,
  process_obj_file_chunk,
}
use dist_build_sys.Client.Session.{
  ClientSession, LocalOutput, send_file, compile_here, perform_local_compilation,
  send_abort_to_server, terminate_client_session, fall_back, after_object, handle_server_message,
  message_loop, handle_client_session,
}

-- The answers that are due while the loop runs: one as soon as the object file is complete.
unfoldable pub due : Option ObjFileTransferState → ℕ
due none = 0
due (some ts) = if ts.is_finished then 1 else 0

abbrev pub answers : ObjectReceiver → ℕ
answers r = length r.published

-- What a piece of the object file leaves.
Kept : ObjectReceiver × Bool → Type 0
Kept (r, true) = answers r ≡ due r.transfer
Kept (r, false) = answers r ≤ 1

answers-complete_call :
    (msg : ServerObjFileChunkResponse) (ts : ObjFileTransferState) (r : ObjectReceiver)
    → answers (complete_call msg ts r) ≡ answers r + 1
unfolding complete_call
answers-complete_call msg ts r = length-append r.published (wrapper_response msg ∷ [])

due_le : (o : Option ObjFileTransferState) → due o ≤ 1
unfolding due
due_le none = omega arith
due_le (some ts) = ground arith

kept_open :
    (r : ObjectReceiver) (ts : ObjFileTransferState)
    → r.transfer ≡ some ts
    → ts.is_finished ≡ false
    → answers r ≡ 0
    → answers r ≡ due r.transfer
unfolding due
kept_open r ts e f h = rw (e, due, f) h

take_piece-Kept :
    (msg : ServerObjFileChunkResponse) (ts : ObjFileTransferState) (r : ObjectReceiver)
    → r.transfer ≡ some ts
    → answers r ≡ due (some ts)
    → Kept (take_piece msg ts r)
unfolding Kept take_piece due complete_call wrapper_response
take_piece-Kept msg ts r e h = elim (Bool-cases ts.is_finished) [
  | inl f ↦ rw f (rw (e, f) (rw f at h))
  | inr f ↦
      let none_yet : answers r ≡ 0 = rw f at h in
      elim (Bool-cases (bytes_eq ts.session_id r.session_uuid)) [
        | inr b ↦ rw (f, b) (omega (arith, none_yet))
        | inl b ↦ elim (Bool-cases msg.is_last_chunk) [
          | inl l ↦ rw (f, b, l) (omega (arith, answers-complete_call msg ts r, none_yet))
          | inr l ↦ rw (f, b, l) (kept_open r ts e f none_yet)
        ]
      ]
]

with_transfer-Kept :
    (msg : ServerObjFileChunkResponse) (o : Option ObjFileTransferState) (r : ObjectReceiver)
    → r.transfer ≡ o
    → answers r ≡ due o
    → Kept (with_transfer msg o r)
unfolding with_transfer Kept due
with_transfer-Kept msg none r e h = omega (arith, h)
with_transfer-Kept msg (some ts) r e h = take_piece-Kept msg ts r e h

process-Kept :
    (msg : ServerObjFileChunkResponse) (r : ObjectReceiver)
    → answers r ≡ due r.transfer
    → Kept (process_obj_file_chunk msg r)
unfolding process_obj_file_chunk Kept
process-Kept msg r h = elim (Bool-cases (bytes_eq msg.session_id r.session_uuid)) [
  | inr b ↦ rw b (omega (arith, h, due_le r.transfer))
  | inl b ↦ rw b (with_transfer-Kept msg r.transfer r refl h)
]

-- The session after a round: still open with what is due answered, or at its end with an answer.
Outcome : ClientSession × Bool → Type 0
Outcome (s, true) = answers s.receiver ≡ due s.receiver.transfer
Outcome (s, false) = (1 ≤ answers s.receiver) × (answers s.receiver ≤ 2) × (s.terminated ≡ true)

-- The socket throws.
unfoldable pub throws : List (Option ServerMessage) → Bool
throws [] = false
throws (none ∷ msgs) = true
throws (some msg ∷ msgs) = throws msgs

-- The session after the loop, which left it by a `co_return` or by an exception of the socket.
pub Left : List (Option ServerMessage) → ClientSession × Bool → Type 0
Left msgs (s, true) = answers s.receiver ≡ due s.receiver.transfer
Left msgs (s, false) =
    ((1 ≤ answers s.receiver) × (answers s.receiver ≤ 2) × (s.terminated ≡ true))
    ⊎ ((throws msgs ≡ true) × (answers s.receiver ≡ due s.receiver.transfer))

Left-later :
    (msg : ServerMessage) (msgs : List (Option ServerMessage)) (r : ClientSession × Bool)
    → Left msgs r
    → Left (some msg ∷ msgs) r
unfolding Left throws
Left-later msg msgs (s, true) h = h
Left-later msg msgs (s, false) h = h

module _ (local : LocalOutput) where
  answers-compile_here : (r : ObjectReceiver) → answers (compile_here local r) ≡ answers r + 1
  unfolding compile_here
  answers-compile_here r = length-append r.published _

  fall_back-Outcome :
      (s : ClientSession) → answers s.receiver ≤ 1 → Outcome (fall_back local s, false)
  unfolding Outcome fall_back terminate_client_session send_abort_to_server
      perform_local_compilation
  fall_back-Outcome s h = (
    omega (arith, answers-compile_here s.receiver),
    omega (arith, answers-compile_here s.receiver, h),
    refl,
  )

  after_object-Outcome :
      (s : ClientSession) (p : ObjectReceiver × Bool) → Kept p → Outcome (after_object local s p)
  unfolding after_object Kept Outcome
  after_object-Outcome s (r, true) h = h
  after_object-Outcome s (r, false) h = fall_back-Outcome (record s { receiver = r }) h

  handle-Outcome :
      (msg : ServerMessage) (s : ClientSession)
      → answers s.receiver ≡ due s.receiver.transfer
      → Outcome (handle_server_message local msg s)
  unfolding handle_server_message Outcome send_file terminate_client_session
      perform_local_compilation
  handle-Outcome (ServerMessage.session_confirmed session_id required_files) s h = h
  handle-Outcome (ServerMessage.session_abort session_id) s h = (
    omega (arith, answers-compile_here s.receiver),
    omega (arith, answers-compile_here s.receiver, h, due_le s.receiver.transfer),
    refl,
  )
  handle-Outcome (ServerMessage.file_up_complete session_id filename success) s h =
      elim (Bool-cases (bytes_eq session_id s.receiver.session_uuid && success)) [
        | inl b ↦ rw b h
        | inr b ↦ rw b (fall_back-Outcome s (omega (arith, h, due_le s.receiver.transfer)))
      ]
  handle-Outcome (ServerMessage.all_req_up_complete session_id) s h = h
  handle-Outcome (ServerMessage.obj_file_chunk_transmit msg) s h =
      after_object-Outcome s (process_obj_file_chunk msg s.receiver) (process-Kept msg s.receiver h)
  handle-Outcome ServerMessage.none_set s h = h

  loop-Left :
      (msgs : List (Option ServerMessage)) (r : ClientSession × Bool)
      → Outcome r
      → Left msgs (message_loop local msgs r)
  unfolding message_loop Outcome Left throws
  loop-Left msgs (s, false) h = inl h
  loop-Left [] (s, true) h = h
  loop-Left (none ∷ msgs) (s, true) h = inr (refl, h)
  loop-Left (some msg ∷ msgs) (s, true) h =
      Left-later msg msgs (message_loop local msgs (handle_server_message local msg s))
        (loop-Left msgs (handle_server_message local msg s) (handle-Outcome msg s h))

  -- For a session with as many answers as are due, which is one if the object file is complete and none
  -- before, and whatever messages come in: while its loop waits for more, the answers are still those
  -- due; when the loop has returned, the session is terminated and the wrapper has one answer or two, or the
  -- socket has thrown and the wrapper has just the answers due, which may be none.
  pub handle_client_session-answers :
      (msgs : List (Option ServerMessage)) (s : ClientSession)
      → answers s.receiver ≡ due s.receiver.transfer
      → Left msgs (handle_client_session local msgs s)
  unfolding handle_client_session send_file Outcome
  handle_client_session-answers msgs s h = loop-Left msgs (send_file s, true) h
