-- ===== src/Server/View/Handling.antt =====
-- What a message to one session does to all sessions of the client.
use dist_build_sys.Compiler.{invalidate_requests_for_session}
use dist_build_sys.Server.View.Asked.{
  IsAsked, AllAsked, Queued-transfers, try_compile-AllAsked, invalidate_requests-Grows,
}
use dist_build_sys.Server.View.Open.{has, try_compile-has, contains-insert_known, contains-erase}
use dist_build_sys.Base.{
  bytes_eq, not, ◌&&◌, ◌∙◌, ℕ, ◌≡◌, refl, inl, inr, true, false, Bool, Option, none, some, Bytes,
}
use dist_build_sys.Base.Dict.{lookup, All-insert, All-erase, All-lookup, All-map}
use dist_build_sys.Messages.{ServerMessage, ClientFileChunkUploadRequest, ClientMessage}
use dist_build_sys.Server.Session.{ServerSession}
use dist_build_sys.Server.Session.Launch.{
  IsLaunched, Marked-Shrinks, IsLaunched-Shrinks, IsLaunched-transfers,
}
use dist_build_sys.Server.Upload.{Upload, Outcome, rejected, accepted, completed, receive_chunk}
use dist_build_sys.Server.Upload.Marks.{Marked, receive_chunk-Chunk}
use dist_build_sys.Server.View.{
  World, send_msg, try_compile_for_active_sessions, remove_session, terminate_server_session,
  store_upload, after_chunk, process_file_chunk, abort_unless, upload_chunk, touch, handle_message,
}
use dist_build_sys.Server.View.Launches.{
  NoneWaits, try_compile-NoneWaits, process_file_chunk-NoneWaits,
}

-- A message that ends its session.
unfoldable pub ends : ClientMessage → Bool
ends (ClientMessage.session_start start) = false
ends (ClientMessage.file_chunk_upload msg) = false
ends (ClientMessage.session_abort session_id client_id) = true
ends ClientMessage.none_set = true

module _ (sha1 : Bytes → Bytes) where
  abbrev taking : ServerSession → World → Upload
  taking s w = record {
    file_states = w.view.client_file_states;
    transfers = s.file_transfer_states;
    files = w.files;
  }

  -- The session's own transfers and the files that are gone launch nothing.
  store_upload-NoneWaits :
      (sid : Bytes) (s : ServerSession) (u : Upload) (w : World)
      → NoneWaits w
      → lookup sid w.view.associated_sessions ≡ some s
      → Marked w.view.client_file_states u.file_states
      → NoneWaits (store_upload sha1 sid s u w)
  unfolding store_upload
  store_upload-NoneWaits sid s u w h e marked =
      let shrinks = Marked-Shrinks w.view.client_file_states u.file_states marked in
      let kept = IsLaunched-Shrinks w.view.client_file_states u.file_states shrinks in
      let P = IsLaunched w.view.client_file_states in
      All-insert (IsLaunched u.file_states) sid _ w.view.associated_sessions
        (IsLaunched-transfers u.file_states s u.transfers
          (kept s (All-lookup P sid s w.view.associated_sessions h e)))
        (All-map P (IsLaunched u.file_states) kept w.view.associated_sessions h)

  after_chunk-NoneWaits :
      (sid name : Bytes) (w : World) (outcome : Outcome)
      → NoneWaits w
      → NoneWaits (after_chunk sha1 sid name w outcome).0
  unfolding after_chunk send_msg
  after_chunk-NoneWaits sid name w rejected h = h
  after_chunk-NoneWaits sid name w accepted h = h
  after_chunk-NoneWaits sid name w completed h = try_compile-NoneWaits w

  process_file_chunk-NoneWaits_kept :
      (sid : Bytes) (s : ServerSession) (msg : ClientFileChunkUploadRequest) (w : World)
      → NoneWaits w
      → lookup sid w.view.associated_sessions ≡ some s
      → NoneWaits (process_file_chunk sha1 sid s msg w).0
  unfolding process_file_chunk
  process_file_chunk-NoneWaits_kept sid s msg w h e =
      elim (receive_chunk-Chunk sha1 sid msg (taking s w)) [
        | inl done ↦ process_file_chunk-NoneWaits sha1 sid s msg w done
        | inr marked ↦
            after_chunk-NoneWaits sid msg.filename _ _ (store_upload-NoneWaits sid s _ w h e marked)
      ]

  abort_unless-NoneWaits :
      (sid : Bytes) (r : World × Bool) → NoneWaits r.0 → NoneWaits (abort_unless sha1 sid r)
  unfolding abort_unless send_msg
  abort_unless-NoneWaits sid (w, true) h = h
  abort_unless-NoneWaits sid (w, false) h = h

  upload_chunk-NoneWaits :
      (sid : Bytes) (found : Option ServerSession) (msg : ClientFileChunkUploadRequest) (w : World)
      → NoneWaits w
      → lookup sid w.view.associated_sessions ≡ found
      → NoneWaits (upload_chunk sha1 sid found msg w)
  unfolding upload_chunk
  upload_chunk-NoneWaits sid none msg w h e = h
  upload_chunk-NoneWaits sid (some s) msg w h e =
      abort_unless-NoneWaits sid _ (process_file_chunk-NoneWaits_kept sid s msg w h e)

  terminate-NoneWaits :
      (sid : Bytes) (w : World) → NoneWaits w → NoneWaits (terminate_server_session sid w)
  unfolding terminate_server_session remove_session
  terminate-NoneWaits sid w h =
      All-erase (IsLaunched w.view.client_file_states) sid w.view.associated_sessions h

  pub handle_message-NoneWaits :
      (sid : Bytes) (now : ℕ) (msg : ClientMessage) (w : World)
      → NoneWaits w
      → NoneWaits (handle_message sha1 sid now msg w).0
  unfolding handle_message touch
  handle_message-NoneWaits sid now (ClientMessage.session_start start) w h = h
  handle_message-NoneWaits sid now (ClientMessage.file_chunk_upload msg) w h =
      upload_chunk-NoneWaits sid _ msg (touch sha1 now w) h refl
  handle_message-NoneWaits sid now (ClientMessage.session_abort session_id client_id) w h =
      terminate-NoneWaits sid w h
  handle_message-NoneWaits sid now ClientMessage.none_set w h = terminate-NoneWaits sid w h

  -- A chunk keeps the sessions and their requests, and what follows it does too.
  after_chunk-kept :
      (Kept : World → Type 0)
      → ((v : World) → Kept v → Kept (try_compile_for_active_sessions v))
      → ((to : Bytes) (msg : ServerMessage) (v : World) → Kept v → Kept (send_msg to msg v))
      → (sid name : Bytes) (w : World) (outcome : Outcome) → Kept w
      → Kept (abort_unless sha1 sid (after_chunk sha1 sid name w outcome))
  unfolding abort_unless after_chunk
  after_chunk-kept Kept tries sends sid name w rejected h = sends sid _ w h
  after_chunk-kept Kept tries sends sid name w accepted h = h
  after_chunk-kept Kept tries sends sid name w completed h = sends sid _ _ (tries w h)

  upload_chunk-AllAsked :
      (sid : Bytes) (found : Option ServerSession) (msg : ClientFileChunkUploadRequest) (w : World)
      → AllAsked w
      → lookup sid w.view.associated_sessions ≡ found
      → AllAsked (upload_chunk sha1 sid found msg w)
  unfolding upload_chunk process_file_chunk store_upload send_msg
  upload_chunk-AllAsked sid none msg w h e = h
  upload_chunk-AllAsked sid (some s) msg w h e =
      after_chunk-kept AllAsked try_compile-AllAsked (λ to m v k. k) sid msg.filename _
        (receive_chunk sha1 sid msg (taking s w)).1
        (All-insert (IsAsked w.manager.compile_task_queue) sid _ w.view.associated_sessions
          (λ running. Queued-transfers w.manager.compile_task_queue s _ (
            All-lookup (IsAsked w.manager.compile_task_queue) sid s w.view.associated_sessions h e
              running))
          h)

  upload_chunk-has :
      (sid other : Bytes) (found : Option ServerSession) (msg : ClientFileChunkUploadRequest)
      (w : World)
      → lookup sid w.view.associated_sessions ≡ found
      → has other (upload_chunk sha1 sid found msg w) ≡ has other w
  unfolding upload_chunk process_file_chunk store_upload send_msg
  upload_chunk-has sid other none msg w e = refl
  upload_chunk-has sid other (some s) msg w e =
      after_chunk-kept (λ v. has other v ≡ has other w) (λ v k. try_compile-has other v ∙ k)
        (λ to m v k. k) sid msg.filename _ (receive_chunk sha1 sid msg (taking s w)).1
        (contains-insert_known sid other _ s w.view.associated_sessions e)

  terminate-AllAsked :
      (sid : Bytes) (w : World) → AllAsked w → AllAsked (terminate_server_session sid w)
  unfolding terminate_server_session remove_session
  terminate-AllAsked sid w h =
      let grows = invalidate_requests-Grows sid w.manager in
      All-erase (IsAsked (invalidate_requests_for_session sid w.manager).compile_task_queue) sid
        w.view.associated_sessions
        (All-map (IsAsked w.manager.compile_task_queue) _
          (λ s asked running. grows s (asked running)) w.view.associated_sessions h)

  pub handle_message-AllAsked :
      (sid : Bytes) (now : ℕ) (msg : ClientMessage) (w : World)
      → AllAsked w
      → AllAsked (handle_message sha1 sid now msg w).0
  unfolding handle_message touch
  handle_message-AllAsked sid now (ClientMessage.session_start start) w h = h
  handle_message-AllAsked sid now (ClientMessage.file_chunk_upload msg) w h =
      upload_chunk-AllAsked sid _ msg (touch sha1 now w) h refl
  handle_message-AllAsked sid now (ClientMessage.session_abort session_id client_id) w h =
      terminate-AllAsked sid w h
  handle_message-AllAsked sid now ClientMessage.none_set w h = terminate-AllAsked sid w h

  pub handle_message-has :
      (sid other : Bytes) (now : ℕ) (msg : ClientMessage) (w : World)
      → has other (handle_message sha1 sid now msg w).0
        ≡ (not (ends msg && bytes_eq sid other) && has other w)
  unfolding handle_message touch ends terminate_server_session remove_session
  handle_message-has sid other now (ClientMessage.session_start start) w = refl
  handle_message-has sid other now (ClientMessage.file_chunk_upload msg) w =
      upload_chunk-has sid other _ msg (touch sha1 now w) refl
  handle_message-has sid other now (ClientMessage.session_abort session_id client_id) w =
      contains-erase sid other w.view.associated_sessions
  handle_message-has sid other now ClientMessage.none_set w =
      contains-erase sid other w.view.associated_sessions
