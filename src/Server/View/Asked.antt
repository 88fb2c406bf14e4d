-- ===== src/Server/View/Asked.antt =====
-- A session that says it compiles has its request in the queue of src/compiler_manager.hpp.
use dist_build_sys.Base.{
  ℕ, ◌≡◌, refl, ◌⊎◌, inl, inr, List, [], ◌∷◌, ◌++◌, true, false, not, ◌&&◌, Bool-cases, Bytes,
  bytes_eq, is_empty, All, arith, some, >>=-result,
}
use dist_build_sys.Base.Dict.{Dict, contains, try_emplace, All-insert, All-map}
use dist_build_sys.Messages.{FileInfo, ClientSessionStartRequest}
use dist_build_sys.Compiler.{
  CompilationRequest, CompilerManager, add_compilation_request, invalidate_all,
  invalidate_requests_for_session,
}
use dist_build_sys.Server.Files.{FileStateView}
use dist_build_sys.Server.Upload.{FileTransferState}
use dist_build_sys.Server.Arguments.{CompilerArgs}
use dist_build_sys.Server.Session.{
  ServerSession, new_session, add_required_file_state, may_compile, compilation_request,
  try_request_src_compilation,
}
use dist_build_sys.Server.View.{
  World, send_msg, announce_files, try_all, try_compile_for_active_sessions,
  create_client_dir_hierarchy, with_args, open_session, add_session,
}

-- The request asks for the session's own compilation.
pub record IsRequestOf (s : ServerSession) (rqst : CompilationRequest) : Type 0 where
  pub session : rqst.requester_session ≡ s.session_uuid
  pub compiler : rqst.compiler_name ≡ s.compiler_name
  pub line_args : rqst.cmd_line_args ≡ s.cmd_line_args
  pub dir : rqst.current_working_dir ≡ s.current_working_dir

-- The queue has a request of the session.
unfoldable pub Queued : List CompilationRequest → ServerSession → Type 0
Queued [] s = ¬ Unit {0}
Queued (rqst ∷ rest) s = IsRequestOf s rqst ⊎ Queued rest s

-- If the session says that its compiler runs, the queue has its request.
abbrev pub IsAsked : List CompilationRequest → ServerSession → Type 0
IsAsked queue s = s.is_compiler_running ≡ true → Queued queue s

-- All requests that are in the one queue are in the other.
abbrev pub Grows : List CompilationRequest → List CompilationRequest → Type 0
Grows queue later = (s : ServerSession) → Queued queue s → Queued later s

Queued-append : (queue more : List CompilationRequest) → Grows queue (queue ++ more)
unfolding Queued
Queued-append [] more s h = absurd (h tt)
Queued-append (rqst ∷ rest) more s (inl here) = inl here
Queued-append (rqst ∷ rest) more s (inr later) = inr (Queued-append rest more s later)

Queued-last :
    (queue : List CompilationRequest) (rqst : CompilationRequest) (s : ServerSession)
    → IsRequestOf s rqst
    → Queued (queue ++ rqst ∷ []) s
unfolding Queued
Queued-last [] rqst s h = inl h
Queued-last (first ∷ rest) rqst s h = inr (Queued-last rest rqst s h)

module _ (states : Dict FileStateView) where
  try_request-Grows :
      (s : ServerSession) (m : CompilerManager)
      → Grows m.compile_task_queue (try_request_src_compilation states s m).1.compile_task_queue
  unfolding try_request_src_compilation add_compilation_request
  try_request-Grows s m other h =
      elim (Bool-cases (may_compile states s && not s.is_compiler_running)) [
        | inl now ↦ rw now (Queued-append m.compile_task_queue _ other h)
        | inr later ↦ rw later h
      ]

  try_request-IsAsked :
      (s : ServerSession) (m : CompilerManager)
      → IsAsked m.compile_task_queue s
      → IsAsked
          (try_request_src_compilation states s m).1.compile_task_queue
          (try_request_src_compilation states s m).0
  unfolding try_request_src_compilation add_compilation_request compilation_request
  try_request-IsAsked s m asked =
      elim (Bool-cases (may_compile states s && not s.is_compiler_running)) [
        | inl now ↦ rw now (λ running.
            Queued-last m.compile_task_queue _ _
              (record { session = refl; compiler = refl; line_args = refl; dir = refl }))
        | inr later ↦ rw later asked
      ]

  try_all-Grows :
      (sessions : Dict ServerSession) (m : CompilerManager)
      → Grows m.compile_task_queue (try_all states sessions m).1.compile_task_queue
  unfolding try_all
  try_all-Grows [] m other h = h
  try_all-Grows ((sid, s) ∷ rest) m other h =
      try_all-Grows rest (try_request_src_compilation states s m).1 other
        (try_request-Grows s m other h)

  try_all-IsAsked :
      (sessions : Dict ServerSession) (m : CompilerManager)
      → All (λ e. IsAsked m.compile_task_queue e.1) sessions
      → All
          (λ e. IsAsked (try_all states sessions m).1.compile_task_queue e.1)
          (try_all states sessions m).0
  unfolding try_all
  try_all-IsAsked [] m h = tt
  try_all-IsAsked ((sid, s) ∷ rest) m (asked, others) =
      let later = (try_request_src_compilation states s m).1 in
      (
        λ running. try_all-Grows rest later _ (try_request-IsAsked s m asked running),
        try_all-IsAsked rest later (
            All-map (IsAsked m.compile_task_queue) (IsAsked later.compile_task_queue)
              (λ other h running. try_request-Grows s m other (h running)) rest others),
      )

-- Every session of the client that says its compiler runs has its request in the queue.
abbrev pub AllAsked : World → Type 0
AllAsked w = All (λ e. IsAsked w.manager.compile_task_queue e.1) w.view.associated_sessions

pub try_compile-AllAsked : (w : World) → AllAsked w → AllAsked (try_compile_for_active_sessions w)
unfolding try_compile_for_active_sessions
try_compile-AllAsked w h =
    try_all-IsAsked w.view.client_file_states w.view.associated_sessions w.manager h

All-try_emplace :
    (P : ServerSession → Type 0) (k : Bytes) (s : ServerSession) (m : Dict ServerSession)
    → P s
    → All (λ e. P e.1) m
    → All (λ e. P e.1) (try_emplace k s m)
All-try_emplace P k s m new old = elim (Bool-cases (contains k m)) [
  | inl there ↦ rw there old
  | inr fresh ↦ rw fresh (All-insert P k s m new old)
]

open_session-AllAsked :
    (now : ℕ) (session_uuid : Bytes) (announced : Dict FileStateView × ServerSession)
    (args : CompilerArgs) (w : World)
    → announced.1.is_compiler_running ≡ false
    → AllAsked w
    → AllAsked (open_session now session_uuid announced args w)
unfolding open_session send_msg create_client_dir_hierarchy with_args
open_session-AllAsked now session_uuid announced args w idle h = try_compile-AllAsked _ (
    All-try_emplace (IsAsked w.manager.compile_task_queue) session_uuid (with_args args announced.1)
      w.view.associated_sessions (λ running. absurd (ground (arith, idle, running))) h)

invalidate_all-Grows :
    (session : Bytes) (queue : List CompilationRequest) → Grows queue (invalidate_all session queue)
unfolding invalidate_all Queued
invalidate_all-Grows session [] s h = h
invalidate_all-Grows session (rqst ∷ rest) s (inr later) =
    inr (invalidate_all-Grows session rest s later)
invalidate_all-Grows session (rqst ∷ rest) s (inl here) =
    elim (Bool-cases (bytes_eq rqst.requester_session session)) [
      | inl own ↦ rw own (
          inl (record {
            session = here.session;
            compiler = here.compiler;
            line_args = here.line_args;
            dir = here.dir;
          }))
      | inr other ↦ rw other (inl here)
    ]

-- A flag on requests takes none out of the queue.
pub invalidate_requests-Grows :
    (session : Bytes) (m : CompilerManager)
    → Grows m.compile_task_queue (invalidate_requests_for_session session m).compile_task_queue
unfolding invalidate_requests_for_session
invalidate_requests-Grows session m = invalidate_all-Grows session m.compile_task_queue

announce-idle :
    (dir : Bytes) (infos : List FileInfo) (acc : Dict FileStateView × ServerSession)
    → acc.1.is_compiler_running ≡ false
    → (announce_files dir infos acc).1.is_compiler_running ≡ false
unfolding announce_files add_required_file_state
announce-idle dir [] acc h = h
announce-idle dir (info ∷ infos) (states, s) h =
    announce-idle dir infos _ (elim (Bool-cases (is_empty info.filename)) [
      | inl unnamed ↦ rw unnamed h
      | inr named ↦ rw named h
    ])

pub add_session-AllAsked :
    (compiler_bin : Bytes) (now : ℕ) (session_uuid : Bytes) (start : ClientSessionStartRequest)
    (w w' : World)
    → add_session compiler_bin now session_uuid start w ≡ some w'
    → AllAsked w
    → AllAsked w'
unfolding add_session new_session
add_session-AllAsked compiler_bin now session_uuid start w w' e h =
    >>=-result AllAsked _ (λ args. open_session now session_uuid _ args w)
      (λ args.
        open_session-AllAsked now session_uuid _ args w
          (announce-idle w.view.current_working_dir start.required_files_info _ refl) h)
      e

pub Queued-transfers :
    (queue : List CompilationRequest) (s : ServerSession) (transfers : Dict FileTransferState)
    → Queued queue s
    → Queued queue (record s { file_transfer_states = transfers })
unfolding Queued
Queued-transfers [] s transfers h = h
Queued-transfers (rqst ∷ rest) s transfers (inl here) = inl (record {
  session = here.session;
  compiler = here.compiler;
  line_args = here.line_args;
  dir = here.dir;
})
Queued-transfers (rqst ∷ rest) s transfers (inr later) =
    inr (Queued-transfers rest s transfers later)
