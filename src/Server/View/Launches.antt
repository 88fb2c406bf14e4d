-- ===== src/Server/View/Launches.antt =====
-- No session that could compile is left waiting.
use dist_build_sys.Base.{◌≡◌, [], ◌∷◌, some, Bytes, All, ℕ, >>=-result}
use dist_build_sys.Base.Dict.{Dict}
use dist_build_sys.Messages.{ClientSessionStartRequest, ClientFileChunkUploadRequest}
use dist_build_sys.Compiler.{CompilerManager}
use dist_build_sys.Server.Files.{FileStateView}
use dist_build_sys.Server.Session.{ServerSession, try_request_src_compilation}
use dist_build_sys.Server.Session.Launch.{IsLaunched, try_request-IsLaunched}
use dist_build_sys.Server.Arguments.{CompilerArgs}
use dist_build_sys.Server.Upload.{completed, receive_chunk}
use dist_build_sys.Server.View.{
  World, send_msg, try_all, try_compile_for_active_sessions, open_session, add_session, after_chunk,
  process_file_chunk,
}

abbrev AllLaunched : Dict FileStateView → Dict ServerSession → Type 0
AllLaunched states = All (λ e. IsLaunched states e.1)

-- Every session of the client compiles already, or lacks a file or its arguments.
abbrev pub NoneWaits : World → Type 0
NoneWaits w = AllLaunched w.view.client_file_states w.view.associated_sessions

try_all-AllLaunched :
    (states : Dict FileStateView) (sessions : Dict ServerSession) (m : CompilerManager)
    → AllLaunched states (try_all states sessions m).0
unfolding try_all
try_all-AllLaunched states [] m = tt
try_all-AllLaunched states ((sid, s) ∷ rest) m = (
  try_request-IsLaunched states s m,
  try_all-AllLaunched states rest (try_request_src_compilation states s m).1,
)

pub try_compile-NoneWaits : (w : World) → NoneWaits (try_compile_for_active_sessions w)
unfolding try_compile_for_active_sessions
try_compile-NoneWaits w =
    try_all-AllLaunched w.view.client_file_states w.view.associated_sessions w.manager

-- When the last chunk of a file completes it, every session of the client that has its arguments and
-- all its files is compiling: none is left waiting.
pub process_file_chunk-NoneWaits :
    (sha1 : Bytes → Bytes) (sid : Bytes) (s : ServerSession) (msg : ClientFileChunkUploadRequest)
    (w : World)
    → (receive_chunk sha1 sid msg (record {
      file_states = w.view.client_file_states;
      transfers = s.file_transfer_states;
      files = w.files;
    })).1
      ≡ completed
    → NoneWaits (process_file_chunk sha1 sid s msg w).0
unfolding process_file_chunk after_chunk send_msg
process_file_chunk-NoneWaits sha1 sid s msg w e = rw (e, after_chunk) (try_compile-NoneWaits _)

open_session-NoneWaits :
    (now : ℕ) (session_uuid : Bytes) (announced : Dict FileStateView × ServerSession)
    (args : CompilerArgs) (w : World)
    → NoneWaits (open_session now session_uuid announced args w)
unfolding open_session
open_session-NoneWaits now session_uuid announced args w = try_compile-NoneWaits _

-- When a new session is set up, every session of the client that has its arguments and all its files
-- is compiling: none is left waiting.
pub add_session-NoneWaits :
    (compiler_bin : Bytes) (now : ℕ) (session_uuid : Bytes) (start : ClientSessionStartRequest)
    (w w' : World)
    → add_session compiler_bin now session_uuid start w ≡ some w'
    → NoneWaits w'
unfolding add_session
add_session-NoneWaits compiler_bin now session_uuid start w w' e =
    >>=-result NoneWaits _ (λ args. open_session now session_uuid _ args w)
      (λ args. open_session-NoneWaits now session_uuid _ args w) e
