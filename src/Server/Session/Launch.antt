-- ===== src/Server/Session/Launch.antt =====
-- When a session's compilation is requested.
use dist_build_sys.Base.{
  ◌≡◌, refl, List, [], ◌∷◌, true, false, not, ◌&&◌, Bool-cases, inl, inr, arith, Bytes, bytes_eq,
  all,
}
use dist_build_sys.Base.Dict.{Dict, insert, contains, lookup-insert}
use dist_build_sys.Compiler.{CompilerManager}
use dist_build_sys.Server.Files.{FileStateView, is_available, update_file_state}
use dist_build_sys.Server.Upload.{FileTransferState}
use dist_build_sys.Server.Upload.Marks.{Marked, kept, withdrawn}
use dist_build_sys.Server.Session.{
  ServerSession, file_ready, may_compile, try_request_src_compilation,
}

-- The session is compiling, or something that it needs is missing.
abbrev pub IsLaunched : Dict FileStateView → ServerSession → Type 0
IsLaunched states s = (may_compile states s && not s.is_compiler_running) ≡ false

may_compile_running :
    (states : Dict FileStateView) (s : ServerSession)
    → may_compile states (record s { is_compiler_running = true }) ≡ may_compile states s
unfolding may_compile
may_compile_running states s = refl

pub try_request-IsLaunched :
    (states : Dict FileStateView) (s : ServerSession) (m : CompilerManager)
    → IsLaunched states (try_request_src_compilation states s m).0
unfolding try_request_src_compilation
try_request-IsLaunched states s m =
    elim (Bool-cases (may_compile states s && not s.is_compiler_running)) [
      | inl e ↦ rw e (ground (arith, may_compile_running states s))
      | inr e ↦ rw e e
    ]

-- Every file that is there after was there before.
abbrev pub Shrinks : Dict FileStateView → Dict FileStateView → Type 0
Shrinks states after = (path : Bytes) → file_ready after path ≡ true → file_ready states path ≡ true

file_ready-insert :
    (states : Dict FileStateView) (name path : Bytes) (fs : FileStateView)
    → is_available fs.file_status ≡ false
    → file_ready (insert name fs states) path ≡ true
    → file_ready states path ≡ true
unfolding file_ready
file_ready-insert states name path fs missing h = elim (Bool-cases (bytes_eq name path)) [
  | inl same ↦ ground (arith, same, missing, lookup-insert name path fs states, h)
  | inr other ↦ ground (arith, other, lookup-insert name path fs states, h)
]

pub Marked-Shrinks :
    (states after : Dict FileStateView) → Marked states after → Shrinks states after
unfolding update_file_state
Marked-Shrinks states after (kept e) path h = rw e at h
Marked-Shrinks states after (withdrawn name fs missing e) path h =
    elim (Bool-cases (contains name states)) [
      | inl there ↦ file_ready-insert states name path fs missing (rw (e, there) at h)
      | inr new ↦ rw (e, new) at h
    ]

all_ready-Shrinks :
    (states after : Dict FileStateView)
    → Shrinks states after
    → (paths : List Bytes) → all (file_ready after) paths ≡ true
    → all (file_ready states) paths ≡ true
all_ready-Shrinks states after shrinks [] h = refl
all_ready-Shrinks states after shrinks (path ∷ paths) h =
    ground (arith, shrinks path, all_ready-Shrinks states after shrinks paths, h)

-- A session that needs no launch needs none when files go away.
pub IsLaunched-Shrinks :
    (states after : Dict FileStateView)
    → Shrinks states after
    → (s : ServerSession) → IsLaunched states s
    → IsLaunched after s
unfolding may_compile
IsLaunched-Shrinks states after shrinks s h =
    ground (arith, all_ready-Shrinks states after shrinks s.required_files_state, h)

pub IsLaunched-transfers :
    (states : Dict FileStateView) (s : ServerSession) (transfers : Dict FileTransferState)
    → IsLaunched states s
    → IsLaunched states (record s { file_transfer_states = transfers })
unfolding may_compile
IsLaunched-transfers states s transfers h = h
