-- ===== src/Server/View/Open.antt =====
-- Which sessions a client's view has.
use dist_build_sys.Base.{
  ℕ, ◌≡◌, refl, ◌∙◌, inl, inr, [], ◌∷◌, Bool, not, ◌||◌, ◌&&◌, Bool-cases, Bytes, bytes_eq,
  bytes_eq_iff, arith, some, >>=-result,
}
use dist_build_sys.Base.Dict.{
  Dict, lookup, insert, erase, contains, try_emplace, lookup-insert, lookup-erase,
}
use dist_build_sys.Messages.{ClientSessionStartRequest}
use dist_build_sys.Compiler.{CompilerManager}
use dist_build_sys.Server.Arguments.{CompilerArgs}
use dist_build_sys.Server.Files.{FileStateView}
use dist_build_sys.Server.Session.{ServerSession, try_request_src_compilation}
use dist_build_sys.Server.View.{
  World, send_msg, try_all, try_compile_for_active_sessions, create_client_dir_hierarchy,
  open_session, add_session,
}

abbrev pub has : Bytes → World → Bool
has sid w = contains sid w.view.associated_sessions

try_all-contains :
    (sid : Bytes) (states : Dict FileStateView) (sessions : Dict ServerSession)
    (m : CompilerManager)
    → contains sid (try_all states sessions m).0 ≡ contains sid sessions
unfolding try_all lookup
try_all-contains sid states [] m = refl
try_all-contains sid states ((key, s) ∷ rest) m =
    let later = try_all-contains sid states rest (try_request_src_compilation states s m).1 in
    elim (Bool-cases (bytes_eq key sid)) [ inl same ↦ rw same | inr other ↦ rw other later ]

pub try_compile-has :
    (sid : Bytes) (w : World) → has sid (try_compile_for_active_sessions w) ≡ has sid w
unfolding try_compile_for_active_sessions
try_compile-has sid w =
    try_all-contains sid w.view.client_file_states w.view.associated_sessions w.manager

pub contains-try_emplace :
    {V : Type 0} (k j : Bytes) (v : V) (m : Dict V)
    → contains j (try_emplace k v m) ≡ (bytes_eq k j || contains j m)
contains-try_emplace k j v m = ground (arith, lookup-insert k j v m, bytes_eq_iff k j)

pub contains-insert_known :
    {V : Type 0} (k j : Bytes) (v old : V) (m : Dict V)
    → lookup k m ≡ some old
    → contains j (insert k v m) ≡ contains j m
contains-insert_known k j v old m h = ground (arith, lookup-insert k j v m, bytes_eq_iff k j)

pub contains-erase :
    {V : Type 0} (k j : Bytes) (m : Dict V)
    → contains j (erase k m) ≡ (not (bytes_eq k j) && contains j m)
contains-erase k j m = ground (arith, lookup-erase k j m)

open_session-has :
    (now : ℕ) (session_uuid sid : Bytes) (announced : Dict FileStateView × ServerSession)
    (args : CompilerArgs) (w : World)
    → has sid (open_session now session_uuid announced args w)
      ≡ (bytes_eq session_uuid sid || has sid w)
unfolding open_session send_msg create_client_dir_hierarchy
open_session-has now session_uuid sid announced args w =
    try_compile-has sid _ ∙ contains-try_emplace session_uuid sid _ w.view.associated_sessions

pub add_session-has :
    (compiler_bin : Bytes) (now : ℕ) (session_uuid sid : Bytes) (start : ClientSessionStartRequest)
    (w w' : World)
    → add_session compiler_bin now session_uuid start w ≡ some w'
    → has sid w' ≡ (bytes_eq session_uuid sid || has sid w)
unfolding add_session
add_session-has compiler_bin now session_uuid sid start w w' e =
    >>=-result (λ v. has sid v ≡ (bytes_eq session_uuid sid || has sid w)) _
      (λ args. open_session now session_uuid _ args w)
      (λ args. open_session-has now session_uuid sid _ args w) e
