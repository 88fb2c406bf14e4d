-- ===== src/Server/View/Always.antt =====
-- A client's view from its start: sessions are opened, and the messages of all its sessions are handled, in
-- any order. A message of a session that is gone changes no session.
use dist_build_sys.Base.{bytes_eq, not, ◌&&◌, ◌||◌, ℕ, ◌≡◌, false, Bool, some, Bytes}
use dist_build_sys.Messages.{ClientSessionStartRequest, ClientMessage}
use dist_build_sys.Server.View.{World, add_session, handle_message}
use dist_build_sys.Server.View.Handling.{ends}

-- What the server does for a client.
pub data Step (sha1 : Bytes → Bytes) (w w' : World) : Type 0 where
  opens :
      (compiler_bin : Bytes) (now : ℕ) (session_uuid : Bytes) (start : ClientSessionStartRequest)
      → add_session compiler_bin now session_uuid start w ≡ some w'
      → Step sha1 w w'
  handles :
      (sid : Bytes) (now : ℕ) (msg : ClientMessage)
      → w' ≡ (handle_message sha1 sid now msg w).0
      → Step sha1 w w'

pub data Reach (sha1 : Bytes → Bytes) (first : World) : World → Type 0 where
  here : Reach sha1 first first
  next : {w w' : World} → Reach sha1 first w → Step sha1 w w' → Reach sha1 first w'

-- Whether the session was opened, and not ended since.
unfoldable pub is_open :
    (sha1 : Bytes → Bytes) {first w : World} → Reach sha1 first w → Bytes → Bool
is_open sha1 here sid = false
is_open sha1 (next r (opens compiler_bin now session_uuid start e)) sid =
    bytes_eq session_uuid sid || is_open sha1 r sid
is_open sha1 (next r (handles from now msg e)) sid =
    not (ends msg && bytes_eq from sid) && is_open sha1 r sid
