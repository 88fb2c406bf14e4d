-- ===== src/Client/Connect/Tables.antt =====
-- The tables of sessions and calls of src/client.cpp.
use dist_build_sys.Base.{◌≡◌, some, none, Bytes, bytes_eq_iff, arith}
use dist_build_sys.Base.Dict.{
  Dict, lookup, insert, erase, try_emplace, lookup-insert, lookup-insert_self, lookup-erase,
}
use dist_build_sys.CommandLine.{CompilerCall}
use dist_build_sys.Client.Session.{ClientSession, LocalOutput}
use dist_build_sys.Client.Connect.{
  ClientTables, store_session, remove_client_session, conclude_connection,
}

-- `try_emplace`, and then the entry at its key.
lookup-try_emplace :
    {V : Type 0} (k : Bytes) (v : V) (m : Dict V)
    → lookup k m ≡ none
    → lookup k (try_emplace k v m) ≡ some v
lookup-try_emplace k v m fresh = rw fresh (lookup-insert_self k v m)

erase-try_emplace :
    {V : Type 0} (k : Bytes) (v : V) (m : Dict V)
    → lookup k m ≡ none
    → (j : Bytes) → lookup j (erase k (try_emplace k v m)) ≡ lookup j m
erase-try_emplace k v m fresh j =
    rw fresh
      (ground (arith, bytes_eq_iff k j, lookup-erase k j (insert k v m), lookup-insert k j v m))

-- A confirmed session whose identifier is not in the tables is the one that the caller gets, and once it is
-- removed every look-up in the tables gives what it gave before the session came.
pub conclude_connection-remove_client_session :
    (local : LocalOutput) (call : CompilerCall) (tables : ClientTables) (s : ClientSession)
    (uuid : Bytes)
    → lookup uuid tables.client_sessions ≡ none
    → lookup uuid tables.client_compiler_calls ≡ none
    → let r = conclude_connection local call tables (s, some uuid) in
      (r.1 ≡ some s)
      × ((j : Bytes)
          → lookup j (remove_client_session uuid r.0).client_sessions
            ≡ lookup j tables.client_sessions)
      × ((j : Bytes)
          → lookup j (remove_client_session uuid r.0).client_compiler_calls
            ≡ lookup j tables.client_compiler_calls)
unfolding conclude_connection store_session remove_client_session
conclude_connection-remove_client_session local call tables s uuid new_session new_call = (
  lookup-try_emplace uuid s tables.client_sessions new_session,
  erase-try_emplace uuid s tables.client_sessions new_session,
  erase-try_emplace uuid call tables.client_compiler_calls new_call,
)
