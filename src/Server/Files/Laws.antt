-- ===== src/Server/Files/Laws.antt =====
-- What the map of file states keeps.
use dist_build_sys.Base.{ℕ, ◌≡◌, none, some, Bytes, bytes_eq, bytes_eq_iff, if◌then◌else◌, arith}
use dist_build_sys.Base.Dict.{Dict, lookup, contains, lookup-insert}
use dist_build_sys.Paths.{cnvt_client_to_server_path}
use dist_build_sys.Server.Files.{
  initial, FileStateView, new_file_state, add_file_state, update_file_state,
}

-- A path that is known keeps its entry, also if the client announces another hash or size for it;
-- a new path gets an entry in the initial status with the announced hash and size, whose server
-- path is the converted one. No other path's entry changes.
pub lookup-add_file_state :
    (dir path other : Bytes) (sz : ℕ) (sha1 : Bytes) (states : Dict FileStateView)
    → lookup other (add_file_state dir path sz sha1 states) ≡ (
        if bytes_eq path other
        then elim (lookup path states) [
          | some old ↦ some old
          | none ↦ some (record {
            file_sz_bytes = sz;
            file_sha1 = sha1;
            file_status = initial;
            up_start_time = 0;
            server_file_path = cnvt_client_to_server_path dir path;
          })
        ]
        else lookup other states)
unfolding add_file_state
lookup-add_file_state dir path other sz sha1 states = ground (
  arith,
  bytes_eq_iff path other,
  lookup-insert path other (new_file_state sz sha1 (cnvt_client_to_server_path dir path)) states,
)

lookup-update_file_state :
    (path other : Bytes) (updated : FileStateView) (states : Dict FileStateView)
    → lookup other (update_file_state path updated states).0 ≡ (
        if contains path states
        then (if bytes_eq path other then some updated else lookup other states)
        else lookup other states)
unfolding update_file_state
lookup-update_file_state path other updated states =
    ground (arith, lookup-insert path other updated states)
