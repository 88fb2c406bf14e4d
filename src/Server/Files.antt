-- ===== src/Server/Files.antt =====
-- The files of one client as the server sees them: `FileStateView` of src/file_state_view.hpp and the
-- map `_client_file_states` of `ClientView` (src/client_view.hpp, src/client_view.cpp).
pub mod Laws
mod Tests
use dist_build_sys.Base.{
  ℕ, ◌≡◌, [], Bool, true, false, ◌&&◌, Option, none, some, Bytes, ◌==◌, bytes_eq, if◌then◌else◌,
}
use dist_build_sys.Base.Dict.{Dict, lookup, insert, contains, try_emplace}
use dist_build_sys.Paths.{cnvt_client_to_server_path}

pub data Status : Type 0 where
  initial uploading available fault count : Status

pub record FileStateView : Type 0 where
  pub file_sz_bytes : ℕ
  pub file_sha1 : Bytes
  pub file_status : Status
  pub up_start_time : ℕ
  pub server_file_path : Bytes

unfoldable pub is_available : Status → Bool
is_available available = true
is_available _ = false

-- The constructor with arguments.
new_file_state : ℕ → Bytes → Bytes → FileStateView
new_file_state sz sha1 path = record {
  file_sz_bytes = sz;
  file_sha1 = sha1;
  file_status = initial;
  up_start_time = 0;
  server_file_path = path;
}

-- `get_file_state`: `none` is the null pointer.
abbrev get_file_state : Dict FileStateView → Bytes → Option FileStateView
get_file_state states client_path = lookup client_path states

-- `update_file_state`
unfoldable pub update_file_state :
    Bytes → FileStateView → Dict FileStateView → Dict FileStateView × Bool
update_file_state client_path updated states =
    if contains client_path states
    then (insert client_path updated states, true)
    else (states, false)

-- Whether the entry that is there has the announced hash and size.
same_file : Option FileStateView → ℕ → Bytes → Bool
same_file none sz sha1 = false
same_file (some old) sz sha1 = bytes_eq old.file_sha1 sha1 && (old.file_sz_bytes == sz)

-- `add_file_state`. The reference that it returns is the entry at `client_path`.
pub add_file_state : Bytes → Bytes → ℕ → Bytes → Dict FileStateView → Dict FileStateView
unfolding same_file new_file_state
add_file_state current_working_dir client_path sz sha1 states =
    if same_file (lookup client_path states) sz sha1
    then states
    else try_emplace client_path
        (new_file_state sz sha1 (cnvt_client_to_server_path current_working_dir client_path)) states
