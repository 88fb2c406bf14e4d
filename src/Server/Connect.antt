-- ===== src/Server/Connect.antt =====
-- `ClientViewsStorage` of src/client_views_storage.hpp and `handle_new_connection` of src/server.cpp. A UUID is
-- its text; `parse_uuid` is the generator that reads it, and `none` is its exception, or a fault of `add_session`.
-- The directories on the disk are not modelled.
pub mod Laws
use dist_build_sys.Base.{
  ℕ, List, [], ◌∷◌, Bool, true, false, Option, none, some, Bytes, codes, ◌>>=◌,
}
use dist_build_sys.Base.Dict.{Dict, lookup, insert, erase, try_emplace}
use dist_build_sys.Paths.{join}
use dist_build_sys.Messages.{ClientSessionStartRequest, ClientMessage, ServerMessage}
use dist_build_sys.Compiler.{CompilerManager}
use dist_build_sys.Server.View.{ClientView, World, add_session}

abbrev pub clients_workspace : Bytes
clients_workspace = codes "/tmp/distbuild/client_storage"

-- The constructor of `ClientView`.
unfoldable pub new_client_view : ℕ → Bytes → Bytes → ClientView
new_client_view now client_uuid client_workspace_path = record {
  client_uuid = client_uuid;
  current_working_dir = client_workspace_path;
  last_active_ts = now;
  client_file_states = [];
  associated_sessions = [];
  client_created_dirs = [];
}

unfoldable pub get_client_view : Bytes → Dict ClientView → Option ClientView
get_client_view client_uuid views = lookup client_uuid views

-- The view that the returned pointer leads to, and the storage.
module _ (parse_uuid : Bytes → Option Bytes) where
  unfoldable pub add_unknown_view :
      ℕ → Bytes → Dict ClientView → Option ClientView → Option (ClientView × Dict ClientView)
  add_unknown_view now client_uuid views (some view) = some (view, views)
  add_unknown_view now client_uuid views none = parse_uuid client_uuid >>= λ uuid.
      let view = new_client_view now uuid (join clients_workspace client_uuid) in
      some (view, try_emplace client_uuid view views)

  unfoldable pub add_client_view :
      ℕ → Bytes → Dict ClientView → Option (ClientView × Dict ClientView)
  add_client_view now client_uuid views =
      add_unknown_view now client_uuid views (get_client_view client_uuid views)

unfoldable pub remove_client_view : Bytes → Dict ClientView → Dict ClientView
remove_client_view client_uuid views = erase client_uuid views

-- The server: its storage of views, the compilers' queue, its files, and the messages sent so far.
pub record ServerState : Type 0 where
  pub client_views : Dict ClientView
  pub manager : CompilerManager
  pub files : Dict Bytes
  pub sent : List (Bytes × ServerMessage)

abbrev pub world_of : ClientView → ServerState → World
world_of view s = record { view = view; manager = s.manager; files = s.files; sent = s.sent }

unfoldable pub store_world : Bytes → Dict ClientView → World → ServerState
store_world client_id views w = record {
  client_views = insert client_id w.view views;
  manager = w.manager;
  files = w.files;
  sent = w.sent;
}

module _ (parse_uuid : Bytes → Option Bytes) (compiler_bin : Bytes) (now : ℕ)
    (session_uuid : Bytes) where
  unfoldable pub open_connection :
      ClientSessionStartRequest → ServerState → Option (ServerState × Bool)
  open_connection start s =
      add_client_view parse_uuid now start.client_id s.client_views >>= λ added.
      add_session compiler_bin now session_uuid start (world_of added.0 s) >>= λ w.
      some (store_world start.client_id added.1 w, true)

  -- The first message of a connection; the flag says whether the socket stays open.
  unfoldable pub handle_new_connection : ClientMessage → ServerState → Option (ServerState × Bool)
  handle_new_connection (ClientMessage.session_start start) s = open_connection start s
  handle_new_connection (ClientMessage.session_abort session_id client_id) s = some (s, false)
  handle_new_connection (ClientMessage.file_chunk_upload msg) s = some (s, false)
  handle_new_connection ClientMessage.none_set s = some (s, false)
