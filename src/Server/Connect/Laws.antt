-- ===== src/Server/Connect/Laws.antt =====
-- What a new connection to src/server.cpp does to the server.
use dist_build_sys.Base.{
  ℕ, ◌≡◌, refl, ◌∙◌, inl, inr, List, [], ◌∷◌, ◌++◌, Bool, true, false, Option, none, some, Bytes,
  bytes_eq, if◌then◌else◌, Bool-cases, ◌>>=◌,
}
use dist_build_sys.Base.Dict.{Dict, lookup, insert, contains, lookup-insert}
use dist_build_sys.Paths.{join}
use dist_build_sys.IncludeDirs.{CmdLineIncludeDirs, cnvt_to_cmd_line_args}
use dist_build_sys.Messages.{ClientSessionStartRequest, ClientMessage, ServerMessage}
use dist_build_sys.Server.View.{ClientView}
use dist_build_sys.Server.View.Opening.{add_session-Confirmed}
use dist_build_sys.Server.Connect.{
  new_client_view, clients_workspace, add_client_view, add_unknown_view, get_client_view,
  ServerState, world_of, store_world, open_connection, handle_new_connection,
}

-- The connection stays open, the client is sent a confirmation, its view has the session, and of the views only
-- this one changes.
pub record Accepted (client_id session_uuid : Bytes) (s : ServerState)
    (o : Option (ServerState × Bool)) : Type 0 where
  pub after : ServerState
  pub ends : o ≡ some (after, true)
  pub requested : List Bytes
  pub confirmed :
      after.sent
      ≡ s.sent ++ (session_uuid, ServerMessage.session_confirmed session_uuid requested) ∷ []
  pub view : ClientView
  pub opened : contains session_uuid view.associated_sessions ≡ true
  pub views :
      (other : Bytes)
      → lookup other after.client_views
        ≡ (if bytes_eq client_id other then some view else lookup other s.client_views)

-- The storage after a view was added for an identifier: the other views are those from before.
record Added (client_id : Bytes) (views : Dict ClientView)
    (o : Option (ClientView × Dict ClientView)) : Type 0 where
  view : ClientView
  stored : Dict ClientView
  ends : o ≡ some (view, stored)
  others :
      (other : Bytes) → bytes_eq client_id other ≡ false → lookup other stored ≡ lookup other views

module _ (parse_uuid : Bytes → Option Bytes) (now : ℕ) where
  add_unknown_view-Added :
      (client_id uuid : Bytes)
      → parse_uuid client_id ≡ some uuid
      → (views : Dict ClientView) (known : Option ClientView) → lookup client_id views ≡ known
      → Added client_id views (add_unknown_view parse_uuid now client_id views known)
  unfolding add_unknown_view
  add_unknown_view-Added client_id uuid parsed views (some view) e = record {
    view = view;
    stored = views;
    ends = refl;
    others = λ other h. refl;
  }
  add_unknown_view-Added client_id uuid parsed views none e =
      let fresh = new_client_view now uuid (join clients_workspace client_id) in
      record {
        view = fresh;
        stored = insert client_id fresh views;
        ends = rw (parsed, e);
        others = λ other h. lookup-insert client_id other fresh views ∙ rw h;
      }

pub handle_new_connection-Accepted :
    (parse_uuid : Bytes → Option Bytes) (compiler_bin : Bytes) (now : ℕ) (session_uuid : Bytes)
    (start : ClientSessionStartRequest) (s : ServerState)
    → (uuid : Bytes) → parse_uuid start.client_id ≡ some uuid
    → (d : CmdLineIncludeDirs) → cnvt_to_cmd_line_args d ≡ start.client_idirs
    → Accepted start.client_id session_uuid s (
        handle_new_connection parse_uuid compiler_bin now session_uuid
          (ClientMessage.session_start start)
          s)
unfolding handle_new_connection open_connection add_client_view get_client_view store_world
handle_new_connection-Accepted parse_uuid compiler_bin now session_uuid start s uuid parsed d e =
    let added =
      add_unknown_view-Added parse_uuid now start.client_id uuid parsed s.client_views
        (lookup start.client_id s.client_views) refl in
    let opened =
      add_session-Confirmed compiler_bin now session_uuid start (world_of added.view s) d e in
    record {
      after = store_world start.client_id added.stored opened.after;
      ends = rw (added.ends, ◌>>=◌, opened.ends);
      requested = opened.requested;
      confirmed = opened.confirmed;
      view = opened.after.view;
      opened = opened.stored;
      views = λ other. elim (Bool-cases (bytes_eq start.client_id other)) [
        | inl same ↦ lookup-insert start.client_id other opened.after.view added.stored ∙ rw same
        | inr apart ↦
            lookup-insert start.client_id other opened.after.view added.stored
            ∙ rw apart (added.others other apart)
      ];
    }
