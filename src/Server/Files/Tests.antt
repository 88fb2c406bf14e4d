-- ===== src/Server/Files/Tests.antt =====
-- A client's files at work, and the laws at them.
use dist_build_sys.Base.{◌≡◌, [], ◌∷◌, none, some, codes, bytes_eq, if◌then◌else◌}
use dist_build_sys.Base.Dict.{Dict, lookup}
use dist_build_sys.Paths.{cnvt_client_to_server_path}
use dist_build_sys.Server.Files.{initial, available, FileStateView, add_file_state}
use dist_build_sys.Server.Files.Laws.{lookup-add_file_state}

abbrev old_file : FileStateView
old_file = record {
  file_sz_bytes = 2;
  file_sha1 = codes "h1";
  file_status = available;
  up_start_time = 0;
  server_file_path = codes "/w/a.c";
}

abbrev one_file : Dict FileStateView
one_file = (codes "/a.c", old_file) ∷ []

lookup-add_file_state_example :
    lookup (codes "/b.c") (add_file_state (codes "/w") (codes "/b.c") 3 (codes "h2") one_file) ≡ (
      if bytes_eq (codes "/b.c") (codes "/b.c")
      then elim (lookup (codes "/b.c") one_file) [
        | some old ↦ some old
        | none ↦ some (record {
          file_sz_bytes = 3;
          file_sha1 = codes "h2";
          file_status = initial;
          up_start_time = 0;
          server_file_path = cnvt_client_to_server_path (codes "/w") (codes "/b.c");
        })
      ]
      else lookup (codes "/b.c") one_file)
lookup-add_file_state_example =
    lookup-add_file_state (codes "/w") (codes "/b.c") (codes "/b.c") 3 (codes "h2") one_file
