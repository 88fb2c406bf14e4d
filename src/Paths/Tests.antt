-- ===== src/Paths/Tests.antt =====
-- Paths at work, and the theorems at concrete paths.
use dist_build_sys.Base.{◌≡◌, refl, Bytes, codes, starts_with, ends_with, bytes_eq}
use dist_build_sys.Paths.{
  relative_path, directory_part, filename, parent_path, replace_extension, is_system_path,
  cnvt_client_to_server_path, cnvt_server_to_client_path, generate_obj_file_path,
}
use dist_build_sys.Paths.RoundTrip.{
  IsDirectory, IsRelative, cnvt_server_to_client_path-cnvt_client_to_server_path,
}

abbrev workspace : Bytes
workspace = codes "/tmp/c1"

workspace-IsDirectory : IsDirectory workspace
unfolding ends_with bytes_eq
workspace-IsDirectory = record { named = refl; bare = refl }

main_file : IsRelative (codes "home/a.cpp")
unfolding starts_with
main_file = record { rooted = refl }

cnvt_server_to_client_path-cnvt_client_to_server_path_example :
    cnvt_server_to_client_path workspace
      (cnvt_client_to_server_path workspace (codes "/home/a.cpp"))
    ≡ codes "/home/a.cpp"
unfolding is_system_path starts_with
cnvt_server_to_client_path-cnvt_client_to_server_path_example =
    cnvt_server_to_client_path-cnvt_client_to_server_path workspace (codes "home/a.cpp")
      workspace-IsDirectory main_file refl

parents :
    (parent_path (codes "/a/b.c") ≡ codes "/a")
    × (parent_path (codes "/b.c") ≡ codes "/")
    × (parent_path (codes "b.c") ≡ codes "")
    × (filename (codes "/a/b.c") ≡ codes "b.c")
unfolding parent_path filename directory_part relative_path starts_with
parents = (refl, refl, refl, refl)

object_path : generate_obj_file_path (codes "/o") (codes "c") (codes "s") ≡ codes "/o/c_s.o"
unfolding generate_obj_file_path
object_path = refl

extensions :
    (replace_extension (codes "/o/a.b.c") (codes ".d") ≡ codes "/o/a.b.d")
    × (replace_extension (codes "/o.x/a") (codes ".d") ≡ codes "/o.x/a.d")
    × (replace_extension (codes "/o/.a") (codes ".d") ≡ codes "/o/.a.d")
unfolding replace_extension filename directory_part bytes_eq
extensions = (refl, refl, refl)
