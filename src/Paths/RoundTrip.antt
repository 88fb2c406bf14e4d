-- ===== src/Paths/RoundTrip.antt =====
-- From a client's path to the server's and back.
use dist_build_sys.Base.{
  ◌≡◌, refl, [], ◌∷◌, ◌++◌, false, Bytes, is_empty, starts_with, ends_with, append_assoc, arith,
  starts_with-append, drop-append,
}
use dist_build_sys.Paths.{
  slash, join, relative_path, is_system_path, cnvt_client_to_server_path,
  cnvt_server_to_client_path,
}

-- The form of the client workspaces: some directory, with no slash at its end.
pub record IsDirectory (dir : Bytes) : Type 0 where
  pub named : is_empty dir ≡ false
  pub bare : ends_with dir slash ≡ false

-- Text with a first byte that is no slash.
pub record IsRelative (p : Bytes) : Type 0 where
  pub rooted : starts_with p slash ≡ false

relative_path-IsRelative : (p : Bytes) → IsRelative p → relative_path p ≡ p
unfolding relative_path starts_with
relative_path-IsRelative [] h = refl
relative_path-IsRelative (c ∷ p) h = ground arith

join-IsRelative :
    (dir p : Bytes) → IsDirectory dir → IsRelative p → join dir p ≡ dir ++ (slash ++ p)
unfolding join
join-IsRelative dir p d h = ground (arith, append_assoc dir slash p)

relative_path-slash : (p : Bytes) → relative_path (slash ++ p) ≡ relative_path p
unfolding relative_path
relative_path-slash p = refl

is_system_path-IsRelative : (p : Bytes) → IsRelative p → is_system_path p ≡ false
unfolding is_system_path starts_with
is_system_path-IsRelative [] h = refl
is_system_path-IsRelative (c ∷ p) h = ground arith

back : (dir rest : Bytes) → cnvt_server_to_client_path dir (dir ++ rest) ≡ rest
unfolding cnvt_server_to_client_path
back dir rest = rw (starts_with-append dir rest) (drop-append dir rest)

-- An absolute path with one slash at its head, outside the system's directories, comes back as it was.
pub cnvt_server_to_client_path-cnvt_client_to_server_path :
    (dir p : Bytes)
    → IsDirectory dir
    → IsRelative p
    → is_system_path (slash ++ p) ≡ false
    → cnvt_server_to_client_path dir (cnvt_client_to_server_path dir (slash ++ p)) ≡ slash ++ p
unfolding cnvt_client_to_server_path
cnvt_server_to_client_path-cnvt_client_to_server_path dir p d h s =
    rw
      (
        s,
        cnvt_client_to_server_path,
        relative_path-slash p,
        relative_path-IsRelative p h,
        join-IsRelative dir p d h,
      )
      (back dir (slash ++ p))

-- A relative path comes back as another path, with a slash put before it.
cnvt_server_to_client_path_relative :
    (dir p : Bytes)
    → IsDirectory dir
    → IsRelative p
    → cnvt_server_to_client_path dir (cnvt_client_to_server_path dir p) ≡ slash ++ p
unfolding cnvt_client_to_server_path
cnvt_server_to_client_path_relative dir p d h =
    rw
      (
        is_system_path-IsRelative p h,
        cnvt_client_to_server_path,
        relative_path-IsRelative p h,
        join-IsRelative dir p d h,
      )
      (back dir (slash ++ p))
