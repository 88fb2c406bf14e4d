-- ===== src/Paths.antt =====
-- Paths: `std::filesystem::path` on POSIX as far as the program uses it, and the conversions between
-- a client's paths and the server's, src/file_state_view.hpp.
pub mod RoundTrip
mod Tests
use dist_build_sys.Base.{
  ℕ, [], ◌∷◌, ◌++◌, Bool, ◌||◌, ◌&&◌, Option, none, some, Bytes, bytes_eq, codes, length, drop,
  is_empty, starts_with, ends_with, ◌==◌, if◌then◌else◌,
}

abbrev pub slash : Bytes
slash = b'/' ∷ []

-- `lhs / rhs`: an absolute right side replaces the left one.
unfoldable pub join : Bytes → Bytes → Bytes
join lhs rhs =
    if starts_with rhs slash
    then rhs
    else if is_empty lhs || ends_with lhs slash
    then lhs ++ rhs
    else lhs ++ slash ++ rhs

-- `p.relative_path()`: without the slashes at its head.
unfoldable pub relative_path : Bytes → Bytes
relative_path [] = []
relative_path (c ∷ p) = if c == b'/' then relative_path p else c ∷ p

-- The text up to and including its last slash, and the text behind it.
unfoldable pub directory_part : Bytes → Bytes
directory_part [] = []
directory_part (c ∷ p) =
    let rest = directory_part p in
    if is_empty rest then (if c == b'/' then c ∷ [] else []) else c ∷ rest

unfoldable pub filename : Bytes → Bytes
filename p = drop (length (directory_part p)) p

-- The text before its last dot.
before_last_dot : Bytes → Option Bytes
before_last_dot [] = none
before_last_dot (c ∷ p) = elim (before_last_dot p) [
  | some q ↦ some (c ∷ q)
  | none ↦ if c == b'.' then some [] else none
]

-- `p.stem()` of a file name: a dot at its head opens no extension.
stem : Bytes → Bytes
stem name = if bytes_eq name (codes "..") then name else elim (before_last_dot name) [
  | none ↦ name
  | some before ↦ if is_empty before then name else before
]

-- `p.replace_extension(extension)`, for an extension that starts with a dot.
unfoldable pub replace_extension : Bytes → Bytes → Bytes
unfolding stem before_last_dot
replace_extension p extension = directory_part p ++ stem (filename p) ++ extension

trim_slashes : Bytes → Bytes
trim_slashes [] = []
trim_slashes (c ∷ p) =
    let rest = trim_slashes p in
    if is_empty rest then (if c == b'/' then [] else c ∷ []) else c ∷ rest

-- `p.parent_path()`: a path of slashes alone is its own parent.
pub parent_path : Bytes → Bytes
unfolding trim_slashes
parent_path p =
    let trimmed = trim_slashes (directory_part p) in
    if is_empty (relative_path p)
    then p
    else if is_empty trimmed && starts_with p slash
    then slash
    else trimmed

-- `is_system_path`
unfoldable pub is_system_path : Bytes → Bool
is_system_path path =
    starts_with path (codes "/usr/src")
    || starts_with path (codes "/usr/local")
    || starts_with path (codes "/Library")

unfoldable pub cnvt_client_to_server_path : Bytes → Bytes → Bytes
cnvt_client_to_server_path current_working_dir client_path =
    if is_system_path client_path
    then client_path
    else join current_working_dir (relative_path client_path)

pub cnvt_server_to_client_path : Bytes → Bytes → Bytes
cnvt_server_to_client_path current_working_dir server_path =
    if starts_with server_path current_working_dir
    then drop (length current_working_dir) server_path
    else server_path

pub generate_obj_file_path : Bytes → Bytes → Bytes → Bytes
generate_obj_file_path out_obj_dir client_id session_id =
    out_obj_dir ++ slash ++ client_id ++ codes "_" ++ session_id ++ codes ".o"
