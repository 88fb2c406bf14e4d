-- ===== src/DepFiles.antt =====
-- Make's dependency files: `replace_all`, `escape_gnu_make_spaces` and `DepFile` of src/dep_files.hpp.
-- The children read the file, choose what goes into it, and show that it is read back.
pub mod Escape
pub mod Parse
pub mod State
pub mod RoundTrip
pub mod Totality
mod Tests
use dist_build_sys.Base.{
  ℕ, zero, suc, ◌+◌, List, [], ◌∷◌, ◌++◌, Bool, true, false, Option, none, some, Bytes, codes,
  length, take, drop, find, bytes_eq, if◌then◌else◌,
}

pub record DepTarget : Type 0 where
  pub target : Bytes
  pub dep_files : List Bytes

-- The loop of `replace_all` over what follows the position `pos`. It does not end for an empty
-- `from`; else more fuel than bytes is enough.
pub replace_loop : ℕ → Bytes → Bytes → Bytes → Bytes
replace_loop zero from to str = str
replace_loop (suc fuel) from to str = elim (find from str) [
  | none ↦ str
  | some pos ↦ take pos str ++ (to ++ replace_loop fuel from to (drop (pos + length from) str))
]

pub replace_all : Bytes → Bytes → Bytes → Bytes
replace_all str from to = replace_loop (suc (length str)) from to str

pub escape_gnu_make_spaces : Bytes → Bytes
escape_gnu_make_spaces dep_item =
    replace_all
      (replace_all (replace_all dep_item (10 ∷ []) (92 ∷ 10 ∷ [])) (codes " ") (92 ∷ 32 ∷ []))
      (codes ":") (92 ∷ 58 ∷ [])

-- `find_dep_list_by_target_name`
pub find_dep_list_by_target_name : Bytes → List DepTarget → List Bytes
find_dep_list_by_target_name target_name [] = []
find_dep_list_by_target_name target_name (d_target ∷ rest) =
    if bytes_eq d_target.target target_name
    then d_target.dep_files
    else find_dep_list_by_target_name target_name rest

-- The items after the first one.
pub write_more : List Bytes → Bytes
write_more [] = []
write_more (d ∷ ds) = 32 ∷ 92 ∷ 10 ∷ 32 ∷ 32 ∷ (escape_gnu_make_spaces d ++ write_more ds)

pub write_items : List Bytes → Bytes
write_items [] = []
write_items (d ∷ ds) = 32 ∷ (escape_gnu_make_spaces d ++ write_more ds)

pub write_target : DepTarget → Bytes
write_target d_target = d_target.target ++ (58 ∷ (write_items d_target.dep_files ++ 10 ∷ []))

-- `DepFile::write_to_bytes`: an empty line between two targets.
pub write_to_bytes : List DepTarget → Bytes
write_to_bytes [] = []
write_to_bytes (d_target ∷ []) = write_target d_target
write_to_bytes (d_target ∷ next ∷ rest) = write_target d_target ++ 10 ∷ write_to_bytes (next ∷ rest)
