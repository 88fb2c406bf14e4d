-- ===== src/DepFiles/State.antt =====
-- `DepFilesState` of src/dep_files.hpp and src/dep_files.cpp: the options that ask for a dependency
-- file, and what it holds. Of the compiler call it reads the object file, the source file and the
-- system's include directories, which are arguments here; a header is its path.
pub mod Quoting
use dist_build_sys.Base.{
  ℕ, suc, ◌+◌, List, [], ◌∷◌, ◌++◌, map, Bool, true, false, not, ◌||◌, Option, none, some, Bytes,
  codes, ◌==◌, take, drop, length, any, is_empty, bytes_eq, starts_with, if◌then◌else◌,
}
use dist_build_sys.Paths.{filename, replace_extension}
use dist_build_sys.DepFiles.{DepTarget, escape_gnu_make_spaces}

pub record DepFilesState : Type 0 where
  pub md_flag_present : Bool
  pub mmd_flag_present : Bool
  pub mp_flag_present : Bool
  pub mf_flag_path : Bytes
  pub mt_flag_paths : Bytes

-- The inner loop of `_process_makefile_target`: a backslash for every one right before the position;
-- `before` is what precedes it, the last byte first.
unfoldable leading_backslashes : Bytes → Bytes
leading_backslashes [] = []
leading_backslashes (c ∷ before) = if c == 92 then 92 ∷ leading_backslashes before else []

-- What the `switch` puts before a byte.
pub quote_prefix : Bytes → ℕ → Bytes
quote_prefix before c =
    if (c == 32) || (c == 9)
    then leading_backslashes before ++ 92 ∷ []
    else if c == 36
    then 36 ∷ []
    else if c == 35
    then 92 ∷ []
    else []

pub quote_loop : Bytes → Bytes → Bytes
quote_loop before [] = []
quote_loop before (c ∷ rest) = quote_prefix before c ++ c ∷ quote_loop (c ∷ before) rest

-- `_process_makefile_target`
pub process_makefile_target : Bytes → Bytes
process_makefile_target target = quote_loop [] target

-- `add_mf_flag_path`
unfoldable pub add_mf_flag_path : Bytes → DepFilesState → DepFilesState
add_mf_flag_path path s = record s { mf_flag_path = s.mf_flag_path ++ path }

-- `add_mt_flag_path`
unfoldable pub add_mt_flag_path : Bytes → DepFilesState → DepFilesState
add_mt_flag_path path s = record s {
  mt_flag_paths =
      (if is_empty s.mt_flag_paths then [] else s.mt_flag_paths ++ 32 ∷ 92 ∷ 10 ∷ []) ++ path;
}

-- `add_mq_flag_path`
unfoldable pub add_mq_flag_path : Bytes → DepFilesState → DepFilesState
add_mq_flag_path path s = record s {
  mt_flag_paths =
      (if is_empty s.mt_flag_paths then [] else s.mt_flag_paths ++ 32 ∷ 92 ∷ 10 ∷ [])
      ++ process_makefile_target path;
}

-- `is_depfile_needed`
unfoldable is_depfile_needed : DepFilesState → Bool
is_depfile_needed s = not (is_empty s.mf_flag_path) || s.md_flag_present

-- `_create_depfile_name`
unfoldable pub create_depfile_name : DepFilesState → Bytes → Bytes → Bytes
create_depfile_name s output_obj_file input_src_file =
    if not (is_empty s.mf_flag_path)
    then s.mf_flag_path
    else if not (is_empty output_obj_file)
    then replace_extension output_obj_file (codes ".o.d")
    else replace_extension (filename input_src_file) (codes ".o.d")

-- `_ignore_system_headers`, which looks at the `-isystem` directories.
pub ignore_system_headers : List Bytes → List Bytes → List Bytes
ignore_system_headers dash_isystem [] = []
ignore_system_headers dash_isystem (header ∷ headers) =
    let rest = ignore_system_headers dash_isystem headers in
    if any (starts_with header) dash_isystem then rest else header ∷ rest

-- `_calculate_deps_for_headers`
pub calculate_deps_for_headers : DepFilesState → Bytes → List Bytes → List Bytes → List Bytes
calculate_deps_for_headers s input_src_file dash_isystem headers =
    process_makefile_target input_src_file
    ∷ map process_makefile_target
        (if s.mmd_flag_present then ignore_system_headers dash_isystem headers else headers)

-- The targets that `-MP` asks for: one for every item but the first.
pub phony_targets : List Bytes → List DepTarget
phony_targets [] = []
phony_targets (first ∷ items) =
    map (λ item. record { target = escape_gnu_make_spaces item; dep_files = [] }) items

-- What `generate_dep_file` writes.
pub generate_dep_file : DepFilesState → Bytes → Bytes → List Bytes → List Bytes → List DepTarget
generate_dep_file s output_obj_file input_src_file dash_isystem headers =
    let target_name = if is_empty s.mt_flag_paths then output_obj_file else s.mt_flag_paths in
    let deps = calculate_deps_for_headers s input_src_file dash_isystem headers in
    record { target = target_name; dep_files = deps }
    ∷ (if s.mp_flag_present then phony_targets deps else [])
