-- ===== src/DepFiles/Tests.antt =====
-- Dependency files that are written and read, and the theorems at them.
use dist_build_sys.Base.{
  bytes_eq, ◌≡◌, ◌≢◌, refl, List, [], ◌∷◌, true, Bytes, codes, All, find, starts_with,
}
use dist_build_sys.DepFiles.{
  DepTarget, escape_gnu_make_spaces, replace_all, replace_loop, write_to_bytes, write_target,
  write_items, write_more, find_dep_list_by_target_name,
}
use dist_build_sys.DepFiles.Parse.{
  parsed, failed, unfinished, make_dep_file_from_bytes, parse_targets, parse_skip_spaces, is_space,
  parse_target_name, space_allowed, skip_separators, take_item, item_after_separators,
  parse_next_dep_item, parse_dep_items, add_target,
}
use dist_build_sys.DepFiles.RoundTrip.{IsWritable, make_dep_file_from_bytes-write_to_bytes}
use dist_build_sys.DepFiles.Totality.{make_dep_file_from_bytes-ends}
use dist_build_sys.Paths.{directory_part, filename, replace_extension}
use dist_build_sys.DepFiles.State.{create_depfile_name, DepFilesState, generate_dep_file}
use dist_build_sys.DepFiles.State.Quoting.{IsPlain, kept_headers, generate_dep_file-find}

abbrev spaced : DepTarget
spaced = record { target = codes "a.o"; dep_files = codes "my dir/a.c" ∷ codes "b:c.h" ∷ [] }

abbrev phony : DepTarget
phony = record { target = 98 ∷ 92 ∷ 58 ∷ codes "c.h"; dep_files = [] }

spaced-IsWritable : IsWritable spaced
unfolding escape_gnu_make_spaces replace_all replace_loop find starts_with is_space
spaced-IsWritable = record {
  name = codes "a.o";
  escaped = refl;
  plain = refl;
  opens = refl;
  items = ((refl, refl), ((refl, refl), tt));
}

phony-IsWritable : IsWritable phony
unfolding escape_gnu_make_spaces replace_all replace_loop find starts_with is_space
phony-IsWritable = record {
  name = codes "b:c.h";
  escaped = refl;
  plain = refl;
  opens = refl;
  items = tt;
}

make_dep_file_from_bytes-write_to_bytes_example :
    make_dep_file_from_bytes (write_to_bytes (spaced ∷ phony ∷ [])) ≡ parsed (spaced ∷ phony ∷ [])
make_dep_file_from_bytes-write_to_bytes_example =
    make_dep_file_from_bytes-write_to_bytes (spaced ∷ phony ∷ [])
      (spaced-IsWritable, (phony-IsWritable, tt))

make_dep_file_from_bytes-ends_example : make_dep_file_from_bytes (codes "a: b \\") ≢ unfinished
make_dep_file_from_bytes-ends_example = make_dep_file_from_bytes-ends (codes "a: b \\")

abbrev options : DepFilesState
options = record {
  md_flag_present = true;
  mmd_flag_present = true;
  mp_flag_present = true;
  mf_flag_path = [];
  mt_flag_paths = [];
}

abbrev headers : List Bytes
headers = codes "/usr/include/stdio.h" ∷ codes "/w/a.h" ∷ []

object-IsPlain : IsPlain (codes "a.o")
unfolding is_space
object-IsPlain = record { bytes = refl; filled = refl }

source-IsPlain : IsPlain (codes "a.c")
unfolding is_space
source-IsPlain = record { bytes = refl; filled = refl }

headers-IsPlain : All IsPlain headers
unfolding is_space
headers-IsPlain =
    (record { bytes = refl; filled = refl }, (record { bytes = refl; filled = refl }, tt))

generate_dep_file-find_example :
    (ts : List DepTarget) × ((make_dep_file_from_bytes (
          write_to_bytes (
            generate_dep_file options
              (codes "a.o")
              (codes "a.c")
              (codes "/usr/include" ∷ [])
              headers))
        ≡ parsed ts)
      × (find_dep_list_by_target_name (codes "a.o") ts
          ≡ codes "a.c" ∷ kept_headers options (codes "/usr/include" ∷ []) headers))
generate_dep_file-find_example =
    generate_dep_file-find options (codes "a.o") (codes "a.c") (codes "/usr/include" ∷ []) headers
      refl object-IsPlain source-IsPlain headers-IsPlain

-- An item that starts with a blank is written so that the reader skips the blank.
blank_lost :
    make_dep_file_from_bytes
      (write_to_bytes (record { target = codes "a"; dep_files = codes " b" ∷ [] } ∷ []))
    ≡ parsed (record { target = codes "a"; dep_files = codes "b" ∷ [] } ∷ [])
unfolding make_dep_file_from_bytes parse_targets parse_skip_spaces is_space parse_target_name
    space_allowed skip_separators take_item item_after_separators parse_next_dep_item
    parse_dep_items add_target escape_gnu_make_spaces replace_all replace_loop find starts_with
    write_to_bytes write_target write_items write_more
blank_lost = refl

-- A line without a colon is rejected.
colon_missing : make_dep_file_from_bytes (codes "abc") ≡ failed
unfolding make_dep_file_from_bytes parse_targets parse_skip_spaces is_space parse_target_name
    space_allowed skip_separators take_item item_after_separators parse_next_dep_item
    parse_dep_items add_target escape_gnu_make_spaces replace_all replace_loop find starts_with
    write_to_bytes write_target write_items write_more
colon_missing = refl

depfile_names :
    (create_depfile_name options (codes "/o/a.o") (codes "/w/a.c") ≡ codes "/o/a.o.d")
    × (create_depfile_name options [] (codes "/w/a.c") ≡ codes "a.o.d")
    × (create_depfile_name (record options { mf_flag_path = codes "x" }) [] (codes "/w/a.c")
        ≡ codes "x")
unfolding create_depfile_name replace_extension filename directory_part bytes_eq
depfile_names = (refl, refl, refl)
