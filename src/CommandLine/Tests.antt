-- ===== src/CommandLine/Tests.antt =====
-- Command lines that are read.
use dist_build_sys.Base.{
  ◌≡◌, refl, List, [], ◌∷◌, Bool, true, false, Bytes, codes, length, any, is_empty, bytes_eq,
  starts_with, ends_with,
}
use dist_build_sys.Paths.{slash}
use dist_build_sys.DepFiles.State.{DepFilesState}
use dist_build_sys.CommandLine.{
  CompilerCall, new_call, supported_compilers, is_count, initialize_compiler_call, read_args,
  arg_kind, option_kind, has_suffix, takes_value, value_arg, plain_arg, add_arg, set_dirs, set_dep,
  conclude, conclude_if,
}
use dist_build_sys.CommandLine.Reading.{arg_count, initialize_compiler_call-arg_count}
use dist_build_sys.CommandLine.Absolute.{AreAbsolute, initialize_compiler_call-AreAbsolute}

abbrev flags : DepFilesState
flags = record {
  md_flag_present = false;
  mmd_flag_present = false;
  mp_flag_present = false;
  mf_flag_path = [];
  mt_flag_paths = [];
}

abbrev args : List Bytes
args =
    codes "-Iinc"
    ∷ codes "-isystem"
    ∷ codes "/s"
    ∷ codes "-c"
    ∷ codes "a.c"
    ∷ codes "-o"
    ∷ codes "a.o"
    ∷ []

abbrev outcome : CompilerCall × Bool
outcome = initialize_compiler_call (codes "/w") (codes "/usr/bin/gcc" ∷ args) (new_call flags)

accepted : outcome.1 ≡ true
unfolding initialize_compiler_call new_call read_args arg_kind option_kind has_suffix takes_value
    value_arg plain_arg add_arg set_dirs set_dep conclude conclude_if is_count bytes_eq starts_with
    ends_with
accepted = refl

initialize_compiler_call-arg_count_example :
    (any (bytes_eq (codes "/usr/bin/gcc")) supported_compilers ≡ true)
    × ((arg_count outcome.0 ≡ length args)
        × ((is_empty outcome.0.input_src_file ≡ false)
            × (is_count outcome.0.compiler_call_type ≡ false)))
initialize_compiler_call-arg_count_example =
    initialize_compiler_call-arg_count (codes "/w") (codes "/usr/bin/gcc") args flags accepted

rooted : starts_with (codes "/w") slash ≡ true
unfolding starts_with
rooted = refl

initialize_compiler_call-AreAbsolute_example : AreAbsolute outcome.0.cmd_line_include_dirs
initialize_compiler_call-AreAbsolute_example =
    initialize_compiler_call-AreAbsolute (codes "/w") rooted (codes "/usr/bin/gcc" ∷ args) flags

-- An option without its value ends the reading.
value_missing :
    (initialize_compiler_call
      (codes "/w")
      (codes "/usr/bin/gcc" ∷ codes "a.c" ∷ codes "-o" ∷ [])
      (new_call flags)).1
    ≡ false
unfolding initialize_compiler_call new_call read_args arg_kind option_kind has_suffix takes_value
    value_arg plain_arg add_arg set_dirs set_dep conclude conclude_if is_count bytes_eq starts_with
    ends_with
value_missing = refl
