-- ===== src/Client/Connect/Tests.antt =====
-- A call for a source with a header.
use dist_build_sys.Base.{◌≡◌, refl, true, [], ◌∷◌, false, some, codes, bytes_eq, map, All, arith}
use dist_build_sys.Base.Int.{pos}
use dist_build_sys.Base.Dict.{lookup}
use dist_build_sys.IncludeDirs.{no_dirs, append_include_dirs, cnvt_to_cmd_line_args}
use dist_build_sys.Includes.Cache.{empty_cache}
use dist_build_sys.Includes.Parser.{FileSystem, ParserState, new_parser, parse_source_file_includes}
use dist_build_sys.Includes.Parser.Facts.{IsValid}
use dist_build_sys.CommandLine.{CompilerCall, call_type_compile}
use dist_build_sys.Client.Session.{LocalOutput}
use dist_build_sys.Client.Connect.{Prepared, prepare_request}
use dist_build_sys.Client.Connect.Request.{IsTrueOf, prepare_request-IsTrueOf}

abbrev disk : FileSystem
disk = record {
  files = (codes "/s/m.cc", codes "#include \"a.h\"") ∷ (codes "/s/a.h", codes "int a;") ∷ [];
  is_directory = λ path. false;
}

abbrev call : CompilerCall
call = record {
  cmd_line_include_dirs = no_dirs;
  dep_cmd_state = record {
    md_flag_present = false;
    mmd_flag_present = false;
    mp_flag_present = false;
    mf_flag_path = [];
    mt_flag_paths = [];
  };
  compiler_call_type = call_type_compile;
  current_working_dir = codes "/s";
  input_src_file = codes "/s/m.cc";
  output_obj_file = codes "m.o";
  compiler_type = codes "/usr/bin/g++";
  cmd_line_args = codes "-c" ∷ [];
}

abbrev local_output : LocalOutput
local_output = record {
  compiler_exit_code = pos 0;
  stdout_str = [];
  stderr_str = [];
  compilation_duration = pos 1;
}

empty_cache-IsValid :
    IsValid (λ content. content) disk (append_include_dirs no_dirs no_dirs) (new_parser empty_cache)
unfolding new_parser lookup
empty_cache-IsValid = record { cached = λ name info h. absurd cc; found = tt }

source_stored : lookup (codes "/s/m.cc") disk.files ≡ some (codes "#include \"a.h\"")
unfolding lookup bytes_eq
source_stored = refl

prepare_request-IsTrueOf_example :
    (p : Prepared) × (prepare_request
        (λ content. content)
        disk
        3
        (codes "id")
        call
        empty_cache
        no_dirs
      ≡ some p)
    × All (IsTrueOf (λ content. content) disk) p.request.required_files_info
    × ((t : ParserState) × (parse_source_file_includes
            (λ content. content)
            disk
            (append_include_dirs no_dirs no_dirs)
            3
            (codes "/s/m.cc")
            (append_include_dirs no_dirs no_dirs).dash_include
            (new_parser empty_cache)
          ≡ some (true, t))
        × (map (λ info. info.filename) p.request.required_files_info
            ≡ codes "/s/m.cc" ∷ map (λ entry. entry.1.file_path) t.inc_directives))
    × (p.request.client_id ≡ codes "id")
    × (cnvt_to_cmd_line_args no_dirs ≡ p.request.client_idirs)
prepare_request-IsTrueOf_example =
    prepare_request-IsTrueOf (λ content. content) disk 3 (omega arith) (codes "id") call empty_cache
      no_dirs empty_cache-IsValid (codes "#include \"a.h\"") source_stored refl
