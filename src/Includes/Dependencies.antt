-- ===== src/Includes/Dependencies.antt =====
-- `CompilerCall::collect_src_file_dependencies` of src/compiler_call.cpp: the records of the headers that a
-- source file reaches.
pub mod Accurate
use dist_build_sys.Base.{
  List, [], ◌≡◌, Bool, true, false, Option, some, none, ℕ, Bytes, map, ◌>>=◌, All,
}
use dist_build_sys.IncludeDirs.{CmdLineIncludeDirs, append_include_dirs}
use dist_build_sys.Includes.Cache.{IncludeInfo, IncludesCache}
use dist_build_sys.Includes.Parser.{FileSystem, ParserState, new_parser, parse_source_file_includes}

-- The members of a call that the function reads and changes, and the records.
pub record Collected : Type 0 where
  pub cmd_line_include_dirs : CmdLineIncludeDirs
  pub includes_cache : IncludesCache
  pub include_dependencies : List IncludeInfo

unfoldable pub dependencies : Bool → ParserState → List IncludeInfo
dependencies false s = []
dependencies true s = map (λ entry. entry.1) s.inc_directives

unfoldable pub collect_src_file_dependencies :
    (Bytes → Bytes)
    → FileSystem
    → ℕ
    → CmdLineIncludeDirs
    → IncludesCache
    → Bytes
    → CmdLineIncludeDirs
    → Option Collected
collect_src_file_dependencies sha1 fs fuel cmd_line_include_dirs cache input_src_file system_dirs =
    let all_dirs = append_include_dirs cmd_line_include_dirs system_dirs in
    parse_source_file_includes sha1 fs all_dirs fuel input_src_file all_dirs.dash_include
      (new_parser cache)
    >>= λ r. some record {
      cmd_line_include_dirs = all_dirs;
      includes_cache = r.1.includes_cache;
      include_dependencies = dependencies r.0 r.1;
    }
