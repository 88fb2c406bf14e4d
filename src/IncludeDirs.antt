-- ===== src/IncludeDirs.antt =====
-- `CmdLineIncludeDirs` of src/includes_rework.hpp: the include directories of a command line.
use dist_build_sys.Base.{List, [], ◌∷◌, ◌++◌, Bytes, codes}

pub record CmdLineIncludeDirs : Type 0 where
  pub dash_i : List Bytes
  pub dash_isystem : List Bytes
  pub dash_iquote : List Bytes
  pub dash_include : List Bytes

abbrev pub no_dirs : CmdLineIncludeDirs
no_dirs = record { dash_i = []; dash_isystem = []; dash_iquote = []; dash_include = [] }

-- The loop over one list of directories, with the option as an argument of its own.
unfoldable pub option_args : Bytes → List Bytes → List Bytes
option_args option [] = []
option_args option (dir ∷ dirs) = option ∷ dir ∷ option_args option dirs

unfoldable pub dash_i_args : List Bytes → List Bytes
dash_i_args [] = []
dash_i_args (dir ∷ dirs) = (codes "-I" ++ dir) ∷ dash_i_args dirs

unfoldable pub cnvt_to_cmd_line_args : CmdLineIncludeDirs → List Bytes
cnvt_to_cmd_line_args d =
    dash_i_args d.dash_i
    ++ (option_args (codes "-iquote") d.dash_iquote
        ++ (option_args (codes "-isystem") d.dash_isystem
            ++ option_args (codes "-include") d.dash_include))

unfoldable pub append_include_dirs : CmdLineIncludeDirs → CmdLineIncludeDirs → CmdLineIncludeDirs
append_include_dirs d other = record {
  dash_i = d.dash_i ++ other.dash_i;
  dash_isystem = d.dash_isystem ++ other.dash_isystem;
  dash_iquote = d.dash_iquote ++ other.dash_iquote;
  dash_include = d.dash_include ++ other.dash_include;
}
