-- ===== src/Server/Arguments/Tests.antt =====
-- A command line as the server runs it.
use dist_build_sys.Base.{◌≡◌, [], ◌∷◌, some, codes}
use dist_build_sys.IncludeDirs.{CmdLineIncludeDirs, cnvt_to_cmd_line_args}
use dist_build_sys.Server.Arguments.{translate_idirs}
use dist_build_sys.Server.Arguments.Laws.{on_server, translate_idirs-cnvt_to_cmd_line_args}

abbrev dirs : CmdLineIncludeDirs
dirs = record {
  dash_i = codes "/inc" ∷ codes "sub" ∷ [];
  dash_isystem = codes "/usr/local/include" ∷ [];
  dash_iquote = [];
  dash_include = codes "/w/pre.h" ∷ [];
}

translate_idirs-cnvt_to_cmd_line_args_example :
    translate_idirs (codes "/srv") (cnvt_to_cmd_line_args dirs)
    ≡ some (cnvt_to_cmd_line_args (on_server (codes "/srv") dirs))
translate_idirs-cnvt_to_cmd_line_args_example =
    translate_idirs-cnvt_to_cmd_line_args (codes "/srv") dirs
