-- ===== src/Server/Arguments/Laws.antt =====
-- The translated command line.
use dist_build_sys.Base.{
  ◌≡◌, refl, List, [], ◌∷◌, ◌++◌, map, append-nil, false, some, Bytes, codes, starts_with, ◌>>=◌,
  arith,
}
use dist_build_sys.IncludeDirs.{CmdLineIncludeDirs, option_args, dash_i_args, cnvt_to_cmd_line_args}
use dist_build_sys.Paths.{cnvt_client_to_server_path}
use dist_build_sys.Server.Arguments.{translate_idirs}

-- The directories as the server has them.
abbrev pub on_server : Bytes → CmdLineIncludeDirs → CmdLineIncludeDirs
on_server view_dir d = record {
  dash_i = map (cnvt_client_to_server_path view_dir) d.dash_i;
  dash_isystem = map (cnvt_client_to_server_path view_dir) d.dash_isystem;
  dash_iquote = map (cnvt_client_to_server_path view_dir) d.dash_iquote;
  dash_include = map (cnvt_client_to_server_path view_dir) d.dash_include;
}

module _ (view_dir : Bytes) where
  translate_pair :
      (option dir : Bytes) (rest : List Bytes)
      → starts_with option (codes "-I") ≡ false
      → translate_idirs view_dir (option ∷ dir ∷ rest) ≡ (
          translate_idirs view_dir rest >>= λ args.
          some (option ∷ cnvt_client_to_server_path view_dir dir ∷ args))
  unfolding translate_idirs
  translate_pair option dir rest h = rw h

  translate_flag :
      (dir : Bytes) (rest : List Bytes)
      → translate_idirs view_dir ((codes "-I" ++ dir) ∷ rest) ≡ (
          translate_idirs view_dir rest >>= λ args.
          some ((codes "-I" ++ cnvt_client_to_server_path view_dir dir) ∷ args))
  unfolding translate_idirs starts_with
  translate_flag dir [] = ground arith
  translate_flag dir (x ∷ rest) = ground arith

  translate_options :
      (option : Bytes) (dirs rest done : List Bytes)
      → starts_with option (codes "-I") ≡ false
      → translate_idirs view_dir rest ≡ some done
      → translate_idirs view_dir (option_args option dirs ++ rest)
        ≡ some (option_args option (map (cnvt_client_to_server_path view_dir) dirs) ++ done)
  unfolding option_args
  translate_options option [] rest done h e = e
  translate_options option (dir ∷ dirs) rest done h e =
      rw (translate_pair option dir _ h, translate_options option dirs rest done h e)

  translate_flags :
      (dirs rest done : List Bytes)
      → translate_idirs view_dir rest ≡ some done
      → translate_idirs view_dir (dash_i_args dirs ++ rest)
        ≡ some (dash_i_args (map (cnvt_client_to_server_path view_dir) dirs) ++ done)
  unfolding dash_i_args
  translate_flags [] rest done e = e
  translate_flags (dir ∷ dirs) rest done e =
      rw (translate_flag dir (dash_i_args dirs ++ rest), translate_flags dirs rest done e)

  translate_last :
      (dirs : List Bytes)
      → translate_idirs view_dir (option_args (codes "-include") dirs)
        ≡ some (option_args (codes "-include") (map (cnvt_client_to_server_path view_dir) dirs))
  unfolding starts_with translate_idirs
  translate_last dirs =
      rw
        (
          append-nil (option_args (codes "-include") dirs),
          append-nil
              (option_args (codes "-include") (map (cnvt_client_to_server_path view_dir) dirs)),
        )
        at (translate_options (codes "-include") dirs [] [] refl refl)

  -- The server's loop understands every list of options that a client makes of its include
  -- directories, and never reads behind its end: the result is the options of the same directories
  -- as the server has them, in the same order.
  pub translate_idirs-cnvt_to_cmd_line_args :
      (d : CmdLineIncludeDirs)
      → translate_idirs view_dir (cnvt_to_cmd_line_args d)
        ≡ some (cnvt_to_cmd_line_args (on_server view_dir d))
  unfolding cnvt_to_cmd_line_args starts_with option_args
  translate_idirs-cnvt_to_cmd_line_args d = translate_flags d.dash_i _ _ (
      translate_options (codes "-iquote") d.dash_iquote _ _ refl (
        translate_options (codes "-isystem") d.dash_isystem _ _ refl
          (translate_last d.dash_include)))
