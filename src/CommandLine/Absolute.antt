-- ===== src/CommandLine/Absolute.antt =====
-- The include directories of a command line.
use dist_build_sys.Base.{
  ◌≡◌, refl, List, [], ◌∷◌, ◌++◌, Bool, true, false, Bytes, codes, drop, all, any, bytes_eq,
  starts_with, ends_with, arith, Bool-cases, inl, inr,
}
use dist_build_sys.IncludeDirs.{CmdLineIncludeDirs, no_dirs}
use dist_build_sys.Paths.{slash}
use dist_build_sys.DepFiles.State.{DepFilesState}
use dist_build_sys.CommandLine.{
  CompilerCall, new_call, supported_compilers, get_abs_path, ArgKind, dash_i, dash_isystem,
  dash_iquote, dash_include, dash_o, dash_mf, dash_mt, dash_mq, dash_md, dash_mmd, dash_mp,
  input_file, link_file, arg_kind, takes_value, add_arg, set_dirs, set_dep, value_arg, plain_arg,
  read_args, conclude, conclude_if, initialize_compiler_call,
}

abbrev absolute : List Bytes → Bool
absolute paths = all (λ path. starts_with path slash) paths

pub record AreAbsolute (dirs : CmdLineIncludeDirs) : Type 0 where
  pub i : absolute dirs.dash_i ≡ true
  pub isystem : absolute dirs.dash_isystem ≡ true
  pub iquote : absolute dirs.dash_iquote ≡ true
  pub include : absolute dirs.dash_include ≡ true

none-AreAbsolute : AreAbsolute no_dirs
none-AreAbsolute = record { i = refl; isystem = refl; iquote = refl; include = refl }

get_abs_path-absolute :
    (dir path : Bytes)
    → starts_with dir slash ≡ true
    → starts_with (get_abs_path dir path) slash ≡ true
unfolding get_abs_path starts_with
get_abs_path-absolute [] path h = cc
get_abs_path-absolute (x ∷ dir) path h = elim (Bool-cases (starts_with path slash)) [
  | inl e ↦ rw e e
  | inr e ↦ rw e h
]

absolute-add :
    (paths : List Bytes) (dir path : Bytes)
    → starts_with dir slash ≡ true
    → absolute paths ≡ true
    → absolute (paths ++ get_abs_path dir path ∷ []) ≡ true
absolute-add [] dir path h a = ground (arith, get_abs_path-absolute dir path h)
absolute-add (p ∷ paths) dir path h a = ground (arith, absolute-add paths dir path h)

module _ (dir : Bytes) (h : starts_with dir slash ≡ true) where
  value_arg-AreAbsolute :
      (k : ArgKind) (next : Bytes) (c : CompilerCall)
      → AreAbsolute c.cmd_line_include_dirs
      → AreAbsolute (value_arg k dir next c).cmd_line_include_dirs
  unfolding value_arg add_arg set_dirs set_dep
  value_arg-AreAbsolute dash_isystem next c a = record {
    i = a.i;
    isystem = absolute-add _ dir next h a.isystem;
    iquote = a.iquote;
    include = a.include;
  }
  value_arg-AreAbsolute dash_iquote next c a = record {
    i = a.i;
    isystem = a.isystem;
    iquote = absolute-add _ dir next h a.iquote;
    include = a.include;
  }
  value_arg-AreAbsolute dash_include next c a = record {
    i = a.i;
    isystem = a.isystem;
    iquote = a.iquote;
    include = absolute-add _ dir next h a.include;
  }
  value_arg-AreAbsolute dash_o next c a = a
  value_arg-AreAbsolute dash_mf next c a = a
  value_arg-AreAbsolute dash_mt next c a = a
  value_arg-AreAbsolute dash_mq next c a = a
  value_arg-AreAbsolute _ next c a = a

  plain_arg-AreAbsolute :
      (k : ArgKind) (arg : Bytes) (c : CompilerCall)
      → AreAbsolute c.cmd_line_include_dirs
      → AreAbsolute (plain_arg k dir arg c).cmd_line_include_dirs
  unfolding plain_arg add_arg set_dirs set_dep
  plain_arg-AreAbsolute dash_i arg c a = record {
    i = absolute-add _ dir (drop 2 arg) h a.i;
    isystem = a.isystem;
    iquote = a.iquote;
    include = a.include;
  }
  plain_arg-AreAbsolute dash_md arg c a = a
  plain_arg-AreAbsolute dash_mmd arg c a = a
  plain_arg-AreAbsolute dash_mp arg c a = a
  plain_arg-AreAbsolute input_file arg c a = a
  plain_arg-AreAbsolute link_file arg c a = a
  plain_arg-AreAbsolute _ arg c a = a

  read_args-AreAbsolute :
      (args : List Bytes) (c : CompilerCall)
      → AreAbsolute c.cmd_line_include_dirs
      → AreAbsolute (read_args dir args c).0.cmd_line_include_dirs
  unfolding read_args add_arg
  read_args-AreAbsolute [] c a = a
  read_args-AreAbsolute (arg ∷ []) c a = elim (Bool-cases (takes_value (arg_kind arg))) [
    | inl e ↦ rw e a
    | inr e ↦ rw e (plain_arg-AreAbsolute (arg_kind arg) arg c a)
  ]
  read_args-AreAbsolute (arg ∷ next ∷ rest) c a = elim (Bool-cases (takes_value (arg_kind arg))) [
    | inl e ↦ rw e (
        read_args-AreAbsolute rest (value_arg (arg_kind arg) dir next (add_arg arg c))
          (value_arg-AreAbsolute (arg_kind arg) next (add_arg arg c) a))
    | inr e ↦ rw e (
        read_args-AreAbsolute (next ∷ rest) (plain_arg (arg_kind arg) dir arg c)
          (plain_arg-AreAbsolute (arg_kind arg) arg c a))
  ]

  conclude-AreAbsolute :
      (r : CompilerCall × Bool)
      → AreAbsolute r.0.cmd_line_include_dirs
      → AreAbsolute (conclude_if r).0.cmd_line_include_dirs
  unfolding conclude_if conclude
  conclude-AreAbsolute (c, false) a = a
  conclude-AreAbsolute (c, true) a = elim (Bool-cases (ends_with c.output_obj_file (codes ".o"))) [
    | inl e ↦ rw e a
    | inr e ↦ rw e a
  ]

  -- Called in an absolute directory, with any command line, accepted or not: every include directory
  -- that the call collects is an absolute path.
  pub initialize_compiler_call-AreAbsolute :
      (args : List Bytes) (flags : DepFilesState)
      → AreAbsolute (initialize_compiler_call dir args (new_call flags)).0.cmd_line_include_dirs
  unfolding initialize_compiler_call new_call conclude_if
  initialize_compiler_call-AreAbsolute [] flags =
      conclude-AreAbsolute (record (new_call flags) { current_working_dir = dir }, true)
        none-AreAbsolute
  initialize_compiler_call-AreAbsolute (compiler ∷ args) flags =
      elim (Bool-cases (any (bytes_eq compiler) supported_compilers)) [
        | inl e ↦
            let start = record (new_call flags) {
              current_working_dir = dir;
              compiler_type = compiler;
            } in
            rw e (
              conclude-AreAbsolute (read_args dir args start)
                (read_args-AreAbsolute args start none-AreAbsolute))
        | inr e ↦ rw e none-AreAbsolute
      ]
