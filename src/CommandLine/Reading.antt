-- ===== src/CommandLine/Reading.antt =====
-- What a command line that was read holds.
use dist_build_sys.Base.{
  ℕ, ◌+◌, ◌≡◌, refl, List, [], ◌∷◌, ◌++◌, Bool, true, false, not, ◌&&◌, Bytes, codes, drop, length,
  any, is_empty, bytes_eq, ends_with, arith, length-append, Bool-cases, inl, inr,
}
use dist_build_sys.DepFiles.State.{DepFilesState}
use dist_build_sys.CommandLine.{
  CompilerCall, new_call, supported_compilers, get_abs_path, ArgKind, dash_i, dash_isystem,
  dash_iquote, dash_include, dash_o, dash_mf, dash_mt, dash_mq, dash_md, dash_mmd, dash_mp,
  input_file, link_file, arg_kind, takes_value, add_arg, set_dirs, set_dep, value_arg, plain_arg,
  read_args, is_count, conclude, conclude_if, initialize_compiler_call,
}

-- How many arguments the call holds.
abbrev pub arg_count : CompilerCall → ℕ
arg_count c = length c.cmd_line_args + length c.cmd_line_include_dirs.dash_i

length_add : (args : List Bytes) (arg : Bytes) → length (args ++ arg ∷ []) ≡ length args + 1
length_add args arg = length-append args (arg ∷ [])

length_add_two :
    (args : List Bytes) (arg next : Bytes)
    → length ((args ++ arg ∷ []) ++ next ∷ []) ≡ length args + 2
length_add_two args arg next =
    omega (arith, length_add (args ++ arg ∷ []) next, length_add args arg)

count-value_arg :
    (k : ArgKind) (dir arg next : Bytes) (c : CompilerCall)
    → takes_value k ≡ true
    → arg_count (value_arg k dir next (add_arg arg c)) ≡ arg_count c + 2
unfolding value_arg takes_value add_arg set_dirs set_dep
count-value_arg dash_isystem dir arg next c h =
    omega (arith, length_add_two c.cmd_line_args arg (get_abs_path dir next))
count-value_arg dash_iquote dir arg next c h =
    omega (arith, length_add_two c.cmd_line_args arg (get_abs_path dir next))
count-value_arg dash_include dir arg next c h =
    omega (arith, length_add_two c.cmd_line_args arg (get_abs_path dir next))
count-value_arg dash_o dir arg next c h = omega (arith, length_add_two c.cmd_line_args arg next)
count-value_arg dash_mf dir arg next c h =
    omega (arith, length_add_two c.cmd_line_args arg (get_abs_path dir next))
count-value_arg dash_mt dir arg next c h = omega (arith, length_add_two c.cmd_line_args arg next)
count-value_arg dash_mq dir arg next c h = omega (arith, length_add_two c.cmd_line_args arg next)
count-value_arg _ dir arg next c h = cc

count-plain_arg :
    (k : ArgKind) (dir arg : Bytes) (c : CompilerCall)
    → arg_count (plain_arg k dir arg c) ≡ arg_count c + 1
unfolding plain_arg add_arg set_dirs set_dep
count-plain_arg dash_i dir arg c =
    omega (arith, length_add c.cmd_line_include_dirs.dash_i (get_abs_path dir (drop 2 arg)))
count-plain_arg dash_md dir arg c = omega (arith, length_add c.cmd_line_args arg)
count-plain_arg dash_mmd dir arg c = omega (arith, length_add c.cmd_line_args arg)
count-plain_arg dash_mp dir arg c = omega (arith, length_add c.cmd_line_args arg)
count-plain_arg input_file dir arg c = omega (arith, length_add c.cmd_line_args arg)
count-plain_arg link_file dir arg c = omega (arith, length_add c.cmd_line_args arg)
count-plain_arg _ dir arg c = omega (arith, length_add c.cmd_line_args arg)

count-read_args :
    (dir : Bytes) (args : List Bytes) (c : CompilerCall)
    → (read_args dir args c).1 ≡ true
    → arg_count (read_args dir args c).0 ≡ arg_count c + length args
unfolding read_args
count-read_args dir [] c h = omega arith
count-read_args dir (arg ∷ []) c h = elim (Bool-cases (takes_value (arg_kind arg))) [
  | inl e ↦ absurd (cc (h, e))
  | inr e ↦ rw e (count-plain_arg (arg_kind arg) dir arg c)
]
count-read_args dir (arg ∷ next ∷ rest) c h = elim (Bool-cases (takes_value (arg_kind arg))) [
  | inl e ↦
      let d = value_arg (arg_kind arg) dir next (add_arg arg c) in
      let h' : (read_args dir rest d).1 ≡ true = rw e at h in
      rw e (
        omega
          (arith, count-read_args dir rest d h', count-value_arg (arg_kind arg) dir arg next c e))
  | inr e ↦
      let d = plain_arg (arg_kind arg) dir arg c in
      let h' : (read_args dir (next ∷ rest) d).1 ≡ true = rw e at h in
      rw e (
        omega
          (arith, count-read_args dir (next ∷ rest) d h', count-plain_arg (arg_kind arg) dir arg c))
]

conclude_if-ok :
    (r : CompilerCall × Bool)
    → (conclude_if r).1 ≡ true
    → (r.1 ≡ true)
      × ((arg_count (conclude_if r).0 ≡ arg_count r.0)
          × ((is_empty (conclude_if r).0.input_src_file ≡ false)
              × (is_count (conclude_if r).0.compiler_call_type ≡ false)))
unfolding conclude_if conclude is_count
conclude_if-ok (c, false) h = cc
conclude_if-ok (c, true) h = elim (Bool-cases (ends_with c.output_obj_file (codes ".o"))) [
  | inl e ↦
      let h' : (not (is_empty c.input_src_file) && true) ≡ true = rw e at h in
      rw e (refl, (refl, (ground (arith, h'), refl)))
  | inr e ↦
      let h' : (not (is_empty c.input_src_file) && not (is_count c.compiler_call_type)) ≡ true =
        rw e at h in
      rw e (refl, (refl, (ground (arith, h'), ground (arith, h'))))
]

-- A command line is accepted only with one of the known compilers, an input file and a type of call;
-- then the arguments kept and the -I directories together are as many as the arguments given behind
-- the compiler's name.
pub initialize_compiler_call-arg_count :
    (dir compiler : Bytes) (args : List Bytes) (flags : DepFilesState)
    → let r = initialize_compiler_call dir (compiler ∷ args) (new_call flags) in
      r.1 ≡ true
      → (any (bytes_eq compiler) supported_compilers ≡ true)
        × ((arg_count r.0 ≡ length args)
            × ((is_empty r.0.input_src_file ≡ false) × (is_count r.0.compiler_call_type ≡ false)))
unfolding initialize_compiler_call new_call
initialize_compiler_call-arg_count dir compiler args flags h =
    elim (Bool-cases (any (bytes_eq compiler) supported_compilers)) [
      | inl e ↦
          let start = record (new_call flags) {
            current_working_dir = dir;
            compiler_type = compiler;
          } in
          let h' : (conclude_if (read_args dir args start)).1 ≡ true = rw e at h in
          let done = conclude_if-ok (read_args dir args start) h' in
          rw e (refl, (omega (arith, done.1.0, count-read_args dir args start done.0), done.1.1))
      | inr e ↦ absurd (cc (h, e))
    ]
