-- ===== src/CommandLine.antt =====
-- `CompilerCall` of src/compiler_call.hpp and `initialize_compiler_call` of src/compiler_call.cpp: the
-- client's reading of a command line. The time stamps and the pointer to the cache of includes are
-- left out, and so are the results, which the object file's receiver keeps.
pub mod Reading
pub mod Absolute
mod Tests
use dist_build_sys.Base.{
  ℕ, List, [], ◌∷◌, ◌++◌, Bool, true, false, not, ◌||◌, ◌&&◌, Bytes, codes, drop, any, is_empty,
  bytes_eq, starts_with, ends_with, if◌then◌else◌,
}
use dist_build_sys.Paths.{slash}
use dist_build_sys.IncludeDirs.{CmdLineIncludeDirs, no_dirs}
use dist_build_sys.DepFiles.State.{
  DepFilesState, add_mf_flag_path, add_mt_flag_path, add_mq_flag_path,
}

pub data CallType : Type 0 where
  call_type_compile call_type_link call_type_count : CallType

pub record CompilerCall : Type 0 where
  pub cmd_line_include_dirs : CmdLineIncludeDirs
  pub dep_cmd_state : DepFilesState
  pub compiler_call_type : CallType
  pub current_working_dir : Bytes
  pub input_src_file : Bytes
  pub output_obj_file : Bytes
  pub compiler_type : Bytes
  pub cmd_line_args : List Bytes

-- The constructor. The flags of the dependency state, which it leaves uninitialised, are an argument.
pub new_call : DepFilesState → CompilerCall
new_call flags = record {
  cmd_line_include_dirs = no_dirs;
  dep_cmd_state = flags;
  compiler_call_type = call_type_count;
  current_working_dir = [];
  input_src_file = [];
  output_obj_file = [];
  compiler_type = [];
  cmd_line_args = [];
}

abbrev pub supported_compilers : List Bytes
supported_compilers =
    codes "/usr/bin/c++"
    ∷ codes "/usr/bin/clang"
    ∷ codes "/usr/bin/clang++"
    ∷ codes "/usr/bin/gcc"
    ∷ codes "/usr/bin/g++"
    ∷ []

-- `is_header_file`, `is_src_file` and `is_for_linking`, by their suffixes.
abbrev input_suffixes : List Bytes
input_suffixes =
    codes ".c"
    ∷ codes ".cc"
    ∷ codes ".cpp"
    ∷ codes ".cxx"
    ∷ codes ".h"
    ∷ codes ".hpp"
    ∷ codes ".hh"
    ∷ codes ".inc"
    ∷ codes ".hxx"
    ∷ []

abbrev link_suffixes : List Bytes
link_suffixes = codes ".o" ∷ codes ".a" ∷ codes ".so" ∷ codes ".dll" ∷ []

pub has_suffix : List Bytes → Bytes → Bool
has_suffix suffixes arg = any (ends_with arg) suffixes

pub get_abs_path : Bytes → Bytes → Bytes
get_abs_path current_dir path =
    if starts_with path slash then path else current_dir ++ slash ++ path

-- What the chain of tests takes an argument for.
pub data ArgKind : Type 0 where
  dash_i dash_isystem dash_iquote dash_include dash_o dash_mf dash_mt dash_mq : ArgKind
  dash_md dash_mmd dash_mp dash_other input_file link_file other : ArgKind

pub option_kind : Bytes → ArgKind
option_kind arg =
    if starts_with arg (codes "-I")
    then dash_i
    else if bytes_eq arg (codes "-isystem")
    then dash_isystem
    else if bytes_eq arg (codes "-iquote")
    then dash_iquote
    else if bytes_eq arg (codes "-include")
    then dash_include
    else if bytes_eq arg (codes "-o")
    then dash_o
    else if bytes_eq arg (codes "-MF")
    then dash_mf
    else if bytes_eq arg (codes "-MT")
    then dash_mt
    else if bytes_eq arg (codes "-MQ")
    then dash_mq
    else if bytes_eq arg (codes "-MD")
    then dash_md
    else if bytes_eq arg (codes "-MMD")
    then dash_mmd
    else if bytes_eq arg (codes "-MP")
    then dash_mp
    else dash_other

pub arg_kind : Bytes → ArgKind
arg_kind arg =
    if starts_with arg (codes "-")
    then option_kind arg
    else if has_suffix input_suffixes arg
    then input_file
    else if has_suffix link_suffixes arg
    then link_file
    else other

pub takes_value : ArgKind → Bool
takes_value dash_isystem = true
takes_value dash_iquote = true
takes_value dash_include = true
takes_value dash_o = true
takes_value dash_mf = true
takes_value dash_mt = true
takes_value dash_mq = true
takes_value _ = false

-- `_cmd_line_args.emplace_back`
pub add_arg : Bytes → CompilerCall → CompilerCall
add_arg arg c = record c { cmd_line_args = c.cmd_line_args ++ arg ∷ [] }

pub set_dirs : CmdLineIncludeDirs → CompilerCall → CompilerCall
set_dirs dirs c = record c { cmd_line_include_dirs = dirs }

pub set_dep : DepFilesState → CompilerCall → CompilerCall
set_dep dep c = record c { dep_cmd_state = dep }

-- What an option does with its value, after the option itself was added to the arguments.
pub value_arg : ArgKind → Bytes → Bytes → CompilerCall → CompilerCall
value_arg dash_isystem dir next c =
    let path = get_abs_path dir next in
    let dirs = c.cmd_line_include_dirs in
    add_arg path (set_dirs (record dirs { dash_isystem = dirs.dash_isystem ++ path ∷ [] }) c)
value_arg dash_iquote dir next c =
    let path = get_abs_path dir next in
    let dirs = c.cmd_line_include_dirs in
    add_arg path (set_dirs (record dirs { dash_iquote = dirs.dash_iquote ++ path ∷ [] }) c)
value_arg dash_include dir next c =
    let path = get_abs_path dir next in
    let dirs = c.cmd_line_include_dirs in
    add_arg path (set_dirs (record dirs { dash_include = dirs.dash_include ++ path ∷ [] }) c)
value_arg dash_o dir next c = add_arg next (record c { output_obj_file = next })
value_arg dash_mf dir next c =
    let path = get_abs_path dir next in
    add_arg path (set_dep (add_mf_flag_path path c.dep_cmd_state) c)
value_arg dash_mt dir next c = add_arg next (set_dep (add_mt_flag_path next c.dep_cmd_state) c)
value_arg dash_mq dir next c = add_arg next (set_dep (add_mq_flag_path next c.dep_cmd_state) c)
value_arg _ dir next c = c

-- An argument that stands for itself.
pub plain_arg : ArgKind → Bytes → Bytes → CompilerCall → CompilerCall
plain_arg dash_i dir arg c =
    let dirs = c.cmd_line_include_dirs in
    set_dirs (record dirs { dash_i = dirs.dash_i ++ get_abs_path dir (drop 2 arg) ∷ [] }) c
plain_arg dash_md dir arg c =
    set_dep (record c.dep_cmd_state { md_flag_present = true }) (add_arg arg c)
plain_arg dash_mmd dir arg c =
    set_dep (record c.dep_cmd_state { mmd_flag_present = true }) (add_arg arg c)
plain_arg dash_mp dir arg c =
    set_dep (record c.dep_cmd_state { mp_flag_present = true }) (add_arg arg c)
plain_arg input_file dir arg c = add_arg arg (record c { input_src_file = arg })
plain_arg link_file dir arg c = add_arg arg (record c { compiler_call_type = call_type_link })
plain_arg _ dir arg c = add_arg arg c

-- The loop from the second argument on; with `false` the function has returned.
pub read_args : Bytes → List Bytes → CompilerCall → CompilerCall × Bool
read_args dir [] c = (c, true)
read_args dir (arg ∷ []) c =
    if takes_value (arg_kind arg)
    then (record (add_arg arg c) { compiler_call_type = call_type_count }, false)
    else (plain_arg (arg_kind arg) dir arg c, true)
read_args dir (arg ∷ next ∷ rest) c =
    let with_value = read_args dir rest (value_arg (arg_kind arg) dir next (add_arg arg c)) in
    let alone = read_args dir (next ∷ rest) (plain_arg (arg_kind arg) dir arg c) in
    if takes_value (arg_kind arg) then with_value else alone

pub is_count : CallType → Bool
is_count call_type_count = true
is_count _ = false

-- The tests behind the loop.
pub conclude : CompilerCall → CompilerCall × Bool
conclude c =
    let typed =
      if ends_with c.output_obj_file (codes ".o")
      then record c { compiler_call_type = call_type_compile }
      else c in
    (typed, not (is_empty typed.input_src_file) && not (is_count typed.compiler_call_type))

pub conclude_if : CompilerCall × Bool → CompilerCall × Bool
conclude_if (c, ok) = if ok then conclude c else (c, false)

pub initialize_compiler_call : Bytes → List Bytes → CompilerCall → CompilerCall × Bool
initialize_compiler_call dir [] c = conclude (record c { current_working_dir = dir })
initialize_compiler_call dir (compiler ∷ args) c =
    let at = record c { current_working_dir = dir } in
    if any (bytes_eq compiler) supported_compilers
    then conclude_if (read_args dir args (record at { compiler_type = compiler }))
    else (at, false)
