-- ===== src/Server/Arguments.antt =====
-- The command line that the server runs: `ServerSession::preprocess_compiler_call` of
-- src/server_session.cpp. The directories that it creates are not modelled. `none` stands for the
-- read behind the end of `compiler_idirs`, which the source does not check.
pub mod Laws
mod Tests
use dist_build_sys.Base.{
  ℕ, List, [], ◌∷◌, ◌++◌, Bool, ◌||◌, Option, none, some, Bytes, codes, drop, starts_with,
  ends_with, if◌then◌else◌, ◌>>=◌,
}
use dist_build_sys.Paths.{cnvt_client_to_server_path, generate_obj_file_path, slash}

abbrev obj_store_path : Bytes
obj_store_path = codes "/tmp/distbuild/obj_store"

-- The loop over `compiler_idirs`: the arguments that it adds.
unfoldable pub translate_idirs : Bytes → List Bytes → Option (List Bytes)
translate_idirs idirs_dir [] = some []
translate_idirs idirs_dir (idir ∷ []) =
    if starts_with idir (codes "-I")
    then some ((codes "-I" ++ cnvt_client_to_server_path idirs_dir (drop 2 idir)) ∷ [])
    else none
translate_idirs idirs_dir (idir ∷ dir ∷ rest) =
    let flagged = translate_idirs idirs_dir (dir ∷ rest) >>= λ args.
    some ((codes "-I" ++ cnvt_client_to_server_path idirs_dir (drop 2 idir)) ∷ args) in
    let paired = translate_idirs idirs_dir rest >>= λ args.
    some (idir ∷ cnvt_client_to_server_path idirs_dir dir ∷ args) in
    if starts_with idir (codes "-I") then flagged else paired

pub is_src_file : Bytes → Bool
is_src_file file_name =
    ends_with file_name (codes ".c")
    || ends_with file_name (codes ".cc")
    || ends_with file_name (codes ".cpp")
    || ends_with file_name (codes ".cxx")

-- The loop over `compiler_cmd_line_args`: source files go, `-o` goes with its value, absolute paths
-- are converted.
translate_args : Bytes → List Bytes → List Bytes
translate_args idirs_dir [] = []
translate_args idirs_dir (arg ∷ []) =
    if is_src_file arg
    then []
    else if ends_with arg (codes "-o")
    then []
    else if starts_with arg slash
    then cnvt_client_to_server_path idirs_dir arg ∷ []
    else arg ∷ []
translate_args idirs_dir (arg ∷ value ∷ rest) =
    let one = translate_args idirs_dir (value ∷ rest) in
    let two = translate_args idirs_dir rest in
    if is_src_file arg
    then one
    else if ends_with arg (codes "-o")
    then two
    else if starts_with arg slash
    then cnvt_client_to_server_path idirs_dir arg ∷ one
    else arg ∷ one

-- What the call leaves in the session.
pub record CompilerArgs : Type 0 where
  pub current_working_dir : Bytes
  pub out_obj_file : Bytes
  pub cmd_line_args : List Bytes

unfoldable pub preprocess_compiler_call :
    Bytes → Bytes → Bytes → Bytes → Bytes → List Bytes → List Bytes → Option CompilerArgs
unfolding translate_args
preprocess_compiler_call view_dir client_id session_uuid in_src_file client_working_dir args idirs =
    do
      let fixed_in_src_file =
          if starts_with in_src_file slash
          then cnvt_client_to_server_path view_dir in_src_file
          else in_src_file
      let out_obj_file = generate_obj_file_path obj_store_path client_id session_uuid
      dir_args ← translate_idirs view_dir idirs
      some (record {
        current_working_dir = cnvt_client_to_server_path view_dir client_working_dir;
        out_obj_file = out_obj_file;
        cmd_line_args =
            (dir_args ++ translate_args view_dir args)
            ++ fixed_in_src_file ∷ codes "-o" ∷ out_obj_file ∷ [];
      })
