-- ===== src/Server/View/Opening.antt =====
-- A new session is confirmed to the client.
use dist_build_sys.Base.Dict.{contains}
use dist_build_sys.Server.View.Open.{has, add_session-has}
use dist_build_sys.Base.{
  true, ◌||◌, ◌∙◌, ap, bytes_eq_refl, ℕ, ◌≡◌, refl, List, [], ◌∷◌, ◌++◌, some, Option, Bytes, ◌>>=◌,
}
use dist_build_sys.IncludeDirs.{cnvt_to_cmd_line_args, CmdLineIncludeDirs}
use dist_build_sys.Messages.{ClientSessionStartRequest, ServerMessage}
use dist_build_sys.Server.Arguments.{CompilerArgs, preprocess_compiler_call}
use dist_build_sys.Server.Arguments.Laws.{translate_idirs-cnvt_to_cmd_line_args}
use dist_build_sys.Server.Session.{new_session}
use dist_build_sys.Server.View.{
  World, send_msg, open_session, add_session, try_compile_for_active_sessions,
}

-- The call ended, and the client was sent a confirmation that lists the files it is asked for.
pub record Confirmed (w : World) (session_uuid : Bytes) (o : Option World) : Type 0 where
  pub after : World
  pub ends : o ≡ some after
  pub requested : List Bytes
  pub confirmed :
      after.sent
      ≡ w.sent ++ (session_uuid, ServerMessage.session_confirmed session_uuid requested) ∷ []
  pub stored : contains session_uuid after.view.associated_sessions ≡ true

-- A chain that goes on after its first step.
bind_some {ℓ κ} :
    {A : Type ℓ} {B : Type κ} (f : A → B) (o : Option A) (a : A)
    → o ≡ some a
    → (o >>= λ x. some (f x)) ≡ some (f a)
bind_some f o a e = rw e

preprocess-some :
    (view_dir client_id session_uuid in_src_file client_working_dir : Bytes) (args : List Bytes)
    → (d : CmdLineIncludeDirs)
    → (result : CompilerArgs) × (preprocess_compiler_call view_dir client_id session_uuid
          in_src_file client_working_dir args
          (cnvt_to_cmd_line_args d)
        ≡ some result)
unfolding preprocess_compiler_call
preprocess-some view_dir client_id session_uuid in_src_file client_working_dir args d =
    (_, bind_some _ _ _ (translate_idirs-cnvt_to_cmd_line_args view_dir d))

add_session-stored :
    (compiler_bin : Bytes) (now : ℕ) (session_uuid : Bytes) (start : ClientSessionStartRequest)
    (w w' : World)
    → add_session compiler_bin now session_uuid start w ≡ some w'
    → contains session_uuid w'.view.associated_sessions ≡ true
add_session-stored compiler_bin now session_uuid start w w' e =
    add_session-has compiler_bin now session_uuid session_uuid start w w' e
    ∙ ap (λ b. b || has session_uuid w) (bytes_eq_refl session_uuid)

pub add_session-Confirmed :
    (compiler_bin : Bytes) (now : ℕ) (session_uuid : Bytes) (start : ClientSessionStartRequest)
    (w : World)
    → (d : CmdLineIncludeDirs) → cnvt_to_cmd_line_args d ≡ start.client_idirs
    → Confirmed w session_uuid (add_session compiler_bin now session_uuid start w)
unfolding add_session open_session send_msg try_compile_for_active_sessions new_session
add_session-Confirmed compiler_bin now session_uuid start w d e =
    let dir = w.view.current_working_dir in
    let args =
      preprocess-some dir w.view.client_uuid session_uuid start.client_source_file
        start.client_working_dir start.client_cmd_line_args d in
    record {
      after = _;
      ends = bind_some _ _ _ (rw e at args.1);
      requested = _;
      confirmed = refl;
      stored =
          add_session-stored compiler_bin now session_uuid start w _
            (bind_some _ _ _ (rw e at args.1));
    }
