-- ===== src/Server/View/Announced.antt =====
-- What a client that the server has no file of is asked for by `add_session` of src/client_view.cpp.
use mathlib.Core.Path.{subst}
use mathlib.Core.Option.{some-injective}
use dist_build_sys.Base.{
  ℕ, ◌≡◌, refl, sym, ap, ◌∙◌, ◌⊎◌, inl, inr, List, [], ◌∷◌, ◌++◌, true, false, Bool-cases,
  Option-cases, some, Bytes, bytes_eq, bytes_eq_iff, bytes_eq_refl, is_empty, All, any, map, arith,
  >>=-result,
}
use dist_build_sys.Base.Dict.{Dict, lookup}
use dist_build_sys.Messages.{FileInfo, ClientSessionStartRequest, ServerMessage}
use dist_build_sys.Paths.{cnvt_client_to_server_path}
use dist_build_sys.Paths.RoundTrip.{IsDirectory}
use dist_build_sys.Server.Files.{initial, uploading, FileStateView, add_file_state}
use dist_build_sys.Server.Files.Laws.{lookup-add_file_state}
use dist_build_sys.Server.Arguments.{CompilerArgs}
use dist_build_sys.Server.Session.{ServerSession, new_session, add_required_file_state}
use dist_build_sys.Server.View.{
  World, send_msg, announce_files, try_compile_for_active_sessions, create_client_dir_hierarchy,
  with_args, open_session, add_session,
}
use dist_build_sys.Server.View.Rounds.{IsAbsolute}
use dist_build_sys.Server.View.Requests.{
  any-append, any-first, any-rest, false_not_true, request_files_absolute,
}

-- Every file state is new, and has the server's path for its client path.
abbrev Fresh : Bytes → Dict FileStateView → Type 0
Fresh dir states =
    (path : Bytes) (fs : FileStateView)
    → lookup path states ≡ some fs
    → (fs.server_file_path ≡ cnvt_client_to_server_path dir path) × (fs.file_status ≡ initial)

abbrev Known : Dict FileStateView → Bytes → Type 0
Known states path = (fs : FileStateView) × (lookup path states ≡ some fs)

-- The states and the session while the announced files are added.
record Ready (dir : Bytes) (states : Dict FileStateView) (s : ServerSession) : Type 0 where
  fresh : Fresh dir states
  paths : All IsAbsolute s.required_files_state
  known : (path : Bytes) → any (bytes_eq path) s.required_files_state ≡ true → Known states path

All-append :
    (xs : List Bytes) (y : Bytes) → All IsAbsolute xs → IsAbsolute y → All IsAbsolute (xs ++ y ∷ [])
All-append [] y h k = (k, tt)
All-append (x ∷ xs) y h k = (h.0, All-append xs y h.1 k)

any-split :
    (path : Bytes) (xs ys : List Bytes)
    → any (bytes_eq path) (xs ++ ys) ≡ true
    → (any (bytes_eq path) xs ≡ true) ⊎ (any (bytes_eq path) ys ≡ true)
any-split path [] ys h = inr h
any-split path (x ∷ xs) ys h = elim (Bool-cases (bytes_eq path x)) [
  | inl same ↦ inl (rw same)
  | inr other ↦ elim (any-split path xs ys (rw other at h)) [
    | inl left ↦ inl (rw other left)
    | inr right ↦ inr right
  ]
]

any-single : (path y : Bytes) → any (bytes_eq path) (y ∷ []) ≡ true → y ≡ path
any-single path y h = ground (arith, bytes_eq_iff path y)

module _ (dir name : Bytes) (sz : ℕ) (sha1 : Bytes) (states : Dict FileStateView) where
  add-Known_self : Known (add_file_state dir name sz sha1 states) name
  add-Known_self = elim (Option-cases (lookup name states)) [
    | inl missing ↦ (
      record {
        file_sz_bytes = sz;
        file_sha1 = sha1;
        file_status = initial;
        up_start_time = 0;
        server_file_path = cnvt_client_to_server_path dir name;
      },
      lookup-add_file_state dir name name sz sha1 states ∙ rw (bytes_eq_refl name, missing) refl,
    )
    | inr (old, there) ↦ (
      old,
      lookup-add_file_state dir name name sz sha1 states ∙ rw (bytes_eq_refl name, there) refl,
    )
  ]

  add-Known :
      (path : Bytes) → Known states path → Known (add_file_state dir name sz sha1 states) path
  add-Known path (fs, there) = elim (Bool-cases (bytes_eq name path)) [
    | inl same ↦
        subst (Known (add_file_state dir name sz sha1 states)) ((bytes_eq_iff name path).0 same)
          add-Known_self
    | inr other ↦ (fs, lookup-add_file_state dir name path sz sha1 states ∙ rw other there)
  ]

  add-Fresh : Fresh dir states → Fresh dir (add_file_state dir name sz sha1 states)
  add-Fresh fresh path fs h =
      let e = sym (lookup-add_file_state dir name path sz sha1 states) ∙ h in
      elim (Bool-cases (bytes_eq name path)) [
        | inr other ↦ fresh path fs (rw other at e)
        | inl same ↦ elim (Option-cases (lookup name states)) [
          | inr (old, there) ↦ fresh path fs (
              ap (λ p. lookup p states) (sym ((bytes_eq_iff name path).0 same))
              ∙ (there ∙ (rw (same, there) at e)))
          | inl missing ↦
              let new = some-injective _ _ (rw (same, missing) at e) in
              (
                ap (λ v. v.server_file_path) (sym new)
                    ∙ ap (cnvt_client_to_server_path dir) ((bytes_eq_iff name path).0 same),
                ap (λ v. v.file_status) (sym new),
              )
        ]
      ]

  add-Ready :
      (s : ServerSession)
      → IsAbsolute name
      → Ready dir states s
      → Ready dir (add_file_state dir name sz sha1 states) (add_required_file_state name s)
  unfolding add_required_file_state
  add-Ready s absolute r = record {
    fresh = add-Fresh r.fresh;
    paths = All-append s.required_files_state name r.paths absolute;
    known = λ path h. elim (any-split path s.required_files_state (name ∷ []) h) [
      | inl before ↦ add-Known path (r.known path before)
      | inr last ↦
          subst (Known (add_file_state dir name sz sha1 states)) (any-single path name last)
            add-Known_self
    ];
  }

filled : (name : Bytes) → IsAbsolute name → is_empty name ≡ false
filled name a = ap is_empty a.is_rooted

announce-step :
    (dir : Bytes) (info : FileInfo) (infos : List FileInfo) (states : Dict FileStateView)
    (s : ServerSession)
    → is_empty info.filename ≡ false
    → announce_files dir (info ∷ infos) (states, s)
      ≡ announce_files dir infos (
        add_file_state dir info.filename info.filesize info.filehash states,
        add_required_file_state info.filename s,
      )
unfolding announce_files
announce-step dir info infos states s e = ap (announce_files dir infos) (rw e refl)

-- All files that were required or announced are required.
abbrev Requires : List Bytes → List Bytes → Dict FileStateView × ServerSession → Type 0
Requires before announced r =
    (path : Bytes)
    → (any (bytes_eq path) before ≡ true) ⊎ (any (bytes_eq path) announced ≡ true)
    → any (bytes_eq path) r.1.required_files_state ≡ true

-- What the loop over the announced files ends with.
announce-Ready :
    (dir : Bytes) (infos : List FileInfo)
    → All IsAbsolute (map (λ info. info.filename) infos)
    → (states : Dict FileStateView) (s : ServerSession) → Ready dir states s
    → let r = announce_files dir infos (states, s) in
      Ready dir r.0 r.1 × Requires s.required_files_state (map (λ info. info.filename) infos) r
unfolding announce_files add_required_file_state
announce-Ready dir [] a states s r =
    (r, λ path h. elim h [ inl k ↦ k | inr k ↦ absurd (false_not_true k) ])
announce-Ready dir (info ∷ infos) (a, rest) states s r =
    let name = info.filename in
    let later =
      announce-Ready dir infos rest (add_file_state dir name info.filesize info.filehash states)
        (add_required_file_state name s)
        (add-Ready dir name info.filesize info.filehash states s a r) in
    subst
      (λ r.
        Ready dir r.0 r.1 × Requires s.required_files_state (name ∷ map (λ i. i.filename) infos) r)
      (sym (announce-step dir info infos states s (filled name a)))
      (
        later.0,
        λ path h. later.1 path (elim h [
          | inl before ↦ inl (any-append path s.required_files_state (name ∷ []) (inl before))
          | inr announced ↦ elim (Bool-cases (bytes_eq name path)) [
            | inl same ↦ inl (
                any-append path s.required_files_state (name ∷ []) (
                  inr (
                    subst (λ p. any (bytes_eq p) (name ∷ []) ≡ true)
                      ((bytes_eq_iff name path).0 same) (any-first name))))
            | inr other ↦ inr (any-rest path name _ other announced)
          ]
        ]),
      )

nothing_known : (path : Bytes) (fs : FileStateView) → ¬ (lookup path [] ≡ some fs)
unfolding lookup
nothing_known path fs h = cc

-- The confirmation that was sent lists every path of a list, and the state of each says that it is uploading.
pub record Asks (paths : List Bytes) (now : ℕ) (session_uuid : Bytes) (w w' : World) : Type 0 where
  pub requested : List Bytes
  pub confirmed :
      w'.sent
      ≡ w.sent ++ (session_uuid, ServerMessage.session_confirmed session_uuid requested) ∷ []
  pub asked :
      (path : Bytes)
      → any (bytes_eq path) paths ≡ true
      → (any (bytes_eq path) requested ≡ true)
        × (fs : FileStateView) × (lookup path w'.view.client_file_states
            ≡ some (record fs { file_status = uploading; up_start_time = now }))

open_session-Asks :
    (now : ℕ) (session_uuid : Bytes) (states : Dict FileStateView) (s : ServerSession)
    (args : CompilerArgs) (w : World) (paths : List Bytes)
    → IsDirectory w.view.current_working_dir
    → Ready w.view.current_working_dir states s
    → Requires [] paths (states, s)
    → Asks paths now session_uuid w (open_session now session_uuid (states, s) args w)
unfolding open_session send_msg try_compile_for_active_sessions create_client_dir_hierarchy
    with_args
open_session-Asks now session_uuid states s args w paths d ready requires = record {
  requested = _;
  confirmed = refl;
  asked = λ path h.
      let required = requires path (inr h) in
      let (fs, there) = ready.known path required in
      let (asked, marked) =
        (request_files_absolute w.view.current_working_dir now d s.required_files_state ready.paths
            states (λ p f e. (ready.fresh p f e).0)).0
          path fs required there (ready.fresh path fs there).1 in
      (asked, fs, marked);
}

-- A client that the server has no file of, and whose workspace is an absolute directory, announces files by absolute
-- paths outside the system's directories. If its session is set up, the server's confirmation asks for every one
-- of them, and the state of each says that it is uploading, since the given time.
pub add_session-Asks :
    (compiler_bin : Bytes) (now : ℕ) (session_uuid : Bytes) (start : ClientSessionStartRequest)
    (w w' : World)
    → IsDirectory w.view.current_working_dir
    → w.view.client_file_states ≡ []
    → All IsAbsolute (map (λ info. info.filename) start.required_files_info)
    → add_session compiler_bin now session_uuid start w ≡ some w'
    → Asks (map (λ info. info.filename) start.required_files_info) now session_uuid w w'
unfolding add_session new_session
add_session-Asks compiler_bin now session_uuid start w w' d none_yet absolute e =
    let paths = map (λ info. info.filename) start.required_files_info in
    let dir = w.view.current_working_dir in
    let s = new_session session_uuid dir start.client_source_file compiler_bin in
    let announced =
      announce-Ready dir start.required_files_info absolute w.view.client_file_states s (record {
        fresh = λ path fs h. absurd (nothing_known path fs (ap (lookup path) (sym none_yet) ∙ h));
        paths = tt;
        known = λ path h. absurd (false_not_true h);
      }) in
    >>=-result (Asks paths now session_uuid w) _ (λ args. open_session now session_uuid _ args w)
      (λ args. open_session-Asks now session_uuid _ _ args w paths d announced.0 announced.1) e
