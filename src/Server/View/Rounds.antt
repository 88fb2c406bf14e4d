-- ===== src/Server/View/Rounds.antt =====
-- One round of the loop of `add_session` of src/client_view.cpp that asks for files, for absolute paths.
use mathlib.Core.Path.{subst}
use mathlib.Core.Option.{some-injective}
use dist_build_sys.Base.{
  Bool, true, false, Option, All, List, sym, false, bytes_eq, bytes_eq_iff, Bool-cases, inl, inr, ℕ,
  ◌≡◌, refl, ap, ◌∙◌, [], ◌∷◌, ◌++◌, none, some, Bytes,
}
use dist_build_sys.Base.Dict.{
  insert, lookup-insert, lookup-insert_cases, Dict, lookup, lookup-insert_self,
}
use dist_build_sys.Paths.{
  slash, is_system_path, cnvt_client_to_server_path, cnvt_server_to_client_path,
}
use dist_build_sys.Paths.RoundTrip.{
  IsDirectory, IsRelative, cnvt_server_to_client_path-cnvt_client_to_server_path,
}
use dist_build_sys.Server.Files.{
  Status, initial, uploading, available, fault, count, FileStateView, update_file_state,
}
use dist_build_sys.Server.View.{request_file, request_files}

-- An absolute path outside the system's directories.
pub record IsAbsolute (path : Bytes) : Type 0 where
  pub tail : Bytes
  pub is_rooted : path ≡ slash ++ tail
  pub is_relative : IsRelative tail
  pub is_own : is_system_path path ≡ false

-- Every file state has the server's path for its client path.
abbrev pub Placed : Bytes → Dict FileStateView → Type 0
Placed dir states =
    (path : Bytes) (fs : FileStateView)
    → lookup path states ≡ some fs
    → fs.server_file_path ≡ cnvt_client_to_server_path dir path

-- The entry is not in its initial status.
unfoldable pub is_seen : Option FileStateView → Bool
is_seen none = true
is_seen (some fs) = elim fs.file_status [
  | initial ↦ false
  | uploading ↦ true
  | available ↦ true
  | fault ↦ true
  | count ↦ true
]

abbrev pub asked_for : ℕ → FileStateView → FileStateView
asked_for now fs = record fs { file_status = uploading; up_start_time = now }

-- One round either changes no state, or asks for a new file.
pub data Round (dir : Bytes) (now : ℕ) (path : Bytes) (states : Dict FileStateView)
    (r : Dict FileStateView × List Bytes) : Type 0 where
  unchanged : is_seen (lookup path states) ≡ true → r.0 ≡ states → Round dir now path states r
  asks :
      (fs : FileStateView)
      → lookup path states ≡ some fs
      → fs.file_status ≡ initial
      → r ≡ (insert path (asked_for now fs) states, path ∷ [])
      → Round dir now path states r

module _ (dir : Bytes) (now : ℕ) (d : IsDirectory dir) where
  client_path :
      (path : Bytes)
      → IsAbsolute path
      → cnvt_server_to_client_path dir (cnvt_client_to_server_path dir path) ≡ path
  client_path path a =
      ap (λ p. cnvt_server_to_client_path dir (cnvt_client_to_server_path dir p)) a.is_rooted
      ∙ (cnvt_server_to_client_path-cnvt_client_to_server_path dir a.tail d a.is_relative
            (ap is_system_path (sym a.is_rooted) ∙ a.is_own)
          ∙ sym a.is_rooted)

  pub request_file-Round :
      (path : Bytes) (states : Dict FileStateView) (o : Option FileStateView)
      → IsAbsolute path
      → Placed dir states
      → lookup path states ≡ o
      → Round dir now path states (request_file dir now o states)
  unfolding request_file is_seen update_file_state
  request_file-Round path states none a placed e = unchanged (rw e refl) refl
  request_file-Round path states (some fs) a placed e =
      let back : cnvt_server_to_client_path dir fs.server_file_path ≡ path =
        ap (cnvt_server_to_client_path dir) (placed path fs e) ∙ client_path path a in
      go fs.file_status refl back
    where
      go :
          (status : Status)
          → fs.file_status ≡ status
          → cnvt_server_to_client_path dir fs.server_file_path ≡ path
          → Round dir now path states (request_file dir now (some fs) states)
      go initial st back = asks fs e st (rw (request_file, st, back, e) refl)
      go uploading st back = unchanged (rw (e, is_seen, st) refl) (rw (request_file, st) refl)
      go available st back = unchanged (rw (e, is_seen, st) refl) (rw (request_file, st) refl)
      go fault st back = unchanged (rw (e, is_seen, st) refl) (rw (request_file, st) refl)
      go count st back = unchanged (rw (e, is_seen, st) refl) (rw (request_file, st) refl)

new_unseen : (fs : FileStateView) → fs.file_status ≡ initial → is_seen (some fs) ≡ false
unfolding is_seen
new_unseen fs st = rw (is_seen, st) refl

seen_or_new : (b : Bool) → b ≡ true → ¬ (b ≡ false)
seen_or_new b h g = cc

module _ (dir : Bytes) (now : ℕ) where
  insert-Placed :
      (path : Bytes) (fs : FileStateView) (states : Dict FileStateView)
      → Placed dir states
      → lookup path states ≡ some fs
      → Placed dir (insert path (asked_for now fs) states)
  insert-Placed path fs states placed e other fs' h =
      elim (lookup-insert_cases path other (asked_for now fs) fs' states h) [
        | inl new ↦
            ap (λ v. v.server_file_path) (sym new.1)
            ∙ (placed path fs e ∙ ap (cnvt_client_to_server_path dir) new.0)
        | inr old ↦ placed other fs' old
      ]

  pub Round-Placed :
      (path : Bytes) (states : Dict FileStateView) (r : Dict FileStateView × List Bytes)
      → Round dir now path states r
      → Placed dir states
      → Placed dir r.0
  Round-Placed path states r (unchanged seen e) placed = subst (Placed dir) (sym e) placed
  Round-Placed path states r (asks fs e st er) placed =
      subst (λ v. Placed dir v.0) (sym er) (insert-Placed path fs states placed e)

  -- A round for another path leaves an entry, and so does any round an entry that is not initial.
  pub Round-other :
      (path other : Bytes) (states : Dict FileStateView) (r : Dict FileStateView × List Bytes)
      → Round dir now path states r
      → bytes_eq path other ≡ false
      → lookup other r.0 ≡ lookup other states
  Round-other path other states r (unchanged seen e) apart = ap (lookup other) e
  Round-other path other states r (asks fs e st er) apart =
      ap (λ v. lookup other v.0) er
      ∙ (lookup-insert path other (asked_for now fs) states ∙ rw apart refl)

  Round-seen :
      (path other : Bytes) (states : Dict FileStateView) (r : Dict FileStateView × List Bytes)
      → Round dir now path states r
      → is_seen (lookup other states) ≡ true
      → lookup other r.0 ≡ lookup other states
  unfolding is_seen
  Round-seen path other states r (unchanged seen e) h = ap (lookup other) e
  Round-seen path other states r (asks fs e st er) h = elim (Bool-cases (bytes_eq path other)) [
    | inr apart ↦ Round-other path other states r (asks fs e st er) apart
    | inl same ↦ absurd (
        seen_or_new _ h (
          ap is_seen (ap (λ p. lookup p states) (sym ((bytes_eq_iff path other).0 same)) ∙ e)
          ∙ new_unseen fs st))
  ]

  module _ (d : IsDirectory dir) where
    pub seen_stays :
        (paths : List Bytes)
        → All IsAbsolute paths
        → (other : Bytes) (states : Dict FileStateView) → Placed dir states
        → is_seen (lookup other states) ≡ true
        → lookup other (request_files dir now paths states).0 ≡ lookup other states
    unfolding request_files
    seen_stays [] a other states placed h = refl
    seen_stays (path ∷ paths) (a, rest) other states placed h =
        let r = request_file dir now (lookup path states) states in
        let round = request_file-Round dir now d path states (lookup path states) a placed refl in
        let kept = Round-seen path other states r round h in
        seen_stays paths rest other r.0 (Round-Placed path states r round placed)
          (ap is_seen kept ∙ h)
        ∙ kept

    -- The round for the path itself.
    pub Round-asks :
        (path : Bytes) (fs : FileStateView) (states : Dict FileStateView)
        (r : Dict FileStateView × List Bytes)
        → Round dir now path states r
        → lookup path states ≡ some fs
        → fs.file_status ≡ initial
        → (r.1 ≡ path ∷ []) × (lookup path r.0 ≡ some (asked_for now fs))
    Round-asks path fs states r (unchanged seen e) there st =
        absurd (seen_or_new _ seen (ap is_seen there ∙ new_unseen fs st))
    Round-asks path fs states r (asks found e st' er) there st = (
      ap (λ v. v.1) er,
      ap (λ v. lookup path v.0) er
          ∙ (lookup-insert_self path (asked_for now found) states
              ∙ ap (λ v. some (asked_for now v)) (some-injective _ _ (sym e ∙ there))),
    )
