-- ===== src/Server/View/Requests.antt =====
-- Which files a new session asks the client for.
use mathlib.Core.Path.{subst}
use dist_build_sys.Base.{
  true, false, All, List, ◌⊎◌, false, bytes_eq, bytes_eq_iff, bytes_eq_refl, any, Bool-cases, inl,
  inr, arith, ℕ, ◌≡◌, refl, ap, ◌∙◌, [], ◌∷◌, ◌++◌, some, Bytes,
}
use dist_build_sys.Base.Dict.{Dict, lookup}
use dist_build_sys.Paths.RoundTrip.{IsDirectory}
use dist_build_sys.Server.Files.{initial, uploading, FileStateView}
use dist_build_sys.Server.View.{request_file, request_files}
use dist_build_sys.Server.View.Rounds.{
  IsAbsolute, Placed, is_seen, asked_for, Round, request_file-Round, Round-Placed, Round-other,
  seen_stays, Round-asks,
}

pub false_not_true : ¬ (false ≡ true)
false_not_true h = cc

pub any-append :
    (path : Bytes) (xs ys : List Bytes)
    → (any (bytes_eq path) xs ≡ true) ⊎ (any (bytes_eq path) ys ≡ true)
    → any (bytes_eq path) (xs ++ ys) ≡ true
any-append path [] ys (inl h) = absurd (false_not_true h)
any-append path [] ys (inr h) = h
any-append path (x ∷ xs) ys h = elim (Bool-cases (bytes_eq path x)) [
  | inl same ↦ rw same
  | inr other ↦ rw other (any-append path xs ys (rw other at h))
]

pub any-first : (path : Bytes) → any (bytes_eq path) (path ∷ []) ≡ true
any-first path = rw (bytes_eq_refl path)

pub any-rest :
    (path first : Bytes) (paths : List Bytes)
    → bytes_eq first path ≡ false
    → any (bytes_eq path) (first ∷ paths) ≡ true
    → any (bytes_eq path) paths ≡ true
any-rest path first paths apart h = ground (arith, bytes_eq_iff first path, bytes_eq_iff path first)

module _ (dir : Bytes) (now : ℕ) (d : IsDirectory dir) where
  new_asked :
      (paths : List Bytes)
      → All IsAbsolute paths
      → (states : Dict FileStateView) → Placed dir states
      → (path : Bytes) (fs : FileStateView) → any (bytes_eq path) paths ≡ true
      → lookup path states ≡ some fs
      → fs.file_status ≡ initial
      → (any (bytes_eq path) (request_files dir now paths states).1 ≡ true)
        × (lookup path (request_files dir now paths states).0 ≡ some (asked_for now fs))
  unfolding request_files is_seen
  new_asked [] a states placed path fs h there st = absurd (false_not_true h)
  new_asked (first ∷ paths) (a, rest) states placed path fs h there st =
      let r = request_file dir now (lookup first states) states in
      let round = request_file-Round dir now d first states (lookup first states) a placed refl in
      let later = Round-Placed dir now first states r round placed in
      elim (Bool-cases (bytes_eq first path)) [
        | inl same ↦
            let own : first ≡ path = (bytes_eq_iff first path).0 same in
            let (asked, marked) =
              Round-asks dir now d path fs states r
                (subst (λ p. Round dir now p states r) own round) there st in
            (
              any-append path r.1 (request_files dir now paths r.0).1
                  (inl (ap (any (bytes_eq path)) asked ∙ any-first path)),
              seen_stays dir now d paths rest path r.0 later (ap is_seen marked) ∙ marked,
            )
        | inr apart ↦
            let kept = Round-other dir now first path states r round apart in
            let (asked, marked) =
              new_asked paths rest r.0 later path fs (any-rest path first paths apart h)
                (kept ∙ there) st in
            (any-append path r.1 (request_files dir now paths r.0).1 (inr asked), marked)
      ]

  -- For a list of absolute paths outside the system's directories, with a state whose server paths are those
  -- of the client's: every file of the list that is in its initial status is among the requested paths, and its
  -- entry says after the call that it is uploading, since the given time; an entry that was in another status,
  -- listed or not, is as it was.
  pub request_files_absolute :
      (paths : List Bytes)
      → All IsAbsolute paths
      → (states : Dict FileStateView) → Placed dir states
      → ((path : Bytes) (fs : FileStateView)
          → any (bytes_eq path) paths ≡ true
          → lookup path states ≡ some fs
          → fs.file_status ≡ initial
          → (any (bytes_eq path) (request_files dir now paths states).1 ≡ true)
            × (lookup path (request_files dir now paths states).0
                ≡ some (record fs { file_status = uploading; up_start_time = now })))
        × ((other : Bytes)
            → is_seen (lookup other states) ≡ true
            → lookup other (request_files dir now paths states).0 ≡ lookup other states)
  request_files_absolute paths a states placed =
      (new_asked paths a states placed, λ other. seen_stays dir now d paths a other states placed)
