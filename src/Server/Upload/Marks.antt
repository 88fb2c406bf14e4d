-- ===== src/Server/Upload/Marks.antt =====
-- What a chunk that completes no file does to the states of the client's files.
use dist_build_sys.Base.{
  ◌≡◌, refl, ◌⊎◌, inl, inr, false, not, Option, some, none, Bytes, bytes_eq, length, ◌==◌,
  Bool-cases,
}
use dist_build_sys.Base.Dict.{Dict, lookup, contains}
use dist_build_sys.Messages.{ClientFileChunkUploadRequest}
use dist_build_sys.Server.Files.{fault, is_available, FileStateView, update_file_state}
use dist_build_sys.Server.Upload.{
  FileTransferState, Upload, Outcome, completed, set_file_state, set_transfer, open_transfer,
  in_order, contents, finish, transfer_chunk, with_transfer, known_file, receive_chunk,
}

-- No file becomes available: the states stay, or one is set that is not available.
pub data Marked (states after : Dict FileStateView) : Type 0 where
  kept : after ≡ states → Marked states after
  withdrawn :
      (path : Bytes) (fs : FileStateView)
      → is_available fs.file_status ≡ false
      → after ≡ (update_file_state path fs states).0
      → Marked states after

-- A chunk completes a file, or no file becomes available.
abbrev pub Chunk : Dict FileStateView → Upload × Outcome → Type 0
Chunk states r = (r.1 ≡ completed) ⊎ Marked states r.0.file_states

set_fault-Marked :
    (path : Bytes) (fs : FileStateView) (u : Upload)
    → Marked u.file_states (set_file_state path fs fault u).file_states
unfolding set_file_state is_available
set_fault-Marked path fs u = withdrawn path _ refl refl

module _ (sha1 : Bytes → Bytes) (sid : Bytes) (msg : ClientFileChunkUploadRequest) where
  finish-Chunk :
      (fs : FileStateView) (name : Bytes) (u : Upload)
      → Chunk u.file_states (finish sha1 msg fs name u)
  unfolding finish
  finish-Chunk fs name u =
      elim (Bool-cases (not (fs.file_sz_bytes == length (contents name u.files)))) [
        | inl wrong ↦ rw wrong (inr (set_fault-Marked msg.filename fs u))
        | inr right ↦ rw right (inl refl)
      ]

  transfer_chunk-Chunk :
      (fs : FileStateView) (name : Bytes) (ts : FileTransferState) (u : Upload)
      → Chunk u.file_states (transfer_chunk sha1 sid msg fs name ts u)
  unfolding transfer_chunk set_transfer in_order finish
  transfer_chunk-Chunk fs name ts u = elim (Bool-cases ts.is_finished) [
    | inl over ↦ rw over (inr (kept refl))
    | inr open_yet ↦ elim (Bool-cases (not (in_order sid ts msg))) [
      | inl wrong ↦ rw (open_yet, wrong) (inr (set_fault-Marked msg.filename fs _))
      | inr right ↦ elim (Bool-cases msg.is_last_chunk) [
        | inl last ↦ rw (open_yet, right, last) (finish-Chunk fs name _)
        | inr more ↦ rw (open_yet, right, more) (inr (kept refl))
      ]
    ]
  ]

  with_transfer-Chunk :
      (fs : FileStateView) (name : Bytes) (found : Option FileTransferState) (u : Upload)
      → Chunk u.file_states (with_transfer sha1 sid msg fs name found u)
  unfolding with_transfer
  with_transfer-Chunk fs name none u = inr (kept refl)
  with_transfer-Chunk fs name (some ts) u = transfer_chunk-Chunk fs name ts u

  open_transfer-file_states :
      (name : Bytes) (u : Upload) → (open_transfer sid name u).file_states ≡ u.file_states
  unfolding open_transfer
  open_transfer-file_states name u = elim (Bool-cases (contains name u.transfers)) [
    | inl there ↦ rw there refl
    | inr new ↦ rw new refl
  ]

  known_file-Chunk :
      (found : Option FileStateView) (u : Upload)
      → Chunk u.file_states (known_file sha1 sid msg found u)
  unfolding known_file open_transfer
  known_file-Chunk none u = inr (kept refl)
  known_file-Chunk (some fs) u = elim (Bool-cases (not (bytes_eq msg.session_id sid))) [
    | inl other ↦ rw other (inr (set_fault-Marked msg.filename fs u))
    | inr own ↦ rw own (
        rw (open_transfer-file_states fs.server_file_path u) at (
          with_transfer-Chunk fs fs.server_file_path
            (lookup fs.server_file_path (open_transfer sid fs.server_file_path u).transfers)
            (open_transfer sid fs.server_file_path u)))
  ]

  pub receive_chunk-Chunk : (u : Upload) → Chunk u.file_states (receive_chunk sha1 sid msg u)
  unfolding receive_chunk
  receive_chunk-Chunk u = known_file-Chunk (lookup msg.filename u.file_states) u
