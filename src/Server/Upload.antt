-- ===== src/Server/Upload.antt =====
-- `ServerSession::process_file_chunk` of src/server_session.cpp up to the point where a file is
-- complete, over the three stores that it reads and writes. A stream writes behind what its file
-- holds, at once: one session writes a file, and nothing reads it before the stream is closed. The
-- hash function is a parameter.
pub mod Laws
pub mod Marks
pub mod Whole
mod Tests
use dist_build_sys.Base.{
  ℕ, ◌+◌, ◌%◌, ◌^◌, [], ◌∷◌, ◌++◌, Bool, true, false, not, ◌&&◌, ◌||◌, Option, none, some, Bytes,
  length, ◌==◌, ltb, bytes_eq, if◌then◌else◌,
}
use dist_build_sys.Base.Dict.{Dict, lookup, insert, try_emplace, contains}
use dist_build_sys.Messages.{ClientFileChunkUploadRequest}
use dist_build_sys.Server.Files.{Status, available, fault, FileStateView, update_file_state}

-- `FileTransferState`; the stream `file_out_stream` is the file `filename` of the store.
pub record FileTransferState : Type 0 where
  pub is_finished : Bool
  pub session_id : Bytes
  pub filename : Bytes
  pub last_seq_no : ℕ
  pub last_offset : ℕ

pub record Upload : Type 0 where
  pub file_states : Dict FileStateView
  pub transfers : Dict FileTransferState
  pub files : Dict Bytes

-- `return false`, `return true`, and `return true` after the file's last chunk.
pub data Outcome : Type 0 where
  rejected accepted completed : Outcome

-- The constructor of `FileTransferState`, which opens and so empties the file.
abbrev pub new_transfer : Bytes → Bytes → FileTransferState
new_transfer session_uuid server_file_name = record {
  is_finished = false;
  session_id = session_uuid;
  filename = server_file_name;
  last_seq_no = 0;
  last_offset = 0;
}

contents : Bytes → Dict Bytes → Bytes
contents name files = elim (lookup name files) [ some c ↦ c | none ↦ [] ]

-- `set_file_state`
set_file_state : Bytes → FileStateView → Status → Upload → Upload
set_file_state client_path file_state new_status u = record u {
  file_states =
      (update_file_state client_path (record file_state { file_status = new_status })
        u.file_states).0;
}

set_transfer : Bytes → FileTransferState → Upload → Upload
set_transfer name ts u = record u { transfers = insert name ts u.transfers }

-- `try_emplace` into `_file_transfer_states`: the constructor runs only for a new entry.
pub open_transfer : Bytes → Bytes → Upload → Upload
open_transfer session_uuid name u = if contains name u.transfers then u else record u {
  transfers = insert name (new_transfer session_uuid name) u.transfers;
  files = insert name [] u.files;
}

-- The guard of a chunk that belongs to the transfer.
pub in_order : Bytes → FileTransferState → ClientFileChunkUploadRequest → Bool
in_order session_uuid ts msg = not (
    not (bytes_eq ts.session_id session_uuid)
    || not (msg.sequence_no == (ts.last_seq_no + 1) % 2 ^ 64)
    || ltb msg.offset ts.last_offset)

module _ (sha1 : Bytes → Bytes) where
  -- After the last chunk: the size is checked; a wrong hash is noted and then written over.
  finish : ClientFileChunkUploadRequest → FileStateView → Bytes → Upload → Upload × Outcome
  finish msg file_state name u =
      let received = contents name u.files in
      let marked =
        if bytes_eq file_state.file_sha1 (sha1 received)
        then u
        else set_file_state msg.filename file_state fault u in
      if not (file_state.file_sz_bytes == length received)
      then (set_file_state msg.filename file_state fault u, rejected)
      else (set_file_state msg.filename file_state available marked, completed)

  -- The part behind `try_emplace`, with the transfer's entry.
  transfer_chunk :
      Bytes
      → ClientFileChunkUploadRequest
      → FileStateView
      → Bytes
      → FileTransferState
      → Upload
      → Upload × Outcome
  transfer_chunk session_uuid msg file_state name ts u =
      let next = record ts { last_offset = msg.offset; last_seq_no = msg.sequence_no } in
      let written = record u {
        files = insert name (contents name u.files ++ msg.chunk_data) u.files;
      } in
      if ts.is_finished
      then (u, accepted)
      else if not (in_order session_uuid ts msg)
      then (
        set_file_state msg.filename file_state fault
            (set_transfer name (record ts { is_finished = true }) u),
        rejected,
      )
      else if msg.is_last_chunk
      then finish msg file_state name
          (set_transfer name (record next { is_finished = true }) written)
      else (set_transfer name next written, accepted)

  with_transfer :
      Bytes
      → ClientFileChunkUploadRequest
      → FileStateView
      → Bytes
      → Option FileTransferState
      → Upload
      → Upload × Outcome
  with_transfer session_uuid msg file_state name none u = (u, rejected)
  with_transfer session_uuid msg file_state name (some ts) u =
      transfer_chunk session_uuid msg file_state name ts u

  known_file :
      Bytes → ClientFileChunkUploadRequest → Option FileStateView → Upload → Upload × Outcome
  known_file session_uuid msg none u = (u, rejected)
  known_file session_uuid msg (some file_state) u =
      let name = file_state.server_file_path in
      let opened = open_transfer session_uuid name u in
      if not (bytes_eq msg.session_id session_uuid)
      then (set_file_state msg.filename file_state fault u, rejected)
      else with_transfer session_uuid msg file_state name (lookup name opened.transfers) opened

  -- The chunk's way through the session with the given id.
  pub receive_chunk : Bytes → ClientFileChunkUploadRequest → Upload → Upload × Outcome
  receive_chunk session_uuid msg u =
      known_file session_uuid msg (lookup msg.filename u.file_states) u
