-- ===== src/Server/Upload/Laws.antt =====
-- One chunk at a time: what an accepted, a last and a refused chunk do to the three stores.
use dist_build_sys.Base.{
  ◌≢◌, ◌⊎◌, inl, inr, ◌<◌, ℕ, ◌+◌, ◌%◌, ◌^◌, ◌≤◌, ◌≡◌, ap, [], ◌++◌, Bool, true, false, none, some,
  Bytes, length, bytes_eq_refl, arith,
}
use dist_build_sys.Base.Dict.{lookup, insert, lookup-insert_self}
use dist_build_sys.Messages.{ClientFileChunkUploadRequest}
use dist_build_sys.Server.Files.{available, fault, FileStateView, update_file_state}
use dist_build_sys.Server.Upload.{
  FileTransferState, Upload, rejected, accepted, completed, new_transfer, contents, set_file_state,
  set_transfer, open_transfer, in_order, finish, transfer_chunk, with_transfer, known_file,
  receive_chunk,
}

-- A transfer under way: the file state that the client's path has, and what came in so far.
pub record Receiving (sid name : Bytes) (fs : FileStateView) (seq off : ℕ) (written : Bytes)
    (u : Upload) : Type 0 where
  pub known : lookup name u.file_states ≡ some fs
  pub started :
      lookup fs.server_file_path u.transfers
      ≡ some (record {
        is_finished = false;
        session_id = sid;
        filename = fs.server_file_path;
        last_seq_no = seq;
        last_offset = off;
      })
  pub stored : lookup fs.server_file_path u.files ≡ some written

-- A chunk of the session for the file that comes next.
pub record IsNext (sid name : Bytes) (seq off : ℕ) (msg : ClientFileChunkUploadRequest)
    : Type 0 where
  pub same_session : msg.session_id ≡ sid
  pub same_file : msg.filename ≡ name
  pub next_seq : msg.sequence_no ≡ (seq + 1) % 2 ^ 64
  pub ahead : off ≤ msg.offset

module _ (sha1 : Bytes → Bytes) (sid name : Bytes) (fs : FileStateView)
    (msg : ClientFileChunkUploadRequest) (u : Upload) where
  reaches_transfer :
      (ts : FileTransferState)
      → msg.session_id ≡ sid
      → msg.filename ≡ name
      → lookup name u.file_states ≡ some fs
      → lookup fs.server_file_path u.transfers ≡ some ts
      → receive_chunk sha1 sid msg u ≡ transfer_chunk sha1 sid msg fs fs.server_file_path ts u
  unfolding receive_chunk known_file with_transfer open_transfer
  reaches_transfer ts es en known started = ground (arith, bytes_eq_refl sid)

  -- The entry of a transfer under way.
  abbrev at : ℕ → ℕ → FileTransferState
  at seq off = record {
    is_finished = false;
    session_id = sid;
    filename = fs.server_file_path;
    last_seq_no = seq;
    last_offset = off;
  }

  in_order-IsNext :
      (seq off : ℕ) → IsNext sid name seq off msg → in_order sid (at seq off) msg ≡ true
  unfolding in_order
  in_order-IsNext seq off n = ground (arith, bytes_eq_refl sid)

  contents-stored :
      (written : Bytes)
      → lookup fs.server_file_path u.files ≡ some written
      → contents fs.server_file_path u.files ≡ written
  unfolding contents
  contents-stored written e = rw (e, contents)

  -- The stores after the next chunk.
  advanced : Bytes → Bool → Upload
  advanced written done = record u {
    files = insert fs.server_file_path (written ++ msg.chunk_data) u.files;
    transfers =
        insert fs.server_file_path (record (at msg.sequence_no msg.offset) { is_finished = done })
          u.transfers;
  }

  -- A chunk that is next and not the last is appended, and the transfer goes on behind it.
  pub step_accepted :
      (seq off : ℕ) (written : Bytes)
      → Receiving sid name fs seq off written u
      → IsNext sid name seq off msg
      → msg.is_last_chunk ≡ false
      → (u' : Upload) × (receive_chunk sha1 sid msg u ≡ (u', accepted))
        × Receiving sid name fs msg.sequence_no msg.offset (written ++ msg.chunk_data) u'
  unfolding transfer_chunk set_transfer advanced
  step_accepted seq off written r n l = (
    advanced written false,
    rw (
      reaches_transfer (at seq off) n.same_session n.same_file r.known r.started,
      transfer_chunk,
      in_order-IsNext seq off n,
      contents-stored written r.stored,
      l,
    ),
    record {
      known = r.known;
      started = lookup-insert_self _ _ _;
      stored = lookup-insert_self _ _ _;
    },
  )

  -- Completion of a file whose size is as announced.
  finish_available :
      (v : Upload) (got : Bytes)
      → msg.filename ≡ name
      → lookup name v.file_states ≡ some fs
      → contents fs.server_file_path v.files ≡ got
      → fs.file_sz_bytes ≡ length got
      → ((finish sha1 msg fs fs.server_file_path v).1 ≡ completed)
        × (lookup name (finish sha1 msg fs fs.server_file_path v).0.file_states
            ≡ some (record fs { file_status = available }))
        × ((finish sha1 msg fs fs.server_file_path v).0.files ≡ v.files)
  unfolding finish set_file_state update_file_state
  finish_available v got en known stored size =
      let marked = insert name (record fs { file_status = fault }) v.file_states in
      ground (
        arith,
        bytes_eq_refl name,
        lookup-insert_self name (record fs { file_status = fault }) v.file_states,
        lookup-insert_self name (record fs { file_status = available }) v.file_states,
        lookup-insert_self name (record fs { file_status = available }) marked,
      )

  -- The next chunk, if it is the last and the announced size is reached, makes the file available,
  -- whatever its hash is.
  pub step_completed :
      (seq off : ℕ) (written : Bytes)
      → Receiving sid name fs seq off written u
      → IsNext sid name seq off msg
      → msg.is_last_chunk ≡ true
      → fs.file_sz_bytes ≡ length (written ++ msg.chunk_data)
      → (u' : Upload) × (receive_chunk sha1 sid msg u ≡ (u', completed))
        × (lookup name u'.file_states ≡ some (record fs { file_status = available }))
        × (lookup fs.server_file_path u'.files ≡ some (written ++ msg.chunk_data))
  unfolding transfer_chunk set_transfer advanced contents finish
  step_completed seq off written r n l size =
      let v = advanced written true in
      let stored : lookup fs.server_file_path v.files ≡ some (written ++ msg.chunk_data) =
        lookup-insert_self _ _ _ in
      let (done, known, kept) =
        finish_available v (written ++ msg.chunk_data) n.same_file r.known (rw (stored, contents))
          size in
      (
        (finish sha1 msg fs fs.server_file_path v).0,
        rw
            (
              reaches_transfer (at seq off) n.same_session n.same_file r.known r.started,
              transfer_chunk,
              in_order-IsNext seq off n,
              contents-stored written r.stored,
              l,
            )
            (ap (λ o. ((finish sha1 msg fs fs.server_file_path v).0, o)) done),
        known,
        rw kept stored,
      )

  in_order-other :
      (seq off : ℕ)
      → (msg.sequence_no ≢ (seq + 1) % 2 ^ 64) ⊎ (msg.offset < off)
      → in_order sid (at seq off) msg ≡ false
  unfolding in_order
  in_order-other seq off (inl other) = ground (arith, bytes_eq_refl sid)
  in_order-other seq off (inr behind) = ground (arith, bytes_eq_refl sid)

  -- A chunk of the session for a transfer under way whose sequence number is not the next one, modulo 2^64, or
  -- whose offset is below that of the chunk before it is refused, and so is the file: its status is the fault, what came in stays as it was, and the transfer is over.
  pub step_rejected :
      (seq off : ℕ) (written : Bytes)
      → Receiving sid name fs seq off written u
      → msg.session_id ≡ sid
      → msg.filename ≡ name
      → (msg.sequence_no ≢ (seq + 1) % 2 ^ 64) ⊎ (msg.offset < off)
      → let r = receive_chunk sha1 sid msg u in
        (r.1 ≡ rejected)
        × (lookup name r.0.file_states ≡ some (record fs { file_status = fault }))
        × (lookup fs.server_file_path r.0.transfers
            ≡ some (record (at seq off) { is_finished = true }))
        × (r.0.files ≡ u.files)
  unfolding transfer_chunk set_transfer set_file_state update_file_state
  step_rejected seq off written r es en bad =
      rw
        (
          reaches_transfer (at seq off) es en r.known r.started,
          transfer_chunk,
          in_order-other seq off bad,
        )
        (ground (
          arith,
          r.known,
          bytes_eq_refl name,
          lookup-insert_self name (record fs { file_status = fault }) u.file_states,
          lookup-insert_self fs.server_file_path (record (at seq off) { is_finished = true })
              u.transfers,
        ))

  -- After a refusal, and after the end of the file, further chunks are accepted and dropped.
  pub step_finished :
      (ts : FileTransferState)
      → ts.is_finished ≡ true
      → msg.session_id ≡ sid
      → msg.filename ≡ name
      → lookup name u.file_states ≡ some fs
      → lookup fs.server_file_path u.transfers ≡ some ts
      → receive_chunk sha1 sid msg u ≡ (u, accepted)
  unfolding transfer_chunk
  step_finished ts done es en known started =
      rw (reaches_transfer ts es en known started, transfer_chunk, done)

  -- The first chunk of a file opens it empty, and then goes the way of a transfer under way.
  pub step_opened :
      msg.session_id ≡ sid
      → msg.filename ≡ name
      → lookup name u.file_states ≡ some fs
      → lookup fs.server_file_path u.transfers ≡ none
      → receive_chunk sha1 sid msg u
        ≡ receive_chunk sha1 sid msg (open_transfer sid fs.server_file_path u)
  unfolding receive_chunk known_file open_transfer
  step_opened es en known fresh = ground (
    arith,
    bytes_eq_refl sid,
    lookup-insert_self fs.server_file_path (new_transfer sid fs.server_file_path) u.transfers,
  )

pub open_transfer-Receiving :
    (sid name : Bytes) (fs : FileStateView) (u : Upload)
    → lookup name u.file_states ≡ some fs
    → lookup fs.server_file_path u.transfers ≡ none
    → Receiving sid name fs 0 0 [] (open_transfer sid fs.server_file_path u)
unfolding open_transfer
open_transfer-Receiving sid name fs u known fresh = record {
  known = ground arith;
  started = rw fresh (lookup-insert_self _ _ _);
  stored = rw fresh (lookup-insert_self _ _ _);
}

-- A chunk of a file that was never announced is refused, and nothing changes.
receive_unknown :
    (sha1 : Bytes → Bytes) (sid : Bytes) (msg : ClientFileChunkUploadRequest) (u : Upload)
    → lookup msg.filename u.file_states ≡ none
    → receive_chunk sha1 sid msg u ≡ (u, rejected)
unfolding receive_chunk known_file
receive_unknown sha1 sid msg u e = rw e
