-- ===== src/Server/Upload/Whole.antt =====
-- A whole file over the wire: the messages of the client's loop, taken in by the server one by one.
use dist_build_sys.Base.{
  ℕ, zero, suc, ◌+◌, ◌*◌, ◌%◌, ◌/◌, ◌^◌, ◌<◌, ◌≤◌, ◌≡◌, ◌⊎◌, inl, inr, refl, sym, ap, ◌∙◌, List, [],
  ◌∷◌, ◌++◌, append_assoc, append-nil, true, false, none, some, Bytes, length, take, drop, arith,
  length-drop, take-append-drop,
}
use native.Mathlib.Nat.{mod-lt, div-add-mod'}
use dist_build_sys.Base.Dict.{lookup}
use dist_build_sys.Messages.{ClientFileChunkUploadRequest}
use dist_build_sys.Client.SendFile.{chunk_message, read_loop, file_messages}
use dist_build_sys.Client.SendFile.Loop.{loop_step, loop_end, loop_full, loop_last}
use dist_build_sys.Server.Files.{available, FileStateView}
use dist_build_sys.Server.Upload.{
  Upload, Outcome, accepted, completed, open_transfer, receive_chunk,
}
use dist_build_sys.Server.Upload.Laws.{
  Receiving, IsNext, step_accepted, step_completed, step_opened, open_transfer-Receiving,
}

-- The server takes the messages in order; the outcome is that of the last.
pub receive_all :
    (Bytes → Bytes)
    → Bytes
    → List ClientFileChunkUploadRequest
    → Upload × Outcome
    → Upload × Outcome
receive_all sha1 sid [] r = r
receive_all sha1 sid (msg ∷ msgs) (u, o) = receive_all sha1 sid msgs (receive_chunk sha1 sid msg u)

-- The file is at the server as the client has it, and may be compiled.
pub record IsUploaded (name content : Bytes) (fs : FileStateView) (r : Upload × Outcome)
    : Type 0 where
  pub outcome : r.1 ≡ completed
  pub status : lookup name r.0.file_states ≡ some (record fs { file_status = available })
  pub stored : lookup fs.server_file_path r.0.files ≡ some content

-- All that was sent is at the server, and the transfer waits for more.
pub record IsPending (sid name content : Bytes) (fs : FileStateView) (r : Upload × Outcome)
    : Type 0 where
  pub outcome : r.1 ≡ accepted
  pub last_seq : ℕ
  pub last_off : ℕ
  pub pending : Receiving sid name fs last_seq last_off content r.0

module _ (sha1 : Bytes → Bytes) (sz : ℕ) (sid name : Bytes) (fs : FileStateView) where
  loop_uploads :
      (k left fuel : ℕ) (rest written : Bytes) (seq off prev : ℕ) (u : Upload) (o : Outcome)
      → 0 < left
      → left < sz
      → length rest ≡ k * sz + left
      → length rest < fuel
      → seq + length rest + 1 < 2 ^ 64
      → off + length rest < 2 ^ 64
      → fs.file_sz_bytes ≡ length (written ++ rest)
      → prev ≤ off
      → Receiving sid name fs seq prev written u
      → IsUploaded name
          (written ++ rest)
          fs
          (receive_all sha1 sid (read_loop sz fuel sid name rest (seq + 1) off) (u, o))
  unfolding receive_all
  loop_uploads zero left (suc fuel) rest written seq off prev u o h0 h1 hl hf hs ho size hp r =
      let msg = chunk_message sid name (seq + 1) off rest true in
      let next : IsNext sid name seq prev msg = record {
        same_session = refl;
        same_file = refl;
        next_seq = omega arith;
        ahead = hp;
      } in
      let (u', done, status, stored) =
        step_completed sha1 sid name fs msg u seq prev written r next refl size in
      rw (loop_last sz sid name fuel rest (seq + 1) off (omega arith) (omega arith), done)
        (record { outcome = refl; status = status; stored = stored })
  loop_uploads (suc k) left (suc fuel) rest written seq off prev u o h0 h1 hl hf hs ho size hp r =
      let msg = chunk_message sid name (seq + 1) off (take sz rest) false in
      let next : IsNext sid name seq prev msg = record {
        same_session = refl;
        same_file = refl;
        next_seq = omega arith;
        ahead = hp;
      } in
      let (u', done, r') = step_accepted sha1 sid name fs msg u seq prev written r next refl in
      let parts : (written ++ take sz rest) ++ drop sz rest ≡ written ++ rest =
        append_assoc written _ _ ∙ ap (◌++◌ written) (take-append-drop sz rest) in
      let fewer : length (drop sz rest) ≡ k * sz + left = omega (arith, length-drop sz rest) in
      rw
        (
          loop_full sz sid name fuel rest (seq + 1) off (omega arith) (omega arith) (omega arith)
              (omega arith),
          receive_all,
          done,
          ← parts,
        )
        (loop_uploads k left fuel (drop sz rest) (written ++ take sz rest) (seq + 1) (off + sz) off
          u' accepted h0 h1 fewer (omega arith) (omega arith) (omega arith)
          (size ∙ ap length (sym parts)) (omega arith) r')
  loop_uploads k left zero rest written seq off prev u o h0 h1 hl hf hs ho size hp r =
      absurd (omega arith)

  -- As many bytes as fill the buffers exactly: every message is accepted, none ends the transfer.
  loop_stalls :
      (k fuel : ℕ) (rest written : Bytes) (seq off prev : ℕ) (u : Upload)
      → 0 < sz
      → length rest ≡ k * sz
      → length rest < fuel
      → seq + length rest + 1 < 2 ^ 64
      → off + length rest < 2 ^ 64
      → prev ≤ off
      → Receiving sid name fs seq prev written u
      → IsPending sid name
          (written ++ rest)
          fs
          (receive_all sha1 sid (read_loop sz fuel sid name rest (seq + 1) off) (u, accepted))
  unfolding receive_all
  loop_stalls zero fuel [] written seq off prev u h0 hl hf hs ho hp r =
      rw (loop_end sz sid name fuel (seq + 1) off, append-nil written)
        (record { outcome = refl; last_seq = seq; last_off = prev; pending = r })
  loop_stalls zero fuel (x ∷ rest) written seq off prev u h0 hl hf hs ho hp r = absurd (omega arith)
  loop_stalls (suc k) zero rest written seq off prev u h0 hl hf hs ho hp r = absurd (omega arith)
  loop_stalls (suc k) (suc fuel) rest written seq off prev u h0 hl hf hs ho hp r =
      let msg = chunk_message sid name (seq + 1) off (take sz rest) false in
      let next : IsNext sid name seq prev msg = record {
        same_session = refl;
        same_file = refl;
        next_seq = omega arith;
        ahead = hp;
      } in
      let (u', done, r') = step_accepted sha1 sid name fs msg u seq prev written r next refl in
      let parts : (written ++ take sz rest) ++ drop sz rest ≡ written ++ rest =
        append_assoc written _ _ ∙ ap (◌++◌ written) (take-append-drop sz rest) in
      let fewer : length (drop sz rest) ≡ k * sz = omega (arith, length-drop sz rest) in
      rw
        (
          loop_full sz sid name fuel rest (seq + 1) off h0 (omega arith) (omega arith)
              (omega arith),
          receive_all,
          done,
          ← parts,
        )
        (loop_stalls k fuel (drop sz rest) (written ++ take sz rest) (seq + 1) (off + sz) off u' h0
          fewer (omega arith) (omega arith) (omega arith) (omega arith) r')

  -- The first message of a file opens the transfer.
  receive_all_opened :
      (msg : ClientFileChunkUploadRequest) (msgs : List ClientFileChunkUploadRequest) (u : Upload)
      (o : Outcome)
      → msg.session_id ≡ sid
      → msg.filename ≡ name
      → lookup name u.file_states ≡ some fs
      → lookup fs.server_file_path u.transfers ≡ none
      → receive_all sha1 sid (msg ∷ msgs) (u, o)
        ≡ receive_all sha1 sid (msg ∷ msgs) (open_transfer sid fs.server_file_path u, o)
  unfolding receive_all
  receive_all_opened msg msgs u o es en known fresh =
      rw (step_opened sha1 sid name fs msg u es en known fresh)

  loop_opened :
      (fuel : ℕ) (rest : Bytes) (u : Upload) (o : Outcome)
      → 0 < sz
      → 0 < length rest
      → lookup name u.file_states ≡ some fs
      → lookup fs.server_file_path u.transfers ≡ none
      → receive_all sha1 sid (read_loop sz (suc fuel) sid name rest 1 0) (u, o)
        ≡ receive_all sha1 sid
            (read_loop sz (suc fuel) sid name rest 1 0)
            (open_transfer sid fs.server_file_path u, o)
  loop_opened fuel rest u o hsz h known fresh =
      rw (loop_step sz sid name fuel rest 1 0 hsz h)
        (receive_all_opened _ _ u o refl refl known fresh)

  -- A file whose size is not a multiple of the buffer's, or which is empty, arrives whole: the last
  -- message completes it, its content at the server is the client's, and its status is available.
  -- The file must be announced with its true size, new to the session, and its size plus one
  -- below 2^64; the buffer must not be empty.
  pub file_messages-IsUploaded :
      (content : Bytes) (u : Upload)
      → 0 < sz
      → (content ≡ []) ⊎ (0 < length content % sz)
      → length content + 1 < 2 ^ 64
      → fs.file_sz_bytes ≡ length content
      → lookup name u.file_states ≡ some fs
      → lookup fs.server_file_path u.transfers ≡ none
      → IsUploaded name content fs
          (receive_all sha1 sid (file_messages sz sid name content) (u, accepted))
  unfolding file_messages receive_all
  file_messages-IsUploaded [] u hsz how fits size known fresh =
      let msg = chunk_message sid name 1 0 [] true in
      let next : IsNext sid name 0 0 msg = record {
        same_session = refl;
        same_file = refl;
        next_seq = refl;
        ahead = omega arith;
      } in
      let r = open_transfer-Receiving sid name fs u known fresh in
      let (u', done, status, stored) =
        step_completed sha1 sid name fs msg (open_transfer sid fs.server_file_path u) 0 0 [] r next
          refl size in
      rw (step_opened sha1 sid name fs msg u refl refl known fresh, done)
        (record { outcome = refl; status = status; stored = stored })
  file_messages-IsUploaded (x ∷ content) u hsz (inl e) fits size known fresh = cc
  file_messages-IsUploaded (x ∷ content) u hsz (inr h) fits size known fresh =
      rw (loop_opened (suc (length content)) (x ∷ content) u accepted hsz (omega arith) known fresh)
        (loop_uploads (suc (length content) / sz) (suc (length content) % sz)
          (suc (suc (length content))) (x ∷ content) [] 0 0 0 _ accepted h
          (mod-lt (suc (length content)) hsz) (sym (div-add-mod' (suc (length content)) sz))
          (omega arith) (omega arith) (omega arith) size (omega arith)
          (open_transfer-Receiving sid name fs u known fresh))

  -- A file of one or more full buffers and nothing behind them never completes: all messages are
  -- accepted, the content is at the server, but the transfer stays open and the status what it was.
  pub file_messages-IsPending :
      (k : ℕ) (content : Bytes) (u : Upload)
      → 0 < sz
      → length content ≡ suc k * sz
      → length content + 1 < 2 ^ 64
      → lookup name u.file_states ≡ some fs
      → lookup fs.server_file_path u.transfers ≡ none
      → IsPending sid name content fs
          (receive_all sha1 sid (file_messages sz sid name content) (u, accepted))
  unfolding file_messages
  file_messages-IsPending k [] u hsz full fits known fresh = absurd (omega arith)
  file_messages-IsPending k (x ∷ content) u hsz full fits known fresh =
      rw (loop_opened (suc (length content)) (x ∷ content) u accepted hsz (omega arith) known fresh)
        (loop_stalls (suc k) (suc (suc (length content))) (x ∷ content) [] 0 0 0 _ hsz full
          (omega arith) (omega arith) (omega arith) (omega arith)
          (open_transfer-Receiving sid name fs u known fresh))
