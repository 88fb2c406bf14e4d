-- ===== src/Client/SendFile.antt =====
-- `ClientSession::_send_required_file` of src/client_session.cpp. The client's files are a map from
-- path to content; a file that cannot be opened has no entry.
pub mod Loop
use dist_build_sys.Base.{
  ℕ, zero, suc, ◌+◌, ◌*◌, ◌%◌, ◌^◌, List, [], ◌∷◌, Bool, true, false, Option, none, some, Bytes,
  length, take, drop, is_empty, get_elem?, ltb, if◌then◌else◌, ◌>>=◌,
}
use dist_build_sys.Base.Dict.{Dict, lookup}
use dist_build_sys.Messages.{ClientFileChunkUploadRequest}

abbrev obj_chunk_sz : ℕ
obj_chunk_sz = 64 * 1024

abbrev pub chunk_message : Bytes → Bytes → ℕ → ℕ → Bytes → Bool → ClientFileChunkUploadRequest
chunk_message str_session_uuid required_file seq_no file_offset chunk is_last = record {
  session_id = str_session_uuid;
  filename = required_file;
  sequence_no = seq_no;
  offset = file_offset;
  chunk_data = chunk;
  is_last_chunk = is_last;
}

-- The loop over the file, for a buffer of `sz` bytes; `rest` is what is still to be read. A round
-- that reads nothing ends it. More fuel than bytes is enough.
pub read_loop : ℕ → ℕ → Bytes → Bytes → Bytes → ℕ → ℕ → List ClientFileChunkUploadRequest
read_loop sz zero sid name rest seq_no file_offset = []
read_loop sz (suc fuel) sid name rest seq_no file_offset =
    let chunk = take sz rest in
    let bytes_read = length chunk in
    let later =
      read_loop sz fuel sid name (drop sz rest) ((seq_no + 1) % 2 ^ 64)
        ((file_offset + bytes_read) % 2 ^ 64) in
    let message = chunk_message sid name seq_no file_offset chunk (ltb bytes_read sz) in
    if is_empty chunk then [] else message ∷ later

-- The messages for one file; an empty file takes one message with no data.
unfoldable pub file_messages : ℕ → Bytes → Bytes → Bytes → List ClientFileChunkUploadRequest
file_messages sz sid name content =
    if is_empty content
    then chunk_message sid name 1 0 [] true ∷ []
    else read_loop sz (suc (length content)) sid name content 1 0

-- The index of the next file, and the messages that are sent.
send_opened : Bytes → Bytes → Option Bytes → ℕ → ℕ × List ClientFileChunkUploadRequest
send_opened sid name none idx = (idx, [])
send_opened sid name (some content) idx = (idx + 1, file_messages obj_chunk_sz sid name content)

send_next : Bytes → Dict Bytes → Option Bytes → ℕ → ℕ × List ClientFileChunkUploadRequest
send_next sid files none idx = (idx, [])
send_next sid files (some name) idx = send_opened sid name (lookup name files) idx

unfoldable pub send_required_file :
    Bytes → Dict Bytes → List Bytes → ℕ → ℕ × List ClientFileChunkUploadRequest
unfolding send_next send_opened
send_required_file sid files required_files req_files_send_idx =
    send_next sid files (get_elem? required_files req_files_send_idx) req_files_send_idx
