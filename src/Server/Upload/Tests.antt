-- ===== src/Server/Upload/Tests.antt =====
-- Files on their way to the server, and the theorems at concrete files.
use dist_build_sys.Base.{
  inl, ℕ, ◌≡◌, refl, inr, [], ◌∷◌, true, false, some, Bytes, codes, bytes_eq, arith,
}
use dist_build_sys.Base.Dict.{lookup}
use dist_build_sys.Messages.{ClientFileChunkUploadRequest}
use dist_build_sys.Client.SendFile.{chunk_message, file_messages}
use dist_build_sys.Server.Files.{uploading, available, fault, FileStateView}
use dist_build_sys.Server.Upload.{Upload, rejected, accepted, completed, in_order, receive_chunk}
use dist_build_sys.Server.Upload.Laws.{Receiving, step_completed, step_rejected}
use dist_build_sys.Server.Upload.Whole.{
  receive_all, IsUploaded, IsPending, file_messages-IsUploaded, file_messages-IsPending,
}

abbrev a_path : Bytes
a_path = codes "/a.c"

abbrev a_state : ℕ → FileStateView
a_state sz = record {
  file_sz_bytes = sz;
  file_sha1 = codes "hash";
  file_status = uploading;
  up_start_time = 7;
  server_file_path = codes "/w/a.c";
}

abbrev fresh : ℕ → Upload
fresh sz = record { file_states = (a_path, a_state sz) ∷ []; transfers = []; files = [] }

file_messages-IsUploaded_example : IsUploaded a_path (codes "int a;") (a_state 6) (
    receive_all
      (λ s. s)
      (codes "s")
      (file_messages 4 (codes "s") a_path (codes "int a;"))
      (fresh 6, accepted))
unfolding lookup bytes_eq
file_messages-IsUploaded_example =
    file_messages-IsUploaded (λ s. s) 4 (codes "s") a_path (a_state 6) (codes "int a;") (fresh 6)
      (omega arith) (inr (omega arith)) (omega arith) refl refl refl

file_messages-IsPending_example : IsPending (codes "s") a_path (codes "int abc;") (a_state 8) (
    receive_all
      (λ s. s)
      (codes "s")
      (file_messages 4 (codes "s") a_path (codes "int abc;"))
      (fresh 8, accepted))
unfolding lookup bytes_eq
file_messages-IsPending_example =
    file_messages-IsPending (λ s. s) 4 (codes "s") a_path (a_state 8) 1 (codes "int abc;") (fresh 8)
      (omega arith) refl (omega arith) refl refl

abbrev half_way : Upload
half_way = record (fresh 6) {
  transfers =
      (
        codes "/w/a.c",
        record {
          is_finished = false;
          session_id = codes "s";
          filename = codes "/w/a.c";
          last_seq_no = 1;
          last_offset = 0;
        },
      )
      ∷ [];
  files = (codes "/w/a.c", codes "int ") ∷ [];
}

half_way-Receiving : Receiving (codes "s") a_path (a_state 6) 1 0 (codes "int ") half_way
unfolding lookup bytes_eq
half_way-Receiving = record { known = refl; started = refl; stored = refl }

abbrev last_message : ClientFileChunkUploadRequest
last_message = chunk_message (codes "s") a_path 2 4 (codes "a;") true

step_completed_example :
    (u' : Upload) × (receive_chunk (λ s. s) (codes "s") last_message half_way ≡ (u', completed))
    × (lookup a_path u'.file_states ≡ some (record (a_state 6) { file_status = available }))
    × (lookup (codes "/w/a.c") u'.files ≡ some (codes "int a;"))
step_completed_example =
    step_completed (λ s. s) (codes "s") a_path (a_state 6) last_message half_way 1 0 (codes "int ")
      half_way-Receiving
      (record { same_session = refl; same_file = refl; next_seq = refl; ahead = omega arith }) refl
      refl

step_rejected_example :
    let r = receive_chunk (λ s. s) (codes "s") (record last_message { sequence_no = 3 }) half_way in
    (r.1 ≡ rejected)
    × (lookup a_path r.0.file_states ≡ some (record (a_state 6) { file_status = fault }))
    × (lookup (codes "/w/a.c") r.0.transfers
        ≡ some (record {
          is_finished = true;
          session_id = codes "s";
          filename = codes "/w/a.c";
          last_seq_no = 1;
          last_offset = 0;
        }))
    × (r.0.files ≡ half_way.files)
unfolding in_order bytes_eq
step_rejected_example =
    step_rejected (λ s. s) (codes "s") a_path (a_state 6) (record last_message { sequence_no = 3 })
      half_way 1 0 (codes "int ") half_way-Receiving refl refl (inl (λ e. omega (arith, e)))
