-- ===== src/Messages.antt =====
-- support/distbuild_messages.proto: the messages between client and server, as the program reads and
-- writes them. Integers of the wire are numbers; `none_set` is a message whose content is not set.
use dist_build_sys.Base.{ℕ, List, Bool, Bytes}
use dist_build_sys.Base.Int.{ℤ}

pub record FileInfo : Type 0 where
  pub filename : Bytes
  pub filesize : ℕ
  pub filehash : Bytes

pub record ClientSessionStartRequest : Type 0 where
  pub client_id : Bytes
  pub client_working_dir : Bytes
  pub client_source_file : Bytes
  pub client_compiler : Bytes
  pub client_cmd_line_args : List Bytes
  pub client_idirs : List Bytes
  pub required_files_info : List FileInfo

pub record ClientFileChunkUploadRequest : Type 0 where
  pub session_id : Bytes
  pub filename : Bytes
  pub sequence_no : ℕ
  pub offset : ℕ
  pub chunk_data : Bytes
  pub is_last_chunk : Bool

pub data ClientMessage : Type 0 where
  session_start : ClientSessionStartRequest → ClientMessage
  session_abort : Bytes → Bytes → ClientMessage
  file_chunk_upload : ClientFileChunkUploadRequest → ClientMessage
  none_set : ClientMessage

pub record ServerObjFileChunkResponse : Type 0 where
  pub session_id : Bytes
  pub compiler_exit_code : ℤ
  pub compiler_call_duration : ℤ
  pub compiler_stdout : Bytes
  pub compiler_stderr : Bytes
  pub filesize : ℕ
  pub is_last_chunk : Bool
  pub chunk_data : Bytes

pub data ServerMessage : Type 0 where
  session_confirmed : Bytes → List Bytes → ServerMessage
  session_abort : Bytes → ServerMessage
  file_up_complete : Bytes → Bytes → Bool → ServerMessage
  all_req_up_complete : Bytes → ServerMessage
  obj_file_chunk_transmit : ServerObjFileChunkResponse → ServerMessage
  none_set : ServerMessage
