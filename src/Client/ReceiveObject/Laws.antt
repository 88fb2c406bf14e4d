-- ===== src/Client/ReceiveObject/Laws.antt =====
-- One piece of the object file at a time.
use dist_build_sys.Base.{
  ◌≡◌, refl, ap, List, [], ◌∷◌, ◌++◌, true, false, some, Bytes, bytes_eq_refl, arith,
}
use dist_build_sys.Base.Dict.{lookup, lookup-insert_self}
use dist_build_sys.Ipc.{UnixIpcResponse}
use dist_build_sys.Messages.{ServerObjFileChunkResponse}
use dist_build_sys.Client.ReceiveObject.{
  ObjFileTransferState, ObjectReceiver, written, wrapper_response, complete_call, take_piece,
  with_transfer, process_obj_file_chunk,
}

-- A transfer under way into the file `name`, with what came in and what was published so far.
pub record Receiving (sid name got : Bytes) (out : List UnixIpcResponse) (r : ObjectReceiver)
    : Type 0 where
  pub session : r.session_uuid ≡ sid
  pub started :
      r.transfer ≡ some (record { is_finished = false; session_id = sid; filename = name })
  pub stored : lookup name r.files ≡ some got
  pub sent : r.published ≡ out

-- The object file is complete, and one response was published.
pub record IsReceived (sid name content : Bytes) (out : List UnixIpcResponse)
    (resp : UnixIpcResponse) (r : ObjectReceiver) : Type 0 where
  pub finished :
      r.transfer ≡ some (record { is_finished = true; session_id = sid; filename = name })
  pub stored : lookup name r.files ≡ some content
  pub answered : r.published ≡ out ++ resp ∷ []

module _ (sid name got : Bytes) (out : List UnixIpcResponse) (msg : ServerObjFileChunkResponse)
    (r : ObjectReceiver) where
  written-stored : lookup name r.files ≡ some got → written name r.files ≡ got
  unfolding written
  written-stored e = rw (e, written)

  abbrev at : ObjFileTransferState
  at = record { is_finished = false; session_id = sid; filename = name }

  reaches_piece :
      Receiving sid name got out r
      → msg.session_id ≡ sid
      → process_obj_file_chunk msg r ≡ take_piece msg at r
  unfolding process_obj_file_chunk with_transfer
  reaches_piece v e = ground (arith, bytes_eq_refl sid, v.session, v.started)

  pub step_goes_on :
      Receiving sid name got out r
      → msg.session_id ≡ sid
      → msg.is_last_chunk ≡ false
      → let p = process_obj_file_chunk msg r in
        (p.1 ≡ true) × Receiving sid name (got ++ msg.chunk_data) out p.0
  unfolding take_piece
  step_goes_on v e l =
      rw (reaches_piece v e, take_piece, l, written-stored v.stored, v.session, bytes_eq_refl sid)
        (
          refl,
          record {
            session = refl;
            started = v.started;
            stored = lookup-insert_self _ _ _;
            sent = v.sent;
          },
        )

  pub step_ends :
      Receiving sid name got out r
      → msg.session_id ≡ sid
      → msg.is_last_chunk ≡ true
      → let p = process_obj_file_chunk msg r in
        (p.1 ≡ true) × IsReceived sid name (got ++ msg.chunk_data) out (wrapper_response msg) p.0
  unfolding take_piece complete_call wrapper_response
  step_ends v e l =
      rw (reaches_piece v e, take_piece, l, written-stored v.stored, v.session, bytes_eq_refl sid)
        (
          refl,
          record {
            finished = refl;
            stored = lookup-insert_self _ _ _;
            answered = ap (λ o. o ++ wrapper_response msg ∷ []) v.sent;
          },
        )
