-- ===== src/Transport/Tests.antt =====
-- A chunk that is written whole, and an abort of which the socket takes two bytes.
use dist_build_sys.Base.{ℕ, ◌≡◌, refl, [], ◌∷◌, ◌||◌, ◌==◌, true, some, Bytes, codes, take, arith}
use dist_build_sys.Messages.{ClientMessage}
use dist_build_sys.Ipc.Manager.{append_u32}
use dist_build_sys.Framing.{frame}
use dist_build_sys.Compiler.{new_manager}
use dist_build_sys.Client.Writer.{
  Writer, writing, new_writer, send_msg, go_to, leave_loop, finish_write, break_wire, Reach, sends,
  starts, wrote, breaks, here, next,
}
use dist_build_sys.Client.Writer.Delivery.{is_running}
use dist_build_sys.Server.Connect.{new_client_view}
use dist_build_sys.Server.View.{World}
use dist_build_sys.Server.View.Loop.{handle_server_session, handle_messages}
use dist_build_sys.Transport.{handle_server_session-wire}

abbrev chunk_of : Bytes → ClientMessage
chunk_of text = ClientMessage.file_chunk_upload (record {
  session_id = codes "u";
  filename = codes "/a";
  sequence_no = 0;
  offset = 0;
  chunk_data = text;
  is_last_chunk = true;
})

abbrev abort : ClientMessage
abort = ClientMessage.session_abort (codes "u") (codes "id")

-- A way to write these two messages and to read them back.
abbrev serialize : ClientMessage → Bytes
serialize (ClientMessage.session_start start) = []
serialize (ClientMessage.session_abort session_id client_id) = []
serialize (ClientMessage.file_chunk_upload msg) = msg.chunk_data
serialize ClientMessage.none_set = []

abbrev parse : Bytes → ClientMessage
parse [] = abort
parse (c ∷ text) = chunk_of (c ∷ text)

abbrev text : Bytes
text = codes "x"

abbrev first_written : Writer
first_written =
    finish_write (frame text) (frame [] ∷ [])
      (go_to writing (send_msg [] (send_msg text new_writer)))

first_written-Reach : Reach new_writer first_written
unfolding send_msg go_to finish_write
first_written-Reach =
    next
      (next (next (next here (sends text)) (sends []))
        (starts (frame text) (frame [] ∷ []) refl refl))
      (wrote (frame text) (frame [] ∷ []) refl refl refl)

abbrev half_written : Writer
half_written = leave_loop (break_wire 2 (frame []) (go_to writing first_written))

half_written-Reach : Reach new_writer half_written
unfolding send_msg go_to leave_loop finish_write frame append_u32
half_written-Reach =
    next (next first_written-Reach (starts (frame []) [] refl refl))
      (breaks (frame []) [] 2 refl refl refl (omega arith))

half_written-texts : text ∷ [] ∷ [] ≡ half_written.sent
unfolding send_msg go_to leave_loop finish_write break_wire
half_written-texts = refl

abbrev world : World
world = record {
  view = new_client_view 0 (codes "id") (codes "/w");
  manager = new_manager 2;
  files = [];
  sent = [];
}

handle_server_session-wire_example :
    (n : ℕ) × (handle_server_session
        (λ content. content)
        (λ round. round)
        (codes "u")
        parse
        3
        0
        half_written.wire
        world
      ≡ some (
          handle_messages
            (λ content. content)
            (λ round. round)
            (codes "u")
            0
            (take n (chunk_of text ∷ abort ∷ []))
            world))
    × ((is_running half_written.loop || n == 2) ≡ true)
handle_server_session-wire_example =
    handle_server_session-wire (λ content. content) (λ round. round) (codes "u") parse serialize
      (chunk_of text ∷ abort ∷ []) (refl, (refl, tt)) (omega arith, (omega arith, tt))
      half_written-Reach half_written-texts 3 (omega arith) world
