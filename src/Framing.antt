-- ===== src/Framing.antt =====
-- `send_msg` of src/proto_io.cpp and `receive_msg` of src/proto_io.hpp: a message on the TCP stream is its
-- length in four bytes, most significant byte first, and its text. What protobuf writes for a message, and what
-- its parser leaves in the message object, are arguments; the parser's answer is not looked at. `none` is the
-- exception of a stream that ends early.
pub mod RoundTrip
mod Tests
use dist_build_sys.Base.{
  ℕ, zero, suc, ◌%◌, ◌^◌, List, [], ◌∷◌, ◌++◌, Option, none, some, Bytes, length, ◌>>=◌,
}
use dist_build_sys.Ipc.Manager.{append_u32, read_u32, read_exactly}

-- The buffer of `send_msg`; the length is cut to 32 bits.
unfoldable pub frame : Bytes → Bytes
frame payload = append_u32 [] (length payload % 2 ^ 32) ++ payload

module _ {ℓ} {M : Type ℓ} where
  -- What is in the stream once the write is done.
  unfoldable pub send_msg : (M → Bytes) → M → Bytes → Bytes
  send_msg serialize msg stream = stream ++ frame (serialize msg)

  -- The message, and what is left in the stream.
  unfoldable pub receive_msg : (Bytes → M) → Bytes → Option (M × Bytes)
  receive_msg parse stream = do
    (network_msg_sz, rest) ← read_exactly 4 stream
    host_msg_sz ← read_u32 network_msg_sz
    (msg_buffer, left) ← read_exactly host_msg_sz rest
    some (parse msg_buffer, left)

  -- Calls one after the other.
  unfoldable pub send_msgs : (M → Bytes) → List M → Bytes → Bytes
  send_msgs serialize [] stream = stream
  send_msgs serialize (msg ∷ msgs) stream = send_msgs serialize msgs (send_msg serialize msg stream)

  unfoldable pub receive_msgs : (Bytes → M) → ℕ → Bytes → Option (List M × Bytes)
  receive_msgs parse zero stream = some ([], stream)
  receive_msgs parse (suc n) stream = do
    (msg, rest) ← receive_msg parse stream
    (msgs, left) ← receive_msgs parse n rest
    some (msg ∷ msgs, left)
