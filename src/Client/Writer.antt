-- ===== src/Client/Writer.antt =====
-- `send_msg` and `_writer_loop` of src/client_session.cpp. All of it runs on the session's strand, so one part
-- between two suspensions is one step. The first message of the queue stays there while it is written. `wire` is
-- what the socket has taken. A write that fails has taken a part of its message, and the connection is broken
-- from then on: every later write fails at once. `sent` records the calls of `send_msg`, by their texts.
pub mod Channel
pub mod Refines
pub mod Delivery
mod Tests
use dist_build_sys.Base.{
  ℕ, ◌<◌, ◌≡◌, List, [], ◌∷◌, ◌++◌, Bool, true, false, Bytes, length, take, is_empty, if◌then◌else◌,
}
use dist_build_sys.Framing.{frame}

-- Where the coroutine stands: there is none, at the test of the `while`, or in `async_write`.
pub data Loop : Type 0 where
  no_loop at_test writing : Loop

pub record Writer : Type 0 where
  pub write_queue : List Bytes
  pub write_in_progress : Bool
  pub loop : Loop
  pub broken : Bool
  pub wire : Bytes
  pub sent : List Bytes

abbrev pub new_writer : Writer
new_writer = record {
  write_queue = [];
  write_in_progress = false;
  loop = no_loop;
  broken = false;
  wire = [];
  sent = [];
}

-- `send_msg`, for the text that protobuf writes, and the function that it dispatches.
unfoldable pub send_msg : Bytes → Writer → Writer
send_msg msg_payload w =
    if w.write_in_progress
    then record {
      write_queue = w.write_queue ++ frame msg_payload ∷ [];
      write_in_progress = true;
      loop = w.loop;
      broken = w.broken;
      wire = w.wire;
      sent = w.sent ++ msg_payload ∷ [];
    }
    else record {
      write_queue = w.write_queue ++ frame msg_payload ∷ [];
      write_in_progress = true;
      loop = at_test;
      broken = w.broken;
      wire = w.wire;
      sent = w.sent ++ msg_payload ∷ [];
    }

-- The coroutine goes on at a point of its loop.
unfoldable pub go_to : Loop → Writer → Writer
go_to loop w = record {
  write_queue = w.write_queue;
  write_in_progress = w.write_in_progress;
  loop = loop;
  broken = w.broken;
  wire = w.wire;
  sent = w.sent;
}

-- What follows the `while` and the `catch`: a new coroutine if the queue is not empty.
unfoldable pub leave_loop : Writer → Writer
leave_loop w =
    if is_empty w.write_queue
    then record {
      write_queue = w.write_queue;
      write_in_progress = false;
      loop = no_loop;
      broken = w.broken;
      wire = w.wire;
      sent = w.sent;
    }
    else record {
      write_queue = w.write_queue;
      write_in_progress = true;
      loop = at_test;
      broken = w.broken;
      wire = w.wire;
      sent = w.sent;
    }

-- `async_write` has taken all of the message, which is popped.
unfoldable pub finish_write : Bytes → List Bytes → Writer → Writer
finish_write msg rest w = record {
  write_queue = rest;
  write_in_progress = w.write_in_progress;
  loop = at_test;
  broken = w.broken;
  wire = w.wire ++ msg;
  sent = w.sent;
}

-- The connection breaks once n bytes of the message are taken.
unfoldable pub break_wire : ℕ → Bytes → Writer → Writer
break_wire n msg w = record {
  write_queue = w.write_queue;
  write_in_progress = w.write_in_progress;
  loop = w.loop;
  broken = true;
  wire = w.wire ++ take n msg;
  sent = w.sent;
}

pub data Step (w : Writer) : Writer → Type 0 where
  sends : (msg_payload : Bytes) → Step w (send_msg msg_payload w)
  starts :
      (msg : Bytes) (rest : List Bytes)
      → w.loop ≡ at_test
      → w.write_queue ≡ msg ∷ rest
      → Step w (go_to writing w)
  wrote :
      (msg : Bytes) (rest : List Bytes)
      → w.loop ≡ writing
      → w.write_queue ≡ msg ∷ rest
      → w.broken ≡ false
      → Step w (finish_write msg rest w)
  breaks :
      (msg : Bytes) (rest : List Bytes) (n : ℕ)
      → w.loop ≡ writing
      → w.write_queue ≡ msg ∷ rest
      → w.broken ≡ false
      → n < length msg
      → Step w (leave_loop (break_wire n msg w))
  fails_again : w.loop ≡ writing → w.broken ≡ true → Step w (leave_loop w)
  ends : w.loop ≡ at_test → w.write_queue ≡ [] → Step w (leave_loop w)

pub data Reach (w : Writer) : Writer → Type 0 where
  here : Reach w w
  next : {v u : Writer} → Reach w v → Step v u → Reach w u
