-- ===== src/Server/Writer.antt =====
-- `send_msg` and `_writer_loop` of src/server_session.cpp: the queue of framed messages of a session. All
-- of it runs on the session's strand, so one part between two suspensions is one step; the write to the
-- socket is suspended. `sent` and `taken` record what `send_msg` got and what the loop popped.
pub mod Wakeup
mod Tests
use dist_build_sys.Base.{
  ◌≡◌, List, [], ◌∷◌, ◌++◌, Bool, true, false, Bytes, is_empty, if◌then◌else◌,
}

-- Where the coroutine stands: there is none, at the test of the `while`, or in `async_write`.
pub data Loop : Type 0 where
  no_loop at_test : Loop
  writing : Bytes → Loop

pub record Writer : Type 0 where
  pub write_queue : List Bytes
  pub write_in_progress : Bool
  pub loop : Loop
  pub sent : List Bytes
  pub taken : List Bytes

abbrev pub new_writer : Writer
new_writer = record {
  write_queue = [];
  write_in_progress = false;
  loop = no_loop;
  sent = [];
  taken = [];
}

-- The function that `send_msg` dispatches.
pub enqueue : Bytes → Writer → Writer
enqueue framed w =
    let pushed = record w {
      write_queue = w.write_queue ++ framed ∷ [];
      sent = w.sent ++ framed ∷ [];
    } in
    if w.write_in_progress
    then pushed
    else record pushed { write_in_progress = true; loop = at_test }

-- What follows the `while` and the `catch`.
pub leave_loop : Writer → Writer
leave_loop w =
    if is_empty w.write_queue
    then record w { write_in_progress = false; loop = no_loop }
    else record w { write_in_progress = true; loop = at_test }

pub data Step (w : Writer) : Writer → Type 0 where
  send : (framed : Bytes) → Step w (enqueue framed w)
  pops :
      (msg : Bytes) (rest : List Bytes)
      → w.loop ≡ at_test
      → w.write_queue ≡ msg ∷ rest
      → Step w (record w { write_queue = rest; loop = writing msg; taken = w.taken ++ msg ∷ [] })
  wrote : (msg : Bytes) → w.loop ≡ writing msg → Step w (record w { loop = at_test })
  throws : (msg : Bytes) → w.loop ≡ writing msg → Step w (leave_loop w)
  ends : w.loop ≡ at_test → w.write_queue ≡ [] → Step w (leave_loop w)

pub data Reach (w : Writer) : Writer → Type 0 where
  here : Reach w w
  next : {v u : Writer} → Reach w v → Step v u → Reach w u
