-- ===== src/Client/Writer/Delivery.antt =====
-- What the server can read of the bytes that the writer of src/client_session.cpp puts on the wire.
use dist_build_sys.Base.{
  ◌≡◌, refl, sym, ap, ◌∙◌, inl, inr, List, [], ◌∷◌, ◌++◌, map, flat_map, Bool, true, false, ◌||◌,
  none, Bytes, All, is_empty, Bool-cases,
}
use dist_build_sys.Ipc.Codec.{Fits}
use dist_build_sys.Ipc.Manager.{read_exactly}
use dist_build_sys.Framing.{frame, receive_msg}
use dist_build_sys.Framing.RoundTrip.{receive_msg-take}
use dist_build_sys.Client.Writer.{
  Loop, no_loop, at_test, writing, Writer, new_writer, send_msg, go_to, leave_loop, finish_write,
  break_wire, Step, sends, starts, wrote, breaks, fails_again, ends, Reach, here, next,
}
use dist_build_sys.Client.Writer.Refines.{Cut, whole, cut, Reach-Matches}

All-left {ℓ κ} : {A : Type ℓ} (P : A → Type κ) (xs ys : List A) → All P (xs ++ ys) → All P xs
All-left P [] ys h = tt
All-left P (x ∷ xs) ys h = (h.0, All-left P xs ys h.1)

All-right {ℓ κ} : {A : Type ℓ} (P : A → Type κ) (xs ys : List A) → All P (xs ++ ys) → All P ys
All-right P [] ys h = h
All-right P (x ∷ xs) ys h = All-right P xs ys h.1

head-Fits :
    (msg : Bytes) (waiting rest : List Bytes) → All Fits waiting → waiting ≡ msg ∷ rest → Fits msg
head-Fits msg [] rest fits e = absurd cc
head-Fits msg (p ∷ ps) rest fits e = let e' : p ≡ msg = cc in rw (sym e') fits.0

unfoldable pub is_running : Loop → Bool
is_running no_loop = false
is_running at_test = true
is_running writing = true

-- The flag tells whether there is a loop, and without one the queue is empty.
record IsAwake (w : Writer) : Type 0 where
  flag : w.write_in_progress ≡ is_running w.loop
  drained : (is_running w.loop || is_empty w.write_queue) ≡ true

leave_loop-IsAwake : (w : Writer) → IsAwake (leave_loop w)
unfolding leave_loop is_running
leave_loop-IsAwake w = elim (Bool-cases (is_empty w.write_queue)) [
  | inl e ↦ rw e (record { flag = refl; drained = e })
  | inr e ↦ rw e (record { flag = refl; drained = refl })
]

send_msg-IsAwake : (new : Bytes) (w : Writer) → IsAwake w → IsAwake (send_msg new w)
unfolding send_msg is_running
send_msg-IsAwake new w v = elim (Bool-cases w.write_in_progress) [
  | inl e ↦
      let running : is_running w.loop ≡ true = sym v.flag ∙ e in
      rw e (record { flag = sym running; drained = rw running refl })
  | inr e ↦ rw e (record { flag = refl; drained = refl })
]

Step-IsAwake : {w u : Writer} → IsAwake w → Step w u → IsAwake u
unfolding is_running go_to finish_write
Step-IsAwake {w} v (sends new) = send_msg-IsAwake new w v
Step-IsAwake {w} v (starts msg rest l q) = record {
  flag = v.flag ∙ ap is_running l;
  drained = refl;
}
Step-IsAwake {w} v (wrote msg rest l q intact) = record {
  flag = v.flag ∙ ap is_running l;
  drained = refl;
}
Step-IsAwake {w} v (breaks msg rest n l q intact few) = leave_loop-IsAwake (break_wire n msg w)
Step-IsAwake {w} v (fails_again l broken) = leave_loop-IsAwake w
Step-IsAwake {w} v (ends l q) = leave_loop-IsAwake w

Reach-IsAwake : {w : Writer} → Reach new_writer w → IsAwake w
unfolding is_running
Reach-IsAwake here = record { flag = refl; drained = refl }
Reach-IsAwake (next r s) = Step-IsAwake (Reach-IsAwake r) s

module _ {M : Type 0} (parse : Bytes → M) where
  receive_msg-empty : receive_msg parse [] ≡ none
  unfolding receive_msg read_exactly
  receive_msg-empty = refl

  -- Of what the socket has taken of a message that it did not take whole, nothing is received.
  receive_msg-Cut :
      (waiting : List Bytes) (broken : Bool) (partial : Bytes)
      → All Fits waiting
      → Cut waiting broken partial
      → receive_msg parse partial ≡ none
  receive_msg-Cut waiting broken partial fits (whole open_yet nothing) =
      rw nothing receive_msg-empty
  receive_msg-Cut waiting broken partial fits (cut msg rest n closed first few part) =
      rw part (receive_msg-take parse msg n (head-Fits msg waiting rest fits first) few)

  -- What is on the wire: the frames of what was delivered, and of the rest nothing that is received.
  pub record OnWire (w : Writer) : Type 0 where
    pub delivered : List Bytes
    pub waiting : List Bytes
    pub partial : Bytes
    pub order : delivered ++ waiting ≡ w.sent
    pub fits : All Fits delivered
    pub on_wire : w.wire ≡ flat_map frame delivered ++ partial
    pub incomplete : receive_msg parse partial ≡ none
    pub drained : (is_running w.loop || is_empty waiting) ≡ true

  is_empty-waits :
      (waiting queue : List Bytes) → map frame waiting ≡ queue → is_empty waiting ≡ is_empty queue
  is_empty-waits [] queue e = ap is_empty e
  is_empty-waits (p ∷ ps) queue e = ap is_empty e

  pub Reach-OnWire : {w : Writer} → Reach new_writer w → All Fits w.sent → OnWire w
  Reach-OnWire {w} r fits =
      let (c, acts, m) = Reach-Matches r in
      let all_fit : All Fits (c.delivered ++ c.waiting) = rw m.order fits in
      record {
        delivered = c.delivered;
        waiting = c.waiting;
        partial = m.partial;
        order = m.order;
        fits = All-left Fits c.delivered c.waiting all_fit;
        on_wire = m.on_wire;
        incomplete =
            receive_msg-Cut c.waiting w.broken m.partial
              (All-right Fits c.delivered c.waiting all_fit) m.cut_off;
        drained = rw (is_empty-waits c.waiting w.write_queue m.waits) (Reach-IsAwake r).drained;
      }
