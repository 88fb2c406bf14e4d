-- ===== src/Server/Writer/Wakeup.antt =====
-- No message stays behind in the queue.
use dist_build_sys.Base.{
  ◌≡◌, refl, sym, ap, ◌∙◌, List, [], ◌∷◌, ◌++◌, append_assoc, append-nil, Bool, true, false, ◌||◌,
  Bytes, is_empty, arith, Bool-cases, inl, inr,
}
use dist_build_sys.Server.Writer.{
  Loop, no_loop, at_test, writing, Writer, new_writer, enqueue, leave_loop, Step, send, pops, wrote,
  throws, ends, Reach, here, next,
}

unfoldable pub is_running : Loop → Bool
is_running no_loop = false
is_running at_test = true
is_running (writing msg) = true

-- The flag tells whether there is a loop; without one the queue is empty; what was taken and what is
-- queued is what was sent.
pub record IsSound (w : Writer) : Type 0 where
  pub flag : w.write_in_progress ≡ is_running w.loop
  pub drained : (is_running w.loop || is_empty w.write_queue) ≡ true
  pub order : w.taken ++ w.write_queue ≡ w.sent

emptied : (q : List Bytes) → is_empty q ≡ true → q ≡ []
emptied [] h = refl
emptied (x ∷ q) h = cc

enqueue-IsSound : (framed : Bytes) (w : Writer) → IsSound w → IsSound (enqueue framed w)
unfolding enqueue is_running
enqueue-IsSound framed w v =
    let order : w.taken ++ (w.write_queue ++ framed ∷ []) ≡ w.sent ++ framed ∷ [] =
      sym (append_assoc w.taken w.write_queue (framed ∷ [])) ∙ ap (λ q. q ++ framed ∷ []) v.order in
    elim (Bool-cases w.write_in_progress) [
      | inl e ↦
          let running : is_running w.loop ≡ true = sym v.flag ∙ e in
          rw e (record { flag = sym running; drained = rw running refl; order = order })
      | inr e ↦ rw e (record { flag = refl; drained = refl; order = order })
    ]

leave-IsSound : (w : Writer) → w.taken ++ w.write_queue ≡ w.sent → IsSound (leave_loop w)
unfolding leave_loop is_running
leave-IsSound w order = elim (Bool-cases (is_empty w.write_queue)) [
  | inl e ↦ rw e (record { flag = refl; drained = e; order = order })
  | inr e ↦ rw e (record { flag = refl; drained = refl; order = order })
]

Step-IsSound : {w u : Writer} → IsSound w → Step w u → IsSound u
unfolding is_running
Step-IsSound {w} v (send framed) = enqueue-IsSound framed w v
Step-IsSound {w} v (pops msg rest l q) = record {
  flag = v.flag ∙ ap is_running l;
  drained = refl;
  order = append_assoc w.taken (msg ∷ []) rest ∙ ap (◌++◌ w.taken) (sym q) ∙ v.order;
}
Step-IsSound {w} v (wrote msg l) = record {
  flag = v.flag ∙ ap is_running l;
  drained = refl;
  order = v.order;
}
Step-IsSound {w} v (throws msg l) = leave-IsSound w v.order
Step-IsSound {w} v (ends l q) = leave-IsSound w v.order

Reach-IsSound : {w u : Writer} → IsSound w → Reach w u → IsSound u
Reach-IsSound v here = v
Reach-IsSound v (next r s) = Step-IsSound (Reach-IsSound v r) s

start-IsSound : IsSound new_writer
unfolding is_running
start-IsSound = record { flag = refl; drained = refl; order = refl }

-- Whenever no writer loop runs, whatever calls and exceptions came before, every message that was sent
-- has been taken to be written, in the order in which they were sent: no message waits for a loop.
pub all_taken : {w : Writer} → Reach new_writer w → is_running w.loop ≡ false → w.taken ≡ w.sent
all_taken {w} r h =
    let v = Reach-IsSound start-IsSound r in
    let none_queued : w.write_queue ≡ [] = emptied w.write_queue (ground (arith, v.drained, h)) in
    sym (append-nil w.taken) ∙ ap (◌++◌ w.taken) (sym none_queued) ∙ v.order
