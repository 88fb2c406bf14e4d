-- ===== src/Server/Writer/Tests.antt =====
-- Two messages, of which the second one meets an exception.
use dist_build_sys.Base.{◌≡◌, refl, [], ◌∷◌, ◌++◌, false, codes}
use dist_build_sys.Server.Writer.{
  Writer, writing, at_test, new_writer, enqueue, leave_loop, Reach, send, pops, wrote, throws, here,
  next,
}
use dist_build_sys.Server.Writer.Wakeup.{is_running, all_taken}

abbrev two_sent : Writer
two_sent = enqueue (codes "n") (enqueue (codes "m") new_writer)

abbrev one_written : Writer
one_written = record two_sent {
  write_queue = codes "n" ∷ [];
  loop = at_test;
  taken = codes "m" ∷ [];
}

abbrev second_taken : Writer
second_taken = record one_written {
  write_queue = [];
  loop = writing (codes "n");
  taken = (codes "m" ∷ []) ++ codes "n" ∷ [];
}

stopped-Reach : Reach new_writer (leave_loop second_taken)
unfolding enqueue leave_loop
stopped-Reach =
    next
      (next
        (next
          (next (next (next here (send (codes "m"))) (send (codes "n")))
            (pops (codes "m") (codes "n" ∷ []) refl refl))
          (wrote (codes "m") refl))
        (pops (codes "n") [] refl refl))
      (throws (codes "n") refl)

at_rest : is_running (leave_loop second_taken).loop ≡ false
unfolding is_running leave_loop enqueue
at_rest = refl

all_taken_example : (leave_loop second_taken).taken ≡ (leave_loop second_taken).sent
all_taken_example = all_taken stopped-Reach at_rest
