-- ===== src/Client/Writer/Tests.antt =====
-- A message that is written, and a second one of which the socket takes two bytes.
use dist_build_sys.Base.{refl, [], codes, arith}
use dist_build_sys.Ipc.Manager.{append_u32}
use dist_build_sys.Framing.{frame}
use dist_build_sys.Client.Writer.{
  Writer, writing, new_writer, send_msg, go_to, leave_loop, finish_write, break_wire, Reach, sends,
  starts, wrote, breaks, ends, here, next,
}
use dist_build_sys.Client.Writer.Channel.{Channel, new_channel, Acts}
use dist_build_sys.Client.Writer.Refines.{Matches, Reach-Matches}

abbrev first_written : Writer
first_written =
    finish_write (frame (codes "m")) [] (go_to writing (send_msg (codes "m") new_writer))

first_written-Reach : Reach new_writer first_written
unfolding send_msg go_to finish_write
first_written-Reach =
    next (next (next here (sends (codes "m"))) (starts (frame (codes "m")) [] refl refl))
      (wrote (frame (codes "m")) [] refl refl refl)

abbrev at_rest : Writer
at_rest = leave_loop first_written

at_rest-Reach : Reach new_writer at_rest
unfolding send_msg go_to finish_write
at_rest-Reach = next first_written-Reach (ends refl refl)

abbrev half_written : Writer
half_written =
    leave_loop (break_wire 2 (frame (codes "n")) (go_to writing (send_msg (codes "n") at_rest)))

half_written-Reach : Reach new_writer half_written
unfolding send_msg go_to leave_loop finish_write frame append_u32
half_written-Reach =
    next (next (next at_rest-Reach (sends (codes "n"))) (starts (frame (codes "n")) [] refl refl))
      (breaks (frame (codes "n")) [] 2 refl refl refl (omega arith))

Reach-Matches_example : (c : Channel) × Acts new_channel c × Matches half_written c
Reach-Matches_example = Reach-Matches half_written-Reach
