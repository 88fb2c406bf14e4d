-- ===== src/Client/Writer/Refines.antt =====
-- The writer of src/client_session.cpp does what the channel promises, step by step.
use dist_build_sys.Base.{
  ℕ, ◌<◌, ◌≡◌, refl, sym, ap, ◌∙◌, inl, inr, List, [], ◌∷◌, ◌++◌, append_assoc, append-nil, map,
  flat_map, flat_map-append, Bool, true, false, Bytes, length, take, is_empty, Bool-cases,
}
use mathlib.Core.List.{map-append}
use dist_build_sys.Framing.{frame}
use dist_build_sys.Client.Writer.{
  Writer, new_writer, writing, send_msg, go_to, leave_loop, finish_write, break_wire, Step, sends,
  starts, wrote, breaks, fails_again, ends, Reach, here, next,
}
use dist_build_sys.Client.Writer.Channel.{
  Channel, new_channel, put, deliver, close, Act, puts, delivers, closes, idles, Acts, none_yet,
  then_act,
}

-- What the socket has taken of the message that is being written: nothing, or a part after which it broke.
pub data Cut (waiting : List Bytes) (broken : Bool) (partial : Bytes) : Type 0 where
  whole : broken ≡ false → partial ≡ [] → Cut waiting broken partial
  cut :
      (msg : Bytes) (rest : List Bytes) (n : ℕ)
      → broken ≡ true
      → waiting ≡ msg ∷ rest
      → n < length (frame msg)
      → partial ≡ take n (frame msg)
      → Cut waiting broken partial

-- The state of the channel that a writer's state stands for.
pub record Matches (w : Writer) (c : Channel) : Type 0 where
  pub waits : map frame c.waiting ≡ w.write_queue
  pub order : c.delivered ++ c.waiting ≡ w.sent
  pub same : c.closed ≡ w.broken
  pub partial : Bytes
  pub on_wire : w.wire ≡ flat_map frame c.delivered ++ partial
  pub cut_off : Cut c.waiting w.broken partial

-- What the step of a writer means for the channel.
record Simulated (c : Channel) (u : Writer) : Type 0 where
  after : Channel
  act : Act c after
  matches : Matches u after

go_to-Matches : (loop : _) (w : Writer) (c : Channel) → Matches w c → Matches (go_to loop w) c
unfolding go_to
go_to-Matches loop w c m = record {
  waits = m.waits;
  order = m.order;
  same = m.same;
  partial = m.partial;
  on_wire = m.on_wire;
  cut_off = m.cut_off;
}

leave_loop-Matches : (w : Writer) (c : Channel) → Matches w c → Matches (leave_loop w) c
unfolding leave_loop
leave_loop-Matches w c m = elim (Bool-cases (is_empty w.write_queue)) [
  | inl e ↦ rw e (record {
    waits = m.waits;
    order = m.order;
    same = m.same;
    partial = m.partial;
    on_wire = m.on_wire;
    cut_off = m.cut_off;
  })
  | inr e ↦ rw e (record {
    waits = m.waits;
    order = m.order;
    same = m.same;
    partial = m.partial;
    on_wire = m.on_wire;
    cut_off = m.cut_off;
  })
]

Cut-append :
    (waiting : List Bytes) (broken : Bool) (partial new : Bytes)
    → Cut waiting broken partial
    → Cut (waiting ++ new ∷ []) broken partial
Cut-append waiting broken partial new (whole open_yet nothing) = whole open_yet nothing
Cut-append waiting broken partial new (cut msg rest n closed first few part) =
    cut msg (rest ++ new ∷ []) n closed (ap (λ q. q ++ new ∷ []) first) few part

send_msg-Matches :
    (new : Bytes) (w : Writer) (c : Channel) → Matches w c → Matches (send_msg new w) (put new c)
unfolding send_msg put
send_msg-Matches new w c m =
    let waits : map frame (c.waiting ++ new ∷ []) ≡ w.write_queue ++ frame new ∷ [] =
      map-append frame c.waiting (new ∷ []) ∙ ap (λ q. q ++ frame new ∷ []) m.waits in
    let order : c.delivered ++ (c.waiting ++ new ∷ []) ≡ w.sent ++ new ∷ [] =
      sym (append_assoc c.delivered c.waiting (new ∷ [])) ∙ ap (λ q. q ++ new ∷ []) m.order in
    let cut_off = Cut-append c.waiting w.broken m.partial new m.cut_off in
    elim (Bool-cases w.write_in_progress) [
      | inl e ↦ rw e (record {
        waits = waits;
        order = order;
        same = m.same;
        partial = m.partial;
        on_wire = m.on_wire;
        cut_off = cut_off;
      })
      | inr e ↦ rw e (record {
        waits = waits;
        order = order;
        same = m.same;
        partial = m.partial;
        on_wire = m.on_wire;
        cut_off = cut_off;
      })
    ]

-- The message at the head of the queue is the frame of the first one that waits.
record Head (c : Channel) (msg : Bytes) (rest : List Bytes) : Type 0 where
  first : Bytes
  others : List Bytes
  split : c.waiting ≡ first ∷ others
  framed : frame first ≡ msg
  queued : map frame others ≡ rest

Head-of :
    (c : Channel) (msg : Bytes) (rest waiting : List Bytes)
    → c.waiting ≡ waiting
    → map frame waiting ≡ msg ∷ rest
    → Head c msg rest
Head-of c msg rest [] e h = absurd cc
Head-of c msg rest (p ∷ ps) e h = record {
  first = p;
  others = ps;
  split = e;
  framed = cc;
  queued = cc;
}

no_part : (waiting : List Bytes) (partial : Bytes) → Cut waiting false partial → partial ≡ []
no_part waiting partial (whole open_yet nothing) = nothing
no_part waiting partial (cut msg rest n closed first few part) = absurd cc

wire_of :
    (w : Writer) (c : Channel)
    → Matches w c
    → w.broken ≡ false
    → w.wire ≡ flat_map frame c.delivered
wire_of w c m intact =
    let nothing : m.partial ≡ [] = no_part c.waiting m.partial (rw (sym intact) m.cut_off) in
    m.on_wire
    ∙ ap (λ t. flat_map frame c.delivered ++ t) nothing
    ∙ append-nil (flat_map frame c.delivered)

finish_write-Simulated :
    (w : Writer) (c : Channel) (msg : Bytes) (rest : List Bytes)
    → Matches w c
    → w.write_queue ≡ msg ∷ rest
    → w.broken ≡ false
    → Simulated c (finish_write msg rest w)
unfolding finish_write deliver flat_map
finish_write-Simulated w c msg rest m queue intact =
    let h = Head-of c msg rest c.waiting refl (m.waits ∙ queue) in
    let before = wire_of w c m intact in
    let done = flat_map frame c.delivered in
    record {
      after = deliver h.first h.others c;
      act = delivers h.first h.others (m.same ∙ intact) h.split;
      matches = record {
        waits = h.queued;
        order =
            append_assoc c.delivered (h.first ∷ []) h.others
            ∙ ap (λ q. c.delivered ++ q) (sym h.split)
            ∙ m.order;
        same = m.same;
        partial = [];
        on_wire =
            ap (λ t. t ++ msg) before
            ∙ sym (append-nil (done ++ msg))
            ∙ ap (λ t. t ++ [])
                (ap (λ t. done ++ t) (sym h.framed ∙ sym (append-nil (frame h.first)))
                  ∙ sym (flat_map-append frame c.delivered (h.first ∷ [])));
        cut_off = whole intact refl;
      };
    }

break_wire-Matches :
    (w : Writer) (c : Channel) (msg : Bytes) (rest : List Bytes) (n : ℕ)
    → Matches w c
    → w.write_queue ≡ msg ∷ rest
    → w.broken ≡ false
    → n < length msg
    → Matches (break_wire n msg w) (close c)
unfolding break_wire close
break_wire-Matches w c msg rest n m queue intact few =
    let h = Head-of c msg rest c.waiting refl (m.waits ∙ queue) in
    record {
      waits = m.waits;
      order = m.order;
      same = refl;
      partial = take n msg;
      on_wire = ap (λ t. t ++ take n msg) (wire_of w c m intact);
      cut_off = cut h.first h.others n refl h.split (rw h.framed few) (rw h.framed);
    }

Step-Simulated : {w u : Writer} (c : Channel) → Matches w c → Step w u → Simulated c u
Step-Simulated {w} c m (sends new) = record {
  after = put new c;
  act = puts new;
  matches = send_msg-Matches new w c m;
}
Step-Simulated {w} c m (starts msg rest l q) = record {
  after = c;
  act = idles;
  matches = go_to-Matches writing w c m;
}
Step-Simulated {w} c m (wrote msg rest l q intact) = finish_write-Simulated w c msg rest m q intact
Step-Simulated {w} c m (breaks msg rest n l q intact few) = record {
  after = close c;
  act = closes;
  matches =
      leave_loop-Matches (break_wire n msg w) (close c)
        (break_wire-Matches w c msg rest n m q intact few);
}
Step-Simulated {w} c m (fails_again l broken) = record {
  after = c;
  act = idles;
  matches = leave_loop-Matches w c m;
}
Step-Simulated {w} c m (ends l q) = record {
  after = c;
  act = idles;
  matches = leave_loop-Matches w c m;
}

start-Matches : Matches new_writer new_channel
unfolding flat_map
start-Matches = record {
  waits = refl;
  order = refl;
  same = refl;
  partial = [];
  on_wire = refl;
  cut_off = whole refl refl;
}

-- The writer refines the channel. Whatever calls of `send_msg`, writes and failures of the socket led to a
-- state of the writer, the channel can come to a state that it stands for: the frames of the messages that wait
-- are the queue, what was delivered and what waits is what was sent, in order, the channel is closed exactly if
-- the connection is broken, and the bytes on the wire are the frames of what was delivered, followed by a part
-- of the next frame only if it is.
pub Reach-Matches :
    {w : Writer} → Reach new_writer w → (c : Channel) × Acts new_channel c × Matches w c
Reach-Matches here = (new_channel, none_yet, start-Matches)
Reach-Matches (next r s) =
    let (c, acts, m) = Reach-Matches r in
    let step = Step-Simulated c m s in (step.after, then_act acts step.act, step.matches)
