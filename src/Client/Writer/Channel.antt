-- ===== src/Client/Writer/Channel.antt =====
-- What a session's writer promises: a channel that delivers the messages in the order in which they are put
-- into it, and that may break, after which nothing more is delivered.
use dist_build_sys.Base.{◌≡◌, List, [], ◌∷◌, ◌++◌, Bool, true, false, Bytes}

pub record Channel : Type 0 where
  pub waiting : List Bytes
  pub delivered : List Bytes
  pub closed : Bool

abbrev pub new_channel : Channel
new_channel = record { waiting = []; delivered = []; closed = false }

unfoldable pub put : Bytes → Channel → Channel
put msg c = record { waiting = c.waiting ++ msg ∷ []; delivered = c.delivered; closed = c.closed }

unfoldable pub deliver : Bytes → List Bytes → Channel → Channel
deliver msg rest c = record {
  waiting = rest;
  delivered = c.delivered ++ msg ∷ [];
  closed = c.closed;
}

unfoldable pub close : Channel → Channel
close c = record { waiting = c.waiting; delivered = c.delivered; closed = true }

-- A step of the writer that the channel does not see is `idles`.
pub data Act (c : Channel) : Channel → Type 0 where
  puts : (msg : Bytes) → Act c (put msg c)
  delivers :
      (msg : Bytes) (rest : List Bytes)
      → c.closed ≡ false
      → c.waiting ≡ msg ∷ rest
      → Act c (deliver msg rest c)
  closes : Act c (close c)
  idles : Act c c

pub data Acts (c : Channel) : Channel → Type 0 where
  none_yet : Acts c c
  then_act : {d e : Channel} → Acts c d → Act d e → Acts c e
