-- ===== src/Server/View/Loop.antt =====
-- The loop of `handle_server_session` of src/server_session.cpp over the bytes that come in from the client. It
-- runs on fuel: every round takes a frame. A stream that ends early throws, and the loop is left with the state
-- as it is. The rounds are numbered, and `clock` gives the time of each. `_terminated` is set by no other task.
use dist_build_sys.Base.{ℕ, zero, suc, List, [], ◌∷◌, Bool, true, false, Option, none, some, Bytes}
use dist_build_sys.Messages.{ClientMessage}
use dist_build_sys.Framing.{receive_msg}
use dist_build_sys.Server.View.{World, handle_message}

-- What follows a round.
unfoldable pub go_on : (World → Option World) → World × Bool → Option World
go_on next (w, true) = next w
go_on next (w, false) = some w

unfoldable pub go_on_all : (World → World) → World × Bool → World
go_on_all next (w, true) = next w
go_on_all next (w, false) = w

module _ (sha1 : Bytes → Bytes) (clock : ℕ → ℕ) (sid : Bytes) where
  unfoldable pub take_message :
      (Bytes → World → Option World) → ℕ → World → Option (ClientMessage × Bytes) → Option World
  take_message next round w none = some w
  take_message next round w (some (msg, rest)) =
      go_on (next rest) (handle_message sha1 sid (clock round) msg w)

  unfoldable pub handle_server_session :
      (Bytes → ClientMessage) → ℕ → ℕ → Bytes → World → Option World
  handle_server_session parse zero round stream w = none
  handle_server_session parse (suc fuel) round stream w =
      take_message (handle_server_session parse fuel (suc round)) round w (receive_msg parse stream)

  -- The same messages handed over one by one, until one of them ends the session.
  unfoldable pub handle_messages : ℕ → List ClientMessage → World → World
  handle_messages round [] w = w
  handle_messages round (msg ∷ msgs) w =
      go_on_all (handle_messages (suc round) msgs) (handle_message sha1 sid (clock round) msg w)
