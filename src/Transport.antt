-- ===== src/Transport.antt =====
-- The client's writer, src/client_session.cpp, and the server's loop, src/server_session.cpp, at the two ends of one
-- connection.
mod Tests
use dist_build_sys.Base.{
  ℕ, zero, suc, ◌<◌, ◌≤◌, is_empty, ◌≡◌, refl, sym, ap, ap₂, ◌∙◌, List, [], ◌∷◌, ◌++◌, append_assoc,
  map, flat_map, Bool, true, false, Option, none, some, Bytes, length, take, ◌||◌, ◌==◌, All, arith,
}
use dist_build_sys.Messages.{ClientMessage}
use dist_build_sys.Ipc.Codec.{Fits}
use dist_build_sys.Framing.{frame, receive_msg}
use dist_build_sys.Framing.RoundTrip.{receive_msg-frame}
use dist_build_sys.Client.Writer.{Writer, new_writer, Reach}
use dist_build_sys.Client.Writer.Delivery.{is_running, OnWire, Reach-OnWire}
use dist_build_sys.Server.View.{World, handle_message}
use dist_build_sys.Server.View.Loop.{
  go_on, go_on_all, take_message, handle_server_session, handle_messages,
}

go_on-go_on_all :
    (next : World → Option World) (next_all : World → World)
    → ((v : World) → next v ≡ some (next_all v))
    → (r : World × Bool) → go_on next r ≡ some (go_on_all next_all r)
unfolding go_on go_on_all
go_on-go_on_all next next_all agree (v, true) = agree v
go_on-go_on_all next next_all agree (v, false) = refl

module _ (sha1 : Bytes → Bytes) (clock : ℕ → ℕ) (sid : Bytes) (parse : Bytes → ClientMessage) where
  -- A stream of frames with something behind them that is no frame.
  handle_frames :
      (fuel round : ℕ) (payloads : List Bytes) (partial : Bytes) (w : World)
      → length payloads < fuel
      → All Fits payloads
      → receive_msg parse partial ≡ none
      → handle_server_session sha1 clock sid parse fuel round (flat_map frame payloads ++ partial) w
        ≡ some (handle_messages sha1 clock sid round (map parse payloads) w)
  unfolding handle_server_session handle_messages take_message flat_map
  handle_frames zero round payloads partial w enough fits nothing = absurd (omega arith)
  handle_frames (suc fuel) round [] partial w enough fits nothing = rw nothing
  handle_frames (suc fuel) round (p ∷ ps) partial w enough fits nothing =
      rw
        (
          append_assoc (frame p) (flat_map frame ps) partial,
          receive_msg-frame parse p (flat_map frame ps ++ partial) fits.0,
        )
        (go_on-go_on_all
          (handle_server_session sha1 clock sid parse fuel (suc round)
            (flat_map frame ps ++ partial))
          (handle_messages sha1 clock sid (suc round) (map parse ps))
          (λ v. handle_frames fuel (suc round) ps partial v (omega arith) fits.1 nothing)
          (handle_message sha1 sid (clock round) (parse p) w))

parsed_part :
    (parse : Bytes → ClientMessage) (serialize : ClientMessage → Bytes)
    → (delivered waiting : List Bytes) (msgs : List ClientMessage)
    → All (λ msg. parse (serialize msg) ≡ msg) msgs
    → delivered ++ waiting ≡ map serialize msgs
    → map parse delivered ≡ take (length delivered) msgs
parsed_part parse serialize [] waiting msgs undone e = refl
parsed_part parse serialize (p ∷ ps) waiting [] undone e = absurd cc
parsed_part parse serialize (p ∷ ps) waiting (msg ∷ msgs) undone e =
    let first : p ≡ serialize msg = cc in
    let rest : ps ++ waiting ≡ map serialize msgs = cc in
    ap₂ ◌∷◌ (ap parse first ∙ undone.0) (parsed_part parse serialize ps waiting msgs undone.1 rest)

drained_all :
    (serialize : ClientMessage → Bytes) (delivered waiting : List Bytes) (msgs : List ClientMessage)
    → delivered ++ waiting ≡ map serialize msgs
    → is_empty waiting ≡ true
    → (length delivered == length msgs) ≡ true
drained_all serialize [] [] [] e h = refl
drained_all serialize [] [] (msg ∷ msgs) e h = absurd cc
drained_all serialize [] (q ∷ qs) msgs e h = cc
drained_all serialize (p ∷ ps) waiting [] e h = absurd cc
drained_all serialize (p ∷ ps) waiting (msg ∷ msgs) e h =
    let rest : ps ++ waiting ≡ map serialize msgs = cc in
    ground (arith, drained_all serialize ps waiting msgs rest h)

length_part :
    (serialize : ClientMessage → Bytes) (delivered waiting : List Bytes) (msgs : List ClientMessage)
    → delivered ++ waiting ≡ map serialize msgs
    → length delivered ≤ length msgs
length_part serialize [] waiting msgs e = omega arith
length_part serialize (p ∷ ps) waiting [] e = absurd cc
length_part serialize (p ∷ ps) waiting (msg ∷ msgs) e =
    let rest : ps ++ waiting ≡ map serialize msgs = cc in
    omega (arith, length_part serialize ps waiting msgs rest)

All-map-Fits :
    (serialize : ClientMessage → Bytes) (msgs : List ClientMessage)
    → All (λ msg. Fits (serialize msg)) msgs
    → All Fits (map serialize msgs)
All-map-Fits serialize [] h = tt
All-map-Fits serialize (msg ∷ msgs) h = (h.0, All-map-Fits serialize msgs h.1)

-- Whatever happened to the writer and its socket, if it was given the texts of `msgs`, each shorter than 2^32
-- bytes, and the parser undoes what protobuf writes for each: with more fuel than there are messages the server's loop over
-- the bytes on the wire ends, in the state that it comes to when a first part of `msgs` is handed over to it one
-- by one; and that part is all of `msgs` if no coroutine writes any more.
pub handle_server_session-wire :
    (sha1 : Bytes → Bytes) (clock : ℕ → ℕ) (sid : Bytes) (parse : Bytes → ClientMessage)
    (serialize : ClientMessage → Bytes)
    → (msgs : List ClientMessage) → All (λ msg. parse (serialize msg) ≡ msg) msgs
    → All (λ msg. Fits (serialize msg)) msgs
    → {writer : Writer} → Reach new_writer writer
    → map serialize msgs ≡ writer.sent
    → (fuel : ℕ) → length msgs < fuel
    → (w : World)
    → (n : ℕ) × (handle_server_session sha1 clock sid parse fuel 0 writer.wire w
        ≡ some (handle_messages sha1 clock sid 0 (take n msgs) w))
      × ((is_running writer.loop || n == length msgs) ≡ true)
handle_server_session-wire sha1 clock sid parse serialize msgs undone fits {writer} r texts fuel
      enough w =
    let o : OnWire parse writer =
      Reach-OnWire parse r (rw (sym texts) (All-map-Fits serialize msgs fits)) in
    let sent = o.order ∙ sym texts in
    let few : length o.delivered < fuel =
      omega (arith, length_part serialize o.delivered o.waiting msgs sent) in
    (
      length o.delivered,
      rw (o.on_wire, sym (parsed_part parse serialize o.delivered o.waiting msgs undone sent))
          (handle_frames sha1 clock sid parse fuel 0 o.delivered o.partial w few o.fits
            o.incomplete),
      ground (arith, o.drained, drained_all serialize o.delivered o.waiting msgs sent),
    )
