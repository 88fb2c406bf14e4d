-- ===== src/Framing/RoundTrip.antt =====
-- What one side sends by src/proto_io.cpp, the other side receives.
use dist_build_sys.Base.{
  ℕ, zero, suc, ◌-◌, true, ◌+◌, ◌%◌, ◌^◌, ◌<◌, ◌≤◌, ◌≡◌, refl, sym, ap, ap₂, map, ◌∙◌, List, [],
  ◌∷◌, ◌++◌, append_assoc, append-nil, none, some, Bytes, Bool-cases, inl, inr, false, length, take,
  leb, All, take-append, drop-append, length-append, arith, ◌>>=◌, flat_map,
}
use dist_build_sys.Ipc.Manager.{append_u32, read_u32, read_exactly}
use dist_build_sys.Ipc.Codec.{Fits}
use dist_build_sys.Framing.{frame, send_msg, receive_msg, send_msgs, receive_msgs}

read_exactly-append : (xs ys : Bytes) → read_exactly (length xs) (xs ++ ys) ≡ some (xs, ys)
unfolding read_exactly
read_exactly-append xs ys =
    let long : leb (length xs) (length (xs ++ ys)) ≡ true = ground (arith, length-append xs ys) in
    rw (long, take-append xs ys, drop-append xs ys)

-- A read of more than there is throws.
pub read_exactly-short : (n : ℕ) (xs : Bytes) → length xs < n → read_exactly n xs ≡ none
unfolding read_exactly
read_exactly-short n xs h = ground arith

read_size :
    (v : ℕ) (rest : Bytes) → read_exactly 4 (append_u32 [] v ++ rest) ≡ some (append_u32 [] v, rest)
unfolding read_exactly append_u32
read_size v rest = ground arith

size_of : (v : ℕ) → v < 2 ^ 32 → read_u32 (append_u32 [] v) ≡ some v
unfolding read_u32 append_u32
size_of v h = ground arith

take-append_add :
    (xs ys : Bytes) (k n : ℕ) → n ≡ length xs + k → take n (xs ++ ys) ≡ xs ++ take k ys
take-append_add [] ys k n e = let e' : n ≡ k = omega arith in rw e'
take-append_add (x ∷ xs) ys k zero e = absurd (omega arith)
take-append_add (x ∷ xs) ys k (suc n) e = ap (◌∷◌ x) (take-append_add xs ys k n (omega arith))

length-take_le : (n : ℕ) (xs : Bytes) → length (take n xs) ≤ n
length-take_le zero xs = omega arith
length-take_le (suc n) [] = omega arith
length-take_le (suc n) (x ∷ xs) = omega (arith, length-take_le n xs)

pub length-frame : (payload : Bytes) → length (frame payload) ≡ 4 + length payload
unfolding frame append_u32
length-frame payload = omega arith

module _ {ℓ} {M : Type ℓ} (parse : Bytes → M) where
  -- Whatever is behind it in the stream, one frame is read as its text.
  pub receive_msg-frame :
      (payload rest : Bytes)
      → Fits payload
      → receive_msg parse (frame payload ++ rest) ≡ some (parse payload, rest)
  unfolding receive_msg frame
  receive_msg-frame payload rest h =
      let head = append_u32 [] (length payload) in
      let small : length payload % 2 ^ 32 ≡ length payload = omega arith in
      rw (
        small,
        append_assoc head payload rest,
        read_size (length payload) (payload ++ rest),
        ◌>>=◌,
        size_of (length payload) h,
        ◌>>=◌,
        read_exactly-append payload rest,
      )

  receive_msg-part :
      (payload : Bytes) (k : ℕ)
      → Fits payload
      → k < length payload
      → receive_msg parse (append_u32 [] (length payload % 2 ^ 32) ++ take k payload) ≡ none
  unfolding receive_msg
  receive_msg-part payload k h few =
      let small : length payload % 2 ^ 32 ≡ length payload = omega arith in
      let short : length (take k payload) < length payload =
        omega (arith, length-take_le k payload) in
      rw (
        small,
        read_size (length payload) (take k payload),
        ◌>>=◌,
        size_of (length payload) h,
        ◌>>=◌,
        read_exactly-short (length payload) (take k payload) short,
      )

  -- A frame of which a part is missing is not received.
  pub receive_msg-take :
      (payload : Bytes) (n : ℕ)
      → Fits payload
      → n < length (frame payload)
      → receive_msg parse (take n (frame payload)) ≡ none
  unfolding receive_msg frame append_u32
  receive_msg-take payload n h few =
      let size : length (frame payload) ≡ 4 + length payload = length-frame payload in
      let head = append_u32 [] (length payload % 2 ^ 32) in
      elim (Bool-cases (leb 4 n)) [
        | inr short ↦ rw (
            read_exactly-short 4 (take n (frame payload))
              (omega (arith, length-take_le n (frame payload), fewer_of n short)))
        | inl long ↦
            rw (take-append_add head payload (n - 4) n (above n long))
              (receive_msg-part payload (n - 4) h (omega (arith, above n long)))
      ]
    where
      fewer_of : (n : ℕ) → leb 4 n ≡ false → n < 4
      fewer_of n e = ground arith

      above : (n : ℕ) → leb 4 n ≡ true → n ≡ 4 + (n - 4)
      above n e = ground arith

  pub receive_msgs-frames :
      (payloads : List Bytes)
      → All Fits payloads
      → (rest : Bytes)
      → receive_msgs parse (length payloads) (flat_map frame payloads ++ rest)
        ≡ some (map parse payloads, rest)
  unfolding receive_msgs flat_map
  receive_msgs-frames [] h rest = refl
  receive_msgs-frames (payload ∷ payloads) h rest = rw (
    append_assoc (frame payload) (flat_map frame payloads) rest,
    receive_msg-frame payload (flat_map frame payloads ++ rest) h.0,
    ◌>>=◌,
    receive_msgs-frames payloads h.1 rest,
  )

module _ {M : Type 0} (serialize : M → Bytes) where
  send_msgs-frames :
      (msgs : List M) (stream : Bytes)
      → send_msgs serialize msgs stream ≡ stream ++ flat_map frame (map serialize msgs)
  unfolding send_msgs send_msg flat_map
  send_msgs-frames [] stream = sym (append-nil stream)
  send_msgs-frames (msg ∷ msgs) stream =
      send_msgs-frames msgs (stream ++ frame (serialize msg))
      ∙ append_assoc stream (frame (serialize msg)) (flat_map frame (map serialize msgs))

  map-map_undone :
      (parse : Bytes → M)
      → ((msg : M) → parse (serialize msg) ≡ msg)
      → (msgs : List M) → map parse (map serialize msgs) ≡ msgs
  map-map_undone parse undone [] = refl
  map-map_undone parse undone (msg ∷ msgs) = ap₂ ◌∷◌ (undone msg) (map-map_undone parse undone msgs)

  All-map-Fits :
      (msgs : List M) → All (λ msg. Fits (serialize msg)) msgs → All Fits (map serialize msgs)
  All-map-Fits [] h = tt
  All-map-Fits (msg ∷ msgs) h = (h.0, All-map-Fits msgs h.1)

  length-map : (msgs : List M) → length (map serialize msgs) ≡ length msgs
  length-map [] = refl
  length-map (msg ∷ msgs) = ap suc (length-map msgs)

-- Whatever messages one side sends, if each one's text is shorter than 2^32 bytes and the parser undoes
-- what protobuf writes, as many calls on the other side receive these messages in their order, and what
-- follows in the stream is left there.
pub receive_msgs-send_msgs :
    {M : Type 0} (serialize : M → Bytes) (parse : Bytes → M)
    → ((msg : M) → parse (serialize msg) ≡ msg)
    → (msgs : List M) → All (λ msg. Fits (serialize msg)) msgs
    → (rest : Bytes)
    → receive_msgs parse (length msgs) (send_msgs serialize msgs [] ++ rest) ≡ some (msgs, rest)
receive_msgs-send_msgs serialize parse undone msgs h rest =
    let received =
      receive_msgs-frames parse (map serialize msgs) (All-map-Fits serialize msgs h) rest in
    rw (
      send_msgs-frames serialize msgs [],
      sym (length-map serialize msgs),
      received,
      map-map_undone serialize parse undone msgs,
    )
