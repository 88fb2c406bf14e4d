-- ===== src/Client/SendFile/Loop.antt =====
-- The rounds of the client's loop over a file: a full buffer, the last bytes, and the end.
use dist_build_sys.Base.{
  ℕ, zero, suc, ◌+◌, ◌%◌, ◌^◌, ◌<◌, ◌≤◌, ◌≡◌, refl, [], ◌∷◌, true, false, Bytes, length, take, drop,
  is_empty, ltb, arith, length-take, take_of_length-le, drop_of_length-le,
}
use dist_build_sys.Client.SendFile.{chunk_message, read_loop}

pub is_empty_pos : (s : Bytes) → 0 < length s → is_empty s ≡ false
is_empty_pos [] h = absurd (omega arith)
is_empty_pos (x ∷ s) h = refl

pub take-nil : (n : ℕ) → take {A = ℕ} n [] ≡ []
take-nil zero = refl
take-nil (suc n) = refl

module _ (sz : ℕ) (sid name : Bytes) where
  pub loop_step :
      (fuel : ℕ) (rest : Bytes) (seq off : ℕ)
      → 0 < sz
      → 0 < length rest
      → read_loop sz (suc fuel) sid name rest seq off
        ≡ chunk_message sid name seq off (take sz rest) (ltb (length (take sz rest)) sz)
          ∷ read_loop sz fuel sid name
              (drop sz rest)
              ((seq + 1) % 2 ^ 64)
              ((off + length (take sz rest)) % 2 ^ 64)
  unfolding read_loop
  loop_step fuel rest seq off hsz h =
      rw (is_empty_pos (take sz rest) (omega (arith, length-take sz rest)))

  pub loop_end : (fuel seq off : ℕ) → read_loop sz fuel sid name [] seq off ≡ []
  unfolding read_loop
  loop_end zero seq off = refl
  loop_end (suc fuel) seq off = rw (take-nil sz)

  -- A full buffer: the message is not the last.
  pub loop_full :
      (fuel : ℕ) (rest : Bytes) (seq off : ℕ)
      → 0 < sz
      → sz ≤ length rest
      → seq + 1 < 2 ^ 64
      → off + sz < 2 ^ 64
      → read_loop sz (suc fuel) sid name rest seq off
        ≡ chunk_message sid name seq off (take sz rest) false
          ∷ read_loop sz fuel sid name (drop sz rest) (seq + 1) (off + sz)
  loop_full fuel rest seq off hsz h hs ho =
      let len : length (take sz rest) ≡ sz = omega (arith, length-take sz rest) in
      let full : ltb (length (take sz rest)) sz ≡ false = ground arith in
      let next_seq : (seq + 1) % 2 ^ 64 ≡ seq + 1 = omega arith in
      let next_off : (off + length (take sz rest)) % 2 ^ 64 ≡ off + sz = omega arith in
      rw (loop_step fuel rest seq off hsz (omega arith), full, next_seq, next_off)

  -- The last bytes of the file, fewer than the buffer holds.
  pub loop_last :
      (fuel : ℕ) (rest : Bytes) (seq off : ℕ)
      → 0 < length rest
      → length rest < sz
      → read_loop sz (suc fuel) sid name rest seq off
        ≡ chunk_message sid name seq off rest true ∷ []
  loop_last fuel rest seq off h0 h =
      let short : ltb (length rest) sz ≡ true = ground arith in
      rw (
        loop_step fuel rest seq off (omega arith) h0,
        take_of_length-le sz rest (omega arith),
        drop_of_length-le sz rest (omega arith),
        short,
        loop_end,
      )
