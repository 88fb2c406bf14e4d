-- ===== src/Server/Object/Loop.antt =====
-- The rounds of the server's loop over an object file.
use dist_build_sys.Base.{
  ℕ, zero, suc, ◌≤◌, ◌<◌, ◌≡◌, refl, [], ◌∷◌, true, false, some, Bytes, length, take, drop, ltb,
  arith, length-take, take_of_length-le, drop_of_length-le,
}
use dist_build_sys.Base.Int.{is_nonzero}
use dist_build_sys.Base.Dict.{Dict, lookup}
use dist_build_sys.Client.SendFile.Loop.{is_empty_pos, take-nil}
use dist_build_sys.Server.Session.{ServerSession}
use dist_build_sys.Server.Object.{object_message, send_loop, send_object, send_compilation_result}

module _ (sz : ℕ) (s : ServerSession) (file_size : ℕ) where
  pub send_end : (fuel : ℕ) → send_loop sz fuel s file_size [] ≡ []
  unfolding send_loop
  send_end zero = refl
  send_end (suc fuel) = rw (take-nil sz)

  pub send_full :
      (fuel : ℕ) (rest : Bytes)
      → 0 < sz
      → sz ≤ length rest
      → send_loop sz (suc fuel) s file_size rest
        ≡ object_message s file_size (take sz rest) false
          ∷ send_loop sz fuel s file_size (drop sz rest)
  unfolding send_loop
  send_full fuel rest hsz h =
      let full : ltb (length (take sz rest)) sz ≡ false = ground (arith, length-take sz rest) in
      rw (is_empty_pos (take sz rest) (omega (arith, length-take sz rest)), full)

  pub send_last :
      (fuel : ℕ) (rest : Bytes)
      → 0 < length rest
      → length rest < sz
      → send_loop sz (suc fuel) s file_size rest ≡ object_message s file_size rest true ∷ []
  unfolding send_loop
  send_last fuel rest h0 h =
      let short : ltb (length rest) sz ≡ true = ground arith in
      rw (
        take_of_length-le sz rest (omega arith),
        drop_of_length-le sz rest (omega arith),
        is_empty_pos rest h0,
        short,
        send_end fuel,
      )

pub send_compilation_result-send_loop :
    (sz : ℕ) (s : ServerSession) (files : Dict Bytes) (content : Bytes)
    → is_nonzero s.compiler_exit_code ≡ false
    → lookup s.out_obj_file files ≡ some content
    → send_compilation_result sz s files
      ≡ send_loop sz (suc (length content)) s (length content) content
unfolding send_compilation_result send_object
send_compilation_result-send_loop sz s files content e h = rw (e, h, send_object)

pub send_compilation_result_failed :
    (sz : ℕ) (s : ServerSession) (files : Dict Bytes)
    → is_nonzero s.compiler_exit_code ≡ true
    → send_compilation_result sz s files ≡ object_message s 0 [] true ∷ []
unfolding send_compilation_result
send_compilation_result_failed sz s files e = rw e
