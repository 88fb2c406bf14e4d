-- ===== src/Ipc/Codec.antt =====
-- A string behind its length is read back wherever it stands in a payload, by either side.
use dist_build_sys.Base.{
  ℕ, ◌+◌, ◌%◌, ◌^◌, ◌<◌, ◌≡◌, refl, sym, ◌∙◌, ap, List, [], ◌∷◌, ◌++◌, append_assoc, append-nil,
  flat_map, some, Bytes, length, drop, All, take-append, drop-append_add, length-append, arith,
  ◌>>=◌,
}
use dist_build_sys.Ipc.Manager.{
  append_u32, read_u32, append_string, read_string, append_strings, read_strings,
}

abbrev pub Fits : Bytes → Type 0
Fits s = length s < 2 ^ 32

abbrev pub encoded : Bytes → Bytes
encoded s = append_u32 [] (length s % 2 ^ 32) ++ s

pub read_u32-append_u32 :
    (v : ℕ) (rest : Bytes) → v < 2 ^ 32 → read_u32 (append_u32 [] v ++ rest) ≡ some v
unfolding read_u32 append_u32
read_u32-append_u32 v rest h = ground arith

pub length-append_u32 : (v : ℕ) → length (append_u32 [] v) ≡ 4
unfolding append_u32
length-append_u32 v = refl

pub append_string-encoded : (out s : Bytes) → append_string out s ≡ out ++ encoded s
unfolding append_string append_u32
append_string-encoded out s = append_assoc out _ s

pub append_strings-encoded :
    (out : Bytes) (args : List Bytes) → append_strings out args ≡ out ++ flat_map encoded args
unfolding append_strings flat_map
append_strings-encoded out [] = sym (append-nil out)
append_strings-encoded out (arg ∷ args) =
    append_strings-encoded (append_string out arg) args
    ∙ ap (λ o. o ++ flat_map encoded args) (append_string-encoded out arg)
    ∙ append_assoc out (encoded arg) (flat_map encoded args)

read_u32-encoded : (s post : Bytes) → Fits s → read_u32 (encoded s ++ post) ≡ some (length s)
unfolding read_u32 append_u32
read_u32-encoded s post h = ground arith

drop-encoded : (s post : Bytes) → drop 4 (encoded s ++ post) ≡ s ++ post
unfolding append_u32
drop-encoded s post = refl

pub length-encoded : (s : Bytes) → length (encoded s) ≡ 4 + length s
unfolding append_u32
length-encoded s = omega arith

pub read_string-encoded :
    (pre s post : Bytes) (n : ℕ)
    → n ≡ length pre
    → Fits s
    → read_string (pre ++ (encoded s ++ post)) n ≡ some (s, n + 4 + length s)
unfolding read_string
read_string-encoded pre s post n e h =
    rw
      (
        drop-append_add pre (encoded s ++ post) 0 n (omega arith),
        drop-append_add pre (encoded s ++ post) 4 (n + 4) (omega arith),
        read_u32-encoded s post h,
        drop-encoded s post,
        ◌>>=◌,
        take-append s post,
      )
      (ground (arith, length-append s post))

-- The loop over the arguments reads them all, and appends them in order.
pub read_strings-encoded :
    (args done : List Bytes) (pre post : Bytes) (n : ℕ)
    → n ≡ length pre
    → All Fits args
    → read_strings (length args) (pre ++ (flat_map encoded args ++ post)) n done
      ≡ some (done ++ args)
unfolding read_strings flat_map
read_strings-encoded [] done pre post n e h = rw append-nil
read_strings-encoded (s ∷ args) done pre post n e (hs, hargs) =
    let at_head : pre ++ (flat_map encoded (s ∷ args) ++ post)
        ≡ pre ++ (encoded s ++ (flat_map encoded args ++ post)) =
      ap (◌++◌ pre) (append_assoc (encoded s) _ post) in
    let at_tail : pre ++ (encoded s ++ (flat_map encoded args ++ post))
        ≡ (pre ++ encoded s) ++ (flat_map encoded args ++ post) =
      sym (append_assoc pre _ _) in
    rw (at_head, read_string-encoded pre s _ n e hs, ◌>>=◌, at_tail)
      (read_strings-encoded args (done ++ s ∷ []) (pre ++ encoded s) post (n + 4 + length s)
          (omega (arith, length-append pre (encoded s), length-encoded s)) hargs
        ∙ ap some (append_assoc done (s ∷ []) args))
