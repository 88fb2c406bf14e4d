-- ===== src/DepFiles/RoundTrip/Pieces.antt =====
-- An escaped item and an escaped target name are read back.
use dist_build_sys.Base.{
  ℕ, ◌≡◌, refl, [], ◌∷◌, ◌++◌, append_assoc, append-nil, flat_map, Bool, true, false, not, ◌||◌,
  ◌&&◌, some, Bytes, ◌==◌, all, arith,
}
use dist_build_sys.DepFiles.{escape_gnu_make_spaces}
use dist_build_sys.DepFiles.Escape.{escape_byte, escape_gnu_make_spaces-escape_byte}
use dist_build_sys.DepFiles.Parse.{
  is_space, parse_target_name, skip_separators, take_item, item_after_separators,
  parse_next_dep_item,
}

-- No backslash.
abbrev pub quotable : Bytes → Bool
quotable d = all (λ c. not (c == 92)) d

-- The first byte is there and is written without a backslash.
abbrev pub starts_item : Bytes → Bool
starts_item [] = false
starts_item (c ∷ d) = not ((c == 32) || (c == 10) || (c == 58) || (c == 92))

-- Neither a backslash nor a newline.
abbrev pub nameable : Bytes → Bool
nameable d = all (λ c. not (c == 92) && not (c == 10)) d

-- The first byte is not a space that is written as it is.
abbrev pub opens_name : Bytes → Bool
opens_name [] = true
opens_name (c ∷ d) = (c == 32) || not (is_space c)

pub escape_nil : escape_gnu_make_spaces [] ≡ []
unfolding flat_map
escape_nil = escape_gnu_make_spaces-escape_byte []

pub escape_cons :
    (c : ℕ) (d : Bytes) → escape_gnu_make_spaces (c ∷ d) ≡ escape_byte c ++ escape_gnu_make_spaces d
unfolding flat_map
escape_cons c d =
    rw (escape_gnu_make_spaces-escape_byte d) (escape_gnu_make_spaces-escape_byte (c ∷ d))

item_byte :
    (c : ℕ) (s : Bytes)
    → (c == 92) ≡ false
    → take_item (escape_byte c ++ s) ≡ (c ∷ (take_item s).0, (take_item s).1)
unfolding take_item
item_byte c [] h = ground (arith, h)
item_byte c (d ∷ s) h = ground (arith, h)

take_item-escape :
    (d s : Bytes)
    → quotable d ≡ true
    → take_item s ≡ ([], s)
    → take_item (escape_gnu_make_spaces d ++ s) ≡ (d, s)
take_item-escape [] s h e = rw escape_nil e
take_item-escape (c ∷ d) s h e =
    let rest : take_item (escape_gnu_make_spaces d ++ s) ≡ (d, s) =
      take_item-escape d s (ground arith) e in
    rw
      (
        escape_cons c d,
        append_assoc (escape_byte c) (escape_gnu_make_spaces d) s,
        item_byte c (escape_gnu_make_spaces d ++ s) (ground arith),
        rest,
      )
      refl

name_byte :
    (name : Bytes) (c : ℕ) (s : Bytes)
    → (not (c == 92) && not (c == 10)) ≡ true
    → parse_target_name name (escape_byte c ++ s) ≡ parse_target_name (name ++ c ∷ []) s
unfolding parse_target_name
name_byte name c [] h = ground (arith, h)
name_byte name c (d ∷ s) h = ground (arith, h)

name_end :
    (name s : Bytes) → parse_target_name name (58 ∷ s) ≡ some (escape_gnu_make_spaces name, s)
unfolding parse_target_name
name_end name [] = refl
name_end name (d ∷ s) = refl

pub parse_target_name-escape :
    (name d s : Bytes)
    → nameable d ≡ true
    → parse_target_name name (escape_gnu_make_spaces d ++ 58 ∷ s)
      ≡ some (escape_gnu_make_spaces (name ++ d), s)
parse_target_name-escape name [] s h = rw (escape_nil, append-nil name) (name_end name s)
parse_target_name-escape name (c ∷ d) s h =
    rw
      (
        escape_cons c d,
        append_assoc (escape_byte c) (escape_gnu_make_spaces d) (58 ∷ s),
        name_byte name c (escape_gnu_make_spaces d ++ 58 ∷ s) (ground arith),
        ← append_assoc name (c ∷ []) d,
      )
      (parse_target_name-escape (name ++ c ∷ []) d s (ground arith))

skip_byte :
    (c : ℕ) (t : Bytes)
    → ((c == 32) || (c == 10) || (c == 58) || (c == 92)) ≡ false
    → skip_separators (escape_byte c ++ t) ≡ escape_byte c ++ t
unfolding skip_separators
skip_byte c [] h = ground (arith, h)
skip_byte c (x ∷ t) h = ground (arith, h)

after_byte :
    (c : ℕ) (t : Bytes)
    → ((c == 32) || (c == 10) || (c == 58) || (c == 92)) ≡ false
    → item_after_separators (escape_byte c ++ t) ≡ take_item (escape_byte c ++ t)
unfolding item_after_separators
after_byte c t h = ground (arith, h)

-- The reader is at the item that was written.
skip_start :
    (d s : Bytes)
    → starts_item d ≡ true
    → skip_separators (escape_gnu_make_spaces d ++ s) ≡ escape_gnu_make_spaces d ++ s
skip_start [] s h = cc
skip_start (c ∷ d) s h =
    rw (escape_cons c d, append_assoc (escape_byte c) (escape_gnu_make_spaces d) s)
      (skip_byte c (escape_gnu_make_spaces d ++ s) (ground arith))

after_start :
    (d s : Bytes)
    → starts_item d ≡ true
    → item_after_separators (escape_gnu_make_spaces d ++ s)
      ≡ take_item (escape_gnu_make_spaces d ++ s)
after_start [] s h = cc
after_start (c ∷ d) s h =
    rw (escape_cons c d, append_assoc (escape_byte c) (escape_gnu_make_spaces d) s)
      (after_byte c (escape_gnu_make_spaces d ++ s) (ground arith))

-- Also behind separators `t`, which the reader skips.
pub parse_next_dep_item-escape :
    (t d s : Bytes)
    → skip_separators (t ++ (escape_gnu_make_spaces d ++ s))
      ≡ skip_separators (escape_gnu_make_spaces d ++ s)
    → starts_item d ≡ true
    → quotable d ≡ true
    → take_item s ≡ ([], s)
    → parse_next_dep_item (t ++ (escape_gnu_make_spaces d ++ s)) ≡ (d, s)
unfolding parse_next_dep_item
parse_next_dep_item-escape t d s ht hs hq e =
    rw (ht, skip_start d s hs, after_start d s hs) (take_item-escape d s hq e)
