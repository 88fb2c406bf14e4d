-- ===== src/DepFiles/RoundTrip.antt =====
-- What `write_to_bytes` writes is read back by `parse_dep_file_contents`.
pub mod Pieces
use dist_build_sys.Base.{
  ℕ, zero, suc, ◌≤◌, ◌<◌, ◌≡◌, refl, sym, ap, ◌∙◌, List, [], ◌∷◌, ◌++◌, append_assoc, append-nil,
  Bool, true, false, not, ◌||◌, Option, some, Bytes, ◌==◌, length, is_empty, All, length-append,
  if◌then◌else◌, arith, ◌>>=◌,
}
use dist_build_sys.DepFiles.{
  DepTarget, escape_gnu_make_spaces, write_more, write_items, write_target, write_to_bytes,
}
use dist_build_sys.DepFiles.Escape.{escape_byte}
use dist_build_sys.DepFiles.Parse.{
  ParseResult, parsed, is_space, parse_skip_spaces, parse_target_name, skip_separators, take_item,
  item_after_separators, parse_next_dep_item, parse_dep_items, add_target, parse_targets,
  make_dep_file_from_bytes,
}
use dist_build_sys.DepFiles.RoundTrip.Pieces.{
  quotable, starts_item, nameable, opens_name, escape_nil, escape_cons, parse_target_name-escape,
  parse_next_dep_item-escape,
}

-- The items have no backslash and do not start with a byte that the writer quotes.
abbrev pub AreItems : List Bytes → Type 0
AreItems ds = All (λ d. (starts_item d ≡ true) × (quotable d ≡ true)) ds

-- The target is the escaped form of a name without backslash and newline.
pub record IsWritable (d_target : DepTarget) : Type 0 where
  pub name : Bytes
  pub escaped : d_target.target ≡ escape_gnu_make_spaces name
  pub plain : nameable name ≡ true
  pub opens : opens_name name ≡ true
  pub items : AreItems d_target.dep_files

skip_space : (t : Bytes) → skip_separators (32 ∷ t) ≡ skip_separators t
unfolding skip_separators
skip_space [] = refl
skip_space (x ∷ t) = refl

skip_continuation : (t : Bytes) → skip_separators (32 ∷ 92 ∷ 10 ∷ 32 ∷ 32 ∷ t) ≡ skip_separators t
unfolding skip_separators
skip_continuation t = skip_space (32 ∷ t) ∙ skip_space t

end_of_line : (s : Bytes) → parse_next_dep_item (10 ∷ s) ≡ ([], s)
unfolding parse_next_dep_item skip_separators item_after_separators
end_of_line [] = refl
end_of_line (x ∷ s) = refl

item_stops :
    (ds : List Bytes) (s : Bytes) → let t = write_more ds ++ 10 ∷ s in take_item t ≡ ([], t)
unfolding take_item write_more
item_stops [] [] = refl
item_stops [] (x ∷ s) = refl
item_stops (d ∷ ds) s = refl

item_filled : (d : Bytes) → starts_item d ≡ true → is_empty d ≡ false
item_filled [] h = cc
item_filled (c ∷ d) h = refl

item_step :
    (t : Bytes) (fuel : ℕ) (d : Bytes) (ds : List Bytes) (s : Bytes)
    → ((u : Bytes) → skip_separators (t ++ u) ≡ skip_separators u)
    → starts_item d ≡ true
    → quotable d ≡ true
    → parse_dep_items fuel (write_more ds ++ 10 ∷ s) ≡ some (ds, s)
    → parse_dep_items (suc fuel) (t ++ (escape_gnu_make_spaces d ++ (write_more ds ++ 10 ∷ s)))
      ≡ some (d ∷ ds, s)
unfolding parse_dep_items
item_step t fuel d ds s skips hs hq later =
    let rest = write_more ds ++ 10 ∷ s in
    let read : parse_next_dep_item (t ++ (escape_gnu_make_spaces d ++ rest)) ≡ (d, rest) =
      parse_next_dep_item-escape t d rest (skips _) hs hq (item_stops ds s) in
    rw (read, item_filled d hs, later) refl

more_items :
    (fuel : ℕ) (ds : List Bytes) (s : Bytes)
    → length ds < fuel
    → AreItems ds
    → parse_dep_items fuel (write_more ds ++ 10 ∷ s) ≡ some (ds, s)
unfolding parse_dep_items write_more
more_items zero ds s h a = absurd (omega arith)
more_items (suc fuel) [] s h a = rw (end_of_line s) refl
more_items (suc fuel) (d ∷ ds) s h ((hs, hq), a) =
    rw (append_assoc (escape_gnu_make_spaces d) (write_more ds) (10 ∷ s)) (
      item_step (32 ∷ 92 ∷ 10 ∷ 32 ∷ 32 ∷ []) fuel d ds s skip_continuation hs hq
        (more_items fuel ds s (omega arith) a))

all_items :
    (fuel : ℕ) (ds : List Bytes) (s : Bytes)
    → length ds < fuel
    → AreItems ds
    → parse_dep_items fuel (write_items ds ++ 10 ∷ s) ≡ some (ds, s)
unfolding parse_dep_items write_items
all_items zero ds s h a = absurd (omega arith)
all_items (suc fuel) [] s h a = rw (end_of_line s) refl
all_items (suc fuel) (d ∷ ds) s h ((hs, hq), a) =
    rw (append_assoc (escape_gnu_make_spaces d) (write_more ds) (10 ∷ s))
      (item_step (32 ∷ []) fuel d ds s skip_space hs hq (more_items fuel ds s (omega arith) a))

length_more : (ds : List Bytes) (s : Bytes) → length ds ≤ length (write_more ds ++ s)
unfolding write_more
length_more [] s = omega arith
length_more (d ∷ ds) s =
    rw (append_assoc (escape_gnu_make_spaces d) (write_more ds) s) (
      omega
        (arith, length_more ds s, length-append (escape_gnu_make_spaces d) (write_more ds ++ s)))

length_items : (ds : List Bytes) (s : Bytes) → length ds ≤ length (write_items ds ++ s)
unfolding write_items
length_items [] s = omega arith
length_items (d ∷ ds) s =
    rw (append_assoc (escape_gnu_make_spaces d) (write_more ds) s) (
      omega
        (arith, length_more ds s, length-append (escape_gnu_make_spaces d) (write_more ds ++ s)))

opens_byte :
    (c : ℕ) (t : Bytes)
    → ((c == 32) || not (is_space c)) ≡ true
    → (c == 10) ≡ false
    → (parse_skip_spaces (escape_byte c ++ t) ≡ escape_byte c ++ t)
      × (is_empty (escape_byte c ++ t) ≡ false)
unfolding parse_skip_spaces is_space
opens_byte c t h n = (ground (arith, h, n), ground (arith, h, n))

-- The reader stops at a written target's first byte.
name_opens :
    (name s : Bytes)
    → opens_name name ≡ true
    → nameable name ≡ true
    → let t = escape_gnu_make_spaces name ++ 58 ∷ s in
      (parse_skip_spaces t ≡ t) × (is_empty t ≡ false)
unfolding parse_skip_spaces is_space
name_opens [] s h n = rw escape_nil (refl, refl)
name_opens (c ∷ d) s h n =
    rw (escape_cons c d, append_assoc (escape_byte c) (escape_gnu_make_spaces d) (58 ∷ s))
      (opens_byte c (escape_gnu_make_spaces d ++ 58 ∷ s) h (ground arith))

target_text :
    (d_target : DepTarget) (s : Bytes)
    → write_target d_target ++ s
      ≡ d_target.target ++ 58 ∷ (write_items d_target.dep_files ++ 10 ∷ s)
unfolding write_target
target_text d_target s =
    append_assoc d_target.target _ s
    ∙ ap (λ u. d_target.target ++ 58 ∷ u)
        (append_assoc (write_items d_target.dep_files) (10 ∷ []) s)

target_step :
    (fuel : ℕ) (d_target : DepTarget) (s : Bytes)
    → IsWritable d_target
    → parse_targets (suc fuel) (write_target d_target ++ s)
      ≡ add_target d_target (parse_targets fuel s)
unfolding parse_targets add_target
target_step fuel d_target s w =
    let ds = d_target.dep_files in
    let line = write_items ds ++ 10 ∷ s in
    let opens = name_opens w.name line w.opens w.plain in
    let enough : length ds < suc (length line) = omega (arith, length_items ds (10 ∷ s)) in
    rw
      (
        target_text d_target s,
        w.escaped,
        opens.0,
        opens.1,
        parse_target_name-escape [] w.name line w.plain,
        all_items (suc (length line)) ds s enough w.items,
        ← w.escaped,
      )
      refl

newline : (fuel : ℕ) (s : Bytes) → parse_targets fuel (10 ∷ s) ≡ parse_targets fuel s
unfolding parse_targets parse_skip_spaces is_space
newline zero s = refl
newline (suc fuel) s = refl

parse_targets-write :
    (fuel : ℕ) (ts : List DepTarget)
    → length ts < fuel
    → All IsWritable ts
    → parse_targets fuel (write_to_bytes ts) ≡ parsed ts
unfolding write_to_bytes parse_targets parse_skip_spaces add_target
parse_targets-write zero ts h w = absurd (omega arith)
parse_targets-write (suc fuel) [] h w = refl
parse_targets-write (suc (suc fuel)) (t ∷ []) h (w, ws) =
    rw (← append-nil (write_target t), target_step (suc fuel) t [] w) refl
parse_targets-write (suc zero) (t ∷ ts) h w = absurd (omega arith)
parse_targets-write (suc (suc fuel)) (t ∷ next ∷ ts) h (w, ws) =
    rw
      (
        target_step (suc fuel) t (10 ∷ write_to_bytes (next ∷ ts)) w,
        newline,
        parse_targets-write (suc fuel) (next ∷ ts) (omega arith) ws,
      )
      refl

length_target : (t : DepTarget) → 1 ≤ length (write_target t)
unfolding write_target
length_target t = omega (arith, length-append t.target (58 ∷ (write_items t.dep_files ++ 10 ∷ [])))

length-write : (ts : List DepTarget) → length ts ≤ length (write_to_bytes ts)
unfolding write_to_bytes
length-write [] = omega arith
length-write (t ∷ []) = omega (arith, length_target t)
length-write (t ∷ next ∷ ts) = omega (
  arith,
  length_target t,
  length-write (next ∷ ts),
  length-append (write_target t) (10 ∷ write_to_bytes (next ∷ ts)),
)

-- A file of any number of targets that have the escaped form of names without backslash and newline,
-- where no name starts with a space other than a blank, and of items without backslash that are not
-- empty and do not start with a blank, a newline or a colon, is read back as it was written: the
-- targets in their order, with their items in order.
pub make_dep_file_from_bytes-write_to_bytes :
    (ts : List DepTarget)
    → All IsWritable ts
    → make_dep_file_from_bytes (write_to_bytes ts) ≡ parsed ts
unfolding make_dep_file_from_bytes
make_dep_file_from_bytes-write_to_bytes ts w =
    parse_targets-write (suc (length (write_to_bytes ts))) ts (omega (arith, length-write ts)) w
