-- ===== src/DepFiles/Totality.antt =====
-- The loops of `parse_dep_file_contents` end on every input.
use dist_build_sys.Base.{
  ℕ, zero, suc, ◌≤◌, ◌<◌, ◌≡◌, ◌≢◌, refl, List, [], ◌∷◌, ◌++◌, false, some, Bytes, ◌==◌, length,
  is_empty, if◌then◌else◌, arith, Bool-cases, Option-cases, inl, inr,
}
use dist_build_sys.DepFiles.{DepTarget}
use dist_build_sys.DepFiles.Parse.{
  ParseResult, parsed, failed, unfinished, parse_skip_spaces, space_allowed, parse_target_name,
  skip_separators, take_item, item_after_separators, parse_next_dep_item, parse_dep_items,
  add_target, parse_targets, make_dep_file_from_bytes,
}

length-parse_skip_spaces : (c : Bytes) → length (parse_skip_spaces c) ≤ length c
unfolding parse_skip_spaces
length-parse_skip_spaces [] = omega arith
length-parse_skip_spaces (x ∷ c) = ground (arith, length-parse_skip_spaces c)

length-skip_separators : (c : Bytes) → length (skip_separators c) ≤ length c
unfolding skip_separators
length-skip_separators [] = omega arith
length-skip_separators (x ∷ []) = ground arith
length-skip_separators (x ∷ y ∷ c) =
    ground (arith, length-skip_separators (y ∷ c), length-skip_separators c)

-- An item that is not empty takes a byte.
Advances : Bytes → Bytes × Bytes → Type 0
Advances c r = (length r.1 ≤ length c) × (is_empty r.0 ≡ false → length r.1 < length c)

take_item-Advances : (c : Bytes) → Advances c (take_item c)
unfolding Advances take_item
take_item-Advances [] = (omega arith, λ h. cc)
take_item-Advances (x ∷ []) = (ground arith, λ h. ground arith)
take_item-Advances (x ∷ y ∷ c) =
    let one = take_item-Advances (y ∷ c) in
    let two = take_item-Advances c in
    (ground (arith, one.0, two.0), λ h. ground (arith, one.0, two.0))

item_after-Advances : (c : Bytes) → Advances c (item_after_separators c)
unfolding Advances item_after_separators
item_after-Advances [] = (omega arith, λ h. cc)
item_after-Advances (x ∷ c) =
    let r = take_item-Advances (x ∷ c) in (ground (arith, r.0), λ h. ground (arith, r.1))

parse_next-Advances : (c : Bytes) → Advances c (parse_next_dep_item c)
unfolding Advances parse_next_dep_item
parse_next-Advances c =
    let r = item_after-Advances (skip_separators c) in
    (
      omega (arith, r.0, length-skip_separators c),
      λ h. omega (arith, r.1 h, length-skip_separators c),
    )

parse_dep_items-ends :
    (fuel : ℕ) (c : Bytes)
    → length c < fuel
    → (r : List Bytes × Bytes) × ((parse_dep_items fuel c ≡ some r) × (length r.1 ≤ length c))
unfolding parse_dep_items Advances
parse_dep_items-ends zero c h = absurd (omega arith)
parse_dep_items-ends (suc fuel) c h =
    let p = parse_next-Advances c in
    elim (Bool-cases (is_empty (parse_next_dep_item c).0)) [
      | inl e ↦ (([], (parse_next_dep_item c).1), (rw e refl, p.0))
      | inr e ↦
          let later = parse_dep_items-ends fuel (parse_next_dep_item c).1 (omega (arith, p.1 e)) in
          (
            ((parse_next_dep_item c).0 ∷ later.0.0, later.0.1),
            (rw (e, later.1.0) refl, omega (arith, later.1.1, p.0)),
          )
    ]

-- A target name takes its colon.
parse_target_name-advances :
    (name c : Bytes) (t : Bytes × Bytes) → parse_target_name name c ≡ some t → length t.1 < length c
unfolding parse_target_name
parse_target_name-advances name [] t h = cc
parse_target_name-advances name (x ∷ []) t h = ground (arith, h)
parse_target_name-advances name (x ∷ y ∷ c) t h = ground (
  arith,
  parse_target_name-advances (if y == 10 then name else name ++ y ∷ []) c t,
  parse_target_name-advances (if space_allowed name then name ++ 32 ∷ [] else name) (y ∷ c) t,
  parse_target_name-advances (name ++ x ∷ []) (y ∷ c) t,
)

add_target-ends :
    (d_target : DepTarget) (r : ParseResult (List DepTarget))
    → r ≢ unfinished
    → add_target d_target r ≢ unfinished
unfolding add_target
add_target-ends d_target (parsed ts) h = λ e. cc
add_target-ends d_target failed h = λ e. cc
add_target-ends d_target unfinished h = λ e. h refl

parse_targets-ends : (fuel : ℕ) (c : Bytes) → length c < fuel → parse_targets fuel c ≢ unfinished
unfolding parse_targets
parse_targets-ends zero c h = absurd (omega arith)
parse_targets-ends (suc fuel) c h =
    let rest = parse_skip_spaces c in
    elim (Bool-cases (is_empty rest)) [
      | inl e ↦ rw e (λ x. cc)
      | inr e ↦ elim (Option-cases (parse_target_name [] rest)) [
        | inl n ↦ rw (e, n) (λ x. cc)
        | inr (t, n) ↦
            let items = parse_dep_items-ends (suc (length t.1)) t.1 (omega arith) in
            let less : length items.0.1 < fuel = omega (
              arith,
              items.1.1,
              parse_target_name-advances [] rest t n,
              length-parse_skip_spaces c,
            ) in
            rw (e, n, items.1.0) (add_target-ends _ _ (parse_targets-ends fuel items.0.1 less))
      ]
    ]

-- Every input, whatever its bytes, is either read or rejected with the exception: no loop runs on.
pub make_dep_file_from_bytes-ends : (c : Bytes) → make_dep_file_from_bytes c ≢ unfinished
unfolding make_dep_file_from_bytes
make_dep_file_from_bytes-ends c = parse_targets-ends (suc (length c)) c (omega arith)
