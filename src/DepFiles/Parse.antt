-- ===== src/DepFiles/Parse.antt =====
-- The reader of dependency files: `parse_skip_spaces`, `parse_target_name`, `parse_next_dep_item` and
-- `DepFile::parse_dep_file_contents` of src/dep_files.hpp. An offset is what follows it; an offset
-- behind the end, which the source compares with `>=`, is the empty rest.
use dist_build_sys.Base.{
  ℕ, zero, suc, List, [], ◌∷◌, ◌++◌, Bool, true, false, ◌||◌, ◌&&◌, Option, none, some, Bytes, ◌==◌,
  leb, length, is_empty, if◌then◌else◌, ◌>>=◌,
}
use dist_build_sys.DepFiles.{DepTarget, escape_gnu_make_spaces}

-- The value of a loop that runs on fuel: its result, the exception, or no fuel left.
pub data ParseResult {ℓ} (A : Type ℓ) : Type ℓ where
  parsed : A → ParseResult A
  failed : ParseResult A
  unfinished : ParseResult A

-- `std::isspace` in the C locale.
unfoldable pub is_space : ℕ → Bool
is_space c = (c == 32) || (leb 9 c && leb c 13)

unfoldable pub parse_skip_spaces : Bytes → Bytes
parse_skip_spaces [] = []
parse_skip_spaces (c ∷ rest) = if is_space c then parse_skip_spaces rest else c ∷ rest

-- `target_name.empty() || target_name.back() != ' '`
unfoldable pub space_allowed : Bytes → Bool
space_allowed [] = true
space_allowed (c ∷ []) = if c == 32 then false else true
space_allowed (c ∷ d ∷ rest) = space_allowed (d ∷ rest)

-- The loop of `parse_target_name`, with the name so far; `none` is the exception.
unfoldable pub parse_target_name : Bytes → Bytes → Option (Bytes × Bytes)
parse_target_name target_name [] = none
parse_target_name target_name (c ∷ []) =
    if c == 58 then some (escape_gnu_make_spaces target_name, []) else none
parse_target_name target_name (c ∷ d ∷ rest) =
    let escaped = parse_target_name (if d == 10 then target_name else target_name ++ d ∷ []) rest in
    let spaced =
      parse_target_name (if space_allowed target_name then target_name ++ 32 ∷ [] else target_name)
        (d ∷ rest) in
    let plain = parse_target_name (target_name ++ c ∷ []) (d ∷ rest) in
    if c == 58
    then some (escape_gnu_make_spaces target_name, d ∷ rest)
    else if c == 10
    then none
    else if c == 92
    then escaped
    else if c == 32
    then spaced
    else plain

-- The first loop of `parse_next_dep_item`.
unfoldable pub skip_separators : Bytes → Bytes
skip_separators [] = []
skip_separators (c ∷ []) = if (c == 32) || (c == 92) then [] else c ∷ []
skip_separators (c ∷ d ∷ rest) =
    let one = skip_separators (d ∷ rest) in
    let two = skip_separators rest in if c == 32 then one else if c == 92 then two else c ∷ d ∷ rest

-- The second one: the item and what follows it.
unfoldable pub take_item : Bytes → Bytes × Bytes
take_item [] = ([], [])
take_item (c ∷ []) =
    if (c == 32) || (c == 10) then ([], c ∷ []) else if c == 92 then ([], []) else (c ∷ [], [])
take_item (c ∷ d ∷ rest) =
    let one = take_item (d ∷ rest) in
    let two = take_item rest in
    if (c == 32) || (c == 10)
    then ([], c ∷ d ∷ rest)
    else if c == 92
    then (d ∷ two.0, two.1)
    else (c ∷ one.0, one.1)

unfoldable pub item_after_separators : Bytes → Bytes × Bytes
item_after_separators [] = ([], [])
item_after_separators (c ∷ rest) = if c == 10 then ([], rest) else take_item (c ∷ rest)

unfoldable pub parse_next_dep_item : Bytes → Bytes × Bytes
parse_next_dep_item c = item_after_separators (skip_separators c)

-- The inner loop of `parse_dep_file_contents`; more fuel than bytes is enough.
unfoldable pub parse_dep_items : ℕ → Bytes → Option (List Bytes × Bytes)
parse_dep_items zero c = none
parse_dep_items (suc fuel) c =
    let later = parse_dep_items fuel (parse_next_dep_item c).1 in
    if is_empty (parse_next_dep_item c).0
    then some ([], (parse_next_dep_item c).1)
    else later >>= λ r. some ((parse_next_dep_item c).0 ∷ r.0, r.1)

unfoldable pub add_target : DepTarget → ParseResult (List DepTarget) → ParseResult (List DepTarget)
add_target d_target (parsed dep_targets) = parsed (d_target ∷ dep_targets)
add_target d_target failed = failed
add_target d_target unfinished = unfinished

-- The outer loop; more fuel than bytes is enough.
unfoldable pub parse_targets : ℕ → Bytes → ParseResult (List DepTarget)
parse_targets zero c = unfinished
parse_targets (suc fuel) c =
    if is_empty (parse_skip_spaces c)
    then parsed []
    else elim (parse_target_name [] (parse_skip_spaces c)) [
      | none ↦ failed
      | some t ↦ elim (parse_dep_items (suc (length t.1)) t.1) [
        | none ↦ unfinished
        | some r ↦ add_target (record { target = t.0; dep_files = r.0 }) (parse_targets fuel r.1)
      ]
    ]

-- `make_dep_file_from_bytes`: `parse_dep_file_contents` of a new object.
unfoldable pub make_dep_file_from_bytes : Bytes → ParseResult (List DepTarget)
make_dep_file_from_bytes c = parse_targets (suc (length c)) c
