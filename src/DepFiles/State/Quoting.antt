-- ===== src/DepFiles/State/Quoting.antt =====
-- A generated dependency file, read back.
use mathlib.Core.Path.{subst, ap, ◌∙◌}
use mathlib.Core.Logic.{inl, inr}
use dist_build_sys.Base.{
  Bool-cases, ℕ, ◌≡◌, refl, sym, ap₂, List, [], ◌∷◌, map, Bool, true, false, not, ◌||◌, Bytes, ◌==◌,
  all, any, is_empty, All, bytes_eq_refl, starts_with, if◌then◌else◌, arith,
}
use dist_build_sys.DepFiles.{
  DepTarget, escape_gnu_make_spaces, find_dep_list_by_target_name, write_to_bytes,
}
use dist_build_sys.DepFiles.Parse.{parsed, is_space, make_dep_file_from_bytes}
use dist_build_sys.DepFiles.Escape.{escape_byte}
use dist_build_sys.DepFiles.RoundTrip.{
  AreItems, IsWritable, make_dep_file_from_bytes-write_to_bytes,
}
use dist_build_sys.DepFiles.RoundTrip.Pieces.{
  quotable, starts_item, nameable, opens_name, escape_nil, escape_cons,
}
use dist_build_sys.DepFiles.State.{
  DepFilesState, quote_prefix, quote_loop, process_makefile_target, ignore_system_headers,
  calculate_deps_for_headers, phony_targets, generate_dep_file,
}

-- Nothing that make or the writer treats on its own.
abbrev plain_byte : ℕ → Bool
plain_byte c = not (is_space c || (c == 36) || (c == 35) || (c == 92) || (c == 58))

-- A path of such bytes that is not empty.
pub record IsPlain (p : Bytes) : Type 0 where
  pub bytes : all plain_byte p ≡ true
  pub filled : is_empty p ≡ false

escape-plain : (p : Bytes) → all plain_byte p ≡ true → escape_gnu_make_spaces p ≡ p
unfolding is_space
escape-plain [] h = escape_nil
escape-plain (c ∷ p) h =
    let same : escape_byte c ≡ c ∷ [] = ground arith in
    rw (escape_cons c p, escape-plain p (ground arith), same) refl

quote_loop-plain : (before p : Bytes) → all plain_byte p ≡ true → quote_loop before p ≡ p
unfolding quote_loop quote_prefix is_space
quote_loop-plain before [] h = refl
quote_loop-plain before (c ∷ p) h = ground (arith, quote_loop-plain (c ∷ before) p)

quotable-plain : (p : Bytes) → all plain_byte p ≡ true → quotable p ≡ true
unfolding is_space
quotable-plain [] h = refl
quotable-plain (c ∷ p) h = ground (arith, quotable-plain p)

nameable-plain : (p : Bytes) → all plain_byte p ≡ true → nameable p ≡ true
unfolding is_space
nameable-plain [] h = refl
nameable-plain (c ∷ p) h = ground (arith, nameable-plain p)

starts_item-plain : (p : Bytes) → IsPlain p → starts_item p ≡ true
unfolding is_space
starts_item-plain [] w = cc
starts_item-plain (c ∷ p) w = ground (arith, w.bytes)

opens_name-plain : (p : Bytes) → all plain_byte p ≡ true → opens_name p ≡ true
opens_name-plain [] h = refl
opens_name-plain (c ∷ p) h = ground arith

process-plain : (ps : List Bytes) → All IsPlain ps → map process_makefile_target ps ≡ ps
unfolding process_makefile_target
process-plain [] w = refl
process-plain (p ∷ ps) (w, ws) = ap₂ ◌∷◌ (quote_loop-plain [] p w.bytes) (process-plain ps ws)

AreItems-plain : (ps : List Bytes) → All IsPlain ps → AreItems ps
AreItems-plain [] w = tt
AreItems-plain (p ∷ ps) (w, ws) =
    ((starts_item-plain p w, quotable-plain p w.bytes), AreItems-plain ps ws)

phony_map-IsWritable :
    (ps : List Bytes)
    → All IsPlain ps
    → All IsWritable
        (map (λ item. record { target = escape_gnu_make_spaces item; dep_files = [] }) ps)
phony_map-IsWritable [] w = tt
phony_map-IsWritable (p ∷ ps) (w, ws) = (
  record {
    name = p;
    escaped = refl;
    plain = nameable-plain p w.bytes;
    opens = opens_name-plain p w.bytes;
    items = tt;
  },
  phony_map-IsWritable ps ws,
)

either {ℓ κ} :
    {A : Type ℓ} (P : A → Type κ) (b : Bool) (x y : A) → P x → P y → P (if b then x else y)
either P true x y hx hy = hx
either P false x y hx hy = hy

ignore-IsPlain :
    (dirs headers : List Bytes)
    → All IsPlain headers
    → All IsPlain (ignore_system_headers dirs headers)
unfolding ignore_system_headers
ignore-IsPlain dirs [] w = tt
ignore-IsPlain dirs (p ∷ ps) (w, ws) =
    let rest = ignore-IsPlain dirs ps ws in
    either (All IsPlain) (any (starts_with p) dirs) _ _ rest (w, rest)

-- The elements that pass a test, in their order.
pub filter {ℓ} : {A : Type ℓ} → (A → Bool) → List A → List A
filter p [] = []
filter p (x ∷ xs) = let rest = filter p xs in if p x then x ∷ rest else rest

-- The headers that go into the file.
abbrev pub kept_headers : DepFilesState → List Bytes → List Bytes → List Bytes
kept_headers s dirs headers =
    if s.mmd_flag_present
    then filter (λ header. not (any (λ dir. starts_with header dir) dirs)) headers
    else headers

ignore-filter :
    (dirs headers : List Bytes)
    → ignore_system_headers dirs headers
      ≡ filter (λ header. not (any (λ dir. starts_with header dir) dirs)) headers
unfolding ignore_system_headers filter
ignore-filter dirs [] = refl
ignore-filter dirs (header ∷ headers) = elim (Bool-cases (any (starts_with header) dirs)) [
  | inl system ↦ rw (system, ignore-filter dirs headers)
  | inr own ↦ rw (own, ignore-filter dirs headers)
]

kept-ignored :
    (s : DepFilesState) (dirs headers : List Bytes)
    → (if s.mmd_flag_present then ignore_system_headers dirs headers else headers)
      ≡ kept_headers s dirs headers
kept-ignored s dirs headers = rw ignore-filter

module _ (s : DepFilesState) (obj src : Bytes) (dirs headers : List Bytes)
    (no_mt : s.mt_flag_paths ≡ []) (o : IsPlain obj) (c : IsPlain src)
    (hs : All IsPlain headers) where
  kept : All IsPlain (kept_headers s dirs headers)
  kept =
      subst (All IsPlain) (kept-ignored s dirs headers)
        (either (All IsPlain) s.mmd_flag_present _ _ (ignore-IsPlain dirs headers hs) hs)

  deps_plain : calculate_deps_for_headers s src dirs headers ≡ src ∷ kept_headers s dirs headers
  unfolding calculate_deps_for_headers
  deps_plain =
      ap (λ hs. map process_makefile_target (src ∷ hs)) (kept-ignored s dirs headers)
      ∙ process-plain (src ∷ kept_headers s dirs headers) (c, kept)

  abbrev main_target : DepTarget
  main_target = record { target = obj; dep_files = src ∷ kept_headers s dirs headers }

  main-IsWritable : IsWritable main_target
  main-IsWritable = record {
    name = obj;
    escaped = sym (escape-plain obj o.bytes);
    plain = nameable-plain obj o.bytes;
    opens = opens_name-plain obj o.bytes;
    items = AreItems-plain (src ∷ kept_headers s dirs headers) (c, kept);
  }

  generated :
      generate_dep_file s obj src dirs headers
      ≡ main_target
        ∷ (if s.mp_flag_present then phony_targets (src ∷ kept_headers s dirs headers) else [])
  unfolding generate_dep_file
  generated = simp (deps_plain, no_mt)

  generated-IsWritable : All IsWritable (generate_dep_file s obj src dirs headers)
  unfolding phony_targets
  generated-IsWritable = rw generated (
    main-IsWritable,
    either (All IsWritable) s.mp_flag_present _ [] (phony_map-IsWritable _ kept) tt,
  )

  -- For paths without blanks and the bytes that make treats on their own, and no target given with
  -- -MT or -MQ: the generated file is read back, with or without -MP and -MMD, and the list found in it
  -- under the object file is the source file and then the headers, less, under -MMD, the system's.
  pub generate_dep_file-find :
      (ts : List DepTarget) × ((make_dep_file_from_bytes
            (write_to_bytes (generate_dep_file s obj src dirs headers))
          ≡ parsed ts)
        × (find_dep_list_by_target_name obj ts ≡ src ∷ kept_headers s dirs headers))
  unfolding find_dep_list_by_target_name
  generate_dep_file-find = (
    generate_dep_file s obj src dirs headers,
    (
      make_dep_file_from_bytes-write_to_bytes _ generated-IsWritable,
      rw (generated, find_dep_list_by_target_name, bytes_eq_refl obj) refl,
    ),
  )
