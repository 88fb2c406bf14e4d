-- ===== src/Includes/Parser/Steps.antt =====
-- The single updates of src/includes_rework.cpp's search: what one entry of the cache or of the found headers does.
use dist_build_sys.Base.{
  Option, none, some, List, [], ◌∷◌, ◌≡◌, refl, sym, inl, inr, Bool, true, false, Bytes, any, all,
  arith, bytes_eq, Bool-cases,
}
use dist_build_sys.Base.Dict.{
  lookup, lookup-insert, contains-insert_self, contains, lookup-insert_cases, contains-insert,
}
use dist_build_sys.IncludeDirs.{CmdLineIncludeDirs}
use dist_build_sys.Includes.{
  IncludeType, include_type_angle, include_type_quote, IncludeDirective, requires_inc_storage,
}
use dist_build_sys.Includes.Cache.{IncludeInfo, add_include_entry}
use dist_build_sys.Includes.Parser.{
  FileSystem, ParserState, candidates, add_header, store_if_required, set_inc_directive, cache_key,
}
use dist_build_sys.Includes.Parser.Facts.{is_entered, is_known, settled, Extends}

any_mono {ℓ} :
    {A : Type ℓ} (p q : A → Bool)
    → ((x : A) → p x ≡ true → q x ≡ true)
    → (xs : List A) → any p xs ≡ true
    → any q xs ≡ true
any_mono p q h [] e = cc
any_mono p q h (x ∷ xs) e = ground (arith, h x, any_mono p q h xs)

pub all_mono {ℓ} :
    {A : Type ℓ} (p q : A → Bool)
    → ((x : A) → p x ≡ true → q x ≡ true)
    → (xs : List A) → all p xs ≡ true
    → all q xs ≡ true
all_mono p q h [] e = refl
all_mono p q h (x ∷ xs) e = ground (arith, h x, all_mono p q h xs)

known_of_contains :
    (s t : ParserState)
    → ((name : Bytes)
        → is_entered s (lookup name s.includes_cache.include_abs_paths) ≡ true
        → is_entered t (lookup name t.includes_cache.include_abs_paths) ≡ true)
    → (type : IncludeType) (name : Bytes) → is_known s type name ≡ true
    → is_known t type name ≡ true
unfolding is_known
known_of_contains s t named include_type_angle name h = named name h
known_of_contains s t named include_type_quote name h = h

is_entered_mono :
    (s t : ParserState)
    → ((path : Bytes)
        → contains path s.inc_directives ≡ true
        → contains path t.inc_directives ≡ true)
    → (o : Option Bytes) → is_entered s o ≡ true
    → is_entered t o ≡ true
unfolding is_entered
is_entered_mono s t grown none h = h
is_entered_mono s t grown (some path) h = grown path h

module _ (fs : FileSystem) (dirs : CmdLineIncludeDirs) where
  pub settled_mono :
      (s t : ParserState)
      → Extends fs dirs s t
      → (parent : Bytes) (d : IncludeDirective) → settled fs dirs s parent d ≡ true
      → settled fs dirs t parent d ≡ true
  unfolding settled
  settled_mono s t e parent d h = ground (
    arith,
    known_of_contains s t e.named d.inc_type d.inc_content,
    any_mono (λ path. contains path s.inc_directives) (λ path. contains path t.inc_directives)
        e.grown (candidates dirs parent d),
  )

  pub Extends-refl : (s : ParserState) → Extends fs dirs s s
  Extends-refl s = record {
    grown = λ path h. h;
    named = λ name h. h;
    fresh = λ path info project h. inl h;
  }

  pub Extends-trans :
      (s t u : ParserState) → Extends fs dirs s t → Extends fs dirs t u → Extends fs dirs s u
  Extends-trans s t u first second = record {
    grown = λ path h. second.grown path (first.grown path h);
    named = λ name h. second.named name (first.named name h);
    fresh = λ path info project h. elim (second.fresh path info project h) [
      | inr done ↦ inr done
      | inl before ↦ elim (first.fresh path info project before) [
        | inl start ↦ inl start
        | inr done ↦ inr (
            all_mono (settled fs dirs t info.file_path) (settled fs dirs u info.file_path)
              (settled_mono t u second info.file_path) info.child_includes done)
      ]
    ];
  }

  -- A header that the cache keeps is entered without its directives.
  pub set_inc_directive-Extends :
      (s : ParserState) (path : Bytes) (info : IncludeInfo)
      → requires_inc_storage info.file_path dirs ≡ true
      → Extends fs dirs s (set_inc_directive path info s)
  unfolding set_inc_directive
  set_inc_directive-Extends s path info kept = record {
    grown = λ p h. contains-insert path p info s.inc_directives h;
    named = λ name h.
        is_entered_mono s (set_inc_directive path info s)
          (λ q there. contains-insert path q info s.inc_directives there)
          (lookup name s.includes_cache.include_abs_paths) h;
    fresh = λ p found project h. elim (lookup-insert_cases path p info found s.inc_directives h) [
      | inl new ↦ absurd (kept_or_project info found new.1 kept project)
      | inr before ↦ inl before
    ];
  }
    where
      kept_or_project :
          (a b : IncludeInfo)
          → a ≡ b
          → requires_inc_storage a.file_path dirs ≡ true
          → ¬ (requires_inc_storage b.file_path dirs ≡ false)
      kept_or_project a b e h g = cc

  -- A header that was read is entered with its directives still to settle.
  pub add_header-grown :
      (d : IncludeDirective) (s : ParserState) (info : IncludeInfo) (path : Bytes)
      → contains path s.inc_directives ≡ true
      → contains path (add_header dirs d info s).inc_directives ≡ true
  unfolding add_header
  add_header-grown d s info path h = contains-insert info.file_path path info s.inc_directives h

  pub add_header-named :
      (d : IncludeDirective) (s : ParserState) (info : IncludeInfo) (name : Bytes)
      → is_entered s (lookup name s.includes_cache.include_abs_paths) ≡ true
      → is_entered
          (add_header dirs d info s)
          (lookup name (add_header dirs d info s).includes_cache.include_abs_paths)
        ≡ true
  unfolding add_header store_if_required add_include_entry is_entered
  add_header-named d s info name h =
      let key = cache_key d.inc_type d.inc_content info.file_path in
      let grown = is_entered_mono s (add_header dirs d info s) (add_header-grown d s info) in
      let before = lookup name s.includes_cache.include_abs_paths in
      elim (Bool-cases (requires_inc_storage info.file_path dirs)) [
        | inr passed ↦ rw passed (grown before h)
        | inl kept ↦ elim (Bool-cases (bytes_eq key name)) [
          | inr other ↦
              rw
                (
                  kept,
                  lookup-insert key name info.file_path s.includes_cache.include_abs_paths,
                  other,
                )
                (grown before h)
          | inl same ↦
              rw
                (
                  kept,
                  lookup-insert key name info.file_path s.includes_cache.include_abs_paths,
                  same,
                )
                (contains-insert_self info.file_path info s.inc_directives)
        ]
      ]

  -- Once its directives are settled, all that was added is.
  pub add_header-Extends :
      (d : IncludeDirective) (s t : ParserState) (info : IncludeInfo)
      → Extends fs dirs (add_header dirs d info s) t
      → all (settled fs dirs t info.file_path) info.child_includes ≡ true
      → Extends fs dirs s t
  unfolding add_header
  add_header-Extends d s t info later done = record {
    grown = λ path h. later.grown path (add_header-grown d s info path h);
    named = λ name h. later.named name (add_header-named d s info name h);
    fresh = λ p found project h. elim (later.fresh p found project h) [
      | inr settled_later ↦ inr settled_later
      | inl before ↦
          elim (lookup-insert_cases info.file_path p info found s.inc_directives before) [
            | inl new ↦ inr (rw (sym new.1) done)
            | inr start ↦ inl start
          ]
    ];
  }
