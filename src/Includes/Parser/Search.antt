-- ===== src/Includes/Parser/Search.antt =====
-- The search for the headers of one directive, `_process_include_directive` of src/includes_rework.cpp.
use dist_build_sys.Base.{
  ℕ, suc, ◌<◌, ◌≤◌, List, [], ◌∷◌, ◌≡◌, refl, inl, inr, Bool, true, false, Option, some, none,
  Bytes, any, all, Bool-cases, Option-cases, arith,
}
use dist_build_sys.Base.Dict.{lookup, contains, contains-insert_self}
use dist_build_sys.IncludeDirs.{CmdLineIncludeDirs}
use dist_build_sys.Includes.{IncludeDirective}
use dist_build_sys.Includes.Cache.{IncludeInfo, get_include_info}
use dist_build_sys.Includes.Parser.{
  FileSystem, ParserState, Outcome, describe, found_includes, add_header, set_inc_directive,
  cache_key, process_all, read_header, resolve_uncontained, try_resolve_header,
}
use dist_build_sys.Includes.Parser.Measure.{unvisited, unvisited_anti, unvisited-insert}
use dist_build_sys.Includes.Parser.Facts.{is_unreadable, settled, IsAccurate, IsValid, Extends}
use dist_build_sys.Includes.Parser.Steps.{
  settled_mono, Extends-refl, Extends-trans, set_inc_directive-Extends, add_header-Extends,
}
use dist_build_sys.Includes.Parser.Validity.{set_inc_directive-IsValid, add_header-IsValid}

module _ (sha1 : Bytes → Bytes) (fs : FileSystem) (dirs : CmdLineIncludeDirs) where
  -- How a call that tries paths ends: with a header at one of them, or with nothing done.
  pub data Tried (s : ParserState) (paths : List Bytes) (o : Outcome) : Type 0 where
    done :
        (t : ParserState)
        → o ≡ some (true, t)
        → IsValid sha1 fs dirs t
        → Extends fs dirs s t
        → any (λ path. contains path t.inc_directives) paths ≡ true
        → Tried s paths o
    passed : o ≡ some (false, s) → all (is_unreadable fs) paths ≡ true → Tried s paths o

  -- How the call for a directive ends.
  pub record Ends (s : ParserState) (parent : Bytes) (d : IncludeDirective) (o : Outcome)
      : Type 0 where
    pub answer : Bool
    pub after : ParserState
    pub ends : o ≡ some (answer, after)
    pub valid : IsValid sha1 fs dirs after
    pub extends : Extends fs dirs s after
    pub is_settled : settled fs dirs after parent d ≡ true

  -- How the loop over the directives of a file ends.
  pub record EndsAll (s : ParserState) (parent : Bytes) (ds : List IncludeDirective)
      (o : Option ParserState) : Type 0 where
    pub after : ParserState
    pub ends : o ≡ some after
    pub valid : IsValid sha1 fs dirs after
    pub extends : Extends fs dirs s after
    pub all_settled : all (settled fs dirs after parent) ds ≡ true

  -- What is asked of the recursive calls, which may enter fewer than n files.
  abbrev pub Good : ℕ → (Bytes → IncludeDirective → ParserState → Outcome) → Type 0
  Good n process =
      (parent : Bytes) (d : IncludeDirective) (s : ParserState)
      → IsValid sha1 fs dirs s
      → unvisited fs.files s.inc_directives < n
      → Ends s parent d (process parent d s)

  unvisited-Extends :
      (s t : ParserState)
      → Extends fs dirs s t
      → unvisited fs.files t.inc_directives ≤ unvisited fs.files s.inc_directives
  unvisited-Extends s t e = unvisited_anti fs.files s.inc_directives t.inc_directives e.grown

  module _ (n : ℕ) (process : Bytes → IncludeDirective → ParserState → Outcome) where
    pub process_all-EndsAll :
        Good n process
        → (parent : Bytes) (ds : List IncludeDirective) (s : ParserState) → IsValid sha1 fs dirs s
        → unvisited fs.files s.inc_directives < n
        → EndsAll s parent ds (process_all process parent ds s)
    unfolding process_all
    process_all-EndsAll good parent [] s valid small = record {
      after = s;
      ends = refl;
      valid = valid;
      extends = Extends-refl fs dirs s;
      all_settled = refl;
    }
    process_all-EndsAll good parent (d ∷ ds) s valid small =
        let first = good parent d s valid small in
        let rest =
          process_all-EndsAll good parent ds first.after first.valid
            (omega (arith, unvisited-Extends s first.after first.extends)) in
        record {
          after = rest.after;
          ends = rw first.ends rest.ends;
          valid = rest.valid;
          extends = Extends-trans fs dirs s first.after rest.after first.extends rest.extends;
          all_settled =
              rw
                (settled_mono fs dirs first.after rest.after rest.extends parent d first.is_settled)
                rest.all_settled;
        }

    describe-IsAccurate :
        (path content : Bytes)
        → lookup path fs.files ≡ some content
        → fs.is_directory path ≡ false
        → IsAccurate sha1 fs (describe sha1 path content)
    unfolding describe IsAccurate
    describe-IsAccurate path content stored plain = (content, stored, plain, refl)

    read_header-Tried :
        Good n process
        → (path : Bytes) (d : IncludeDirective) (s : ParserState) → IsValid sha1 fs dirs s
        → unvisited fs.files s.inc_directives < suc n
        → contains path s.inc_directives ≡ false
        → fs.is_directory path ≡ false
        → Tried s (path ∷ []) (read_header sha1 fs dirs process path d s (lookup path fs.files))
    unfolding read_header describe add_header
    read_header-Tried good path d s valid small new plain =
        elim (Option-cases (lookup path fs.files)) [
          | inl missing ↦ passed (rw missing) (rw (plain, missing))
          | inr (content, stored) ↦
              let info = describe sha1 path content in
              let fewer = unvisited-insert fs.files s.inc_directives path content info stored new in
              let children =
                process_all-EndsAll good path (found_includes content) (add_header dirs d info s)
                  (add_header-IsValid sha1 fs dirs d s info valid
                    (describe-IsAccurate path content stored plain))
                  (omega (arith, fewer, small)) in
              done children.after (rw (stored, children.ends)) children.valid
                (add_header-Extends fs dirs d s children.after info children.extends
                  children.all_settled)
                (rw (children.extends.grown path (contains-insert_self path info s.inc_directives)))
        ]

    resolve_uncontained-Tried :
        Good n process
        → (path : Bytes) (d : IncludeDirective) (s : ParserState) → IsValid sha1 fs dirs s
        → unvisited fs.files s.inc_directives < suc n
        → contains path s.inc_directives ≡ false
        → (name : Bytes) (stored : Option IncludeInfo)
        → get_include_info name s.includes_cache ≡ stored
        → Tried s (path ∷ []) (resolve_uncontained sha1 fs dirs process path d s stored)
    unfolding resolve_uncontained get_include_info set_inc_directive
    resolve_uncontained-Tried good path d s valid small new name (some info) cached =
        let kept = valid.cached name info cached in
        done (set_inc_directive path info s) refl
          (set_inc_directive-IsValid sha1 fs dirs s path info valid kept.0)
          (set_inc_directive-Extends fs dirs s path info kept.1)
          (rw (contains-insert_self path info s.inc_directives))
    resolve_uncontained-Tried good path d s valid small new name none uncached =
        elim (Bool-cases (fs.is_directory path)) [
          | inl folder ↦ passed (rw (resolve_uncontained, folder)) (rw folder)
          | inr plain ↦
              rw (resolve_uncontained, plain)
                (read_header-Tried good path d s valid small new plain)
        ]

    pub try_resolve_header-Tried :
        Good n process
        → (path : Bytes) (d : IncludeDirective) (s : ParserState) → IsValid sha1 fs dirs s
        → unvisited fs.files s.inc_directives < suc n
        → Tried s (path ∷ []) (try_resolve_header sha1 fs dirs process path d s)
    unfolding try_resolve_header resolve_uncontained
    try_resolve_header-Tried good path d s valid small =
        elim (Bool-cases (contains path s.inc_directives)) [
          | inl known ↦
              done s (rw (try_resolve_header, known)) valid (Extends-refl fs dirs s) (rw known)
          | inr new ↦
              rw (try_resolve_header, new)
                (resolve_uncontained-Tried good path d s valid small new
                  (cache_key d.inc_type d.inc_content path)
                  (get_include_info (cache_key d.inc_type d.inc_content path) s.includes_cache)
                  refl)
        ]
