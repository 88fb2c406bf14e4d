-- ===== src/Includes/Parser/Correct.antt =====
-- Every search of src/includes_rework.cpp ends, with what is asked of it.
use dist_build_sys.Base.{
  ℕ, zero, suc, ◌<◌, List, [], ◌∷◌, ◌≡◌, refl, true, false, Option, some, none, Bytes, arith,
}
use dist_build_sys.Base.Dict.{contains, contains-insert_self}
use dist_build_sys.IncludeDirs.{CmdLineIncludeDirs}
use dist_build_sys.Includes.{IncludeType, include_type_angle, include_type_quote, IncludeDirective}
use dist_build_sys.Includes.Cache.{
  IncludeInfo, IncludesCache, get_include_abs_path, get_include_info,
}
use dist_build_sys.Includes.Parser.{
  FileSystem, ParserState, Outcome, candidates, set_inc_directive, try_candidates, unless_resolved,
  cached_by_name, search_header, process_include_directive,
}
use dist_build_sys.Includes.Parser.Measure.{unvisited}
use dist_build_sys.Includes.Parser.Facts.{is_entered, is_known, settled, IsValid}
use dist_build_sys.Includes.Parser.Steps.{Extends-refl, set_inc_directive-Extends}
use dist_build_sys.Includes.Parser.Validity.{set_inc_directive-IsValid}
use dist_build_sys.Includes.Parser.Search.{
  Tried, done, passed, Ends, Good, try_resolve_header-Tried,
}

-- What the look-up by name finds.
cached_by_name_lem :
    (cache : IncludesCache) (type : IncludeType) (name path : Bytes) (info : IncludeInfo)
    → cached_by_name cache type name ≡ some (path, info)
    → (get_include_info path cache ≡ some info)
      × ((s : ParserState)
          → s.includes_cache ≡ cache
          → contains path s.inc_directives ≡ true
          → is_known s type name ≡ true)
unfolding cached_by_name is_known is_entered get_include_abs_path
cached_by_name_lem cache include_type_quote name path info h = cc
cached_by_name_lem cache include_type_angle name path info h = ground arith

module _ (sha1 : Bytes → Bytes) (fs : FileSystem) (dirs : CmdLineIncludeDirs) where
  settled_of_known :
      (s : ParserState) (parent : Bytes) (d : IncludeDirective)
      → is_known s d.inc_type d.inc_content ≡ true
      → settled fs dirs s parent d ≡ true
  unfolding settled
  settled_of_known s parent d h = ground arith

  module _ (n : ℕ) (process : Bytes → IncludeDirective → ParserState → Outcome) where
    try_candidates-Tried :
        Good sha1 fs dirs n process
        → (d : IncludeDirective) (paths : List Bytes) (s : ParserState) → IsValid sha1 fs dirs s
        → unvisited fs.files s.inc_directives < suc n
        → Tried sha1 fs dirs s paths (try_candidates sha1 fs dirs process d paths s)
    unfolding try_candidates unless_resolved
    try_candidates-Tried good d [] s valid small = passed refl refl
    try_candidates-Tried good d (path ∷ paths) s valid small =
        elim (try_resolve_header-Tried sha1 fs dirs n process good path d s valid small) [
          | done t e valid_t extends here ↦ done t (rw e) valid_t extends (ground arith)
          | passed e unreadable ↦ rw e (elim (try_candidates-Tried good d paths s valid small) [
            | done t e' valid_t extends here ↦ done t e' valid_t extends (ground arith)
            | passed e' unreadable' ↦ passed e' (ground arith)
          ])
        ]

    search_header-Ends :
        Good sha1 fs dirs n process
        → (parent : Bytes) (d : IncludeDirective) (s : ParserState) → IsValid sha1 fs dirs s
        → unvisited fs.files s.inc_directives < suc n
        → (by_name : Option (Bytes × IncludeInfo))
        → cached_by_name s.includes_cache d.inc_type d.inc_content ≡ by_name
        → Ends sha1 fs dirs s parent d (search_header sha1 fs dirs process parent d s by_name)
    unfolding search_header get_include_info settled set_inc_directive
    search_header-Ends good parent d s valid small (some (path, info)) e =
        let known = cached_by_name_lem s.includes_cache d.inc_type d.inc_content path info e in
        let kept = valid.cached path info known.0 in
        record {
          answer = true;
          after = set_inc_directive path info s;
          ends = refl;
          valid = set_inc_directive-IsValid sha1 fs dirs s path info valid kept.0;
          extends = set_inc_directive-Extends fs dirs s path info kept.1;
          is_settled = settled_of_known (set_inc_directive path info s) parent d (
              known.1 (set_inc_directive path info s) refl
                (contains-insert_self path info s.inc_directives));
        }
    search_header-Ends good parent d s valid small none e =
        elim (try_candidates-Tried good d (candidates dirs parent d) s valid small) [
          | done t e' valid_t extends here ↦ record {
            answer = true;
            after = t;
            ends = e';
            valid = valid_t;
            extends = extends;
            is_settled = rw here;
          }
          | passed e' unreadable ↦ record {
            answer = false;
            after = s;
            ends = e';
            valid = valid;
            extends = Extends-refl fs dirs s;
            is_settled = (ground arith);
          }
        ]

  pub process_include_directive-Good :
      (n : ℕ) → Good sha1 fs dirs n (process_include_directive sha1 fs dirs n)
  unfolding process_include_directive
  process_include_directive-Good zero parent d s valid small = absurd (omega arith)
  process_include_directive-Good (suc n) parent d s valid small =
      search_header-Ends n (process_include_directive sha1 fs dirs n)
        (process_include_directive-Good n) parent d s valid small
        (cached_by_name s.includes_cache d.inc_type d.inc_content) refl
