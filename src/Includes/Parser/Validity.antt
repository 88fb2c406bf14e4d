-- ===== src/Includes/Parser/Validity.antt =====
-- The updates of src/includes_rework.cpp's search keep the cache and the found headers true of the files.
use dist_build_sys.Base.{sym, inl, inr, Bool-cases, Bytes}
use dist_build_sys.Base.Dict.{lookup-insert_cases, All-insert}
use dist_build_sys.IncludeDirs.{CmdLineIncludeDirs}
use dist_build_sys.Includes.{IncludeDirective, requires_inc_storage}
use dist_build_sys.Includes.Cache.{IncludeInfo, add_include_entry}
use dist_build_sys.Includes.Parser.{
  FileSystem, ParserState, add_header, store_if_required, set_inc_directive, cache_key,
}
use dist_build_sys.Includes.Parser.Facts.{IsAccurate, IsValid}

module _ (sha1 : Bytes → Bytes) (fs : FileSystem) (dirs : CmdLineIncludeDirs) where
  pub set_inc_directive-IsValid :
      (s : ParserState) (path : Bytes) (info : IncludeInfo)
      → IsValid sha1 fs dirs s
      → IsAccurate sha1 fs info
      → IsValid sha1 fs dirs (set_inc_directive path info s)
  unfolding set_inc_directive
  set_inc_directive-IsValid s path info valid accurate = record {
    cached = valid.cached;
    found = All-insert (IsAccurate sha1 fs) path info s.inc_directives accurate valid.found;
  }

  pub add_header-IsValid :
      (d : IncludeDirective) (s : ParserState) (info : IncludeInfo)
      → IsValid sha1 fs dirs s
      → IsAccurate sha1 fs info
      → IsValid sha1 fs dirs (add_header dirs d info s)
  unfolding add_header store_if_required add_include_entry
  add_header-IsValid d s info valid accurate = record {
    cached = elim (Bool-cases (requires_inc_storage info.file_path dirs)) [
      | inr skipped ↦ rw skipped valid.cached
      | inl kept ↦ rw kept λ name entry h.
          elim (lookup-insert_cases (cache_key d.inc_type d.inc_content info.file_path) name info
            entry s.includes_cache.include_cache_data h) [
              | inl new ↦ rw (sym new.1) (accurate, kept)
              | inr before ↦ valid.cached name entry before
            ]
    ];
    found =
        All-insert (IsAccurate sha1 fs) info.file_path info s.inc_directives accurate valid.found;
  }
