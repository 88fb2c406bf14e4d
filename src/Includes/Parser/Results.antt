-- ===== src/Includes/Parser/Results.antt =====
-- What `parse_source_file_includes` of src/includes_rework.cpp finds.
use dist_build_sys.Base.{
  ℕ, ◌<◌, List, ◌++◌, ◌≡◌, refl, inl, inr, true, some, none, Bytes, all, is_some, length, map,
  Option, [], Bool-cases, Option-cases, arith,
}
use dist_build_sys.Base.Dict.{lookup}
use dist_build_sys.IncludeDirs.{CmdLineIncludeDirs}
use dist_build_sys.Includes.{requires_inc_storage}
use dist_build_sys.Includes.Cache.{IncludeInfo, IncludesCache}
use dist_build_sys.Includes.Parser.{
  FileSystem, ParserState, found_includes, angle_directive, new_parser, process_all,
  process_include_directive, parse_stream, parse_source_file_includes,
}
use dist_build_sys.Includes.Parser.Measure.{unvisited-le-length}
use dist_build_sys.Includes.Parser.Facts.{settled, header_settled, IsValid, Extends}
use dist_build_sys.Includes.Parser.Search.{EndsAll, process_all-EndsAll}
use dist_build_sys.Includes.Parser.Correct.{process_include_directive-Good}

module _ (sha1 : Bytes → Bytes) (fs : FileSystem) (dirs : CmdLineIncludeDirs) where
  -- The loop over the source's own directives, with more fuel than there are files.
  source_directives :
      (fuel : ℕ)
      → length fs.files < fuel
      → (cache : IncludesCache) (path content : Bytes) → (cmd_line_includes : List Bytes)
      → IsValid sha1 fs dirs (new_parser cache)
      → EndsAll sha1 fs dirs
          (new_parser cache)
          path
          (map angle_directive cmd_line_includes ++ found_includes content)
          (process_all
            (process_include_directive sha1 fs dirs fuel)
            path
            (map angle_directive cmd_line_includes ++ found_includes content)
            (new_parser cache))
  source_directives fuel enough cache path content cmd_line_includes valid =
      process_all-EndsAll sha1 fs dirs fuel (process_include_directive sha1 fs dirs fuel)
        (process_include_directive-Good sha1 fs dirs fuel) path
        (map angle_directive cmd_line_includes ++ found_includes content) (new_parser cache) valid
        (omega (arith, unvisited-le-length fs.files (new_parser cache).inc_directives))

-- A search that starts with no header found leaves every header found by it settled.
headers_settled :
    (fs : FileSystem) (dirs : CmdLineIncludeDirs) (s t : ParserState)
    → Extends fs dirs s t
    → s.inc_directives ≡ []
    → (header : Bytes) (found : Option IncludeInfo) → lookup header t.inc_directives ≡ found
    → header_settled fs dirs t found ≡ true
unfolding header_settled lookup
headers_settled fs dirs s t extends fresh_start header none here = refl
headers_settled fs dirs s t extends fresh_start header (some info) here =
    elim (Bool-cases (requires_inc_storage info.file_path dirs)) [
      | inl kept ↦ rw kept
      | inr project ↦ elim (extends.fresh header info project here) [
        | inl old ↦ absurd (ground arith)
        | inr done ↦ ground arith
      ]
    ]

-- With more fuel than there are files that can be opened, and a cache whose every header is true of its file and
-- of the kind that the given directories let the cache keep, the parser ends. It answers whether the source can be opened. The cache it leaves is so
-- again, and every record of a header that it found is true of its file: the path of a regular file, its size, its hash and its directives.
pub parse_source_file_includes-IsValid :
    (sha1 : Bytes → Bytes) (fs : FileSystem) (dirs : CmdLineIncludeDirs) (fuel : ℕ)
    → length fs.files < fuel
    → (cache : IncludesCache) → IsValid sha1 fs dirs (new_parser cache)
    → (path : Bytes) (cmd_line_includes : List Bytes)
    → (t : ParserState) × (parse_source_file_includes sha1 fs dirs fuel path cmd_line_includes
          (new_parser cache)
        ≡ some (is_some (lookup path fs.files), t))
      × IsValid sha1 fs dirs t
unfolding parse_source_file_includes parse_stream
parse_source_file_includes-IsValid sha1 fs dirs fuel enough cache valid path cmd_line_includes =
    elim (Option-cases (lookup path fs.files)) [
      | inl missing ↦ (new_parser cache, rw missing, valid)
      | inr (content, stored) ↦
          let loop =
            source_directives sha1 fs dirs fuel enough cache path content cmd_line_includes valid in
          (loop.after, rw (stored, loop.ends), loop.valid)
    ]

-- For a source that can be opened, with more fuel than there are files that can be opened, and a cache whose every
-- header is true of its file and of the kind that the given directories let the cache keep: the parser ends with
-- every directive of the source and of the command line settled. That is, a header is found at one of the paths
-- where the directive is tried, or at the path under which the cache knows its name, or none of the paths where it
-- is tried can be read. The same holds of every directive of every header found that is not of the kind which the
-- cache keeps; the directives of the others, for instance of a header that comes from the cache, may be left out.
pub parse_source_file_includes-settled :
    (sha1 : Bytes → Bytes) (fs : FileSystem) (dirs : CmdLineIncludeDirs) (fuel : ℕ)
    → length fs.files < fuel
    → (cache : IncludesCache) → IsValid sha1 fs dirs (new_parser cache)
    → (path content : Bytes) → lookup path fs.files ≡ some content
    → (cmd_line_includes : List Bytes)
    → (t : ParserState) × (parse_source_file_includes sha1 fs dirs fuel path cmd_line_includes
          (new_parser cache)
        ≡ some (true, t))
      × (all
            (settled fs dirs t path)
            (map angle_directive cmd_line_includes ++ found_includes content)
          ≡ true)
      × ((header : Bytes) → header_settled fs dirs t (lookup header t.inc_directives) ≡ true)
unfolding parse_source_file_includes parse_stream new_parser
parse_source_file_includes-settled sha1 fs dirs fuel enough cache valid path content stored
      cmd_line_includes =
    let loop =
      source_directives sha1 fs dirs fuel enough cache path content cmd_line_includes valid in
    (
      loop.after,
      rw (stored, loop.ends),
      loop.all_settled,
      λ header.
          headers_settled fs dirs (new_parser cache) loop.after loop.extends refl header
            (lookup header loop.after.inc_directives) refl,
    )
