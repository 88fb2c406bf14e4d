-- ===== src/Includes/Parser.antt =====
-- `SourceFileParser` of src/includes_rework.cpp: the headers that a source file reaches. The search for one
-- header calls itself for the directives of that header, by way of a fuel; `none` is a fuel that ran out. The
-- file system does not change while a source is parsed.
pub mod Measure
pub mod Facts
pub mod Steps
pub mod Validity
pub mod Search
pub mod Correct
pub mod Results
mod Tests
use dist_build_sys.Base.{
  List, [], ◌∷◌, ◌++◌, Bool, true, false, not, Option, none, some, ℕ, zero, suc, Bytes, length, map,
  starts_with, if◌then◌else◌, ◌>>=◌,
}
use dist_build_sys.Paths.{join, parent_path, slash}
use dist_build_sys.IncludeDirs.{CmdLineIncludeDirs}
use dist_build_sys.Base.Dict.{Dict, lookup, insert, contains}
use dist_build_sys.Includes.{
  IncludeType, include_type_angle, include_type_quote, IncludeDirective, find_file_includes,
  requires_inc_storage,
}
use dist_build_sys.Includes.Cache.{
  IncludeInfo, IncludesCache, add_include_entry, get_include_abs_path, get_include_info,
}

-- The paths that a stream can be opened on, with what it reads, and the paths that are directories. Two
-- paths can name one file. They are finitely many, as the system bounds the length of a path.
pub record FileSystem : Type 0 where
  pub files : Dict Bytes
  pub is_directory : Bytes → Bool

-- `_includes_cache` and `_inc_directives`
pub record ParserState : Type 0 where
  pub includes_cache : IncludesCache
  pub inc_directives : Dict IncludeInfo

abbrev pub Outcome : Type 0
Outcome = Option (Bool × ParserState)

unfoldable pub set_inc_directive : Bytes → IncludeInfo → ParserState → ParserState
set_inc_directive path info s = record {
  includes_cache = s.includes_cache;
  inc_directives = insert path info s.inc_directives;
}

-- The directives that are found in a header's text, and one that the command line gives.
unfoldable pub found_includes : Bytes → List IncludeDirective
found_includes content = found (find_file_includes (some content))
  where
    found : Option (List IncludeDirective) → List IncludeDirective
    found none = []
    found (some ds) = ds

unfoldable pub angle_directive : Bytes → IncludeDirective
angle_directive name = record { inc_content = name; inc_type = include_type_angle }

-- The name that a header stands under in the cache.
unfoldable pub cache_key : IncludeType → Bytes → Bytes → Bytes
cache_key include_type_angle inc_content header_abs_path = inc_content
cache_key include_type_quote inc_content header_abs_path = header_abs_path

-- The paths that a directive is tried at, in the order of the tries.
unfoldable pub absolute_candidates : Bytes → List Bytes
absolute_candidates inc_content = if starts_with inc_content slash then inc_content ∷ [] else []

unfoldable pub quote_candidates : CmdLineIncludeDirs → Bytes → IncludeType → Bytes → List Bytes
quote_candidates dirs parent include_type_angle inc_content = []
quote_candidates dirs parent include_type_quote inc_content =
    join (parent_path parent) inc_content ∷ map (λ dir. join dir inc_content) dirs.dash_iquote

unfoldable pub candidates : CmdLineIncludeDirs → Bytes → IncludeDirective → List Bytes
candidates dirs parent d =
    absolute_candidates d.inc_content
    ++ (quote_candidates dirs parent d.inc_type d.inc_content
        ++ map (λ dir. join dir d.inc_content) (dirs.dash_i ++ dirs.dash_isystem))

-- The look-up of an angle directive by its name alone.
unfoldable pub cached_by_name : IncludesCache → IncludeType → Bytes → Option (Bytes × IncludeInfo)
cached_by_name cache include_type_quote inc_content = none
cached_by_name cache include_type_angle inc_content =
    get_include_abs_path inc_content cache >>= λ inc_abs_path.
    get_include_info inc_abs_path cache >>= λ info. some (inc_abs_path, info)

-- A loop that ends at the first success.
unfoldable pub unless_resolved : (ParserState → Outcome) → Outcome → Outcome
unless_resolved rest none = none
unless_resolved rest (some (true, s)) = some (true, s)
unless_resolved rest (some (false, s)) = rest s

-- `_inc_directives` is empty when a parser is made.
unfoldable pub new_parser : IncludesCache → ParserState
new_parser cache = record { includes_cache = cache; inc_directives = [] }

-- What is read of a header.
unfoldable pub describe : (Bytes → Bytes) → Bytes → Bytes → IncludeInfo
describe sha1 header_abs_path content = record {
  file_path = header_abs_path;
  child_includes = found_includes content;
  include_sz_bytes = length content;
  include_hash = sha1 content;
}

unfoldable pub store_if_required :
    CmdLineIncludeDirs → IncludeDirective → IncludeInfo → IncludesCache → IncludesCache
store_if_required dirs d info cache =
    if requires_inc_storage info.file_path dirs
    then add_include_entry (cache_key d.inc_type d.inc_content info.file_path) info.file_path info
        cache
    else cache

unfoldable pub add_header :
    CmdLineIncludeDirs → IncludeDirective → IncludeInfo → ParserState → ParserState
add_header dirs d info s = record {
  includes_cache = store_if_required dirs d info s.includes_cache;
  inc_directives = insert info.file_path info s.inc_directives;
}

-- The directives of one file; whether each is resolved is not looked at.
unfoldable pub process_all :
    (Bytes → IncludeDirective → ParserState → Outcome)
    → Bytes
    → List IncludeDirective
    → ParserState
    → Option ParserState
process_all process parent [] s = some s
process_all process parent (d ∷ ds) s =
    process parent d s >>= λ r. process_all process parent ds r.1

module _ (sha1 : Bytes → Bytes) (fs : FileSystem) (dirs : CmdLineIncludeDirs) where
  module _ (process : Bytes → IncludeDirective → ParserState → Outcome) where
    unfoldable pub read_header : Bytes → IncludeDirective → ParserState → Option Bytes → Outcome
    read_header path d s none = some (false, s)
    read_header path d s (some content) =
        process_all process path (found_includes content)
          (add_header dirs d (describe sha1 path content) s)
        >>= λ t. some (true, t)

    unfoldable pub resolve_uncontained :
        Bytes → IncludeDirective → ParserState → Option IncludeInfo → Outcome
    resolve_uncontained path d s (some info) = some (true, set_inc_directive path info s)
    resolve_uncontained path d s none = elim (fs.is_directory path) [
      | true ↦ some (false, s)
      | false ↦ read_header path d s (lookup path fs.files)
    ]

    unfoldable pub try_resolve_header : Bytes → IncludeDirective → ParserState → Outcome
    try_resolve_header path d s = elim (contains path s.inc_directives) [
      | true ↦ some (true, s)
      | false ↦
          resolve_uncontained path d s
            (get_include_info (cache_key d.inc_type d.inc_content path) s.includes_cache)
    ]

    unfoldable pub try_candidates : IncludeDirective → List Bytes → ParserState → Outcome
    try_candidates d [] s = some (false, s)
    try_candidates d (path ∷ paths) s =
        unless_resolved (try_candidates d paths) (try_resolve_header path d s)

    unfoldable pub search_header :
        Bytes → IncludeDirective → ParserState → Option (Bytes × IncludeInfo) → Outcome
    search_header parent d s (some (inc_abs_path, info)) =
        some (true, set_inc_directive inc_abs_path info s)
    search_header parent d s none = try_candidates d (candidates dirs parent d) s

  unfoldable pub process_include_directive : ℕ → Bytes → IncludeDirective → ParserState → Outcome
  process_include_directive zero parent d s = none
  process_include_directive (suc fuel) parent d s =
      search_header (process_include_directive fuel) parent d s
        (cached_by_name s.includes_cache d.inc_type d.inc_content)

  unfoldable pub parse_stream : ℕ → Bytes → List Bytes → ParserState → Option Bytes → Outcome
  parse_stream fuel cpp_abs_path cmd_line_includes s none = some (false, s)
  parse_stream fuel cpp_abs_path cmd_line_includes s (some content) =
      process_all (process_include_directive fuel) cpp_abs_path
        (map angle_directive cmd_line_includes ++ found_includes content) s
      >>= λ t. some (true, t)

  unfoldable pub parse_source_file_includes : ℕ → Bytes → List Bytes → ParserState → Outcome
  parse_source_file_includes fuel cpp_abs_path cmd_line_includes s =
      parse_stream fuel cpp_abs_path cmd_line_includes s (lookup cpp_abs_path fs.files)
