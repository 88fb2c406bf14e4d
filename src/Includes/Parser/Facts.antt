-- ===== src/Includes/Parser/Facts.antt =====
-- What a search of src/includes_rework.cpp keeps true of the cache and of the headers found.
use dist_build_sys.Base.{
  ◌≡◌, ◌⊎◌, Bool, true, false, not, ◌||◌, Option, some, none, Bytes, any, all, All, is_some,
}
use dist_build_sys.Base.Dict.{lookup, contains}
use dist_build_sys.IncludeDirs.{CmdLineIncludeDirs}
use dist_build_sys.Includes.{
  IncludeType, include_type_angle, include_type_quote, IncludeDirective, requires_inc_storage,
}
use dist_build_sys.Includes.Cache.{IncludeInfo}
use dist_build_sys.Includes.Parser.{FileSystem, ParserState, candidates, describe}

-- The cache gives a path to the name, and the header at that path was found.
unfoldable pub is_entered : ParserState → Option Bytes → Bool
is_entered s none = false
is_entered s (some inc_abs_path) = contains inc_abs_path s.inc_directives

-- An angle directive whose name the cache knows, at the path of a header that was found.
unfoldable pub is_known : ParserState → IncludeType → Bytes → Bool
is_known s include_type_angle inc_content =
    is_entered s (lookup inc_content s.includes_cache.include_abs_paths)
is_known s include_type_quote inc_content = false

-- No header can be read at the path.
abbrev pub is_unreadable : FileSystem → Bytes → Bool
is_unreadable fs path = fs.is_directory path || not (is_some (lookup path fs.files))

module _ (fs : FileSystem) (dirs : CmdLineIncludeDirs) where
  -- A directive is settled if a header is found at one of its paths, if none of them can be read, or if a header
  -- is found at the path under which the cache knows its name.
  unfoldable pub settled : ParserState → Bytes → IncludeDirective → Bool
  settled s parent d =
      any (λ path. contains path s.inc_directives) (candidates dirs parent d)
      || all (is_unreadable fs) (candidates dirs parent d)
      || is_known s d.inc_type d.inc_content

  -- A header that was found, and that is not of the kind which the cache keeps, has its own directives settled.
  unfoldable pub header_settled : ParserState → Option IncludeInfo → Bool
  header_settled s none = true
  header_settled s (some info) =
      requires_inc_storage info.file_path dirs || all (settled s info.file_path) info.child_includes

  -- What one call adds. A header that is not of the kind the cache keeps is added with its own directives settled.
  pub record Extends (s t : ParserState) : Type 0 where
    pub grown :
        (path : Bytes)
        → contains path s.inc_directives ≡ true
        → contains path t.inc_directives ≡ true
    pub named :
        (name : Bytes)
        → is_entered s (lookup name s.includes_cache.include_abs_paths) ≡ true
        → is_entered t (lookup name t.includes_cache.include_abs_paths) ≡ true
    pub fresh :
        (path : Bytes) (info : IncludeInfo)
        → requires_inc_storage info.file_path dirs ≡ false
        → lookup path t.inc_directives ≡ some info
        → (lookup path s.inc_directives ≡ some info)
          ⊎ (all (settled t info.file_path) info.child_includes ≡ true)

-- All that the record of a header says is what its file says.
unfoldable pub IsAccurate : (Bytes → Bytes) → FileSystem → IncludeInfo → Type 0
IsAccurate sha1 fs info =
    (content : Bytes) × (lookup info.file_path fs.files ≡ some content)
    × (fs.is_directory info.file_path ≡ false)
    × (info ≡ describe sha1 info.file_path content)

module _ (sha1 : Bytes → Bytes) (fs : FileSystem) (dirs : CmdLineIncludeDirs) where
  pub record IsValid (s : ParserState) : Type 0 where
    pub cached :
        (name : Bytes) (info : IncludeInfo)
        → lookup name s.includes_cache.include_cache_data ≡ some info
        → IsAccurate sha1 fs info × (requires_inc_storage info.file_path dirs ≡ true)
    pub found : All (λ entry. IsAccurate sha1 fs entry.1) s.inc_directives
