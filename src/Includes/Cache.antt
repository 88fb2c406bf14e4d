-- ===== src/Includes/Cache.antt =====
-- `IncludesCache` of src/includes_rework.hpp, and the `IncludeInfo` it keeps. One lock guards every operation.
use dist_build_sys.Base.{ℕ, List, [], ◌∷◌, Bool, Option, Bytes, any, bytes_eq}
use dist_build_sys.Base.Dict.{Dict, lookup, insert}
use dist_build_sys.Includes.{IncludeDirective}

pub record IncludeInfo : Type 0 where
  pub file_path : Bytes
  pub child_includes : List IncludeDirective
  pub include_sz_bytes : ℕ
  pub include_hash : Bytes

pub record IncludesCache : Type 0 where
  pub include_abs_paths : Dict Bytes
  pub include_cache_data : Dict IncludeInfo
  pub does_not_exist : List Bytes

abbrev pub empty_cache : IncludesCache
empty_cache = record { include_abs_paths = []; include_cache_data = []; does_not_exist = [] }

unfoldable pub add_include_entry : Bytes → Bytes → IncludeInfo → IncludesCache → IncludesCache
add_include_entry include_name include_abs_path include_info cache = record {
  include_abs_paths = insert include_name include_abs_path cache.include_abs_paths;
  include_cache_data = insert include_name include_info cache.include_cache_data;
  does_not_exist = cache.does_not_exist;
}

unfoldable pub get_include_abs_path : Bytes → IncludesCache → Option Bytes
get_include_abs_path include_name cache = lookup include_name cache.include_abs_paths

unfoldable pub get_include_info : Bytes → IncludesCache → Option IncludeInfo
get_include_info include_name cache = lookup include_name cache.include_cache_data

-- The set of the paths that do not exist is a list; an insertion of a path that is there adds nothing
-- a look-up sees.
unfoldable mark_src_nonexistent : Bytes → IncludesCache → IncludesCache
mark_src_nonexistent marked_abs_path cache = record {
  include_abs_paths = cache.include_abs_paths;
  include_cache_data = cache.include_cache_data;
  does_not_exist = marked_abs_path ∷ cache.does_not_exist;
}

unfoldable is_src_nonexistent : Bytes → IncludesCache → Bool
is_src_nonexistent checked_abs_path cache = any (bytes_eq checked_abs_path) cache.does_not_exist
