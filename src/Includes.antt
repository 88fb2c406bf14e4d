-- ===== src/Includes.antt =====
-- The scanner of src/includes_rework.cpp: `find_file_includes` and `requires_inc_storage`. The stream is
-- the file's content; `none` is a stream that is not open.
pub mod Cache
pub mod Dependencies
pub mod Parser
pub mod Scan
mod Tests
use dist_build_sys.Base.{
  ℕ, List, [], ◌∷◌, Bool, true, false, ◌||◌, ◌&&◌, not, Option, none, some, Bytes, codes, ◌==◌, leb,
  any, drop, starts_with, if◌then◌else◌, ◌>>=◌,
}
use dist_build_sys.IncludeDirs.{CmdLineIncludeDirs}

pub data IncludeType : Type 0 where
  include_type_angle include_type_quote : IncludeType

pub record IncludeDirective : Type 0 where
  pub inc_content : Bytes
  pub inc_type : IncludeType

-- What follows the first occurrence of a byte, and what precedes it.
pub behind_byte : ℕ → Bytes → Option Bytes
behind_byte c [] = none
behind_byte c (x ∷ s) = if x == c then some s else behind_byte c s

pub before_byte : ℕ → Bytes → Option Bytes
before_byte c [] = none
before_byte c (x ∷ s) =
    let later = before_byte c s >>= (λ t. some (x ∷ t)) in if x == c then some [] else later

-- `std::isspace` in the C locale, and the loops over it.
pub is_white : ℕ → Bool
is_white c = (c == 32) || (leb 9 c && leb c 13)

pub skip_white : Bytes → Bytes
skip_white [] = []
skip_white (c ∷ s) = if is_white c then skip_white s else c ∷ s

-- What follows the keyword, the longer one first.
pub behind_keyword : Bytes → Option Bytes
behind_keyword s =
    if starts_with s (codes "include_next")
    then some (drop 12 s)
    else if starts_with s (codes "include")
    then some (drop 7 s)
    else none

pub directive : IncludeType → Option Bytes → Option IncludeDirective
directive type none = none
directive type (some included_file) = some (record { inc_content = included_file; inc_type = type })

-- The name between its delimiters.
pub delimited : Bytes → Option IncludeDirective
delimited [] = none
delimited (c ∷ s) =
    if c == 60
    then directive include_type_angle (before_byte 62 s)
    else if c == 34
    then directive include_type_quote (before_byte 34 s)
    else none

-- One round of the loop over the lines.
pub scan_line : Bytes → Option IncludeDirective
scan_line line = behind_byte 35 line >>= λ rest.
    behind_keyword (skip_white rest) >>= λ name. delimited (skip_white name)

-- The lines, as `std::getline` gives them; an empty last one is given here too, and says nothing.
pub add_to_line : ℕ → List Bytes → List Bytes
add_to_line c [] = (c ∷ []) ∷ []
add_to_line c (line ∷ lines) = (c ∷ line) ∷ lines

pub split_lines : Bytes → List Bytes
split_lines [] = [] ∷ []
split_lines (c ∷ s) = if c == 10 then [] ∷ split_lines s else add_to_line c (split_lines s)

pub collect : Option IncludeDirective → List IncludeDirective → List IncludeDirective
collect none found = found
collect (some d) found = d ∷ found

pub scan_lines : List Bytes → List IncludeDirective
scan_lines [] = []
scan_lines (line ∷ lines) = collect (scan_line line) (scan_lines lines)

pub find_file_includes : Option Bytes → Option (List IncludeDirective)
find_file_includes none = none
find_file_includes (some content) = some (scan_lines (split_lines content))

-- `requires_inc_storage`
unfoldable pub requires_inc_storage : Bytes → CmdLineIncludeDirs → Bool
requires_inc_storage include_filename system_inc_dirs =
    not (any (starts_with include_filename) system_inc_dirs.dash_i)
    && any (starts_with include_filename) system_inc_dirs.dash_isystem
