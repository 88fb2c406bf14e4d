-- ===== src/Includes/Tests.antt =====
-- Two lines of a source file.
use dist_build_sys.Base.{◌≡◌, refl, [], ◌∷◌, map, some, codes}
use dist_build_sys.Includes.{include_type_angle, include_type_quote, find_file_includes, is_white}
use dist_build_sys.Includes.Scan.{Line, IsLine, meant, contents, find_file_includes-contents}

abbrev angle : Line
angle = record {
  before = [];
  blanks = [];
  spaces = codes " ";
  name = codes "vector";
  after = [];
  type = include_type_angle;
}

abbrev quote : Line
quote = record {
  before = codes "  ";
  blanks = codes " ";
  spaces = [];
  name = codes "a b.h";
  after = codes " // #";
  type = include_type_quote;
}

angle-IsLine : IsLine angle
unfolding is_white
angle-IsLine = record { first = refl; blank = refl; space = refl; closed = refl; one_line = refl }

quote-IsLine : IsLine quote
unfolding is_white
quote-IsLine = record { first = refl; blank = refl; space = refl; closed = refl; one_line = refl }

find_file_includes-contents_example :
    find_file_includes (some (contents (angle ∷ quote ∷ [])))
    ≡ some (map meant (angle ∷ quote ∷ []))
find_file_includes-contents_example =
    find_file_includes-contents (angle ∷ quote ∷ []) (angle-IsLine, (quote-IsLine, tt))
