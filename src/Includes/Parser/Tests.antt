-- ===== src/Includes/Parser/Tests.antt =====
-- A source with two headers of its own and one of the system's.
use dist_build_sys.Base.{
  ◌++◌, [], ◌∷◌, ◌≡◌, refl, true, false, some, Bytes, codes, map, all, arith, bytes_eq,
}
use dist_build_sys.Base.Dict.{lookup}
use dist_build_sys.IncludeDirs.{CmdLineIncludeDirs}
use dist_build_sys.Includes.Cache.{empty_cache}
use dist_build_sys.Includes.Parser.{
  FileSystem, ParserState, found_includes, angle_directive, new_parser, parse_source_file_includes,
}
use dist_build_sys.Includes.Parser.Facts.{settled, header_settled, IsValid}
use dist_build_sys.Includes.Parser.Results.{parse_source_file_includes-settled}

abbrev newline : Bytes
newline = b'\n' ∷ []

abbrev tree : FileSystem
tree = record {
  files =
      (codes "/s/m.cc", codes "#include \"a.h\"" ++ newline ++ codes "#include <v.h>")
      ∷ (codes "/s/a.h", codes "#include \"b.h\"")
      ∷ (codes "/s/b.h", codes "int b;")
      ∷ (codes "/usr/v.h", codes "#include <w.h>")
      ∷ (codes "/usr/w.h", codes "int w;")
      ∷ [];
  is_directory = λ path. false;
}

abbrev search_dirs : CmdLineIncludeDirs
search_dirs = record {
  dash_i = codes "/s" ∷ [];
  dash_isystem = codes "/usr" ∷ [];
  dash_iquote = [];
  dash_include = [];
}

empty_cache-IsValid : IsValid (λ content. content) tree search_dirs (new_parser empty_cache)
unfolding new_parser lookup
empty_cache-IsValid = record { cached = λ name info h. absurd cc; found = tt }

parse_source_file_includes-settled_example :
    (t : ParserState) × (parse_source_file_includes
        (λ content. content)
        tree
        search_dirs
        6
        (codes "/s/m.cc")
        []
        (new_parser empty_cache)
      ≡ some (true, t))
    × (all (settled tree search_dirs t (codes "/s/m.cc")) (
          map angle_directive []
          ++ found_includes (codes "#include \"a.h\"" ++ newline ++ codes "#include <v.h>"))
        ≡ true)
    × ((header : Bytes) → header_settled tree search_dirs t (lookup header t.inc_directives) ≡ true)
unfolding lookup bytes_eq
parse_source_file_includes-settled_example =
    parse_source_file_includes-settled (λ content. content) tree search_dirs 6 (omega arith)
      empty_cache empty_cache-IsValid (codes "/s/m.cc")
      (codes "#include \"a.h\"" ++ newline ++ codes "#include <v.h>") refl []
