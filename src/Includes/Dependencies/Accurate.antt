-- ===== src/Includes/Dependencies/Accurate.antt =====
-- What `collect_src_file_dependencies` of src/compiler_call.cpp hands to the client's request.
use dist_build_sys.Base.{
  ℕ, ◌<◌, List, [], ◌∷◌, ◌≡◌, refl, Bool, true, false, some, Bytes, length, map, All, is_some,
}
use dist_build_sys.Base.Dict.{lookup}
use dist_build_sys.IncludeDirs.{CmdLineIncludeDirs, append_include_dirs}
use dist_build_sys.Includes.Cache.{IncludesCache}
use dist_build_sys.Includes.Parser.{FileSystem, ParserState, new_parser, parse_source_file_includes}
use dist_build_sys.Includes.Parser.Facts.{IsAccurate, IsValid}
use dist_build_sys.Includes.Parser.Results.{parse_source_file_includes-IsValid}
use dist_build_sys.Includes.Dependencies.{Collected, dependencies, collect_src_file_dependencies}

All-map {ℓ κ ι} :
    {A : Type ℓ} {B : Type κ} (P : B → Type ι) (f : A → B) (xs : List A)
    → All (λ x. P (f x)) xs
    → All P (map f xs)
All-map P f [] h = h
All-map P f (x ∷ xs) h = (h.0, All-map P f xs h.1)

dependencies-IsAccurate :
    (sha1 : Bytes → Bytes) (fs : FileSystem) (answer : Bool) (s : ParserState)
    → All (λ entry. IsAccurate sha1 fs entry.1) s.inc_directives
    → All (IsAccurate sha1 fs) (dependencies answer s)
unfolding dependencies
dependencies-IsAccurate sha1 fs false s h = tt
dependencies-IsAccurate sha1 fs true s h =
    All-map (IsAccurate sha1 fs) (λ entry. entry.1) s.inc_directives h

-- With more fuel than there are files, and a cache that is true of the files and keeps only headers which this call would
-- keep, the headers of a source are
-- collected, and each record that is handed over is true of its file: the path of a regular file that can be
-- opened, its size, its hash and its directives. The cache is left so for the next call. They are the records that the
-- parser found, all of them.
pub collect_src_file_dependencies-IsAccurate :
    (sha1 : Bytes → Bytes) (fs : FileSystem) (fuel : ℕ)
    → length fs.files < fuel
    → (cmd_dirs system_dirs : CmdLineIncludeDirs) (cache : IncludesCache)
    → IsValid sha1 fs (append_include_dirs cmd_dirs system_dirs) (new_parser cache)
    → (input_src_file : Bytes)
    → (c : Collected) × (collect_src_file_dependencies sha1 fs fuel cmd_dirs cache input_src_file
          system_dirs
        ≡ some c)
      × All (IsAccurate sha1 fs) c.include_dependencies
      × IsValid sha1 fs (append_include_dirs cmd_dirs system_dirs) (new_parser c.includes_cache)
      × (t : ParserState) × (parse_source_file_includes sha1 fs
            (append_include_dirs cmd_dirs system_dirs)
            fuel
            input_src_file
            (append_include_dirs cmd_dirs system_dirs).dash_include
            (new_parser cache)
          ≡ some (is_some (lookup input_src_file fs.files), t))
      × (c.include_dependencies ≡ dependencies (is_some (lookup input_src_file fs.files)) t)
unfolding collect_src_file_dependencies new_parser
collect_src_file_dependencies-IsAccurate sha1 fs fuel enough cmd_dirs system_dirs cache valid
      input_src_file =
    let all_dirs = append_include_dirs cmd_dirs system_dirs in
    let parsed =
      parse_source_file_includes-IsValid sha1 fs all_dirs fuel enough cache valid input_src_file
        all_dirs.dash_include in
    let answer = is_some (lookup input_src_file fs.files) in
    (
      record {
        cmd_line_include_dirs = all_dirs;
        includes_cache = parsed.0.includes_cache;
        include_dependencies = dependencies answer parsed.0;
      },
      rw (parsed.1),
      dependencies-IsAccurate sha1 fs answer parsed.0 parsed.2.found,
      record { cached = parsed.2.cached; found = tt },
      parsed.0,
      parsed.1,
      refl,
    )
