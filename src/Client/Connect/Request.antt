-- ===== src/Client/Connect/Request.antt =====
-- The request that a client makes for a call, src/client.cpp.
use dist_build_sys.Base.{
  ℕ, ◌<◌, ◌≡◌, refl, ap, ◌∙◌, true, is_some, List, [], ◌∷◌, false, some, Bytes, length, map, All,
  ◌>>=◌,
}
use dist_build_sys.Base.Dict.{Dict, lookup}
use dist_build_sys.Messages.{FileInfo}
use dist_build_sys.IncludeDirs.{CmdLineIncludeDirs, append_include_dirs, cnvt_to_cmd_line_args}
use dist_build_sys.Includes.Cache.{IncludeInfo, IncludesCache}
use dist_build_sys.Includes.Parser.{
  FileSystem, ParserState, new_parser, describe, parse_source_file_includes,
}
use dist_build_sys.Includes.Parser.Facts.{IsAccurate, IsValid}
use dist_build_sys.Includes.Dependencies.{dependencies}
use dist_build_sys.Includes.Dependencies.Accurate.{collect_src_file_dependencies-IsAccurate}
use dist_build_sys.CommandLine.{CompilerCall}
use dist_build_sys.Client.Connect.{
  Prepared, header_file_info, read_source_info, start_request, prepare_request,
}

-- What is announced of a file is what the client's disk holds.
unfoldable pub IsTrueOf : (Bytes → Bytes) → FileSystem → FileInfo → Type 0
IsTrueOf sha1 fs info =
    (content : Bytes) × (lookup info.filename fs.files ≡ some content)
    × (fs.is_directory info.filename ≡ false)
    × (info.filesize ≡ length content)
    × (info.filehash ≡ sha1 content)

header-IsTrueOf :
    (sha1 : Bytes → Bytes) (fs : FileSystem) (info : IncludeInfo)
    → IsAccurate sha1 fs info
    → IsTrueOf sha1 fs (header_file_info info)
unfolding IsAccurate IsTrueOf header_file_info describe
header-IsTrueOf sha1 fs info (content, stored, plain, e) =
    (content, stored, plain, ap (λ i. i.include_sz_bytes) e, ap (λ i. i.include_hash) e)

headers-IsTrueOf :
    (sha1 : Bytes → Bytes) (fs : FileSystem) (infos : List IncludeInfo)
    → All (IsAccurate sha1 fs) infos
    → All (IsTrueOf sha1 fs) (map header_file_info infos)
headers-IsTrueOf sha1 fs [] h = tt
headers-IsTrueOf sha1 fs (info ∷ infos) h =
    (header-IsTrueOf sha1 fs info h.0, headers-IsTrueOf sha1 fs infos h.1)

names :
    (infos : List IncludeInfo)
    → map (λ info. info.filename) (map header_file_info infos) ≡ map (λ info. info.file_path) infos
unfolding header_file_info
names [] = refl
names (info ∷ infos) = ap (◌∷◌ info.file_path) (names infos)

found_names :
    (entries : Dict IncludeInfo)
    → map (λ info. info.file_path) (map (λ entry. entry.1) entries)
      ≡ map (λ entry. entry.1.file_path) entries
found_names [] = refl
found_names (entry ∷ entries) = ap (◌∷◌ entry.1.file_path) (found_names entries)

-- For a source that is a regular file, with more fuel than there are files, and a cache whose every header is
-- true of its file and of the kind that this call's directories let the cache keep: the client makes its
-- request. The files that it announces are the source and then all headers that the parser finds, each of them a
-- regular file on its disk with that size and that hash, and the options are those of the call's directories.
pub prepare_request-IsTrueOf :
    (sha1 : Bytes → Bytes) (fs : FileSystem) (fuel : ℕ)
    → length fs.files < fuel
    → (client_uuid : Bytes) (call : CompilerCall) (cache : IncludesCache)
      (system_dirs : CmdLineIncludeDirs)
    → IsValid sha1 fs
        (append_include_dirs call.cmd_line_include_dirs system_dirs)
        (new_parser cache)
    → (content : Bytes) → lookup call.input_src_file fs.files ≡ some content
    → fs.is_directory call.input_src_file ≡ false
    → (p : Prepared) × (prepare_request sha1 fs fuel client_uuid call cache system_dirs ≡ some p)
      × All (IsTrueOf sha1 fs) p.request.required_files_info
      × ((t : ParserState) × (parse_source_file_includes sha1 fs
              (append_include_dirs call.cmd_line_include_dirs system_dirs)
              fuel
              call.input_src_file
              (append_include_dirs call.cmd_line_include_dirs system_dirs).dash_include
              (new_parser cache)
            ≡ some (true, t))
          × (map (λ info. info.filename) p.request.required_files_info
              ≡ call.input_src_file ∷ map (λ entry. entry.1.file_path) t.inc_directives))
      × (p.request.client_id ≡ client_uuid)
      × (cnvt_to_cmd_line_args call.cmd_line_include_dirs ≡ p.request.client_idirs)
unfolding prepare_request read_source_info start_request IsTrueOf dependencies
prepare_request-IsTrueOf sha1 fs fuel enough client_uuid call cache system_dirs valid content stored
      plain =
    let collected =
      collect_src_file_dependencies-IsAccurate sha1 fs fuel enough call.cmd_line_include_dirs
        system_dirs cache valid call.input_src_file in
    let t = collected.4 in
    let source : FileInfo = record {
      filename = call.input_src_file;
      filesize = length content;
      filehash = sha1 content;
    } in
    (
      record {
        request = start_request client_uuid source call collected.0.include_dependencies;
        collected = collected.0;
      },
      rw (stored, read_source_info, plain, ◌>>=◌, collected.1),
      (
        (content, stored, plain, refl, refl),
        headers-IsTrueOf sha1 fs collected.0.include_dependencies collected.2,
      ),
      (
        t,
        collected.5 ∙ ap (λ o. some (is_some o, t)) stored,
        ap (◌∷◌ call.input_src_file) (
            names collected.0.include_dependencies
            ∙ (ap (map (λ info. info.file_path))
                  (collected.6 ∙ ap (λ o. dependencies (is_some o) t) stored)
                ∙ found_names t.inc_directives)),
      ),
      refl,
      refl,
    )
