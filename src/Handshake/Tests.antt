-- ===== src/Handshake/Tests.antt =====
-- A client that connects to a server which does not know it.
use dist_build_sys.Base.{◌≡◌, refl, [], ◌∷◌, false, some, codes, bytes_eq, arith}
use dist_build_sys.Base.Int.{pos}
use dist_build_sys.Base.Dict.{lookup}
use dist_build_sys.IncludeDirs.{no_dirs, append_include_dirs}
use dist_build_sys.Includes.Cache.{empty_cache}
use dist_build_sys.Includes.Parser.{FileSystem, new_parser, parse_source_file_includes}
use dist_build_sys.Includes.Parser.Facts.{IsValid}
use dist_build_sys.CommandLine.{CompilerCall, call_type_compile}
use dist_build_sys.Compiler.{new_manager}
use dist_build_sys.Messages.{ClientMessage}
use dist_build_sys.Client.Session.{LocalOutput}
use dist_build_sys.Server.Connect.{ServerState, handle_new_connection}
use dist_build_sys.Client.Connect.{nil_uuid, ClientTables, prepare_request, connect_to_server}
use dist_build_sys.Handshake.{Established, connect_to_server-handle_new_connection}

abbrev disk : FileSystem
disk = record {
  files = (codes "/s/m.cc", codes "#include \"a.h\"") ∷ (codes "/s/a.h", codes "int a;") ∷ [];
  is_directory = λ path. false;
}

abbrev call : CompilerCall
call = record {
  cmd_line_include_dirs = no_dirs;
  dep_cmd_state = record {
    md_flag_present = false;
    mmd_flag_present = false;
    mp_flag_present = false;
    mf_flag_path = [];
    mt_flag_paths = [];
  };
  compiler_call_type = call_type_compile;
  current_working_dir = codes "/s";
  input_src_file = codes "/s/m.cc";
  output_obj_file = codes "m.o";
  compiler_type = codes "/usr/bin/g++";
  cmd_line_args = codes "-c" ∷ [];
}

abbrev local_output : LocalOutput
local_output = record {
  compiler_exit_code = pos 0;
  stdout_str = [];
  stderr_str = [];
  compilation_duration = pos 1;
}

empty_cache-IsValid :
    IsValid (λ content. content) disk (append_include_dirs no_dirs no_dirs) (new_parser empty_cache)
unfolding new_parser lookup
empty_cache-IsValid = record { cached = λ name info h. absurd cc; found = tt }

source_stored : lookup (codes "/s/m.cc") disk.files ≡ some (codes "#include \"a.h\"")
unfolding lookup bytes_eq
source_stored = refl

abbrev no_tables : ClientTables
no_tables = record { client_sessions = []; client_compiler_calls = [] }

abbrev new_server : ServerState
new_server = record { client_views = []; manager = new_manager 2; files = []; sent = [] }

connect_to_server-handle_new_connection_example :
    Established
      (codes "id")
      (codes "u")
      (codes "/s/m.cc")
      new_server
      (parse_source_file_includes
        (λ content. content)
        disk
        (append_include_dirs no_dirs no_dirs)
        3
        (codes "/s/m.cc")
        (append_include_dirs no_dirs no_dirs).dash_include
        (new_parser empty_cache))
      (prepare_request (λ content. content) disk 3 (codes "id") call empty_cache no_dirs)
      (λ p.
        handle_new_connection
          (λ text. some text)
          (codes "g++")
          7
          (codes "u")
          (ClientMessage.session_start p.request)
          new_server)
      (λ answer.
        connect_to_server
          (λ content. content)
          disk
          (λ text. some text)
          (λ path. path)
          local_output
          3
          nil_uuid
          (codes "id")
          call
          empty_cache
          no_dirs
          no_tables
          (λ request. answer))
unfolding lookup
connect_to_server-handle_new_connection_example =
    connect_to_server-handle_new_connection (λ content. content) (λ text. some text) (λ path. path)
      local_output disk 3 (omega arith) nil_uuid (codes "id") (codes "u") refl refl call empty_cache
      no_dirs empty_cache-IsValid (codes "#include \"a.h\"") source_stored refl no_tables refl refl
      (codes "g++") 7 new_server
