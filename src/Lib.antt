-- ===== src/Lib.antt =====
-- A model of the distributed build system: a wrapper stands in for the compiler and passes its command
-- line to the client's daemon over a local socket; the client picks a server, announces the source
-- file and its headers, and uploads the ones that the server asks for; the server compiles with a
-- pool of threads and sends the object file back, with which the client answers the wrapper.
--
-- Paths are from the repository's root.
--   Ipc          src/unix_ipc_socket.hpp (Manager), src/distbuild_wrapper.cpp (Wrapper)
--   CommandLine  src/compiler_call.hpp, src/compiler_call.cpp: initialize_compiler_call
--   IncludeDirs  src/includes_rework.hpp: CmdLineIncludeDirs
--   Includes     src/includes_rework.cpp: find_file_includes, requires_inc_storage; Cache is IncludesCache,
--                Parser is SourceFileParser, Dependencies is collect_src_file_dependencies of
--                src/compiler_call.cpp
--   DepFiles     src/dep_files.hpp, src/dep_files.cpp: Parse is the reader, State the options
--   Listener     src/resource_listener.hpp
--   Messages     support/distbuild_messages.proto
--   Paths        src/file_state_view.hpp: the conversions of paths
--   Client       src/client_session.cpp: SendFile is _send_required_file, ReceiveObject is
--                _process_obj_file_chunk, Session is _handle_client_session, Writer is send_msg and
--                _writer_loop; src/client.cpp: Connect is connect_to_server with start_client_session,
--                Handler is _handle_ipc_request
--   Server       src/client_view.cpp (Files, View), src/server_session.cpp (Upload: process_file_chunk,
--                Arguments: preprocess_compiler_call, Session: try_request_src_compilation, Object:
--                send_compilation_result, Writer: send_msg and _writer_loop; View: the switch of
--                handle_server_session, View.Loop its loop), src/client_views_storage.hpp and src/server.cpp (Connect)
--   Framing      src/proto_io.cpp, src/proto_io.hpp: a message on the TCP stream
--   Handshake    connect_to_server against handle_new_connection
--   Transport    the client's writer against the server's loop, over one connection
--   Compiler     src/compiler_manager.hpp, src/compiler_manager.cpp; Steps has the worker threads
--   Base         lists, byte strings, maps and 32-bit integers that the others share
-- A function has the name of the source's without a leading underscore. Modules named for a proof
-- (Laws, Whole, RoundTrip, Invariant, ...) hold what is proved; Tests hold concrete runs.
--
-- State. A class is a record of its members; a method takes the record and returns it. A map is an
-- association list. A pointer to a session is the session's id, a pointer into the map of file states
-- the path that is its key. Files are a map from path to content; a stream writes behind what its
-- file holds. Worker threads are a list, and a step relation has every order of their critical
-- sections. invalidate_requests_for_session takes no lock, so each of its writes is a step of its own. An exception or a read out of bounds is `none` or a constructor of its own.
--
-- Numbers. Sizes and times are natural numbers; sequence numbers and the counter of active jobs wrap
-- at 2 ^ 64, lengths in a frame at 2 ^ 32. Buffer sizes are arguments; the source has 64 KiB.
--
-- Fuel. The loops that read a file in pieces, the loops of the dependency file's reader and
-- `replace_all` run on one more than the number of bytes that are left. Every round takes a byte, so
-- no loop runs out, except that `replace_all` of an empty text does not end in the source.
--
-- The search for headers calls itself through a fuel. Every call enters a path that can be opened and was
-- not entered before, so one more than the number of such paths is enough; the system bounds the length of a
-- path, and so their number.  A loop over a stream takes a message in each round.
--
-- Not modelled: the sockets' accept loops, the timers and the coroutines' scheduling; the protocol
-- buffers' encoding, which is generated; the hash function, the random index, the clock and
-- weakly_canonical, which are arguments; the compiler processes; the question for the system's include
-- directories, which runs a compiler; changes of files while a source is parsed, and two parsers at once on
-- one cache; the storages of objects and sources and the LRU storage, which the program does not call; the configuration.
pub mod Base
pub mod Client
pub mod CommandLine
pub mod Compiler
pub mod DepFiles
pub mod Framing
pub mod Handshake
pub mod IncludeDirs
pub mod Includes
pub mod Ipc
pub mod Listener
pub mod Messages
pub mod Paths
pub mod Server
pub mod Transport
