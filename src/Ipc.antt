-- ===== src/Ipc.antt =====
-- src/unix_ipc_socket.hpp and src/distbuild_wrapper.cpp: the messages between the compiler wrapper
-- and the daemon, over a local stream socket. `Manager` is the daemon's side and `Wrapper` the other.
pub mod Manager
pub mod Wrapper
pub mod Codec
pub mod RoundTrip
pub mod Exchange
mod Tests
use dist_build_sys.Base.{List, Bytes}
use dist_build_sys.Base.Int.{ℤ}

pub record UnixIpcRequest : Type 0 where
  pub current_working_dir : Bytes
  pub cmd_line_args : List Bytes

pub record UnixIpcResponse : Type 0 where
  pub compiler_exit_code : ℤ
  pub stdout_content : Bytes
  pub stderr_content : Bytes
