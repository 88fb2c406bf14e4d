-- ===== src/Compiler.antt =====
-- src/compiler_manager.hpp and src/compiler_manager.cpp: the queue of compilation requests and the
-- pool of worker threads. A session pointer is the session's id; the compiler process itself is not
-- modelled. What a thread does under the mutex is one function; `Steps` interleaves the threads.
-- `invalidate_requests_for_session` takes no lock: it stands here as a run of its loop that nothing interrupts, and
-- `Steps` takes it apart.
pub mod Steps
mod Invariant
mod Order
mod Invalidation
mod Tests
use dist_build_sys.Base.{
  ℕ, ◌+◌, ◌-◌, ◌%◌, ◌^◌, List, [], ◌∷◌, ◌++◌, Bool, true, false, not, ◌&&◌, ◌||◌, Bytes, bytes_eq,
  is_empty, ltb, if◌then◌else◌,
}
use dist_build_sys.Base.Int.{ℤ}

pub record CompilationRequest : Type 0 where
  pub invalidated : Bool
  pub requester_session : Bytes
  pub compiler_name : Bytes
  pub cmd_line_args : List Bytes
  pub current_working_dir : Bytes

pub record CompilationOutput : Type 0 where
  pub stdout_data : Bytes
  pub stderr_data : Bytes
  pub compiling_duration : ℤ
  pub exit_code : ℤ

pub record CompilerManager : Type 0 where
  pub thread_pool_sz : ℕ
  pub active_compile_jobs : ℕ
  pub compile_task_queue : List CompilationRequest
  pub stop_threads : Bool

-- The constructor; its threads are in `Steps`.
abbrev pub new_manager : ℕ → CompilerManager
new_manager thread_pool_sz = record {
  thread_pool_sz = thread_pool_sz;
  active_compile_jobs = 0;
  compile_task_queue = [];
  stop_threads = false;
}

unfoldable pub add_compilation_request : CompilationRequest → CompilerManager → CompilerManager
add_compilation_request rqst m = record m { compile_task_queue = m.compile_task_queue ++ rqst ∷ [] }

unfoldable pub invalidate_all : Bytes → List CompilationRequest → List CompilationRequest
invalidate_all session [] = []
invalidate_all session (rqst ∷ rest) =
    (if bytes_eq rqst.requester_session session then record rqst { invalidated = true } else rqst)
    ∷ invalidate_all session rest

unfoldable pub invalidate_requests_for_session : Bytes → CompilerManager → CompilerManager
unfolding invalidate_all
invalidate_requests_for_session session m = record m {
  compile_task_queue = invalidate_all session m.compile_task_queue;
}

-- `size_t` subtraction, which wraps.
pub get_available_jobs : CompilerManager → ℕ
get_available_jobs m = (m.thread_pool_sz + 2 ^ 64 - m.active_compile_jobs) % 2 ^ 64

-- The condition that `_cv.wait` waits for.
pub may_proceed : CompilerManager → Bool
may_proceed m =
    m.stop_threads
    || (not (is_empty m.compile_task_queue) && ltb m.active_compile_jobs m.thread_pool_sz)

-- `return`, `continue`, `continue` behind an invalidated request, and on to compile.
pub data Taken : Type 0 where
  exits again : Taken
  drops compiles : CompilationRequest → Taken

pop_task : CompilerManager → List CompilationRequest → CompilerManager × Taken
pop_task m [] = (m, again)
pop_task m (rqst ∷ rest) =
    let popped = record m { compile_task_queue = rest } in
    if rqst.invalidated then (popped, drops rqst) else (
      record popped { active_compile_jobs = (m.active_compile_jobs + 1) % 2 ^ 64 },
      compiles rqst,
    )

-- The first critical section of `_worker_loop`, from the end of the wait.
pub take_task : CompilerManager → CompilerManager × Taken
unfolding pop_task
take_task m =
    if m.stop_threads && is_empty m.compile_task_queue
    then (m, exits)
    else if not (ltb m.active_compile_jobs m.thread_pool_sz)
    then (m, again)
    else pop_task m m.compile_task_queue

-- The second: `_active_compile_jobs.fetch_sub(1)`.
pub finish_task : CompilerManager → CompilerManager
finish_task m = record m { active_compile_jobs = (m.active_compile_jobs + (2 ^ 64 - 1)) % 2 ^ 64 }

-- The destructor's first part.
pub stop : CompilerManager → CompilerManager
stop m = record m { stop_threads = true }
