-- ===== src/Compiler/Steps.antt =====
-- The worker threads as a list, and every interleaving of their critical sections with the calls of
-- other threads. `invalidate_requests_for_session` takes no lock, so its loop is not one step: `flag`
-- writes one queued request, and other threads step in between; a write that comes after a thread's copy of the
-- request was taken changes nothing. That an iterator dies under the loop is not modelled. `added` and `popped` record the requests in the order of their arrival and removal.
use dist_build_sys.Base.{ℕ, zero, suc, ◌≡◌, List, [], ◌∷◌, ◌++◌, true}
use dist_build_sys.Compiler.{
  CompilationRequest, CompilerManager, new_manager, add_compilation_request, get_available_jobs,
  may_proceed, Taken, exits, again, drops, compiles, take_task, finish_task, stop,
}

-- Where a thread stands in `_worker_loop`: before the first critical section, before the first call of
-- `set_available_compiler_jobs`, in `_compile_src`, before the second call, before
-- `publish_compilation_results`, behind the loop.
pub data Worker : Type 0 where
  idle exited : Worker
  started compiling finished publishing : CompilationRequest → Worker

pub record Pool : Type 0 where
  pub manager : CompilerManager
  pub workers : List Worker
  pub advertised : ℕ
  pub added : List CompilationRequest
  pub popped : List CompilationRequest

-- The threads that a pool of `n` starts.
unfoldable pub threads : ℕ → List Worker
threads zero = []
threads (suc n) = idle ∷ threads n

-- The jobs that the broadcaster announces at first are its own constant.
unfoldable pub start : ℕ → ℕ → Pool
unfolding threads
start n advertised = record {
  manager = new_manager n;
  workers = threads n;
  advertised = advertised;
  added = [];
  popped = [];
}

-- What the outcome of the first critical section makes of the thread, and the request it removed.
unfoldable pub next_worker : Taken → Worker
next_worker exits = exited
next_worker again = idle
next_worker (drops rqst) = idle
next_worker (compiles rqst) = started rqst

unfoldable pub removed : Taken → List CompilationRequest
removed exits = []
removed again = []
removed (drops rqst) = rqst ∷ []
removed (compiles rqst) = rqst ∷ []

pub data Step (p : Pool) : Pool → Type 0 where
  add :
      (rqst : CompilationRequest)
      → Step p (record p {
        manager = add_compilation_request rqst p.manager;
        added = p.added ++ rqst ∷ [];
      })
  flag :
      (before after : List CompilationRequest) (rqst : CompilationRequest)
      → p.manager.compile_task_queue ≡ before ++ (rqst ∷ after)
      → Step p (record p {
        manager = record p.manager {
          compile_task_queue = before ++ (record rqst { invalidated = true } ∷ after);
        };
      })
  stops : Step p (record p { manager = stop p.manager })
  take :
      (before after : List Worker)
      → p.workers ≡ before ++ (idle ∷ after)
      → may_proceed p.manager ≡ true
      → Step p (record p {
        manager = (take_task p.manager).0;
        workers = before ++ (next_worker (take_task p.manager).1 ∷ after);
        popped = p.popped ++ removed (take_task p.manager).1;
      })
  announce_start :
      (before after : List Worker) (rqst : CompilationRequest)
      → p.workers ≡ before ++ (started rqst ∷ after)
      → Step p (record p {
        workers = before ++ (compiling rqst ∷ after);
        advertised = get_available_jobs p.manager;
      })
  finish :
      (before after : List Worker) (rqst : CompilationRequest)
      → p.workers ≡ before ++ (compiling rqst ∷ after)
      → Step p (record p {
        manager = finish_task p.manager;
        workers = before ++ (finished rqst ∷ after);
      })
  announce_end :
      (before after : List Worker) (rqst : CompilationRequest)
      → p.workers ≡ before ++ (finished rqst ∷ after)
      → Step p (record p {
        workers = before ++ (publishing rqst ∷ after);
        advertised = get_available_jobs p.manager;
      })
  publish :
      (before after : List Worker) (rqst : CompilationRequest)
      → p.workers ≡ before ++ (publishing rqst ∷ after)
      → Step p (record p { workers = before ++ (idle ∷ after) })

pub data Reach (p : Pool) : Pool → Type 0 where
  here : Reach p p
  next : {q r : Pool} → Reach p q → Step q r → Reach p r
