-- ===== src/Compiler/Tests.antt =====
-- A pool of two threads at work, and the theorems at states that it reaches.
use dist_build_sys.Base.{
  ◌+◌, ◌≤◌, ◌≡◌, ◌≢◌, refl, [], ◌∷◌, ◌++◌, false, Bytes, codes, bytes_eq, arith,
}
use dist_build_sys.Compiler.{
  CompilationRequest, add_compilation_request, invalidate_requests_for_session, get_available_jobs,
  may_proceed, take_task,
}
use dist_build_sys.Compiler.Steps.{
  Pool, idle, threads, start, next_worker, removed, Reach, here, next, add, take, announce_start,
  compiling,
}
use dist_build_sys.Compiler.Invariant.{jobs, available_jobs_exact, advertised_bounded}
use dist_build_sys.Compiler.Order.{InOrder, requests-InOrder}
use dist_build_sys.Compiler.Invalidation.{
  Quiet, invalidate_requests-AllInvalid, invalidated_not_compiled,
}

abbrev rqst : Bytes → CompilationRequest
rqst session = record {
  invalidated = false;
  requester_session = session;
  compiler_name = codes "cc";
  cmd_line_args = [];
  current_working_dir = codes "/w";
}

program : Unit {0}
unfolding start threads next_worker removed add_compilation_request take_task may_proceed
program = tt

abbrev one_queued : Pool
one_queued = record (start 2 8) {
  manager = add_compilation_request (rqst (codes "s")) (start 2 8).manager;
  added = (start 2 8).added ++ rqst (codes "s") ∷ [];
}

abbrev one_taken : Pool
one_taken = record one_queued {
  manager = (take_task one_queued.manager).0;
  workers = [] ++ (next_worker (take_task one_queued.manager).1 ∷ idle ∷ []);
  popped = one_queued.popped ++ removed (take_task one_queued.manager).1;
}

one_taken-Reach : Reach (start 2 8) one_taken
unfolding program
one_taken-Reach = next (next here (add (rqst (codes "s")))) (take [] (idle ∷ []) refl refl)

available_jobs_exact_example :
    (one_taken.manager.active_compile_jobs ≡ jobs one_taken.workers)
    × (jobs one_taken.workers ≤ 2)
    × (get_available_jobs one_taken.manager + jobs one_taken.workers ≡ 2)
available_jobs_exact_example = available_jobs_exact 2 8 (omega arith) one_taken-Reach

requests-InOrder_example : InOrder one_taken
requests-InOrder_example = requests-InOrder 2 8 one_taken-Reach

-- The thread tells the broadcaster that one job is left.
abbrev modest_queued : Pool
modest_queued = record (start 2 2) {
  manager = add_compilation_request (rqst (codes "s")) (start 2 2).manager;
  added = (start 2 2).added ++ rqst (codes "s") ∷ [];
}

abbrev modest_taken : Pool
modest_taken = record modest_queued {
  manager = (take_task modest_queued.manager).0;
  workers = [] ++ (next_worker (take_task modest_queued.manager).1 ∷ idle ∷ []);
  popped = modest_queued.popped ++ removed (take_task modest_queued.manager).1;
}

abbrev announced : Pool
announced = record modest_taken {
  workers = [] ++ (compiling (rqst (codes "s")) ∷ (idle ∷ []));
  advertised = get_available_jobs modest_taken.manager;
}

announced-Reach : Reach (start 2 2) announced
unfolding program
announced-Reach =
    next (next (next here (add (rqst (codes "s")))) (take [] (idle ∷ []) refl refl))
      (announce_start [] (idle ∷ []) (rqst (codes "s")) refl)

advertised_bounded_example : announced.advertised ≤ 2
advertised_bounded_example = advertised_bounded 2 2 (omega arith) (omega arith) announced-Reach

-- Two sessions with a request each.
abbrev two_queued : Pool
two_queued = record one_queued {
  manager = add_compilation_request (rqst (codes "t")) one_queued.manager;
}

abbrev s_invalid : Pool
s_invalid = record two_queued {
  manager = invalidate_requests_for_session (codes "s") two_queued.manager;
}

abbrev s_dropped : Pool
s_dropped = record s_invalid {
  manager = (take_task s_invalid.manager).0;
  workers = [] ++ (next_worker (take_task s_invalid.manager).1 ∷ idle ∷ []);
  popped = s_invalid.popped ++ removed (take_task s_invalid.manager).1;
}

s_dropped-Quiet : Quiet (codes "s") s_invalid s_dropped
unfolding program invalidate_requests_for_session bytes_eq
s_dropped-Quiet = Quiet.step Quiet.start (take [] (idle ∷ []) refl refl) tt

invalidated_not_compiled_example : codes "t" ≢ codes "s"
unfolding program invalidate_requests_for_session bytes_eq
invalidated_not_compiled_example =
    invalidated_not_compiled (codes "s") s_invalid {q = s_dropped} (rqst (codes "t"))
      (invalidate_requests-AllInvalid (codes "s") two_queued.manager) s_dropped-Quiet refl
