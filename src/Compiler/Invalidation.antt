-- ===== src/Compiler/Invalidation.antt =====
-- What `invalidate_requests_for_session` promises: the session's queued requests are not compiled.
use dist_build_sys.Base.{
  ◌≡◌, refl, ◌≢◌, List, [], ◌∷◌, ◌++◌, inl, inr, Bool-cases, true, Bytes, bytes_eq_iff, All, arith,
}
use mathlib.Core.Path.{subst}
use dist_build_sys.Compiler.{
  CompilationRequest, CompilerManager, add_compilation_request, invalidate_all,
  invalidate_requests_for_session, compiles, pop_task, take_task, finish_task, stop,
}
use dist_build_sys.Compiler.Steps.{
  Pool, Step, add, flag, stops, take, announce_start, finish, announce_end, publish,
}

-- Every queued request of the session is flagged.
abbrev pub AllInvalid : Bytes → List CompilationRequest → Type 0
AllInvalid session = All (λ rqst. rqst.requester_session ≡ session → rqst.invalidated ≡ true)

invalidate_all-AllInvalid :
    (session : Bytes) (rqsts : List CompilationRequest)
    → AllInvalid session (invalidate_all session rqsts)
unfolding invalidate_all
invalidate_all-AllInvalid session [] = tt
invalidate_all-AllInvalid session (rqst ∷ rest) = (
  λ e. ground (arith, bytes_eq_iff rqst.requester_session session),
  invalidate_all-AllInvalid session rest,
)

flag_keeps :
    (session : Bytes) (before after : List CompilationRequest) (rqst : CompilationRequest)
    → AllInvalid session (before ++ (rqst ∷ after))
    → AllInvalid session (before ++ (record rqst { invalidated = true } ∷ after))
flag_keeps session [] after rqst v = (λ e. refl, v.1)
flag_keeps session (r ∷ before) after rqst v = (v.0, flag_keeps session before after rqst v.1)

AllInvalid-append :
    (session : Bytes) (rqsts : List CompilationRequest) (rqst : CompilationRequest)
    → AllInvalid session rqsts
    → rqst.requester_session ≢ session
    → AllInvalid session (rqsts ++ rqst ∷ [])
AllInvalid-append session [] rqst v h = (λ e. absurd (h e), tt)
AllInvalid-append session (r ∷ rqsts) rqst v h = (v.0, AllInvalid-append session rqsts rqst v.1 h)

pop_task_keeps :
    (session : Bytes) (m : CompilerManager) (q : List CompilationRequest)
    → AllInvalid session m.compile_task_queue
    → AllInvalid session q
    → AllInvalid session (pop_task m q).0.compile_task_queue
unfolding pop_task
pop_task_keeps session m [] vm v = vm
pop_task_keeps session m (r ∷ rest) vm v = elim (Bool-cases r.invalidated) [
  | inl e ↦ rw (e, pop_task) v.1
  | inr e ↦ rw (e, pop_task) v.1
]

pop_task-compiles :
    (session : Bytes) (m : CompilerManager) (q : List CompilationRequest)
    (rqst : CompilationRequest)
    → AllInvalid session q
    → (pop_task m q).1 ≡ compiles rqst
    → rqst.requester_session ≢ session
unfolding pop_task
pop_task-compiles session m [] rqst v e = λ s. cc
pop_task-compiles session m (r ∷ rest) rqst v e = λ s. ground (arith, v.0)

take_task_keeps :
    (session : Bytes) (m : CompilerManager)
    → AllInvalid session m.compile_task_queue
    → AllInvalid session (take_task m).0.compile_task_queue
unfolding take_task
take_task_keeps session m v = ground (arith, pop_task_keeps session m m.compile_task_queue v v)

take_task-compiles :
    (session : Bytes) (m : CompilerManager) (rqst : CompilationRequest)
    → AllInvalid session m.compile_task_queue
    → (take_task m).1 ≡ compiles rqst
    → rqst.requester_session ≢ session
unfolding take_task
take_task-compiles session m rqst v e =
    λ s. ground (arith, pop_task-compiles session m m.compile_task_queue rqst v)

-- A step that adds no request of the session.
abbrev Spares : {p q : Pool} → Bytes → Step p q → Type 0
Spares session (add rqst) = rqst.requester_session ≢ session
Spares session _ = Unit

-- Steps that add no request of the session.
pub data Quiet (session : Bytes) (p : Pool) : Pool → Type 0 where
  start : Quiet session p p
  step : {q r : Pool} → Quiet session p q → (s : Step q r) → Spares session s → Quiet session p r

Step-AllInvalid :
    {p q : Pool} (session : Bytes) (s : Step p q)
    → Spares session s
    → AllInvalid session p.manager.compile_task_queue
    → AllInvalid session q.manager.compile_task_queue
unfolding add_compilation_request stop finish_task
Step-AllInvalid {p} session (add rqst) h v =
    AllInvalid-append session p.manager.compile_task_queue rqst v h
Step-AllInvalid {p} session (flag before after rqst e) h v =
    flag_keeps session before after rqst (subst (AllInvalid session) e v)
Step-AllInvalid session stops h v = v
Step-AllInvalid {p} session (take before after e ready) h v = take_task_keeps session p.manager v
Step-AllInvalid session (announce_start before after rqst e) h v = v
Step-AllInvalid session (finish before after rqst e) h v = v
Step-AllInvalid session (announce_end before after rqst e) h v = v
Step-AllInvalid session (publish before after rqst e) h v = v

Quiet-AllInvalid :
    (session : Bytes) {p q : Pool}
    → Quiet session p q
    → AllInvalid session p.manager.compile_task_queue
    → AllInvalid session q.manager.compile_task_queue
Quiet-AllInvalid session start v = v
Quiet-AllInvalid session (step r s h) v = Step-AllInvalid session s h (Quiet-AllInvalid session r v)

-- A whole run of the loop flags every queued request of the session.
pub invalidate_requests-AllInvalid :
    (session : Bytes) (m : CompilerManager)
    → AllInvalid session (invalidate_requests_for_session session m).compile_task_queue
unfolding invalidate_requests_for_session
invalidate_requests-AllInvalid session m = invalidate_all-AllInvalid session m.compile_task_queue

-- From a state in which every queued request of a session is flagged, no thread takes a request of that session
-- out of the queue to compile it, in whatever order the threads, the other sessions and unfinished runs of the
-- loops that flag requests step on, as long as the session adds none. Requests that a thread had taken before are
-- not spoken of.
pub invalidated_not_compiled :
    (session : Bytes) (p : Pool) {q : Pool} (rqst : CompilationRequest)
    → AllInvalid session p.manager.compile_task_queue
    → Quiet session p q
    → (take_task q.manager).1 ≡ compiles rqst
    → rqst.requester_session ≢ session
invalidated_not_compiled session p {q} rqst flagged r e =
    take_task-compiles session q.manager rqst (Quiet-AllInvalid session r flagged) e
