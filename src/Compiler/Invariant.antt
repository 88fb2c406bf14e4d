-- ===== src/Compiler/Invariant.antt =====
-- The counter of active jobs is exact under every interleaving.
use dist_build_sys.Base.{
  ℕ, zero, suc, ◌+◌, ◌^◌, ◌≤◌, ◌<◌, ◌≡◌, refl, ap, List, [], ◌∷◌, ◌++◌, arith,
}
use dist_build_sys.Compiler.{
  CompilerManager, add_compilation_request, get_available_jobs, take_task, finish_task, stop,
}
use dist_build_sys.Compiler.Steps.{
  Worker, idle, exited, started, compiling, finished, publishing, Pool, threads, start, next_worker,
  Step, add, flag, stops, take, announce_start, finish, announce_end, publish, Reach, here, next,
}

-- One for a thread that holds a job.
busy : Worker → ℕ
busy idle = 0
busy exited = 0
busy (started rqst) = 1
busy (compiling rqst) = 1
busy (finished rqst) = 0
busy (publishing rqst) = 0

pub jobs : List Worker → ℕ
jobs [] = 0
jobs (w ∷ ws) = busy w + jobs ws

jobs-append : (before after : List Worker) → jobs (before ++ after) ≡ jobs before + jobs after
unfolding jobs
jobs-append [] after = omega arith
jobs-append (w ∷ before) after = omega (arith, jobs-append before after)

jobs_at :
    (before after : List Worker) (w : Worker)
    → jobs (before ++ (w ∷ after)) ≡ busy w + (jobs before + jobs after)
unfolding jobs
jobs_at before after w = omega (arith, jobs-append before (w ∷ after))

-- The pool has `n` threads, the counter is the number of threads that hold a job, and no more than
-- `n` hold one.
pub record IsExact (n : ℕ) (p : Pool) : Type 0 where
  pub size : p.manager.thread_pool_sz ≡ n
  pub exact : p.manager.active_compile_jobs ≡ jobs p.workers
  pub bounded : jobs p.workers ≤ n

take_task-counts :
    (m : CompilerManager) (n : ℕ)
    → m.thread_pool_sz ≡ n
    → n < 2 ^ 64
    → m.active_compile_jobs ≤ n
    → ((take_task m).0.thread_pool_sz ≡ n)
      × ((take_task m).0.active_compile_jobs
          ≡ m.active_compile_jobs + busy (next_worker (take_task m).1))
      × (m.active_compile_jobs + busy (next_worker (take_task m).1) ≤ n)
unfolding take_task next_worker busy
take_task-counts m n e h b = ground arith

Step-IsExact : {p q : Pool} (n : ℕ) → n < 2 ^ 64 → IsExact n p → Step p q → IsExact n q
unfolding add_compilation_request stop finish_task busy
Step-IsExact n h v (add rqst) = record { size = v.size; exact = v.exact; bounded = v.bounded }
Step-IsExact n h v (flag before after rqst e) = record {
  size = v.size;
  exact = v.exact;
  bounded = v.bounded;
}
Step-IsExact n h v stops = record { size = v.size; exact = v.exact; bounded = v.bounded }
Step-IsExact {p} n h v (take before after e ready) =
    let (size, counted, room) =
      take_task-counts p.manager n v.size h (omega (arith, v.exact, v.bounded)) in
    let left = next_worker (take_task p.manager).1 in
    record {
      size = size;
      exact = omega (
        arith,
        counted,
        v.exact,
        ap jobs e,
        jobs_at before after idle,
        jobs_at before after left,
      );
      bounded =
          omega
            (arith, room, v.exact, ap jobs e, jobs_at before after idle, jobs_at before after left);
    }
Step-IsExact {p} n h v (announce_start before after rqst e) =
    omega
      (arith, ap jobs e, jobs_at before after (started rqst), jobs_at before after (compiling rqst))
Step-IsExact {p} n h v (finish before after rqst e) =
    omega (
      arith,
      ap jobs e,
      jobs_at before after (compiling rqst),
      jobs_at before after (finished rqst),
    )
Step-IsExact {p} n h v (announce_end before after rqst e) =
    omega (
      arith,
      ap jobs e,
      jobs_at before after (finished rqst),
      jobs_at before after (publishing rqst),
    )
Step-IsExact {p} n h v (publish before after rqst e) =
    omega (arith, ap jobs e, jobs_at before after (publishing rqst), jobs_at before after idle)

jobs-threads : (n : ℕ) → jobs (threads n) ≡ 0
unfolding jobs threads busy
jobs-threads zero = refl
jobs-threads (suc n) = omega (arith, jobs-threads n)

start-IsExact : (n adv : ℕ) → IsExact n (start n adv)
unfolding start
start-IsExact n adv = record {
  size = refl;
  exact = omega (arith, jobs-threads n);
  bounded = omega (arith, jobs-threads n);
}

Reach-IsExact : {p q : Pool} (n : ℕ) → n < 2 ^ 64 → IsExact n p → Reach p q → IsExact n q
Reach-IsExact n h v here = v
Reach-IsExact n h v (next r s) = Step-IsExact n h (Reach-IsExact n h v r) s

-- In every state that the pool's threads and its callers reach, the counter is the number of threads
-- that hold a job, at most as many as the pool has threads, and the number of available jobs is the
-- rest of the pool: it never wraps. The pool's size must be below 2^64.
pub available_jobs_exact :
    {p : Pool} (n adv : ℕ)
    → n < 2 ^ 64
    → Reach (start n adv) p
    → (p.manager.active_compile_jobs ≡ jobs p.workers)
      × (jobs p.workers ≤ n)
      × (get_available_jobs p.manager + jobs p.workers ≡ n)
unfolding get_available_jobs
available_jobs_exact {p} n adv h r =
    let v = Reach-IsExact n h (start-IsExact n adv) r in
    (v.exact, v.bounded, omega (arith, v.exact, v.bounded, v.size))

-- What the broadcaster is told is never more than the pool's size.
IsModest : ℕ → Pool → Type 0
IsModest n p = p.advertised ≤ n

Step-IsModest :
    {p q : Pool} (n : ℕ) → n < 2 ^ 64 → IsExact n p → IsModest n p → Step p q → IsModest n q
unfolding IsModest get_available_jobs
Step-IsModest n h v b (add rqst) = b
Step-IsModest n h v b (flag before after rqst e) = b
Step-IsModest n h v b stops = b
Step-IsModest n h v b (take before after e ready) = b
Step-IsModest {p} n h v b (announce_start before after rqst e) =
    omega (arith, v.exact, v.bounded, v.size)
Step-IsModest n h v b (finish before after rqst e) = b
Step-IsModest {p} n h v b (announce_end before after rqst e) =
    omega (arith, v.exact, v.bounded, v.size)
Step-IsModest n h v b (publish before after rqst e) = b

Reach-IsModest :
    {p q : Pool} (n : ℕ) → n < 2 ^ 64 → IsExact n p → IsModest n p → Reach p q → IsModest n q
Reach-IsModest n h v b here = b
Reach-IsModest n h v b (next r s) =
    Step-IsModest n h (Reach-IsExact n h v r) (Reach-IsModest n h v b r) s

-- The number of jobs that the server announces to its clients never exceeds the size of its pool, if
-- the number announced at first does not; the pool's size must be below 2^64.
pub advertised_bounded :
    {p : Pool} (n adv : ℕ) → n < 2 ^ 64 → adv ≤ n → Reach (start n adv) p → p.advertised ≤ n
unfolding IsModest start
advertised_bounded n adv h b r = Reach-IsModest n h (start-IsExact n adv) b r
