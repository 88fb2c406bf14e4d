-- ===== src/Compiler/Order.antt =====
-- Requests leave the queue in the order of their arrival, and an invalidated one is not compiled.
use dist_build_sys.Base.{
  ℕ, ◌≡◌, refl, sym, ap, ◌∙◌, List, [], ◌∷◌, ◌++◌, map, append_assoc, true, false, arith,
}
use mathlib.Core.List.{map-append}
use dist_build_sys.Compiler.{
  CompilationRequest, CompilerManager, add_compilation_request, take_task, finish_task, stop,
}
use dist_build_sys.Compiler.Steps.{
  Pool, start, removed, Step, add, flag, stops, take, announce_start, finish, announce_end, publish,
  Reach, here, next,
}

-- A request without its flag.
abbrev bare : CompilationRequest → CompilationRequest
bare rqst = record rqst { invalidated = false }

bare-flag :
    (before after : List CompilationRequest) (rqst : CompilationRequest)
    → map bare (before ++ (record rqst { invalidated = true } ∷ after))
      ≡ map bare (before ++ (rqst ∷ after))
bare-flag [] after rqst = refl
bare-flag (r ∷ before) after rqst = ap (◌∷◌ (bare r)) (bare-flag before after rqst)

take_task-queue :
    (m : CompilerManager)
    → removed (take_task m).1 ++ (take_task m).0.compile_task_queue ≡ m.compile_task_queue
unfolding take_task removed
take_task-queue m = ground arith

-- What came in is what went out and what is still queued, in this order.
abbrev pub InOrder : Pool → Type 0
InOrder p = map bare p.added ≡ map bare p.popped ++ map bare p.manager.compile_task_queue

Step-InOrder : {p q : Pool} → Step p q → InOrder p → InOrder q
unfolding add_compilation_request stop finish_task
Step-InOrder {p} (add rqst) v =
    rw (map-append, map-append, v) (append_assoc (map bare p.popped) _ _)
Step-InOrder {p} (flag before after rqst e) v =
    v
    ∙ ap (λ q. map bare p.popped ++ map bare q) e
    ∙ ap (λ q. map bare p.popped ++ q) (sym (bare-flag before after rqst))
Step-InOrder stops v = v
Step-InOrder {p} (take before after e ready) v =
    rw (map-append, append_assoc)
      (v
        ∙ ap (λ q. map bare p.popped ++ q)
            (sym (sym (map-append _ _ _) ∙ ap (map bare) (take_task-queue p.manager))))
Step-InOrder (announce_start before after rqst e) v = v
Step-InOrder (finish before after rqst e) v = v
Step-InOrder (announce_end before after rqst e) v = v
Step-InOrder (publish before after rqst e) v = v

Reach-InOrder : {p q : Pool} → Reach p q → InOrder p → InOrder q
Reach-InOrder here v = v
Reach-InOrder (next r s) v = Step-InOrder s (Reach-InOrder r v)

-- Under every interleaving the requests that the threads removed, followed by those in the queue, are
-- the requests that came in, in the order of their arrival: none is lost, doubled or overtaken. The
-- flag of invalidation is left out of account.
pub requests-InOrder : {p : Pool} (n adv : ℕ) → Reach (start n adv) p → InOrder p
unfolding start
requests-InOrder n adv r = Reach-InOrder r refl
