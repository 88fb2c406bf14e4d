-- ===== src/Listener/Tests.antt =====
-- Two servers, of which one went silent.
use dist_build_sys.Base.{ℕ, ◌-◌, ◌*◌, ◌+◌, ◌<◌, ◌≤◌, ◌≡◌, refl, [], ◌∷◌, some, Bytes, codes, arith}
use dist_build_sys.Base.Dict.{Dict}
use dist_build_sys.Listener.{
  ServerInfo, count_candidates, pick_at, pick_compilation_server, cleanup,
}
use dist_build_sys.Listener.Jobs.{total_jobs, picks, picks-total_jobs}
use dist_build_sys.Listener.Fresh.{seconds, IsRecent, pick_compilation_server-cleanup}

abbrev server : Bytes → ℕ → ℕ → ServerInfo
server uuid jobs seen = record {
  server_uuid = uuid;
  server_ip = codes "10.0.0.1";
  server_port = 5000;
  available_jobs = jobs;
  last_seen = seen;
}

abbrev nodes : Dict ServerInfo
nodes = (codes "a", server (codes "a") 1 0) ∷ (codes "b", server (codes "b") 2 (8 * seconds)) ∷ []

-- The last candidate.
abbrev last_index : ℕ → ℕ
last_index n = n - 1

last_index_lt : (n : ℕ) → 0 < n → last_index n < n
last_index_lt n h = omega arith

two_there : 2 ≤ total_jobs nodes
unfolding total_jobs
two_there = omega arith

only_three : total_jobs nodes < 4
unfolding total_jobs
only_three = omega arith

picks-total_jobs_example :
    (rest : Dict ServerInfo) × ((picks (λ k. last_index) 2 nodes ≡ some rest)
      × (total_jobs rest + 2 ≡ total_jobs nodes))
picks-total_jobs_example = picks-total_jobs (λ k. last_index) 2 nodes (λ k. last_index_lt) two_there

picked :
    pick_compilation_server last_index (cleanup (10 * seconds) nodes)
    ≡ some
        (server (codes "b") 1 (8 * seconds), (codes "b", server (codes "b") 1 (8 * seconds)) ∷ [])
unfolding pick_compilation_server cleanup count_candidates pick_at
picked = refl

pick_compilation_server-cleanup_example :
    IsRecent (10 * seconds) (server (codes "b") 1 (8 * seconds))
pick_compilation_server-cleanup_example =
    pick_compilation_server-cleanup last_index (10 * seconds) nodes
      (server (codes "b") 1 (8 * seconds), (codes "b", server (codes "b") 1 (8 * seconds)) ∷ [])
      picked
