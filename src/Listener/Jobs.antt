-- ===== src/Listener/Jobs.antt =====
-- The jobs that the known servers offer, and which servers are offered.
use dist_build_sys.Base.{
  ℕ, zero, suc, ◌+◌, ◌-◌, ◌≤◌, ◌<◌, ◌≡◌, refl, [], ◌∷◌, true, Option, some, Bytes, ltb, ◌>>=◌,
  arith, Bool-cases, inl, inr,
}
use dist_build_sys.Base.Dict.{Dict}
use dist_build_sys.Listener.{ServerInfo, count_candidates, behind, pick_at, pick_compilation_server}

unfoldable pub total_jobs : Dict ServerInfo → ℕ
total_jobs [] = 0
total_jobs ((uuid, info) ∷ nodes) = info.available_jobs + total_jobs nodes

-- One job less, from a server that is left with what it is said to have.
pub record IsPicked (nodes : Dict ServerInfo) (r : Option (ServerInfo × Dict ServerInfo))
    : Type 0 where
  pub info : ServerInfo
  pub rest : Dict ServerInfo
  pub picked : r ≡ some (info, rest)
  pub taken : suc (total_jobs rest) ≡ total_jobs nodes

IsPicked-behind :
    (uuid : Bytes) (info : ServerInfo) (nodes : Dict ServerInfo)
    (r : Option (ServerInfo × Dict ServerInfo))
    → IsPicked nodes r
    → IsPicked ((uuid, info) ∷ nodes) (r >>= λ x. some (behind (uuid, info) x))
unfolding total_jobs behind
IsPicked-behind uuid info nodes r p = record {
  info = p.info;
  rest = (uuid, info) ∷ p.rest;
  picked = rw p.picked refl;
  taken = omega (arith, p.taken);
}

here : (jobs others : ℕ) → ltb 0 jobs ≡ true → suc ((jobs - 1) + others) ≡ jobs + others
here jobs others h = ground arith

pick_at-IsPicked :
    (chosen : ℕ) (nodes : Dict ServerInfo)
    → chosen < count_candidates nodes
    → IsPicked nodes (pick_at chosen nodes)
unfolding pick_at count_candidates total_jobs
pick_at-IsPicked chosen [] h = absurd (omega arith)
pick_at-IsPicked zero ((uuid, info) ∷ nodes) h = elim (Bool-cases (ltb 0 info.available_jobs)) [
  | inl e ↦ rw e (record {
    info = record info { available_jobs = info.available_jobs - 1 };
    rest = (uuid, record info { available_jobs = info.available_jobs - 1 }) ∷ nodes;
    picked = refl;
    taken = here info.available_jobs (total_jobs nodes) e;
  })
  | inr e ↦ rw e (IsPicked-behind uuid info nodes _ (pick_at-IsPicked zero nodes (rw e at h)))
]
pick_at-IsPicked (suc chosen) ((uuid, info) ∷ nodes) h =
    elim (Bool-cases (ltb 0 info.available_jobs)) [
      | inl e ↦
          let less : suc chosen < suc (count_candidates nodes) = rw e at h in
          rw e (
            IsPicked-behind uuid info nodes _ (pick_at-IsPicked chosen nodes (omega (arith, less))))
      | inr e ↦
          rw e (IsPicked-behind uuid info nodes _ (pick_at-IsPicked (suc chosen) nodes (rw e at h)))
    ]

candidates_have_jobs : (nodes : Dict ServerInfo) → 0 < total_jobs nodes → 0 < count_candidates nodes
unfolding total_jobs count_candidates
candidates_have_jobs [] h = h
candidates_have_jobs ((uuid, info) ∷ nodes) h = ground (arith, candidates_have_jobs nodes)

-- If any known server has a job to give, a server is picked, whatever the random index, and exactly
-- one job less is then known.
pick_compilation_server-IsPicked :
    (dist : ℕ → ℕ) (nodes : Dict ServerInfo)
    → ((n : ℕ) → 0 < n → dist n < n)
    → 0 < total_jobs nodes
    → IsPicked nodes (pick_compilation_server dist nodes)
unfolding pick_compilation_server
pick_compilation_server-IsPicked dist nodes in_range h =
    let some_there = candidates_have_jobs nodes h in
    let test : ltb 0 (count_candidates nodes) ≡ true = ground arith in
    rw test (pick_at-IsPicked _ nodes (in_range (count_candidates nodes) some_there))

-- Picks one after another, round by round with an index of its own.
pub picks : (ℕ → ℕ → ℕ) → ℕ → Dict ServerInfo → Option (Dict ServerInfo)
picks dist zero nodes = some nodes
picks dist (suc n) nodes = pick_compilation_server (dist n) nodes >>= λ r. picks dist n r.1

-- As long as no message comes in and `n` jobs are known, `n` picks one after the other succeed,
-- whatever the random indices, and leave `n` jobs less.
pub picks-total_jobs :
    (dist : ℕ → ℕ → ℕ) (n : ℕ) (nodes : Dict ServerInfo)
    → ((k m : ℕ) → 0 < m → dist k m < m)
    → n ≤ total_jobs nodes
    → (rest : Dict ServerInfo) × ((picks dist n nodes ≡ some rest)
        × (total_jobs rest + n ≡ total_jobs nodes))
unfolding picks
picks-total_jobs dist zero nodes in_range h = (nodes, (refl, omega arith))
picks-total_jobs dist (suc n) nodes in_range h =
    let p = pick_compilation_server-IsPicked (dist n) nodes (in_range n) (omega arith) in
    let more = picks-total_jobs dist n p.rest in_range (omega (arith, p.taken)) in
    (more.0, (rw (p.picked, more.1.0) refl, omega (arith, more.1.1, p.taken)))
