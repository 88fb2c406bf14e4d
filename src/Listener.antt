-- ===== src/Listener.antt =====
-- `ResourceListener` of src/resource_listener.hpp: the servers that the client knows of. The map is
-- walked in the order of the list; the random index is an argument; a time is in nanoseconds.
pub mod Jobs
pub mod Fresh
mod Tests
use dist_build_sys.Base.{
  ℕ, zero, suc, ◌+◌, ◌-◌, ◌*◌, ◌/◌, List, [], ◌∷◌, Bool, Option, none, some, Bytes, ltb,
  if◌then◌else◌, ◌>>=◌,
}
use dist_build_sys.Base.Dict.{Dict, insert}

pub record ServerInfo : Type 0 where
  pub server_uuid : Bytes
  pub server_ip : Bytes
  pub server_port : ℕ
  pub available_jobs : ℕ
  pub last_seen : ℕ

-- The loop that collects the candidates, of which only the number is kept here.
pub count_candidates : Dict ServerInfo → ℕ
count_candidates [] = 0
count_candidates ((uuid, info) ∷ nodes) =
    if ltb 0 info.available_jobs then suc (count_candidates nodes) else count_candidates nodes

pub behind : Bytes × ServerInfo → ServerInfo × Dict ServerInfo → ServerInfo × Dict ServerInfo
behind node r = (r.0, node ∷ r.1)

-- The candidate at an index, with its job taken where it stands in the map.
pub pick_at : ℕ → Dict ServerInfo → Option (ServerInfo × Dict ServerInfo)
pick_at chosen [] = none
pick_at zero ((uuid, info) ∷ nodes) =
    let taken = record info { available_jobs = info.available_jobs - 1 } in
    let later = pick_at zero nodes >>= (λ r. some (behind (uuid, info) r)) in
    if ltb 0 info.available_jobs then some (taken, (uuid, taken) ∷ nodes) else later
pick_at (suc chosen) ((uuid, info) ∷ nodes) =
    let next = pick_at chosen nodes >>= (λ r. some (behind (uuid, info) r)) in
    let same = pick_at (suc chosen) nodes >>= (λ r. some (behind (uuid, info) r)) in
    if ltb 0 info.available_jobs then next else same

-- `pick_compilation_server`; `dist` gives the index for a number of candidates.
pub pick_compilation_server : (ℕ → ℕ) → Dict ServerInfo → Option (ServerInfo × Dict ServerInfo)
pick_compilation_server dist nodes =
    if ltb 0 (count_candidates nodes) then pick_at (dist (count_candidates nodes)) nodes else none

-- One round of `_receive_loop`; `none` is a message that cannot be parsed.
unfoldable receive : ℕ → Option ServerInfo → Dict ServerInfo → Dict ServerInfo
receive now none nodes = nodes
receive now (some msg) nodes = insert msg.server_uuid (record msg { last_seen = now }) nodes

-- One round of `_cleanup_loop`: the age in whole seconds.
pub cleanup : ℕ → Dict ServerInfo → Dict ServerInfo
cleanup now [] = []
cleanup now ((uuid, info) ∷ nodes) =
    if ltb 4 ((now - info.last_seen) / 1000000000)
    then cleanup now nodes
    else (uuid, info) ∷ cleanup now nodes
