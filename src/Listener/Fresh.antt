-- ===== src/Listener/Fresh.antt =====
-- No server that went silent is picked after a cleanup.
use native.Mathlib.Nat.{mod-lt, div-add-mod'}
use dist_build_sys.Base.{
  ℕ, zero, suc, ◌+◌, ◌-◌, ◌*◌, ◌/◌, ◌%◌, ◌≤◌, ◌<◌, ◌≡◌, [], ◌∷◌, false, Option, none, some, Bytes,
  ltb, ◌>>=◌, arith, Bool-cases, inl, inr,
}
use dist_build_sys.Base.Dict.{Dict}
use dist_build_sys.Listener.{
  ServerInfo, count_candidates, behind, pick_at, pick_compilation_server, cleanup,
}

abbrev pub seconds : ℕ
seconds = 1000000000

-- Seen less than five seconds ago.
abbrev pub IsRecent : ℕ → ServerInfo → Type 0
IsRecent now info = now < info.last_seen + 5 * seconds

AllRecent : ℕ → Dict ServerInfo → Type 0
AllRecent now [] = Unit
AllRecent now ((uuid, info) ∷ nodes) = IsRecent now info × AllRecent now nodes

RecentIfAny : ℕ → Option (ServerInfo × Dict ServerInfo) → Type 0
RecentIfAny now none = Unit
RecentIfAny now (some r) = IsRecent now r.0

age_recent : (now last : ℕ) → ltb 4 ((now - last) / 1000000000) ≡ false → now < last + 5 * seconds
age_recent now last h =
    let parts = div-add-mod' (now - last) 1000000000 in
    let less : (now - last) % 1000000000 < 1000000000 = mod-lt (now - last) (omega arith) in
    let few : (now - last) / 1000000000 ≤ 4 = ground arith in omega (arith, parts, less, few)

cleanup-AllRecent : (now : ℕ) (nodes : Dict ServerInfo) → AllRecent now (cleanup now nodes)
unfolding cleanup AllRecent
cleanup-AllRecent now [] = tt
cleanup-AllRecent now ((uuid, info) ∷ nodes) =
    elim (Bool-cases (ltb 4 ((now - info.last_seen) / 1000000000))) [
      | inl e ↦ rw e (cleanup-AllRecent now nodes)
      | inr e ↦ rw e (age_recent now info.last_seen e, cleanup-AllRecent now nodes)
    ]

recent_behind :
    (now : ℕ) (node : Bytes × ServerInfo) (r : Option (ServerInfo × Dict ServerInfo))
    → RecentIfAny now r
    → RecentIfAny now (r >>= λ x. some (behind node x))
unfolding RecentIfAny behind
recent_behind now node none h = tt
recent_behind now node (some r) h = h

pick_at-recent :
    (now chosen : ℕ) (nodes : Dict ServerInfo)
    → AllRecent now nodes
    → RecentIfAny now (pick_at chosen nodes)
unfolding pick_at AllRecent RecentIfAny
pick_at-recent now chosen [] a = tt
pick_at-recent now zero ((uuid, info) ∷ nodes) (a, more) =
    elim (Bool-cases (ltb 0 info.available_jobs)) [
      | inl e ↦ rw e a
      | inr e ↦ rw e (recent_behind now (uuid, info) _ (pick_at-recent now zero nodes more))
    ]
pick_at-recent now (suc chosen) ((uuid, info) ∷ nodes) (a, more) =
    elim (Bool-cases (ltb 0 info.available_jobs)) [
      | inl e ↦ rw e (recent_behind now (uuid, info) _ (pick_at-recent now chosen nodes more))
      | inr e ↦ rw e (recent_behind now (uuid, info) _ (pick_at-recent now (suc chosen) nodes more))
    ]

of_IsRecent :
    (now : ℕ) (o : Option (ServerInfo × Dict ServerInfo)) (r : ServerInfo × Dict ServerInfo)
    → o ≡ some r
    → RecentIfAny now o
    → IsRecent now r.0
unfolding RecentIfAny
of_IsRecent now o r e h = rw e at h

-- A server picked after a cleanup was heard of in the five seconds before the cleanup.
pub pick_compilation_server-cleanup :
    (dist : ℕ → ℕ) (now : ℕ) (nodes : Dict ServerInfo) (r : ServerInfo × Dict ServerInfo)
    → pick_compilation_server dist (cleanup now nodes) ≡ some r
    → IsRecent now r.0
unfolding pick_compilation_server
pick_compilation_server-cleanup dist now nodes r h =
    let left = cleanup now nodes in
    let recent =
      pick_at-recent now (dist (count_candidates left)) left (cleanup-AllRecent now nodes) in
    elim (Bool-cases (ltb 0 (count_candidates left))) [
      | inl e ↦
          let h' : pick_at (dist (count_candidates left)) left ≡ some r = rw e at h in
          of_IsRecent now _ r h' recent
      | inr e ↦ absurd (cc (h, e))
    ]
