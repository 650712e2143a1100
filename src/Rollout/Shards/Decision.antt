-- ===== src/Rollout/Shards/Decision.antt =====
-- What nextClusterRolloutStep decides (internal/controller/rollout.go).
use wellcake.Common.{
  Bytes, ◌≡◌, inl, inr, refl, sym, ap, List, [], ◌∷◌, true, false, not, Bool-cases, length, ◌&&◌,
  ◌||◌, ◌==◌, &&-left, &&-right, is_empty, exists, every, In, here, there, In-keep, In-keep-inv,
  sort_by, sort_by-In, sort_by-In-inv, ltb_bytes, arith,
}
use mathlib.Core.Path.{subst}
use wellcake.Rollout.{RolloutPod, is_stale}
use wellcake.Rollout.Shards.{
  ClusterShard, ClusterAction, is_fresh, pod_named, ready_of, all_replicas, stale_replicas,
  hand_over, first_master, lower_primary, replica_or_master, next_cluster_rollout_step,
}

-- Every replica of every shard runs the new revision.
abbrev pub HasFreshReplicas : List RolloutPod → List ClusterShard → Bytes → Type 0
HasFreshReplicas pods shards revision =
    (r : Bytes) → In r (all_replicas shards) → is_fresh pods revision r ≡ true

-- What an action says of the pods and the shards. A pod is deleted or promoted only while every pod
-- is Ready, and one at a time: a stale replica first; then, with every replica fresh, a fresh and
-- Ready replica takes over from its stale master; only a master without replicas is deleted.
abbrev pub IsSound : List RolloutPod → List ClusterShard → Bytes → ClusterAction → Type 0
IsSound pods shards revision ClusterAction.cluster_rollout_none = Unit
IsSound pods shards revision ClusterAction.cluster_rollout_wait = Unit
IsSound pods shards revision (ClusterAction.cluster_rollout_roll_replica n) =
    (every (λ p. p.ready) pods ≡ true)
    × In n (all_replicas shards)
    × (is_fresh pods revision n ≡ false)
IsSound pods shards revision (ClusterAction.cluster_rollout_failover n) =
    (every (λ p. p.ready) pods ≡ true)
    × HasFreshReplicas pods shards revision
    × (s : ClusterShard) × In s shards
    × In n s.replicas
    × (is_fresh pods revision s.primary ≡ false)
    × (is_fresh pods revision n ≡ true)
    × (ready_of (pod_named pods n) ≡ true)
IsSound pods shards revision (ClusterAction.cluster_rollout_roll_master n) =
    (every (λ p. p.ready) pods ≡ true)
    × HasFreshReplicas pods shards revision
    × (s : ClusterShard) × In s shards
    × (s.primary ≡ n)
    × (s.replicas ≡ [])
    × (is_fresh pods revision n ≡ false)

module _ (pods : List RolloutPod) (shards : List ClusterShard) (revision : Bytes)
    (ready : every (λ p. p.ready) pods ≡ true) where
  no_replicas : (l : List Bytes) → (length l == 0) ≡ true → l ≡ []
  no_replicas [] h = refl
  no_replicas (r ∷ l) h = ground arith

  module _ (fresh : HasFreshReplicas pods shards revision) (s : ClusterShard) (member : In s shards)
      (stale : is_fresh pods revision s.primary ≡ false) where
    hand_over-IsSound :
        (l : List Bytes)
        → ((r : Bytes) → In r l → In r s.replicas)
        → IsSound pods shards revision (hand_over pods revision s l)
    unfolding hand_over
    hand_over-IsSound [] sub = elim (Bool-cases (length s.replicas == 0)) [
      | inl none_left ↦
          rw none_left (ready, fresh, s, member, refl, no_replicas s.replicas none_left, stale)
      | inr some_left ↦ rw some_left tt
    ]
    hand_over-IsSound (r ∷ l) sub =
        elim (Bool-cases (is_fresh pods revision r && ready_of (pod_named pods r))) [
          | inl fit ↦ rw fit (
            ready,
            fresh,
            s,
            member,
            sub r (here refl),
            stale,
            &&-left _ (ready_of (pod_named pods r)) fit,
            &&-right (is_fresh pods revision r) _ fit,
          )
          | inr unfit ↦ rw unfit (hand_over-IsSound l (λ q i. sub q (there i)))
        ]

  first_master-IsSound :
      HasFreshReplicas pods shards revision
      → (l : List ClusterShard) → ((s : ClusterShard) → In s l → In s shards)
      → IsSound pods shards revision (first_master pods revision l)
  unfolding first_master
  first_master-IsSound fresh [] sub = tt
  first_master-IsSound fresh (s ∷ l) sub = elim (Bool-cases (is_fresh pods revision s.primary)) [
    | inl new ↦ rw new (first_master-IsSound fresh l (λ q i. sub q (there i)))
    | inr old ↦ rw old (hand_over-IsSound fresh s (sub s (here refl)) old s.replicas (λ r i. i))
  ]

  by_stale :
      (l : List Bytes)
      → sort_by ltb_bytes (stale_replicas pods revision shards) ≡ l
      → IsSound pods shards revision (replica_or_master pods shards revision l)
  unfolding replica_or_master stale_replicas
  by_stale (r ∷ rest) e =
      let i = sort_by-In-inv ltb_bytes r _ (subst (In r) (sym e) (here refl)) in
      let (j, h) = In-keep-inv _ r (all_replicas shards) i in (ready, j, ground arith)
  by_stale [] e =
      first_master-IsSound fresh (sort_by lower_primary shards)
        (λ s i. sort_by-In-inv lower_primary s shards i)
    where
      fresh : HasFreshReplicas pods shards revision
      fresh r i = elim (Bool-cases (is_fresh pods revision r)) [
        | inl new ↦ new
        | inr old ↦ absurd (
            no_member (
              subst (In r) e (
                sort_by-In ltb_bytes r _ (
                  In-keep (λ x. not (is_fresh pods revision x)) r (all_replicas shards) i
                    (ap not old)))))
      ]
        where
          no_member : In r [] → ⊥
          no_member k = elim k [ ]

-- Whatever nextClusterRolloutStep decides is sound for the pods and the shards.
pub next_cluster_rollout_step-IsSound :
    (pods : List RolloutPod) (shards : List ClusterShard) (revision : Bytes)
    → IsSound pods shards revision (next_cluster_rollout_step pods shards revision)
unfolding next_cluster_rollout_step
next_cluster_rollout_step-IsSound pods shards revision =
    elim (Bool-cases (length pods == 0 || is_empty revision || length shards == 0)) [
      | inl nothing ↦ rw nothing tt
      | inr known ↦ elim (Bool-cases (exists (is_stale revision) pods)) [
        | inr fresh ↦ rw (known, fresh) tt
        | inl stale ↦ elim (Bool-cases (every (λ p. p.ready) pods)) [
          | inr unready ↦ rw (known, stale, unready) tt
          | inl ready ↦ rw (known, stale, ready) (by_stale pods shards revision ready _ refl)
        ]
      ]
    ]
