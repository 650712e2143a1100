-- ===== src/Sizing.antt =====
-- internal/controller/resources.go and cluster_pershard.go: how many pods a cluster has.
pub mod ScaleDown
use wellcake.Common.{
  ℕ, zero, suc, ◌+◌, ◌*◌, ◌/◌, Option, none, some, Bool, true, false, ◌&&◌, if◌then◌else◌, int32,
  int32_lt, ltb, List, [], ◌∷◌,
}
use wellcake.Api.{ValkeyCluster, is_cluster}
use wellcake.Api.Defaults.{deref}

-- perShardEnabled.
unfoldable pub per_shard_enabled : ValkeyCluster → Bool
per_shard_enabled vc = is_cluster vc.spec.topology && deref vc.spec.per_shard_workload false

-- replicasPerShardOf.
unfoldable pub replicas_per_shard_of : ValkeyCluster → ℕ
replicas_per_shard_of vc = deref vc.spec.replicas_per_shard 0

-- shardCountOf.
unfoldable pub shard_count_of : ValkeyCluster → ℕ
shard_count_of vc = deref vc.spec.shards 0

-- totalReplicas: the product wraps as an int32 does.
unfoldable pub total_replicas : ValkeyCluster → ℕ
total_replicas vc =
    if is_cluster vc.spec.topology
    then int32 (deref vc.spec.shards 0 * int32 (1 + deref vc.spec.replicas_per_shard 0))
    else vc.spec.replicas

-- statefulSetReplicas: during a scale-down the old size is held.
unfoldable pub stateful_set_replicas : ValkeyCluster → ℕ
stateful_set_replicas vc =
    let desired = total_replicas vc in
    if is_cluster vc.spec.topology && int32_lt desired vc.status.last_applied_replicas
    then vc.status.last_applied_replicas
    else desired

-- oldShardsOf: the shards that the applied pod count stands for.
unfoldable pub old_shards_of : ValkeyCluster → ℕ
unfolding replicas_per_shard_of
old_shards_of vc = vc.status.last_applied_replicas / int32 (1 + replicas_per_shard_of vc)

-- The numbers a, a + 1, ... of a counted loop that makes n rounds.
unfoldable pub count_from : ℕ → ℕ → List ℕ
count_from a zero = []
count_from a (suc n) = a ∷ count_from (a + 1) n

-- for i := range n on an int32: a negative n makes no round.
unfoldable pub range_int32 : ℕ → List ℕ
unfolding count_from
range_int32 n = count_from 0 (if ltb n 2147483648 then n else 0)
