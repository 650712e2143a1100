-- ===== src/Sizing/ScaleDown.antt =====
-- The pod count that the StatefulSet gets while a Cluster is scaled down.
use wellcake.Common.{◌≡◌, ◌≤◌, true, arith, IsInt32, int32_lt-of_range}
use wellcake.Api.{ValkeyCluster, is_cluster}
use wellcake.Sizing.{total_replicas, stateful_set_replicas}

-- In the Cluster topology the StatefulSet gets at least the pods that the spec asks for, and at
-- least the pods that are still members, for counts below 2 ^ 31.
pub stateful_set_replicas_bounds :
    (vc : ValkeyCluster)
    → is_cluster vc.spec.topology ≡ true
    → IsInt32 (total_replicas vc)
    → IsInt32 vc.status.last_applied_replicas
    → (total_replicas vc ≤ stateful_set_replicas vc)
      × (vc.status.last_applied_replicas ≤ stateful_set_replicas vc)
unfolding stateful_set_replicas
stateful_set_replicas_bounds vc c ht hl =
    ground (arith, int32_lt-of_range (total_replicas vc) vc.status.last_applied_replicas)
