-- ===== src/Tests/Naming.antt =====
-- Sizes and names.
use wellcake.Common.{◌≡◌, ◌≤◌, some, codes, pos, negsuc, refl, arith, ℕ}
use wellcake.Api.{is_cluster}
use wellcake.Sizing.{total_replicas, stateful_set_replicas}
use wellcake.Sizing.ScaleDown.{stateful_set_replicas_bounds}
use wellcake.Naming.{ordinal_name, ordinal_from_pod_name, pod_name_from_fqdn}
use wellcake.Naming.Ordinals.{ordinal_from_pod_name-ordinal_name}
use wellcake.Tests.Samples.{demo_cluster}

total_replicas_demo : total_replicas demo_cluster ≡ 6
unfolding total_replicas is_cluster
total_replicas_demo = refl

stateful_set_replicas_demo : stateful_set_replicas demo_cluster ≡ 8
unfolding stateful_set_replicas total_replicas is_cluster wellcake.Common.int32_lt
stateful_set_replicas_demo = refl

stateful_set_replicas_bounds_example :
    (total_replicas demo_cluster ≤ stateful_set_replicas demo_cluster)
    × (8 ≤ stateful_set_replicas demo_cluster)
unfolding total_replicas is_cluster
stateful_set_replicas_bounds_example =
    stateful_set_replicas_bounds demo_cluster refl (omega arith) (omega arith)

pod_name_from_fqdn_demo :
    pod_name_from_fqdn (codes "demo-3.demo-headless.demo.svc.cluster.local") ≡ codes "demo-3"
unfolding pod_name_from_fqdn wellcake.Common.cut
pod_name_from_fqdn_demo = refl

ordinal_from_pod_name_example :
    ordinal_from_pod_name (ordinal_name (codes "demo") (pos 12)) (codes "demo") ≡ some (pos 12)
ordinal_from_pod_name_example =
    ordinal_from_pod_name-ordinal_name (codes "demo") (pos 12) (omega arith) (omega arith)
