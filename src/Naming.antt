-- ===== src/Naming.antt =====
-- internal/controller/resources.go, rollout.go, cluster.go, cluster_pershard.go and
-- rollout_sentinel.go: the names of pods and Services, and how they are read back.
pub mod Ordinals
use wellcake.Common.{
  ℕ, ◌+◌, Bytes, codes, Option, none, some, Bool, true, false, if◌then◌else◌, List, [], ◌∷◌, ◌++◌,
  ℤ, pos, int32, cut, last_cut, after_prefix, itoa, itoa_ℤ, parse_int32, map, is_empty,
}
use wellcake.Api.{ValkeyCluster, Topology}
use wellcake.Sizing.{
  per_shard_enabled, replicas_per_shard_of, shard_count_of, total_replicas, range_int32,
}

abbrev pub svc_suffix : Bytes
svc_suffix = codes ".svc.cluster.local"

-- statefulSetName and headlessServiceName.
unfoldable pub stateful_set_name : ValkeyCluster → Bytes
stateful_set_name vc = vc.name

unfoldable pub headless_service_name : ValkeyCluster → Bytes
headless_service_name vc = vc.name ++ codes "-headless"

-- "%s-%d".
unfoldable pub ordinal_name : Bytes → ℤ → Bytes
ordinal_name base ord = base ++ (b'-' ∷ itoa_ℤ ord)

-- "%s.%s.%s.svc.cluster.local".
unfoldable pub fqdn : Bytes → Bytes → Bytes → Bytes
fqdn pod headless namespace = pod ++ (b'.' ∷ (headless ++ (b'.' ∷ (namespace ++ svc_suffix))))

-- podName.
unfoldable pub pod_name : ValkeyCluster → ℤ → Bytes
unfolding ordinal_name stateful_set_name
pod_name vc ord = ordinal_name (stateful_set_name vc) ord

-- ordinalFromPodName.
unfoldable pub ordinal_from_suffix : Option Bytes → Option ℤ
ordinal_from_suffix none = none
ordinal_from_suffix (some suffix) = parse_int32 suffix

unfoldable pub ordinal_from_pod_name : Bytes → Bytes → Option ℤ
unfolding ordinal_from_suffix
ordinal_from_pod_name name sts = ordinal_from_suffix (after_prefix name (sts ++ (b'-' ∷ [])))

-- The text before the first `sep`, or the whole text.
unfoldable pub before_or_all : Option (Bytes × Bytes) → Bytes → Bytes
before_or_all none s = s
before_or_all (some (before, after)) s = before

-- podNameFromFQDN.
unfoldable pub pod_name_from_fqdn : Bytes → Bytes
unfolding before_or_all
pod_name_from_fqdn s = let host = before_or_all (cut b':' s) s in before_or_all (cut b'.' host) host

-- strings.LastIndex(podName, "-"); a dash at the start does not count.
unfoldable pub headless_of : Option (Bytes × Bytes) → Bytes → Bytes
headless_of none default = default
headless_of (some (before, after)) default = if is_empty before then default else before

-- podFQDN.
unfoldable pub pod_fqdn : ValkeyCluster → Bytes → Bytes
unfolding headless_of headless_service_name fqdn
pod_fqdn vc name =
    let single = headless_service_name vc in
    let headless =
      if per_shard_enabled vc then headless_of (last_cut b'-' name) single else single in
    fqdn name headless vc.namespace

-- shardStsName and shardHeadlessName.
unfoldable pub shard_sts_name : ValkeyCluster → ℕ → Bytes
shard_sts_name vc shard = vc.name ++ (codes "-sh" ++ itoa shard)

unfoldable pub shard_headless_name : ValkeyCluster → ℕ → Bytes
shard_headless_name vc shard = vc.name ++ (codes "-sh" ++ itoa shard)

pub record PodRef : Type 0 where
  pub host : Bytes
  pub shard : Option ℕ  -- none stands for -1
  pub ord : ℕ

unfoldable pub shard_pod : ValkeyCluster → ℕ → ℕ → PodRef
unfolding ordinal_name fqdn shard_sts_name shard_headless_name
shard_pod vc s o = record {
  host = fqdn (ordinal_name (shard_sts_name vc s) (pos o)) (shard_headless_name vc s) vc.namespace;
  shard = some s;
  ord = o;
}

unfoldable pub single_pod : ValkeyCluster → ℕ → PodRef
unfolding ordinal_name fqdn stateful_set_name headless_service_name
single_pod vc i = record {
  host = fqdn (ordinal_name (stateful_set_name vc) (pos i)) (headless_service_name vc) vc.namespace;
  shard = none;
  ord = i;
}

unfoldable pub shard_pods : ValkeyCluster → ℕ → List ℕ → List PodRef
unfolding shard_pod range_int32
shard_pods vc per_sts [] = []
shard_pods vc per_sts (s ∷ shards) =
    map (shard_pod vc s) (range_int32 per_sts) ++ shard_pods vc per_sts shards

-- clusterDataPods.
unfoldable pub cluster_data_pods : ValkeyCluster → List PodRef
unfolding shard_pods single_pod range_int32
cluster_data_pods vc =
    if per_shard_enabled vc
    then shard_pods vc (int32 (1 + replicas_per_shard_of vc)) (range_int32 (shard_count_of vc))
    else map (single_pod vc) (range_int32 (total_replicas vc))

unfoldable pub first_host : List PodRef → Bytes
first_host [] = []
first_host (p ∷ ps) = p.host

-- clusterAnyPodHost.
unfoldable pub cluster_any_pod_host : ValkeyCluster → Bytes
unfolding first_host cluster_data_pods
cluster_any_pod_host vc = first_host (cluster_data_pods vc)

-- sentinelStatefulSetName and sentinelPodFQDN.
unfoldable pub sentinel_stateful_set_name : ValkeyCluster → Bytes
sentinel_stateful_set_name vc = vc.name ++ codes "-sentinel"

unfoldable pub sentinel_pod_fqdn : ValkeyCluster → ℤ → Bytes
unfolding ordinal_name fqdn sentinel_stateful_set_name
sentinel_pod_fqdn vc ord =
    let sn = sentinel_stateful_set_name vc in fqdn (ordinal_name sn ord) sn vc.namespace

-- labelsFor, with the topology's name in lower case.
unfoldable pub topology_name : Topology → Bytes
topology_name Topology.unset = []
topology_name Topology.standalone = codes "standalone"
topology_name Topology.replication = codes "replication"
topology_name Topology.sentinel = codes "sentinel"
topology_name Topology.cluster = codes "cluster"

unfoldable pub labels_for : ValkeyCluster → List (Bytes × Bytes)
labels_for vc =
    (codes "app.kubernetes.io/name", codes "valkey")
    ∷ (codes "app.kubernetes.io/instance", vc.name)
    ∷ (codes "app.kubernetes.io/part-of", codes "valkey-operator")
    ∷ (codes "app.kubernetes.io/managed-by", codes "valkey-operator")
    ∷ (codes "app.kubernetes.io/component", topology_name vc.spec.topology)
    ∷ []
