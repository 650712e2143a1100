-- ===== src/Tests/Cluster.antt =====
-- Clusters: their nodes, and the recovery of a lost quorum.
use wellcake.Common.{
  ◌≡◌, refl, List, [], ◌∷◌, ◌++◌, some, codes, Bytes, map, keep, int32, arith, Option, eqb,
  is_empty, exists, ltb_ℤ, parse_bool, fields, split_on, trim_space, cut, has_prefix, parse_int64,
  itoa_ℤ,
}
use wellcake.Api.{Status, map_get, map_find, is_durable}
use wellcake.Cluster.{ClusterNode, is_master, is_healthy, parse_cluster_nodes, parse_fields}
use wellcake.Cluster.Slots.{slots_count, print_range, total_size, slots_count-print_range}
use wellcake.Cluster.Survey.{shards_of_nodes, offset_field}
use wellcake.Cluster.Shards.{shard_view, node_view, shards_of_nodes-view}
use wellcake.Failover.Run.{down_elapsed}
use wellcake.Info.{parse_cluster_info, parse_info, data_port, number_or}
use wellcake.Naming.{cluster_data_pods, pod_fqdn, pod_name_from_fqdn}
use wellcake.Recovery.{
  quorum_recovery_enabled, enabled_by, count_masters, is_known, primary_fenced_by_k8s,
  fenced_answer, primary_still_serving, reports_ok, pick_takeover_replica, pick_among, ask_offset,
  takeover_answer, quorum_down_long_enough, quorum_down_for,
}
use wellcake.Recovery.Run.{
  RecoveryResult, maybe_recover_cluster_quorum, recover_initialized, recover_enabled,
  dial_any_cluster_pod, dial_any, recover_through, recover_from_info, recover_from_nodes,
  has_lost_quorum, recoverable_shards, recoverable_shard, replicas_of, fenced_target, with_target,
  add_target, recover_targets, recover_when, recover_shards, recover_shard, recover_fenced,
  fence_and_take_over,
}
use wellcake.Rollout.{delete_pod_by_name, is_gone}
use wellcake.Recovery.Takeover.{ActsInOrder, maybe_recover_cluster_quorum-ActsInOrder}
use wellcake.Runtime.{
  World, Env, Command, ◌>>=◌, object, pure, ask, dial_repl_client, query, command, clock, is_some,
}
use wellcake.Tests.Samples.{calm, demo_cluster}

slots_count-print_range_example :
    slots_count (map print_range ((0, 5460) ∷ (7000, 7000) ∷ []))
    ≡ int32 (total_size 0 ((0, 5460) ∷ (7000, 7000) ∷ []))
slots_count-print_range_example =
    slots_count-print_range ((0, 5460) ∷ (7000, 7000) ∷ [])
      ((omega arith, omega arith), ((omega arith, omega arith), tt))

abbrev node : Bytes → Bytes → Bytes → Bytes → Bytes → ClusterNode
node id pod role master link = record {
  id = id;
  pod_name = pod;
  flags = role ∷ [];
  master_id = master;
  slots = [];
  link_state = link;
}

abbrev nodes : List ClusterNode
nodes =
    node (codes "a") (codes "demo-0") (codes "master") [] (codes "connected")
    ∷ node (codes "b") (codes "demo-1") (codes "slave") (codes "a") (codes "disconnected")
    ∷ node (codes "c") (codes "demo-2") (codes "master") [] (codes "disconnected")
    ∷ []

shards_of_nodes-view_example :
    map shard_view (shards_of_nodes nodes) ≡ map node_view (keep is_master nodes)
shards_of_nodes-view_example = shards_of_nodes-view nodes

abbrev pub lines : Bytes
lines =
    codes "a :6379@16379,demo-0.x master,fail - 0 0 1 disconnected 0-5460"
    ++ (10 ∷ codes "b :6379@16379,demo-1.x master,fail - 0 0 2 disconnected 5461-10922")
    ++ (10 ∷ codes "c :6379@16379,demo-2.x master - 0 0 3 connected 10923-16383")
    ++ (10 ∷ codes "d :6379@16379,demo-3.x slave a 0 0 1 connected")

abbrev outage_reply : Command → Option Bytes
outage_reply Command.cluster_info = some (codes "cluster_state:fail")
outage_reply Command.cluster_nodes = some lines
outage_reply Command.info_replication = some (codes "slave_repl_offset:7")
outage_reply _ = some (codes "OK")

-- Two of three primaries are gone, and one of them has a replica that answers.
abbrev outage : Env
outage = record calm { reply = λ h host c. outage_reply c; now = λ h. 90000000000 }

abbrev stuck : World
stuck = record {
  vc = record demo_cluster {
    status = record demo_cluster.status { quorum_down_since = some 1000 };
  };
  effects = [];
}

recovery : RecoveryResult × World
unfolding maybe_recover_cluster_quorum recover_initialized recover_enabled quorum_recovery_enabled
    enabled_by dial_any_cluster_pod dial_any recover_through recover_from_info recover_from_nodes
    has_lost_quorum count_masters is_master is_healthy parse_cluster_nodes parse_fields
    recoverable_shards recoverable_shard is_known replicas_of primary_fenced_by_k8s fenced_answer
    fenced_target primary_still_serving reports_ok pick_takeover_replica pick_among ask_offset
    takeover_answer offset_field with_target add_target recover_targets quorum_down_long_enough
    quorum_down_for down_elapsed recover_when recover_shards recover_shard recover_fenced
    fence_and_take_over delete_pod_by_name is_gone ◌>>=◌ object pure ask dial_repl_client query
    command clock is_some map_get map_find parse_cluster_info parse_info data_port cluster_data_pods
    pod_fqdn pod_name_from_fqdn eqb is_empty exists keep ltb_ℤ parse_bool is_durable fields split_on
    trim_space cut has_prefix parse_int64 number_or itoa_ℤ
recovery = maybe_recover_cluster_quorum outage (codes "pw") stuck

-- The takeover is issued, after the deletion of the dead primary.
recovery_requeues : recovery.0.requeue_after ≡ 5
unfolding recovery wellcake.Sizing.per_shard_enabled wellcake.Api.is_cluster
    wellcake.Sizing.total_replicas
recovery_requeues = refl

maybe_recover_cluster_quorum-ActsInOrder_example :
    ActsInOrder outage (codes "pw") stuck (maybe_recover_cluster_quorum outage (codes "pw") stuck).1
maybe_recover_cluster_quorum-ActsInOrder_example =
    maybe_recover_cluster_quorum-ActsInOrder outage (codes "pw") stuck
