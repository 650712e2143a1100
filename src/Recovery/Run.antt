-- ===== src/Recovery/Run.antt =====
-- internal/controller/cluster_recovery.go: maybeRecoverClusterQuorum, with the choice of the shards
-- and the takeover of one shard.
use wellcake.Common.{
  ℕ, ◌*◌, Bytes, codes, Option, none, some, Bool, true, false, not, List, [], ◌∷◌, if◌then◌else◌,
  ◌&&◌, ◌||◌, ◌==◌, ltb, eqb, is_empty, keep,
}
use wellcake.Api.{ValkeyCluster, map_get}
use wellcake.Naming.{cluster_data_pods, PodRef, pod_fqdn}
use wellcake.Info.{data_port, parse_cluster_info}
use wellcake.Rollout.{delete_pod_by_name}
use wellcake.Cluster.{ClusterNode, is_master, is_healthy, parse_cluster_nodes}
use wellcake.Recovery.{
  Target, Checked, quorum_recovery_enabled, count_masters, is_known, clear_quorum_down,
  quorum_down_long_enough, primary_fenced_by_k8s, primary_still_serving, pick_takeover_replica,
}
use wellcake.Runtime.{Env, M, pure, ◌>>=◌, ◌>>◌, object, dial_repl_client, query, command, Command}

-- What maybeRecoverClusterQuorum returns; the requeue is in seconds, and no error is returned.
pub record RecoveryResult : Type 0 where
  pub requeue_after : ℕ
  pub handled : Bool

abbrev pub not_handled : RecoveryResult
not_handled = record { requeue_after = 0; handled = false }

-- replicasByMaster[id].
unfoldable pub replicas_of : ValkeyCluster → Bytes → List ClusterNode → List ClusterNode
replicas_of vc id nodes =
    keep
      (λ n.
        not (is_master n)
        && not (is_empty n.master_id)
        && is_known vc n.pod_name
        && eqb n.master_id id)
      nodes

-- The majority gate: the healthy masters are no quorum.
unfoldable pub has_lost_quorum : List ClusterNode → Bool
has_lost_quorum nodes =
    let (healthy, total) = count_masters nodes in not (total == 0 || ltb total (healthy * 2))

unfoldable pub with_target : ClusterNode → Bytes → Option Target
with_target n replica =
    if is_empty replica
    then none
    else some (record { primary_pod = n.pod_name; primary_id = n.id; replica_pod = replica })

unfoldable pub add_target : Option Target → List Target → List Target
add_target none targets = targets
add_target (some t) targets = t ∷ targets

module _ (env : Env) where
  -- dialAnyClusterPod: the host that answers first.
  unfoldable pub dial_any : Bytes → List PodRef → M (Option Bytes)
  dial_any password [] = pure none
  dial_any password (p ∷ pods) = do
    vc ← object
    connected ← dial_repl_client env p.host (data_port vc) password
    if connected then pure (some p.host) else dial_any password pods

  unfoldable pub dial_any_cluster_pod : Bytes → M (Option Bytes)
  dial_any_cluster_pod password = do vc ← object; dial_any password (cluster_data_pods vc)

  -- One round of the loop of recoverableShards.
  unfoldable pub fenced_target :
      Bytes → List ClusterNode → ClusterNode → Checked → M (Option Target)
  fenced_target password nodes n none = pure none
  fenced_target password nodes n (some false) = pure none
  fenced_target password nodes n (some true) = do
    serving ← primary_still_serving env password n.pod_name
    if serving then pure none else do
      vc ← object
      replica ← pick_takeover_replica env password (replicas_of vc n.id nodes)
      pure (with_target n replica)

  unfoldable pub recoverable_shard : Bytes → List ClusterNode → ClusterNode → M (Option Target)
  recoverable_shard password nodes n = do
    vc ← object
    if not (is_master n) || is_healthy n
        then pure none
        else if is_empty n.pod_name || not (is_known vc n.pod_name)
        then pure none
        else do fenced ← primary_fenced_by_k8s env n.pod_name; fenced_target password nodes n fenced

  -- recoverableShards, of the nodes that are left.
  unfoldable pub recoverable_shards : Bytes → List ClusterNode → List ClusterNode → M (List Target)
  recoverable_shards password nodes [] = pure []
  recoverable_shards password nodes (n ∷ rest) = do
    target ← recoverable_shard password nodes n
    targets ← recoverable_shards password nodes rest
    pure (add_target target targets)

  unfoldable pub fence_and_take_over : Bytes → Target → Bool → M (Unit {0})
  fence_and_take_over password t serving = if serving then pure tt else do
    deleted ← delete_pod_by_name env t.primary_pod
    if not deleted then pure tt else do
      vc ← object
      let host = pod_fqdn vc t.replica_pod
      connected ← dial_repl_client env host (data_port vc) password
      if not connected
          then pure tt
          else do command env host Command.cluster_failover_takeover; pure tt

  unfoldable pub recover_fenced : Bytes → Target → Checked → M (Unit {0})
  recover_fenced password t none = pure tt
  recover_fenced password t (some false) = pure tt
  recover_fenced password t (some true) = do
    serving ← primary_still_serving env password t.primary_pod
    fence_and_take_over password t serving

  -- recoverShard; c.port is the data port too.
  unfoldable pub recover_shard : Bytes → Target → M (Unit {0})
  recover_shard password t = do
    fenced ← primary_fenced_by_k8s env t.primary_pod
    recover_fenced password t fenced

  unfoldable pub recover_shards : Bytes → List Target → M (Unit {0})
  recover_shards password [] = pure tt
  recover_shards password (t ∷ targets) = do
    recover_shard password t
    recover_shards password targets

  -- Whether the window has elapsed.
  unfoldable pub recover_when : Bytes → List Target → Bool → M RecoveryResult
  recover_when password targets false = pure (record { requeue_after = 10; handled = true })
  recover_when password targets true = do
    recover_shards password targets
    pure (record { requeue_after = 5; handled = true })

  unfoldable pub recover_targets : Bytes → List Target → M RecoveryResult
  recover_targets password [] = pure not_handled
  recover_targets password (t ∷ targets) = do
    elapsed ← quorum_down_long_enough env
    recover_when password (t ∷ targets) elapsed

  unfoldable pub recover_from_nodes : Bytes → Option Bytes → M RecoveryResult
  recover_from_nodes password none = pure not_handled
  recover_from_nodes password (some raw) =
      let nodes = parse_cluster_nodes raw in
      if not (has_lost_quorum nodes)
      then pure not_handled
      else do targets ← recoverable_shards password nodes nodes; recover_targets password targets

  unfoldable pub recover_from_info : Bytes → Bytes → Option Bytes → M RecoveryResult
  recover_from_info password host none = pure not_handled
  recover_from_info password host (some info) =
      if eqb (map_get (parse_cluster_info info) (codes "cluster_state")) (codes "ok")
      then (do clear_quorum_down env; pure not_handled)
      else do raw ← query env host Command.cluster_nodes; recover_from_nodes password raw

  unfoldable pub recover_through : Bytes → Option Bytes → M RecoveryResult
  recover_through password none = pure not_handled
  recover_through password (some host) = do
    info ← query env host Command.cluster_info
    recover_from_info password host info

  unfoldable pub recover_enabled : Bytes → Bool → M RecoveryResult
  recover_enabled password false = do clear_quorum_down env; pure not_handled
  recover_enabled password true = do
    host ← dial_any_cluster_pod password
    recover_through password host

  unfoldable pub recover_initialized : Bytes → ValkeyCluster → Bool → M RecoveryResult
  recover_initialized password vc false = pure not_handled
  recover_initialized password vc true = recover_enabled password (quorum_recovery_enabled vc)

  -- maybeRecoverClusterQuorum.
  unfoldable pub maybe_recover_cluster_quorum : Bytes → M RecoveryResult
  maybe_recover_cluster_quorum password = do
    vc ← object
    recover_initialized password vc vc.status.cluster_initialized
