-- ===== src/Rollout/Shards.antt =====
-- internal/controller/rollout.go: the restart of a Cluster, shard by shard.
pub mod Decision
pub mod Steps
use wellcake.Common.{
  ℕ, Bytes, codes, Option, none, some, Bool, true, false, not, List, [], ◌∷◌, ◌++◌, map, length,
  if◌then◌else◌, ◌&&◌, ◌||◌, ◌==◌, eqb, is_empty, int32, int32_lt, exists, every, keep, sort_by,
  ltb_bytes,
}
use wellcake.Api.{ValkeyCluster, ShardStatus}
use wellcake.Sizing.{total_replicas}
use wellcake.Naming.{pod_fqdn, stateful_set_name}
use wellcake.Info.{data_port}
use wellcake.Cluster.Survey.{survey_cluster}
use wellcake.Rollout.{RolloutPod, is_stale, list_rollout_pods, delete_pod_by_name}
use wellcake.Rollout.Run.{get_stateful_set}
use wellcake.Runtime.{
  Env, M, pure, ◌>>=◌, ◌>>◌, object, Answer, StatefulSet, dial_repl_client, command, Command,
}

-- clusterShard.
pub record ClusterShard : Type 0 where
  pub primary : Bytes
  pub replicas : List Bytes

-- clusterRolloutAction, with the pod where there is one.
pub data ClusterAction : Type 0 where
  cluster_rollout_none : ClusterAction
  cluster_rollout_wait : ClusterAction
  cluster_rollout_roll_replica : Bytes → ClusterAction
  cluster_rollout_failover : Bytes → ClusterAction
  cluster_rollout_roll_master : Bytes → ClusterAction

-- The maps rev and ready: the last pod of a name counts.
unfoldable pub or_pod : Option RolloutPod → Option RolloutPod → Option RolloutPod
or_pod (some p) other = some p
or_pod none other = other

unfoldable pub pod_named : List RolloutPod → Bytes → Option RolloutPod
pod_named [] name = none
pod_named (p ∷ pods) name = or_pod (pod_named pods name) (if eqb p.name name then some p else none)

unfoldable pub revision_of : Option RolloutPod → Bytes
revision_of none = []
revision_of (some p) = p.revision

unfoldable pub ready_of : Option RolloutPod → Bool
ready_of none = false
ready_of (some p) = p.ready

unfoldable pub is_fresh : List RolloutPod → Bytes → Bytes → Bool
is_fresh pods revision name = eqb (revision_of (pod_named pods name)) revision

unfoldable pub all_replicas : List ClusterShard → List Bytes
all_replicas [] = []
all_replicas (s ∷ shards) = s.replicas ++ all_replicas shards

unfoldable pub stale_replicas : List RolloutPod → Bytes → List ClusterShard → List Bytes
stale_replicas pods revision shards =
    keep (λ r. not (is_fresh pods revision r)) (all_replicas shards)

-- A replica to hand over to, a master with no replica, or neither.
unfoldable pub hand_over : List RolloutPod → Bytes → ClusterShard → List Bytes → ClusterAction
hand_over pods revision s [] =
    if length s.replicas == 0
    then ClusterAction.cluster_rollout_roll_master s.primary
    else ClusterAction.cluster_rollout_wait
hand_over pods revision s (r ∷ rest) =
    let later = hand_over pods revision s rest in
    if is_fresh pods revision r && ready_of (pod_named pods r)
    then ClusterAction.cluster_rollout_failover r
    else later

unfoldable pub first_master : List RolloutPod → Bytes → List ClusterShard → ClusterAction
first_master pods revision [] = ClusterAction.cluster_rollout_none
first_master pods revision (s ∷ shards) =
    let later = first_master pods revision shards in
    if is_fresh pods revision s.primary then later else hand_over pods revision s s.replicas

abbrev pub lower_primary : ClusterShard → ClusterShard → Bool
lower_primary a b = ltb_bytes a.primary b.primary

unfoldable pub replica_or_master :
    List RolloutPod → List ClusterShard → Bytes → List Bytes → ClusterAction
replica_or_master pods shards revision (r ∷ rest) = ClusterAction.cluster_rollout_roll_replica r
replica_or_master pods shards revision [] =
    first_master pods revision (sort_by lower_primary shards)

-- nextClusterRolloutStep.
unfoldable pub next_cluster_rollout_step :
    List RolloutPod → List ClusterShard → Bytes → ClusterAction
next_cluster_rollout_step pods shards revision =
    if length pods == 0 || is_empty revision || length shards == 0
    then ClusterAction.cluster_rollout_none
    else if not (exists (is_stale revision) pods)
    then ClusterAction.cluster_rollout_none
    else if not (every (λ p. p.ready) pods)
    then ClusterAction.cluster_rollout_wait
    else replica_or_master pods shards revision
        (sort_by ltb_bytes (stale_replicas pods revision shards))

unfoldable pub cluster_shard : ShardStatus → ClusterShard
cluster_shard s = record { primary = s.primary; replicas = s.replicas }

-- What driveClusterRollout returns.
pub record Progress : Type 0 where
  pub in_progress : Bool
  pub failed : Bool

abbrev pub progress : Bool → Progress
progress b = record { in_progress = b; failed = false }

module _ (env : Env) where
  -- clusterFailoverOnPod: an error is only logged.
  unfoldable pub cluster_failover_on_pod : Bytes → Bytes → M (Unit {0})
  cluster_failover_on_pod password pod = do
    vc ← object
    let host = pod_fqdn vc pod
    connected ← dial_repl_client env host (data_port vc) password
    if not connected then pure tt else do command env host Command.cluster_failover; pure tt

  unfoldable pub roll_pod : Bytes → M Progress
  roll_pod pod = do
    gone ← delete_pod_by_name env pod
    pure (record { in_progress = true; failed = not gone })

  unfoldable pub take_cluster_action : Bytes → ClusterAction → M Progress
  take_cluster_action password ClusterAction.cluster_rollout_none = pure (progress false)
  take_cluster_action password ClusterAction.cluster_rollout_wait = pure (progress true)
  take_cluster_action password (ClusterAction.cluster_rollout_roll_replica pod) = roll_pod pod
  take_cluster_action password (ClusterAction.cluster_rollout_roll_master pod) = roll_pod pod
  take_cluster_action password (ClusterAction.cluster_rollout_failover pod) = do
    cluster_failover_on_pod password pod
    pure (progress true)

  unfoldable pub step_shards : Bytes → Bytes → List RolloutPod → List ShardStatus → M Progress
  step_shards password revision pods [] = pure (progress true)
  step_shards password revision pods (s ∷ statuses) =
      take_cluster_action password
        (next_cluster_rollout_step pods (map cluster_shard (s ∷ statuses)) revision)

  unfoldable pub step_cluster_pods :
      Bytes → ValkeyCluster → Bytes → Option (List RolloutPod) → M Progress
  step_cluster_pods password vc revision none = pure (record { in_progress = false; failed = true })
  step_cluster_pods password vc revision (some pods) =
      if int32_lt (int32 (length pods)) (total_replicas vc)
      then pure (progress true)
      else if not (exists (is_stale revision) pods)
      then pure (progress false)
      else do statuses ← survey_cluster env password; step_shards password revision pods statuses

  unfoldable pub step_cluster_revision : Bytes → ValkeyCluster → Answer StatefulSet → M Progress
  step_cluster_revision password vc Answer.not_found =
      pure (record { in_progress = false; failed = true })
  step_cluster_revision password vc Answer.failed =
      pure (record { in_progress = false; failed = true })
  step_cluster_revision password vc (Answer.found sts) =
      if is_empty sts.update_revision
      then pure (progress false)
      else do pods ← list_rollout_pods env; step_cluster_pods password vc sts.update_revision pods

  -- driveClusterRollout.
  unfoldable pub drive_cluster_rollout : Bytes → M Progress
  drive_cluster_rollout password = do
    vc ← object
    sts ← get_stateful_set env (stateful_set_name vc)
    step_cluster_revision password vc sts
