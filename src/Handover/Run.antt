-- ===== src/Handover/Run.antt =====
-- internal/controller/rollout_sentinel.go: driveSentinelRollout, with its two planes.
use wellcake.Common.{
  ℕ, Bytes, codes, Option, none, some, Bool, true, false, not, List, [], ◌∷◌, length, if◌then◌else◌,
  ◌&&◌, eqb, is_empty, int32, int32_lt, exists,
}
use wellcake.Api.{ValkeyCluster, SentinelSpec}
use wellcake.Naming.{pod_name, stateful_set_name, sentinel_stateful_set_name}
use wellcake.Info.{role_master}
use wellcake.Failover.{PodRole, survey_replication}
use wellcake.Rollout.{
  RolloutPod, RolloutAction, is_stale, instance_label, map_pods, list_rollout_pods,
  next_rollout_step,
}
use wellcake.Rollout.Run.{get_stateful_set}
use wellcake.Rollout.Shards.{Progress, progress, roll_pod}
use wellcake.Handover.{sentinel_handover}
use wellcake.Runtime.{Env, M, pure, ◌>>=◌, ◌>>◌, object, ask, Answer, StatefulSet, list_pods}

unfoldable pub is_reachable_primary : PodRole → Bool
is_reachable_primary s = s.reachable && eqb s.role role_master

-- sentinelDataMaster: "" where no pod or more than one pod claims to be the master.
unfoldable pub only_master : ValkeyCluster → List PodRole → Bytes → Bytes
only_master vc [] master = master
only_master vc (s ∷ survey) master =
    let rest =
      only_master vc survey (if is_reachable_primary s then pod_name vc s.ordinal else master) in
    if is_reachable_primary s && not (is_empty master) then [] else rest

unfoldable pub sentinel_data_master : ValkeyCluster → List PodRole → Bytes
sentinel_data_master vc survey = only_master vc survey []

-- vc.Spec.Sentinel.Replicas; the topology comes with spec.sentinel.
unfoldable pub sentinel_replicas : Option SentinelSpec → ℕ
sentinel_replicas none = 0
sentinel_replicas (some s) = s.replicas

abbrev pub failed_rollout : Bool → Progress
failed_rollout b = record { in_progress = b; failed = true }

module _ (env : Env) where
  -- listSentinelRolloutPods.
  unfoldable pub list_sentinel_rollout_pods : M (Option (List RolloutPod))
  list_sentinel_rollout_pods = do
    vc ← object
    pods ←
        ask
          (list_pods (
            (instance_label, vc.name)
            ∷ (codes "app.kubernetes.io/component", codes "sentinel")
            ∷ []))
          env.pods
    pure (map_pods (sentinel_stateful_set_name vc) pods)

  -- The Sentinels have no primary.
  unfoldable pub sentinel_action : RolloutAction → M Progress
  sentinel_action RolloutAction.rollout_none = pure (progress false)
  sentinel_action RolloutAction.rollout_wait = pure (progress true)
  sentinel_action (RolloutAction.rollout_roll_replica pod) = roll_pod env pod
  sentinel_action (RolloutAction.rollout_promote pod) = pure (progress false)

  unfoldable pub sentinel_pods : ValkeyCluster → Bytes → Option (List RolloutPod) → M Progress
  sentinel_pods vc revision none = pure (failed_rollout false)
  sentinel_pods vc revision (some pods) =
      if int32_lt (int32 (length pods)) (sentinel_replicas vc.spec.sentinel)
      then pure (progress true)
      else sentinel_action (next_rollout_step pods revision [])

  unfoldable pub sentinel_revision : ValkeyCluster → Answer StatefulSet → M Progress
  sentinel_revision vc Answer.not_found = pure (failed_rollout false)
  sentinel_revision vc Answer.failed = pure (failed_rollout false)
  sentinel_revision vc (Answer.found sts) =
      if is_empty sts.update_revision
      then pure (progress false)
      else do pods ← list_sentinel_rollout_pods; sentinel_pods vc sts.update_revision pods

  -- Plane 2.
  unfoldable pub sentinel_plane : M Progress
  sentinel_plane = do
    vc ← object
    sts ← get_stateful_set env (sentinel_stateful_set_name vc)
    sentinel_revision vc sts

  unfoldable pub data_action : Bytes → List PodRole → RolloutAction → M Progress
  data_action password survey RolloutAction.rollout_none = sentinel_plane
  data_action password survey RolloutAction.rollout_wait = pure (progress true)
  data_action password survey (RolloutAction.rollout_roll_replica pod) = roll_pod env pod
  data_action password survey (RolloutAction.rollout_promote pod) = do
    sentinel_handover env password survey pod
    pure (progress true)

  unfoldable pub data_survey :
      Bytes → ValkeyCluster → Bytes → List RolloutPod → List PodRole → M Progress
  data_survey password vc revision pods survey =
      let master = sentinel_data_master vc survey in
      if is_empty master
      then pure (progress true)
      else data_action password survey (next_rollout_step pods revision master)

  unfoldable pub data_pods : Bytes → ValkeyCluster → Bytes → Option (List RolloutPod) → M Progress
  data_pods password vc revision none = pure (failed_rollout false)
  data_pods password vc revision (some pods) =
      if int32_lt (int32 (length pods)) vc.spec.replicas
      then pure (progress true)
      else if exists (is_stale revision) pods
      then (do
        survey ← survey_replication env password
        data_survey password vc revision pods survey)
      else sentinel_plane

  unfoldable pub data_revision : Bytes → ValkeyCluster → Answer StatefulSet → M Progress
  data_revision password vc Answer.not_found = pure (failed_rollout false)
  data_revision password vc Answer.failed = pure (failed_rollout false)
  data_revision password vc (Answer.found sts) =
      if is_empty sts.update_revision
      then pure (progress false)
      else do pods ← list_rollout_pods env; data_pods password vc sts.update_revision pods

  -- driveSentinelRollout.
  unfoldable pub drive_sentinel_rollout : Bytes → M Progress
  drive_sentinel_rollout password = do
    vc ← object
    sts ← get_stateful_set env (stateful_set_name vc)
    data_revision password vc sts
