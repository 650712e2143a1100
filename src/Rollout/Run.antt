-- ===== src/Rollout/Run.antt =====
-- internal/controller/rollout.go: driveReplicationRollout, which makes one step of a rollout.
use wellcake.Common.{
  Bytes, Option, none, some, Bool, true, false, List, length, if◌then◌else◌, is_empty, int32,
  int32_lt, not,
}
use wellcake.Api.{ValkeyCluster}
use wellcake.Sizing.{total_replicas}
use wellcake.Naming.{stateful_set_name}
use wellcake.Failover.{PodRole}
use wellcake.Failover.Run.{promote_replica}
use wellcake.Rollout.{
  RolloutPod, RolloutAction, list_rollout_pods, delete_pod_by_name, next_rollout_step,
  best_rollout_target,
}
use wellcake.Runtime.{Env, M, pure, ◌>>=◌, object, ask, Answer, Kind, StatefulSet, get}

-- What driveReplicationRollout returns; `failed` stands for an error.
pub record RolloutResult : Type 0 where
  pub primary : Bytes
  pub in_progress : Bool
  pub failed : Bool

module _ (env : Env) where
  -- r.Get of a StatefulSet.
  unfoldable pub get_stateful_set : Bytes → M (Answer StatefulSet)
  get_stateful_set name = ask (get Kind.stateful_set name) (λ h. env.stateful_set h name)

  unfoldable pub delete_and_return : Bytes → Bytes → M RolloutResult
  delete_and_return pod primary = do
    gone ← delete_pod_by_name env pod
    pure (record { primary = primary; in_progress = true; failed = not gone })

  unfoldable pub promote_and_delete :
      Bytes → List PodRole → Bytes → Bytes → Option PodRole → M RolloutResult
  promote_and_delete password survey primary pod none =
      pure (record { primary = primary; in_progress = true; failed = false })
  promote_and_delete password survey primary pod (some target) = do
    new_primary ← promote_replica env password survey target
    delete_and_return pod new_primary

  unfoldable pub take_action :
      Bytes → List PodRole → Bytes → Bytes → List RolloutPod → RolloutAction → M RolloutResult
  take_action password survey primary revision pods RolloutAction.rollout_none =
      pure (record { primary = primary; in_progress = false; failed = false })
  take_action password survey primary revision pods RolloutAction.rollout_wait =
      pure (record { primary = primary; in_progress = true; failed = false })
  take_action password survey primary revision pods (RolloutAction.rollout_roll_replica pod) =
      delete_and_return pod primary
  take_action password survey primary revision pods (RolloutAction.rollout_promote pod) =
      promote_and_delete password survey primary pod
        (best_rollout_target survey pods revision primary)

  unfoldable pub step_pods :
      Bytes → List PodRole → ValkeyCluster → Bytes → Option (List RolloutPod) → M RolloutResult
  step_pods password survey vc revision none =
      pure (record { primary = vc.status.primary; in_progress = false; failed = true })
  step_pods password survey vc revision (some pods) =
      let primary = vc.status.primary in
      if int32_lt (int32 (length pods)) (total_replicas vc)
      then pure (record { primary = primary; in_progress = true; failed = false })
      else take_action password survey primary revision pods
          (next_rollout_step pods revision primary)

  unfoldable pub step_revision :
      Bytes → List PodRole → ValkeyCluster → Answer StatefulSet → M RolloutResult
  step_revision password survey vc (Answer.found sts) =
      if is_empty sts.update_revision
      then pure (record { primary = vc.status.primary; in_progress = false; failed = false })
      else do pods ← list_rollout_pods env; step_pods password survey vc sts.update_revision pods
  step_revision password survey vc _ =
      pure (record { primary = vc.status.primary; in_progress = false; failed = true })

  -- driveReplicationRollout.
  unfoldable pub drive_replication_rollout : Bytes → List PodRole → M RolloutResult
  drive_replication_rollout password survey = do
    vc ← object
    sts ← get_stateful_set (stateful_set_name vc)
    step_revision password survey vc sts
