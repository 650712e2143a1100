-- ===== src/Reconcile/Replication.antt =====
-- internal/controller/valkeycluster_controller.go: reconcileReplication, one pass for the
-- Replication and the Standalone topology.
use wellcake.Common.{
  ℕ, Bytes, codes, Option, none, some, Bool, true, false, not, List, [], if◌then◌else◌, ◌&&◌, eqb,
  is_empty, ltb, int32_lt,
}
use wellcake.Api.{ValkeyCluster, is_replication, map_get}
use wellcake.Api.Defaults.{is_absent}
use wellcake.Naming.{headless_service_name}
use wellcake.Failover.{PodRole, survey_replication}
use wellcake.Failover.Run.{reconcile_failover}
use wellcake.Failover.Manual.{manual_failover}
use wellcake.Rollout.{proactive_rollout_enabled}
use wellcake.Rollout.Run.{RolloutResult, drive_replication_rollout}
use wellcake.Rotation.Run.{ensure_password_secret}
use wellcake.Labels.{ensure_role_labels}
use wellcake.Reconcile.{
  apply_object, ensure_pdb, ensure_network_policy, ensure_service_monitor, ensure_backup_cron_job,
  client_service_name, primary_service_name, replicas_service_name, config_map_name,
}
use wellcake.Reconcile.Claims.{ensure_stateful_set}
use wellcake.Reconcile.Status.{update_status}
use wellcake.Runtime.{
  Env, M, Kind, StatefulSet, ReconcileResult, reconcile_result, pure, ◌>>=◌, ◌>>◌, object,
}

-- The next steps, unless a step returned an error.
unfoldable pub unless_failed : M Bool → M Bool → M Bool
unless_failed step next = do ok ← step; if not ok then pure false else next

unfoldable pub requeue_in : ℕ → ReconcileResult → ReconcileResult
requeue_in seconds res =
    if not res.failed && ltb 0 seconds then reconcile_result seconds false else res

-- The guard of the failover: a replication set of its own with a pod that is Ready.
unfoldable pub is_managed : ValkeyCluster → StatefulSet → Bool
is_managed vc sts =
    is_replication vc.spec.topology
    && (int32_lt 0 sts.ready_replicas && is_absent vc.spec.replicate_from)

module _ (env : Env) where
  unfoldable pub ensure_service : Bytes → M Bool
  ensure_service name = apply_object env Kind.service name

  -- The Services and the ConfigMap.
  unfoldable pub ensure_replication_objects : ValkeyCluster → M Bool
  ensure_replication_objects vc = unless_failed (ensure_service (headless_service_name vc)) (
      unless_failed (ensure_service (client_service_name vc)) (
        unless_failed (ensure_service (primary_service_name vc)) (
          unless_failed (ensure_service (replicas_service_name vc))
            (apply_object env Kind.config_map (config_map_name vc)))))

  -- What follows the StatefulSet; the last two are only logged.
  unfoldable pub ensure_policies : ValkeyCluster → M Bool
  ensure_policies vc = unless_failed (ensure_pdb env vc) (ensure_network_policy env vc)

  unfoldable pub ensure_extras : ValkeyCluster → M (Unit {0})
  ensure_extras vc = do ensure_service_monitor env vc; ensure_backup_cron_job env vc; pure tt

  -- The role labels, whose error is only logged, and the status.
  unfoldable pub finish_replication : StatefulSet → Bytes → ℕ → M ReconcileResult
  finish_replication sts primary seconds = do
    ensure_role_labels env primary
    res ← update_status env sts primary
    pure (requeue_in seconds res)

  unfoldable pub manual_or : Bytes → List PodRole → Bytes → M Bytes
  manual_or password survey primary = do
    vc ← object
    let token = map_get vc.annotations (codes "valkey.wellcake.io/failover")
    if not (not (is_empty token) && not (eqb token vc.status.last_failover_token))
        then pure primary
        else do
          chosen ← manual_failover env password survey token
          pure (if is_empty chosen then primary else chosen)

  unfoldable pub fail_over : Bytes → StatefulSet → List PodRole → M ReconcileResult
  fail_over password sts survey = do
    kept ← reconcile_failover env password survey
    primary ← manual_or password survey kept
    finish_replication sts primary 15

  unfoldable pub after_rollout :
      Bytes → StatefulSet → List PodRole → RolloutResult → M ReconcileResult
  after_rollout password sts survey r =
      if r.failed
      then pure (reconcile_result 0 true)
      else if r.in_progress
      then (do res ← update_status env sts r.primary; pure (requeue_in 5 res))
      else fail_over password sts survey

  unfoldable pub manage_survey :
      ValkeyCluster → Bytes → StatefulSet → List PodRole → M ReconcileResult
  manage_survey vc password sts survey =
      if not (proactive_rollout_enabled vc)
      then fail_over password sts survey
      else do r ← drive_replication_rollout env password survey; after_rollout password sts survey r

  unfoldable pub manage_replication : ValkeyCluster → Bytes → StatefulSet → M ReconcileResult
  manage_replication vc password sts =
      if not (is_managed vc sts)
      then finish_replication sts [] 0
      else do survey ← survey_replication env password; manage_survey vc password sts survey

  unfoldable pub with_stateful_set : ValkeyCluster → Bytes → Option StatefulSet → M ReconcileResult
  with_stateful_set vc password none = pure (reconcile_result 0 true)
  with_stateful_set vc password (some sts) = do
    ok ← ensure_policies vc
    if not ok
        then pure (reconcile_result 0 true)
        else do ensure_extras vc; manage_replication vc password sts

  unfoldable pub with_secret : ValkeyCluster → Option Bytes → M ReconcileResult
  with_secret vc none = pure (reconcile_result 0 true)
  with_secret vc (some password) = do
    ok ← ensure_replication_objects vc
    if not ok
        then pure (reconcile_result 0 true)
        else do sts ← ensure_stateful_set env vc; with_stateful_set vc password sts

  -- reconcileReplication.
  unfoldable pub reconcile_replication : M ReconcileResult
  reconcile_replication = do
    vc ← object
    password ← ensure_password_secret env
    with_secret vc password
