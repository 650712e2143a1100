-- ===== src/Reconcile/Cluster.antt =====
-- internal/controller/cluster.go and cluster_pershard.go: reconcileCluster, one pass for the Cluster
-- topology.
use wellcake.Common.{
  ℕ, ◌+◌, Bytes, Option, none, some, Bool, true, false, not, List, [], ◌∷◌, if◌then◌else◌, ◌&&◌,
  ◌||◌, ◌==◌, int32, int32_lt, ltb,
}
use wellcake.Api.{ValkeyCluster, Status, Phase, ShardStatus}
use wellcake.Api.Defaults.{is_absent}
use wellcake.Sizing.{
  per_shard_enabled, range_int32, replicas_per_shard_of, shard_count_of, total_replicas,
}
use wellcake.Naming.{headless_service_name, shard_headless_name, shard_sts_name}
use wellcake.Rollout.{proactive_rollout_enabled}
use wellcake.Rollout.Shards.{Progress, drive_cluster_rollout}
use wellcake.Rotation.Run.{ensure_password_secret}
use wellcake.Recovery.Run.{maybe_recover_cluster_quorum}
use wellcake.Cluster.Scaling.{
  Outcome, outcome, is_final, patch, set_phase, maybe_reconcile_cluster_scaling,
}
use wellcake.Cluster.Survey.{summarize_shards, survey_cluster}
use wellcake.Reconcile.{
  apply_object, apply_stateful_set, client_service_name, config_map_name, ensure_backup_cron_job,
  ensure_service_monitor,
}
use wellcake.Reconcile.Claims.{ensure_pvc_size, ensure_stateful_set}
use wellcake.Reconcile.Formation.{bootstrap_or_restore}
use wellcake.Reconcile.Replication.{ensure_policies, ensure_service, unless_failed}
use wellcake.Reconcile.Status.{internal_endpoint}
use wellcake.Runtime.{Env, M, Kind, StatefulSet, pure, ◌>>=◌, ◌>>◌, object}

-- The phase and the status of updateClusterStatus.
unfoldable pub cluster_phase : Bool → Bool → Phase
cluster_phase all_ready initialized =
    if not all_ready
    then Phase.creating
    else if not initialized
    then Phase.creating
    else Phase.ready

unfoldable pub cluster_status : ValkeyCluster → ℕ → Bool → List ShardStatus → Status
cluster_status vc ready all_ready details = record vc.status {
  shards = shard_count_of vc;
  ready_replicas = ready;
  internal_endpoint = internal_endpoint vc;
  observed_generation = vc.generation;
  shard_details = details;
  ready_shards = int32 (summarize_shards details).0;
  phase = cluster_phase all_ready vc.status.cluster_initialized;
}

-- The guard of reconcileCluster, and whether all pods are Ready.
unfoldable pub has_too_few_shards : ValkeyCluster → Bool
has_too_few_shards vc = is_absent vc.spec.shards || int32_lt (shard_count_of vc) 3

unfoldable pub are_all_ready : ValkeyCluster → ℕ → Bool
are_all_ready vc ready = ready == total_replicas vc && int32_lt 0 (total_replicas vc)

unfoldable pub added_ready : ℕ → Option StatefulSet → Option ℕ
added_ready ready none = none
added_ready ready (some sts) = some (int32 (ready + sts.ready_replicas))

unfoldable pub ready_of : Option StatefulSet → Option ℕ
ready_of none = none
ready_of (some sts) = some sts.ready_replicas

unfoldable pub rollout_outcome : Progress → Outcome × Bool
rollout_outcome p =
    if p.failed then (outcome false true, true) else (outcome p.in_progress false, p.in_progress)

unfoldable pub is_steady : ValkeyCluster → ℕ → Bool
is_steady vc want =
    proactive_rollout_enabled vc
    && (vc.status.cluster_initialized && vc.status.last_applied_replicas == want)

module _ (env : Env) where
  -- ensureShardWorkload: the number of the Ready pods, none on an error.
  unfoldable pub apply_shard : ValkeyCluster → ℕ → ℕ → M (Option ℕ)
  apply_shard vc s ready = do
    ok ← ensure_service env (shard_headless_name vc s)
    if not ok then pure none else do
      sts ← apply_stateful_set env (shard_sts_name vc s) (int32 (1 + replicas_per_shard_of vc))
      pure (added_ready ready sts)

  unfoldable pub then_size : ValkeyCluster → Option ℕ → M (Option ℕ)
  then_size vc none = pure none
  then_size vc (some ready) = do ok ← ensure_pvc_size env vc; pure (if ok then some ready else none)

  unfoldable pub apply_shards : ValkeyCluster → List ℕ → Option ℕ → M (Option ℕ)
  apply_shards vc shards none = pure none
  apply_shards vc [] (some ready) = pure (some ready)
  apply_shards vc (s ∷ shards) (some ready) = do
    sum ← apply_shard vc s ready
    apply_shards vc shards sum

  unfoldable pub ensure_shard_workload : ValkeyCluster → M (Option ℕ)
  ensure_shard_workload vc = do
    ready ← apply_shards vc (range_int32 (shard_count_of vc)) (some 0)
    then_size vc ready

  -- ensureClusterWorkload.
  unfoldable pub ensure_single_workload : ValkeyCluster → M (Option ℕ)
  ensure_single_workload vc = do
    ok ← ensure_service env (headless_service_name vc)
    if not ok then pure none else do sts ← ensure_stateful_set env vc; pure (ready_of sts)

  unfoldable pub then_policies : ValkeyCluster → Bytes → Option ℕ → M (Option (Bytes × ℕ))
  then_policies vc password none = pure none
  then_policies vc password (some ready) = do
    ok ← ensure_policies env vc
    pure (if ok then some (password, ready) else none)

  unfoldable pub cluster_workload : ValkeyCluster → Option Bytes → M (Option (Bytes × ℕ))
  cluster_workload vc none = pure none
  cluster_workload vc (some password) = do
    ok ←
        unless_failed (ensure_service env (client_service_name vc))
          (apply_object env Kind.config_map (config_map_name vc))
    if not ok then pure none else do
      ready ← if per_shard_enabled vc then ensure_shard_workload vc else ensure_single_workload vc
      then_policies vc password ready

  unfoldable pub ensure_cluster_workload : M (Option (Bytes × ℕ))
  ensure_cluster_workload = do
    vc ← object
    password ← ensure_password_secret env
    cluster_workload vc password

  -- updateClusterStatus.
  unfoldable pub update_cluster_status : ℕ → Bool → List ShardStatus → M Outcome
  update_cluster_status ready all_ready details = do
    vc ← object
    ok ← patch env (cluster_status vc ready all_ready details)
    pure (outcome false (not ok))

  unfoldable pub report_cluster : ℕ → Bool → List ShardStatus → M Outcome
  report_cluster ready all_ready details = do
    res ← update_cluster_status ready all_ready details
    vc ← object
    pure (if not res.failed && vc.status.cluster_initialized then outcome true false else res)

  unfoldable pub survey_and_report : Bytes → ℕ → Bool → M Outcome
  survey_and_report password ready all_ready = do
    vc ← object
    details ←
        if vc.status.cluster_initialized && all_ready then survey_cluster env password else pure []
    report_cluster ready all_ready details

  -- maybeDriveClusterRollout: the result, and whether the caller is to return.
  unfoldable pub maybe_drive_cluster_rollout : Bytes → ℕ → M (Outcome × Bool)
  maybe_drive_cluster_rollout password want = do
    vc ← object
    if not (is_steady vc want)
        then pure (outcome false false, false)
        else do rolling ← drive_cluster_rollout env password; pure (rollout_outcome rolling)

  -- The steps of reconcileCluster after the bootstrap; a step that is handled ends the pass.
  unfoldable pub roll_then_report : Bytes → ℕ → Bool → M Outcome
  roll_then_report password ready all_ready = do
    vc ← object
    rolled ← maybe_drive_cluster_rollout password (total_replicas vc)
    if rolled.1 then pure rolled.0 else survey_and_report password ready all_ready

  unfoldable pub scale_then_roll : Bytes → ℕ → Bool → M Outcome
  scale_then_roll password ready all_ready = do
    vc ← object
    scaled ← maybe_reconcile_cluster_scaling env (total_replicas vc) all_ready
    if scaled.1 then pure scaled.0 else roll_then_report password ready all_ready

  unfoldable pub recover_then_scale : Bytes → ℕ → Bool → M Outcome
  recover_then_scale password ready all_ready = do
    recovered ← maybe_recover_cluster_quorum env password
    if recovered.handled
        then pure (outcome (ltb 0 recovered.requeue_after) false)
        else scale_then_roll password ready all_ready

  unfoldable pub form_then_recover : Bytes → ℕ → Bool → M Outcome
  form_then_recover password ready all_ready = do
    vc ← object
    formed ←
        if not vc.status.cluster_initialized && all_ready
        then bootstrap_or_restore env password
        else pure (outcome false false)
    if is_final env formed then pure formed else recover_then_scale password ready all_ready

  unfoldable pub with_workload : Option (Bytes × ℕ) → M Outcome
  with_workload none = pure (outcome false true)
  with_workload (some (password, ready)) = do
    vc ← object
    backed ← ensure_backup_cron_job env vc
    if not backed then pure (outcome false true) else do
      ensure_service_monitor env vc
      form_then_recover password ready (are_all_ready vc ready)

  -- reconcileCluster.
  unfoldable pub reconcile_cluster : M Outcome
  reconcile_cluster = do
    vc ← object
    if has_too_few_shards vc
        then set_phase env
        else do workload ← ensure_cluster_workload; with_workload workload
