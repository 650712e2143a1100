-- ===== src/Cluster/Scaling.antt =====
-- internal/controller/cluster.go and cluster_pershard.go: the Jobs that add and remove nodes and
-- that move slots, and what the status records of them. Their scripts are data for the API.
pub mod Leaving
pub mod Order
use wellcake.Common.{
  ℕ, ◌-◌, Bytes, codes, Bool, true, false, not, List, [], ◌∷◌, ◌++◌, if◌then◌else◌, ◌&&◌, ◌||◌, eqb,
  is_empty, int32_lt,
}
use wellcake.Api.{ValkeyCluster, Status, Phase, map_get}
use wellcake.Sizing.{count_from, total_replicas, shard_count_of, old_shards_of, per_shard_enabled}
use wellcake.Naming.{shard_sts_name, shard_headless_name}
use wellcake.Rollout.{is_gone}
use wellcake.Runtime.{
  succeeds, Env, Effect, M, Answer, Job, Kind, create, delete, get, patch_status, pure, ◌>>=◌, ◌>>◌,
  object, ask, set_status,
}

-- ctrl.Result and the error: whether the result is not zero, and whether there is an error.
pub record Outcome : Type 0 where
  pub requeue : Bool
  pub failed : Bool

abbrev pub outcome : Bool → Bool → Outcome
outcome requeue failed = record { requeue = requeue; failed = failed }

-- The shards of the loop in deleteLeavingShards; shard counts are not negative.
unfoldable pub leaving_shards : ValkeyCluster → List ℕ
leaving_shards vc =
    if int32_lt (shard_count_of vc) (old_shards_of vc)
    then count_from (shard_count_of vc) (old_shards_of vc - shard_count_of vc)
    else []

module _ (env : Env) where
  -- r.Status().Patch after the change of the object: whether it was accepted.
  unfoldable pub patch : Status → M Bool
  patch s = do
    set_status s
    answer ← ask (patch_status s) (λ h. env.accepts h (patch_status s))
    pure (succeeds answer)

  unfoldable pub delete_object : Kind → Bytes → M (Answer (Unit {0}))
  delete_object kind name = ask (delete kind name) (λ h. env.accepts h (delete kind name))

  unfoldable pub create_job : Bytes → Bool → M Outcome
  create_job name requeue = do
    answer ← ask (create Kind.job name) (λ h. env.accepts h (create Kind.job name))
    pure (outcome requeue (not (succeeds answer)))

  unfoldable pub delete_job : Bytes → M Outcome
  delete_job name = do
    answer ← delete_object Kind.job name
    pure (outcome false (not (succeeds answer)))

  -- setPhase.
  unfoldable pub set_phase : M Outcome
  set_phase = do
    vc ← object
    ok ← patch (record vc.status { phase = Phase.failed; observed_generation = vc.generation })
    pure (outcome false (not ok))

  -- deleteLeavingShards: whether all of them are gone.
  unfoldable pub delete_shards : List ℕ → M Bool
  delete_shards [] = pure true
  delete_shards (s ∷ rest) = do
    vc ← object
    sts ← delete_object Kind.stateful_set (shard_sts_name vc s)
    if not (is_gone sts) then pure false else do
      svc ← delete_object Kind.service (shard_headless_name vc s)
      if not (is_gone svc) then pure false else delete_shards rest

  unfoldable pub delete_leaving_shards : M Bool
  delete_leaving_shards = do vc ← object; delete_shards (leaving_shards vc)

  -- The Job with a name: created where there is none, else watched. `waiting` is the result while it
  -- runs.
  unfoldable pub watch_job : Bytes → Bool → M Outcome → Answer Job → M Outcome
  watch_job name waiting finish Answer.not_found = create_job name waiting
  watch_job name waiting finish Answer.failed = pure (outcome false true)
  watch_job name waiting finish (Answer.found j) =
      if int32_lt 0 j.succeeded
      then finish
      else if int32_lt j.backoff_limit j.failures
      then set_phase
      else pure (outcome waiting false)

  unfoldable pub run_job : Bytes → Bool → M Outcome → M Outcome
  run_job name waiting finish = do
    job ← ask (get Kind.job name) (λ h. env.job h name)
    watch_job name waiting finish job

  unfoldable pub patch_then_delete : Bytes → Status → M Outcome
  patch_then_delete name s = do
    ok ← patch s
    if not ok then pure (outcome false true) else delete_job name

  unfoldable pub record_size : Bytes → M Outcome
  record_size name = do
    vc ← object
    patch_then_delete name (record vc.status { last_applied_replicas = total_replicas vc })

  -- runClusterScaleUp.
  unfoldable pub run_cluster_scale_up : M Outcome
  run_cluster_scale_up = do
    vc ← object
    let name = vc.name ++ codes "-scaleup"
    run_job name false (record_size name)

  -- runClusterScaleDown.
  unfoldable pub leave_then_record : Bytes → M Outcome
  leave_then_record name = do
    vc ← object
    gone ← if per_shard_enabled vc then delete_leaving_shards else pure true
    if not gone then pure (outcome false true) else record_size name

  unfoldable pub run_cluster_scale_down : M Outcome
  run_cluster_scale_down = do
    vc ← object
    let name = vc.name ++ codes "-scaledown"
    run_job name false (leave_then_record name)

  -- runClusterReshard.
  unfoldable pub record_reshard : Bytes → Bytes → M Outcome
  record_reshard name token = do
    vc ← object
    patch_then_delete name (record vc.status { last_reshard_token = token })

  unfoldable pub run_cluster_reshard : Bytes → M Outcome
  run_cluster_reshard token = do
    vc ← object
    let name = vc.name ++ codes "-reshard"
    run_job name true (record_reshard name token)

  -- maybeReconcileClusterScaling: its result, and whether the caller is to return.
  unfoldable pub is_final : Outcome → Bool
  is_final o = o.failed || o.requeue

  unfoldable pub reshard_when : Bool → Bytes → Bytes → M Outcome
  reshard_when all_ready token last =
      if all_ready && (not (is_empty token) && not (eqb token last))
      then run_cluster_reshard token
      else pure (outcome false false)

  unfoldable pub returns_or : Outcome → M (Outcome × Bool) → M (Outcome × Bool)
  returns_or o next = if is_final o then pure (o, true) else next

  unfoldable pub maybe_reconcile_cluster_scaling : ℕ → Bool → M (Outcome × Bool)
  maybe_reconcile_cluster_scaling want all_ready = do
    vc ← object
    if not vc.status.cluster_initialized then pure (outcome false false, false) else do
      up ←
          if all_ready && int32_lt vc.status.last_applied_replicas want
          then run_cluster_scale_up
          else pure (outcome false false)
      returns_or up (do
        later ← object
        down ←
            if int32_lt want later.status.last_applied_replicas
            then run_cluster_scale_down
            else pure (outcome false false)
        returns_or down (do
          last ← object
          resharded ←
              reshard_when all_ready (map_get last.annotations (codes "valkey.wellcake.io/reshard"))
                last.status.last_reshard_token
          returns_or resharded (pure (outcome false false, false))))
