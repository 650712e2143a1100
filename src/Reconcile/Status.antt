-- ===== src/Reconcile/Status.antt =====
-- internal/controller/valkeycluster_controller.go: what the status says after a pass (updateStatus),
-- the pass of a hibernated cluster (reconcileHibernated) and of one that is being deleted
-- (handleDeletion). Conditions are left out.
use wellcake.Common.{
  ℕ, Bytes, codes, Option, none, some, Bool, true, false, not, List, ◌++◌, if◌then◌else◌, ◌&&◌,
  ◌==◌, eqb, exists, keep, is_empty, int32_lt, itoa, pos,
}
use wellcake.Api.{ValkeyCluster, Status, Phase, map_get}
use wellcake.Api.Defaults.{deref}
use wellcake.Naming.{stateful_set_name, ordinal_name}
use wellcake.Info.{data_port}
use wellcake.Rollout.Run.{get_stateful_set}
use wellcake.Cluster.Scaling.{patch}
use wellcake.Reconcile.{client_service_name}
use wellcake.Runtime.Emits.{
  Emits, Emits-ask, Emits-bind, Emits-object, Emits-pure, Emits-set_status,
}
use wellcake.Runtime.{
  Effect, patch_status, Env, M, Answer, StatefulSet, ReconcileResult, reconcile_result, scale,
  set_finalizers, pure, ◌>>=◌, object, ask, succeeds,
}

-- internalEndpoint (resources.go).
unfoldable pub internal_endpoint : ValkeyCluster → Bytes
internal_endpoint vc =
    client_service_name vc
    ++ (codes "." ++ (vc.namespace ++ (codes ".svc:" ++ itoa (data_port vc))))

-- The phase and the primary of updateStatus. The API sets the replicas of a StatefulSet to 1 where
-- they are not given.
unfoldable pub pods_phase : StatefulSet → Phase
pods_phase sts =
    if sts.ready_replicas == deref sts.replicas 1 && int32_lt 0 sts.ready_replicas
    then Phase.ready
    else if int32_lt 0 sts.ready_replicas
    then Phase.updating
    else Phase.creating

unfoldable pub observed_or_first : ValkeyCluster → StatefulSet → Bytes → Bytes
observed_or_first vc sts observed =
    if is_empty observed && int32_lt 0 sts.ready_replicas
    then ordinal_name (stateful_set_name vc) (pos 0)
    else observed

unfoldable pub observed_status : ValkeyCluster → StatefulSet → Bytes → Status
observed_status vc sts observed = record vc.status {
  phase = pods_phase sts;
  ready_replicas = sts.ready_replicas;
  primary = observed_or_first vc sts observed;
  internal_endpoint = internal_endpoint vc;
  observed_generation = vc.generation;
}

unfoldable pub done_or_failed : Bool → ReconcileResult
done_or_failed ok = reconcile_result 0 (not ok)

-- hibernated (resources.go).
unfoldable pub hibernated : ValkeyCluster → Bool
hibernated vc = eqb (map_get vc.annotations (codes "valkey.wellcake.io/hibernate")) (codes "true")

abbrev pub finalizer_name : Bytes
finalizer_name = codes "valkey.wellcake.io/cleanup"

unfoldable pub has_finalizer : ValkeyCluster → Bool
has_finalizer vc = exists (λ f. eqb f finalizer_name) vc.finalizers

unfoldable pub is_asleep : Option ℕ → Bool
is_asleep none = false
is_asleep (some n) = n == 0

module _ (env : Env) where
  -- updateStatus.
  unfoldable pub update_status : StatefulSet → Bytes → M ReconcileResult
  update_status sts observed = do
    vc ← object
    ok ← patch env (observed_status vc sts observed)
    pure (done_or_failed ok)

  -- reconcileHibernated.
  unfoldable pub report_hibernated : ℕ → M ReconcileResult
  report_hibernated ready = do
    vc ← object
    ok ← patch env (record vc.status {
      phase = Phase.hibernated;
      ready_replicas = ready;
      observed_generation = vc.generation;
    })
    pure (done_or_failed ok)

  unfoldable pub scale_to_zero : Bytes → Option ℕ → M Bool
  scale_to_zero name replicas = if is_asleep replicas then pure true else do
    answer ← ask (scale name 0) (λ h. env.accepts h (scale name 0))
    pure (succeeds answer)

  unfoldable pub hibernate_found : Bytes → Answer StatefulSet → M ReconcileResult
  hibernate_found name Answer.failed = pure (reconcile_result 0 true)
  hibernate_found name Answer.not_found = report_hibernated 0
  hibernate_found name (Answer.found sts) = do
    ok ← scale_to_zero name sts.replicas
    if not ok then pure (reconcile_result 0 true) else report_hibernated sts.ready_replicas

  unfoldable pub reconcile_hibernated : M ReconcileResult
  reconcile_hibernated = do
    vc ← object
    sts ← get_stateful_set env (stateful_set_name vc)
    hibernate_found (stateful_set_name vc) sts

  -- handleDeletion.
  unfoldable pub without_finalizer : ValkeyCluster → List Bytes
  without_finalizer vc = keep (λ f. not (eqb f finalizer_name)) vc.finalizers

  unfoldable pub handle_deletion : M ReconcileResult
  handle_deletion = do
    vc ← object
    if not (has_finalizer vc) then pure (reconcile_result 0 false) else do
      answer ←
          ask (set_finalizers (without_finalizer vc))
            (λ h. env.accepts h (set_finalizers (without_finalizer vc)))
      pure (done_or_failed (succeeds answer))

-- Of the effects that updateStatus has, one patch of the status.
module _ (env : Env) (P : Effect → Type 0) (patches : (s : Status) → P (patch_status s)) where
  pub Emits-update_status :
      (sts : StatefulSet) (primary : Bytes) → Emits P (update_status env sts primary)
  unfolding update_status patch
  Emits-update_status sts primary = Emits-bind _ _ Emits-object (λ vc.
      Emits-bind _ _
        (Emits-bind _ _ (Emits-set_status _)
          (λ _. Emits-bind _ _ (Emits-ask _ _ (patches _)) (λ a. Emits-pure _)))
        (λ ok. Emits-pure _))
