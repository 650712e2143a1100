-- ===== src/Reconcile/Labelling.antt =====
-- The role labels during a rollout (internal/controller, valkeycluster_controller.go and
-- rollout.go).
use wellcake.Common.{Bytes, ◌≡◌, Option, none, some, true, List, is_empty, int32, int32_lt, length}
use wellcake.Api.{ValkeyCluster}
use wellcake.Sizing.{total_replicas}
use wellcake.Failover.{PodRole}
use wellcake.Failover.Safety.{Quiet, Emits-promote}
use wellcake.Rollout.{
  RolloutPod, RolloutAction, list_rollout_pods, proactive_rollout_enabled, best_rollout_target,
}
use wellcake.Rollout.Run.{
  RolloutResult, get_stateful_set, promote_and_delete, take_action, step_pods, step_revision,
  drive_replication_rollout,
}
use wellcake.Reconcile.Replication.{after_rollout, manage_survey}
use wellcake.Reconcile.Status.{Emits-update_status}
use wellcake.Rollout.Order.{Emits-delete_and_return}
use wellcake.Runtime.{Env, World, Effect, Answer, StatefulSet, label_pod, ◌>>=◌}
use wellcake.Runtime.Emits.{
  Emits, Extends, Extends-trans, Emits-pure, Emits-bind, Emits-if, Emits-ask, Emits-object,
}

-- No role label is written.
abbrev pub IsUnlabelled : Effect → Type 0
IsUnlabelled (label_pod name role) = ⊥
IsUnlabelled e = Unit

module _ (env : Env) (password : Bytes) (survey : List PodRole) where
  quiet : Quiet IsUnlabelled
  quiet = record { dials = λ h q p. tt; clocks = tt; patches = λ vc t. tt }

  promotes :
      (primary pod : Bytes) (o : Option PodRole)
      → Emits IsUnlabelled (promote_and_delete env password survey primary pod o)
  unfolding promote_and_delete
  promotes primary pod none = Emits-pure _
  promotes primary pod (some t) =
      Emits-bind _ _ (Emits-promote env _ quiet password survey t tt (λ s port i k. tt))
        (λ new. Emits-delete_and_return env password survey IsUnlabelled pod new tt)

  takes :
      (revision primary : Bytes) (pods : List RolloutPod) (a : RolloutAction)
      → Emits IsUnlabelled (take_action env password survey primary revision pods a)
  unfolding take_action
  takes revision primary pods RolloutAction.rollout_none = Emits-pure _
  takes revision primary pods RolloutAction.rollout_wait = Emits-pure _
  takes revision primary pods (RolloutAction.rollout_roll_replica n) =
      Emits-delete_and_return env password survey IsUnlabelled n primary tt
  takes revision primary pods (RolloutAction.rollout_promote n) =
      promotes primary n (best_rollout_target survey pods revision primary)

  steps :
      (vc : ValkeyCluster) (revision : Bytes) (o : Option (List RolloutPod))
      → Emits IsUnlabelled (step_pods env password survey vc revision o)
  unfolding step_pods
  steps vc revision none = Emits-pure _
  steps vc revision (some pods) =
      Emits-if (int32_lt (int32 (length pods)) (total_replicas vc)) _ _ (λ _. Emits-pure _)
        (λ _. takes revision vc.status.primary pods _)

  revises :
      (vc : ValkeyCluster) (a : Answer StatefulSet)
      → Emits IsUnlabelled (step_revision env password survey vc a)
  unfolding step_revision list_rollout_pods
  revises vc Answer.not_found = Emits-pure _
  revises vc Answer.failed = Emits-pure _
  revises vc (Answer.found sts) =
      Emits-if (is_empty sts.update_revision) _ _ (λ _. Emits-pure _)
        (λ _.
          Emits-bind _ _
            (Emits-bind _ _ Emits-object
              (λ vc. Emits-bind _ _ (Emits-ask _ _ tt) (λ o. Emits-pure _)))
            (λ o. steps vc sts.update_revision o))

  drives : Emits IsUnlabelled (drive_replication_rollout env password survey)
  unfolding drive_replication_rollout get_stateful_set
  drives = Emits-bind _ _ Emits-object (λ vc. Emits-bind _ _ (Emits-ask _ _ tt) (λ a. revises vc a))

  reports :
      (sts : StatefulSet) (r : RolloutResult)
      → r.in_progress ≡ true
      → Emits IsUnlabelled (after_rollout env password sts survey r)
  unfolding after_rollout
  reports sts r going = rw going (
      Emits-if r.failed _ _ (λ _. Emits-pure _)
        (λ _.
          Emits-bind _ _ (Emits-update_status env IsUnlabelled (λ s. tt) sts r.primary)
            (λ res. Emits-pure _)))

-- A pass of reconcileReplication that is opted into the proactive rollout and in which
-- driveReplicationRollout reports a rollout in progress writes no role label from the survey on,
-- also where the rollout promoted a replica.
pub manage_survey-IsUnlabelled :
    (env : Env) (vc : ValkeyCluster) (password : Bytes) (sts : StatefulSet) (survey : List PodRole)
    (w : World)
    → proactive_rollout_enabled vc ≡ true
    → (drive_replication_rollout env password survey w).0.in_progress ≡ true
    → Extends IsUnlabelled w.effects (manage_survey env vc password sts survey w).1.effects
unfolding manage_survey ◌>>=◌
manage_survey-IsUnlabelled env vc password sts survey w opted going = rw opted (
    Extends-trans ((drives env password survey).at w) (
      (reports env password survey sts (drive_replication_rollout env password survey w).0 going).at
        (drive_replication_rollout env password survey w).1))
