-- ===== src/Rollout/Order.antt =====
-- What driveReplicationRollout deletes and promotes (internal/controller/rollout.go), and on which
-- pods it relies: the ones that it has just read.
use mathlib.Core.Path.{subst}
use wellcake.Common.{
  Bytes, ◌≡◌, ◌⊎◌, inl, inr, refl, List, [], ◌∷◌, Bool-cases, Option, none, some, is_empty,
  int32_lt, int32, length,
}
use wellcake.Api.{ValkeyCluster}
use wellcake.Sizing.{total_replicas}
use wellcake.Naming.{stateful_set_name}
use wellcake.Failover.{PodRole}
use wellcake.Failover.Safety.{Quiet, Emits-promote}
use wellcake.Rollout.{
  RolloutPod, RolloutAction, instance_label, rollout_pods, map_pods, list_rollout_pods,
  delete_pod_by_name, best_rollout_target,
}
use wellcake.Rollout.Decision.{IsJustified, next_rollout_step-IsJustified}
use wellcake.Rollout.Run.{
  get_stateful_set, delete_and_return, promote_and_delete, take_action, step_pods, step_revision,
  drive_replication_rollout,
}
use wellcake.Runtime.{
  Env, Effect, World, History, Command, Kind, Answer, StatefulSet, Pod, send, get, delete,
  list_pods, ◌>>=◌, object, pure, ask,
}
use wellcake.Runtime.Emits.{
  Extends, same, more, Extends-map, Extends-trans, Emits, Emits-pure, Emits-ask, Emits-bind,
  Emits-if,
}

-- A step on the pods of a revision: deleted is the stale replica with the lowest ordinal, or the
-- primary, where it alone is stale and a replica was chosen to follow it; promoted is that replica.
abbrev pub StepOn : List PodRole → List RolloutPod → Bytes → Bytes → Effect → Type 0
StepOn survey pods revision primary (delete Kind.pod n) =
    IsJustified pods revision primary (RolloutAction.rollout_roll_replica n)
    ⊎ (IsJustified pods revision primary (RolloutAction.rollout_promote n)
        × (t : PodRole) × (best_rollout_target survey pods revision primary ≡ some t))
StepOn survey pods revision primary (delete _ n) = ⊥
StepOn survey pods revision primary (send host Command.replica_of_no_one) =
    IsJustified pods revision primary (RolloutAction.rollout_promote primary)
    × (t : PodRole) × (best_rollout_target survey pods revision primary ≡ some t)
    × (host ≡ t.host)
StepOn survey pods revision primary _ = Unit

module _ (env : Env) (password : Bytes) (survey : List PodRole) where
  module _ (P : Effect → Type 0) where
    pub Emits-delete_and_return :
        (pod primary : Bytes)
        → P (delete Kind.pod pod)
        → Emits P (delete_and_return env pod primary)
    unfolding delete_and_return delete_pod_by_name
    Emits-delete_and_return pod primary h =
        Emits-bind _ _
          (Emits-bind _ _
            (Emits-ask (delete Kind.pod pod) (λ k. env.accepts k (delete Kind.pod pod)) h)
            (λ a. Emits-pure _))
          (λ gone. Emits-pure _)

  StepOn-Quiet : (pods : List RolloutPod) (r p : Bytes) → Quiet (StepOn survey pods r p)
  StepOn-Quiet pods r p = record { dials = λ h q w. tt; clocks = tt; patches = λ vc t. tt }

  promote_and_delete-StepOn :
      (pods : List RolloutPod) (revision primary pod : Bytes) (o : Option PodRole)
      → best_rollout_target survey pods revision primary ≡ o
      → IsJustified pods revision primary (RolloutAction.rollout_promote pod)
      → pod ≡ primary
      → Emits
          (StepOn survey pods revision primary)
          (promote_and_delete env password survey primary pod o)
  unfolding promote_and_delete
  promote_and_delete-StepOn pods revision primary pod none e h f = Emits-pure _
  promote_and_delete-StepOn pods revision primary pod (some t) e h f =
      Emits-bind _ _
        (Emits-promote env _ (StepOn-Quiet pods revision primary) password survey t
          (
            subst (λ n. IsJustified pods revision primary (RolloutAction.rollout_promote n)) f h,
            t,
            e,
            refl,
          )
          (λ s port i k. tt))
        (λ new_primary. Emits-delete_and_return _ pod new_primary (inr (h, t, e)))

  take_action-StepOn :
      (pods : List RolloutPod) (revision primary : Bytes) (a : RolloutAction)
      → IsJustified pods revision primary a
      → Emits
          (StepOn survey pods revision primary)
          (take_action env password survey primary revision pods a)
  unfolding take_action
  take_action-StepOn pods revision primary RolloutAction.rollout_none h = Emits-pure _
  take_action-StepOn pods revision primary RolloutAction.rollout_wait h = Emits-pure _
  take_action-StepOn pods revision primary (RolloutAction.rollout_roll_replica n) h =
      Emits-delete_and_return _ n primary (inl h)
  take_action-StepOn pods revision primary (RolloutAction.rollout_promote n) h =
      promote_and_delete-StepOn pods revision primary n _ refl h h.2

  step_pods-StepOn :
      (vc : ValkeyCluster) (revision : Bytes) (pods : List RolloutPod)
      → Emits
          (StepOn survey pods revision vc.status.primary)
          (step_pods env password survey vc revision (some pods))
  unfolding step_pods
  step_pods-StepOn vc revision pods =
      Emits-if (int32_lt (int32 (length pods)) (total_replicas vc)) _ _ (λ _. Emits-pure _)
        (λ _.
          take_action-StepOn pods revision vc.status.primary _
            (next_rollout_step-IsJustified pods revision vc.status.primary))

-- No deletion and no promotion.
abbrev pub IsHarmless : Effect → Type 0
IsHarmless (delete kind n) = ⊥
IsHarmless (send host Command.replica_of_no_one) = ⊥
IsHarmless _ = Unit

-- A step on the StatefulSet and the pods that the API returns to this call, or harmless.
abbrev pub StepOf : Env → List PodRole → World → Effect → Type 0
StepOf env survey w e =
    let name = stateful_set_name w.vc in
    let asked = get Kind.stateful_set name ∷ w.effects in
    let listed = list_pods ((instance_label, w.vc.name) ∷ []) ∷ asked in
    IsHarmless e
    ⊎ (sts : StatefulSet) × (pods : List Pod) × (env.stateful_set asked name ≡ Answer.found sts)
      × (env.pods listed ≡ some pods)
      × StepOn survey (rollout_pods name pods) sts.update_revision w.vc.status.primary e

-- Each pod that driveReplicationRollout deletes and each replica that it promotes is a step on the
-- pods that the call has read: all are Ready, and the deleted one is the stale replica with the
-- lowest ordinal, or the primary where it alone is stale and a replica was chosen to follow it.
pub drive_replication_rollout_steps :
    (env : Env) (password : Bytes) (survey : List PodRole) (w : World)
    → Extends
        (StepOf env survey w)
        w.effects
        (drive_replication_rollout env password survey w).1.effects
unfolding drive_replication_rollout get_stateful_set ◌>>=◌ object ask
drive_replication_rollout_steps env password survey w = with_sts (env.stateful_set asked name) refl
  where
    name : Bytes
    name = stateful_set_name w.vc

    asked : History
    asked = get Kind.stateful_set name ∷ w.effects

    listed : History
    listed = list_pods ((instance_label, w.vc.name) ∷ []) ∷ asked

    with_pods :
        (sts : StatefulSet) (o : Option (List Pod))
        → env.stateful_set asked name ≡ Answer.found sts
        → env.pods listed ≡ o
        → Extends
            (StepOf env survey w)
            listed
            (step_pods env password survey w.vc sts.update_revision
              (map_pods name o)
              (record w { effects = listed })).1.effects
    with_pods sts none e f = unfold map_pods step_pods pure in same
    with_pods sts (some pods) e f =
        unfold map_pods in
        Extends-map (λ x h. inr (sts, pods, e, f, h))
          ((step_pods-StepOn env password survey w.vc sts.update_revision
              (rollout_pods name pods)).at
            (record w { effects = listed }))

    with_sts :
        (a : Answer StatefulSet)
        → env.stateful_set asked name ≡ a
        → Extends
            (StepOf env survey w)
            w.effects
            (step_revision env password survey w.vc a (record w { effects = asked })).1.effects
    with_sts (Answer.found sts) e =
        unfold step_revision list_rollout_pods ◌>>=◌ object ask pure in
        elim (Bool-cases (is_empty sts.update_revision)) [
          | inl unknown ↦ rw unknown (more (inl tt) same)
          | inr known ↦ rw known (
              Extends-trans (more (inl tt) (more (inl tt) same))
                (with_pods sts (env.pods listed) e refl))
        ]
    with_sts Answer.not_found e = unfold step_revision pure in more (inl tt) same
    with_sts Answer.failed e = unfold step_revision pure in more (inl tt) same
