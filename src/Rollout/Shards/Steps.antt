-- ===== src/Rollout/Shards/Steps.antt =====
-- What driveClusterRollout deletes and promotes (internal/controller/rollout.go), and on which pods
-- and shards it relies: the ones that it has just read.
use wellcake.Common.{
  Bytes, ◌≡◌, ◌⊎◌, inl, inr, refl, List, [], ◌∷◌, Bool-cases, Option, none, some, map, is_empty,
  int32, int32_lt, length, exists,
}
use mathlib.Core.Path.{subst}
use wellcake.Api.{ValkeyCluster, ShardStatus}
use wellcake.Sizing.{total_replicas}
use wellcake.Naming.{stateful_set_name, pod_fqdn}
use wellcake.Info.{data_port}
use wellcake.Cluster.Survey.{survey_cluster}
use wellcake.Cluster.Quiet.{survey_cluster-Keeps, Emits-survey_cluster}
use wellcake.Rollout.{
  RolloutPod, instance_label, rollout_pods, map_pods, list_rollout_pods, delete_pod_by_name,
  is_stale,
}
use wellcake.Rollout.Run.{get_stateful_set}
use wellcake.Rollout.Shards.{
  ClusterShard, ClusterAction, cluster_shard, cluster_failover_on_pod, roll_pod,
  take_cluster_action, step_shards, step_cluster_pods, step_cluster_revision, drive_cluster_rollout,
}
use wellcake.Rollout.Shards.Decision.{IsSound, next_cluster_rollout_step-IsSound}
use wellcake.Runtime.{
  Env, Effect, World, History, Command, Kind, Answer, StatefulSet, Pod, dial, send, get, delete,
  list_pods, ◌>>=◌, object, pure, ask, dial_repl_client, command,
}
use wellcake.Runtime.Emits.{Extends, same, more, Extends-map, Extends-trans, Emits}

-- No deletion and no CLUSTER FAILOVER.
abbrev pub IsStill : Effect → Type 0
IsStill (delete kind n) = ⊥
IsStill (send host Command.cluster_failover) = ⊥
IsStill _ = Unit

-- A sound step: a pod is deleted, a replica is told to take over, or neither.
abbrev pub StepOnShards :
    ValkeyCluster → List RolloutPod → List ClusterShard → Bytes → Effect → Type 0
StepOnShards vc pods shards revision e =
    IsStill e
    ⊎ ((n : Bytes) × (e ≡ delete Kind.pod n)
        × (IsSound pods shards revision (ClusterAction.cluster_rollout_roll_replica n)
            ⊎ IsSound pods shards revision (ClusterAction.cluster_rollout_roll_master n)))
    ⊎ ((n : Bytes) × (e ≡ send (pod_fqdn vc n) Command.cluster_failover)
        × IsSound pods shards revision (ClusterAction.cluster_rollout_failover n))

module _ (env : Env) (password : Bytes) where
  take-StepOnShards :
      (pods : List RolloutPod) (shards : List ClusterShard) (revision : Bytes) (a : ClusterAction)
      (w : World)
      → IsSound pods shards revision a
      → Extends
          (StepOnShards w.vc pods shards revision)
          w.effects
          (take_cluster_action env password a w).1.effects
  unfolding take_cluster_action roll_pod delete_pod_by_name cluster_failover_on_pod ◌>>=◌ pure
      object ask dial_repl_client command
  take-StepOnShards pods shards revision ClusterAction.cluster_rollout_none w h = same
  take-StepOnShards pods shards revision ClusterAction.cluster_rollout_wait w h = same
  take-StepOnShards pods shards revision (ClusterAction.cluster_rollout_roll_replica n) w h =
      more (inr (inl (n, refl, inl h))) same
  take-StepOnShards pods shards revision (ClusterAction.cluster_rollout_roll_master n) w h =
      more (inr (inl (n, refl, inr h))) same
  take-StepOnShards pods shards revision (ClusterAction.cluster_rollout_failover n) w h =
      elim (Bool-cases (env.reachable dialled (pod_fqdn w.vc n) (data_port w.vc) password)) [
        | inl up ↦ rw up (more (inr (inr (n, refl, h))) (more (inl tt) same))
        | inr down ↦ rw down (more (inl tt) same)
      ]
    where
      dialled : History
      dialled = dial (pod_fqdn w.vc n) (data_port w.vc) password ∷ w.effects

  shards-StepOnShards :
      (pods : List RolloutPod) (revision : Bytes) (statuses : List ShardStatus) (w : World)
      → Extends
          (StepOnShards w.vc pods (map cluster_shard statuses) revision)
          w.effects
          (step_shards env password revision pods statuses w).1.effects
  unfolding step_shards pure
  shards-StepOnShards pods revision [] w = same
  shards-StepOnShards pods revision (s ∷ statuses) w =
      take-StepOnShards pods (map cluster_shard (s ∷ statuses)) revision _ w
        (next_cluster_rollout_step-IsSound pods (map cluster_shard (s ∷ statuses)) revision)

  survey-IsStill : Emits IsStill (survey_cluster env password)
  survey-IsStill = Emits-survey_cluster env password IsStill (λ h n x. tt) (λ h. tt) (λ h. tt)

  pods-StepOnShards :
      (pods : List RolloutPod) (revision : Bytes) (w : World)
      → Extends
          (StepOnShards w.vc pods (map cluster_shard (survey_cluster env password w).0) revision)
          w.effects
          (step_cluster_pods env password w.vc revision (some pods) w).1.effects
  unfolding step_cluster_pods ◌>>=◌ pure
  pods-StepOnShards pods revision w =
      elim (Bool-cases (int32_lt (int32 (length pods)) (total_replicas w.vc))) [
        | inl few ↦ rw few same
        | inr enough ↦ elim (Bool-cases (exists (is_stale revision) pods)) [
          | inr fresh ↦ rw (enough, fresh) same
          | inl stale ↦
              rw (enough, stale)
                (Extends-trans (Extends-map (λ e x. inl x) (survey-IsStill.at w)) acts)
        ]
      ]
    where
      surveyed : World
      surveyed = (survey_cluster env password w).1

      acts :
          Extends
            (StepOnShards w.vc pods (map cluster_shard (survey_cluster env password w).0) revision)
            surveyed.effects
            (step_shards env password revision pods
              (survey_cluster env password w).0
              surveyed).1.effects
      acts =
          subst
            (λ v.
              Extends
                (StepOnShards v pods (map cluster_shard (survey_cluster env password w).0) revision)
                surveyed.effects
                (step_shards env password revision pods (survey_cluster env password w).0
                  surveyed).1.effects)
            ((survey_cluster-Keeps env password).kept w)
            (shards-StepOnShards pods revision (survey_cluster env password w).0 surveyed)

-- A step on the StatefulSet, the pods and the shards that this call has read, or still.
abbrev pub ClusterStepOf : Env → Bytes → World → Effect → Type 0
ClusterStepOf env password w e =
    let name = stateful_set_name w.vc in
    let asked = get Kind.stateful_set name ∷ w.effects in
    let listed = list_pods ((instance_label, w.vc.name) ∷ []) ∷ asked in
    IsStill e
    ⊎ (sts : StatefulSet) × (pods : List Pod) × (env.stateful_set asked name ≡ Answer.found sts)
      × (env.pods listed ≡ some pods)
      × StepOnShards w.vc (rollout_pods name pods)
          (map cluster_shard (survey_cluster env password (record w { effects = listed })).0)
          sts.update_revision e

-- driveClusterRollout deletes a pod only while all pods are Ready: a stale replica, or, with every
-- replica of every shard on the new revision, the stale master of a shard that has no replica. It
-- sends CLUSTER FAILOVER only to a fresh and Ready replica of a stale master, with every replica
-- fresh. It relies on the pods and the shards that the call has read.
pub drive_cluster_rollout_steps :
    (env : Env) (password : Bytes) (w : World)
    → Extends
        (ClusterStepOf env password w)
        w.effects
        (drive_cluster_rollout env password w).1.effects
unfolding drive_cluster_rollout get_stateful_set ◌>>=◌ object ask
drive_cluster_rollout_steps env password w = with_sts (env.stateful_set asked name) refl
  where
    name : Bytes
    name = stateful_set_name w.vc

    asked : History
    asked = get Kind.stateful_set name ∷ w.effects

    listed : World
    listed = record w { effects = list_pods ((instance_label, w.vc.name) ∷ []) ∷ asked }

    with_pods :
        (sts : StatefulSet) (o : Option (List Pod))
        → env.stateful_set asked name ≡ Answer.found sts
        → env.pods listed.effects ≡ o
        → Extends
            (ClusterStepOf env password w)
            listed.effects
            (step_cluster_pods env password w.vc sts.update_revision
              (map_pods name o)
              listed).1.effects
    with_pods sts none e f = unfold map_pods step_cluster_pods pure in same
    with_pods sts (some pods) e f =
        unfold map_pods in
        Extends-map (λ x h. inr (sts, pods, e, f, h))
          (pods-StepOnShards env password (rollout_pods name pods) sts.update_revision listed)

    with_sts :
        (a : Answer StatefulSet)
        → env.stateful_set asked name ≡ a
        → Extends
            (ClusterStepOf env password w)
            w.effects
            (step_cluster_revision env password w.vc a (record w { effects = asked })).1.effects
    with_sts (Answer.found sts) e =
        unfold step_cluster_revision list_rollout_pods ◌>>=◌ object ask pure in
        elim (Bool-cases (is_empty sts.update_revision)) [
          | inl unknown ↦ rw unknown (more (inl tt) same)
          | inr known ↦ rw known (
              Extends-trans (more (inl tt) (more (inl tt) same))
                (with_pods sts (env.pods listed.effects) e refl))
        ]
    with_sts Answer.not_found e = unfold step_cluster_revision pure in more (inl tt) same
    with_sts Answer.failed e = unfold step_cluster_revision pure in more (inl tt) same
