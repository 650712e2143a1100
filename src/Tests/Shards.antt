-- ===== src/Tests/Shards.antt =====
-- The restart of a Cluster.
use wellcake.Common.{
  ◌≡◌, refl, List, [], ◌∷◌, true, false, codes, Bytes, pos, some, eqb, is_empty, exists, every,
  keep, sort_by, insert_by, ltb_bytes,
}
use wellcake.Rollout.{RolloutPod, is_stale}
use wellcake.Rollout.Shards.{
  ClusterShard, ClusterAction, next_cluster_rollout_step, is_fresh, pod_named, or_pod, revision_of,
  ready_of, all_replicas, stale_replicas, hand_over, first_master, replica_or_master,
  drive_cluster_rollout,
}
use wellcake.Rollout.Shards.Decision.{IsSound, next_cluster_rollout_step-IsSound}
use wellcake.Rollout.Shards.Steps.{ClusterStepOf, drive_cluster_rollout_steps}
use wellcake.Runtime.{Env, World, Pod}
use wellcake.Runtime.Emits.{Extends}
use wellcake.Tests.Samples.{calm, demo_cluster}
use wellcake.Tests.Cluster.{lines}

abbrev member : Bytes → Bytes → RolloutPod
member name revision = record { name = name; ordinal = pos 0; revision = revision; ready = true }

abbrev shards : List ClusterShard
shards =
    record { primary = codes "m0"; replicas = codes "r0" ∷ [] }
    ∷ record { primary = codes "m1"; replicas = [] }
    ∷ []

abbrev pods : Bytes → Bytes → List RolloutPod
pods master replica =
    member (codes "m0") master ∷ member (codes "m1") (codes "v2") ∷ member (codes "r0") replica ∷ []

replica_first :
    next_cluster_rollout_step (pods (codes "v1") (codes "v1")) shards (codes "v2")
    ≡ ClusterAction.cluster_rollout_roll_replica (codes "r0")
unfolding next_cluster_rollout_step is_stale is_fresh pod_named or_pod revision_of ready_of
    all_replicas stale_replicas hand_over first_master replica_or_master eqb is_empty exists every
    keep sort_by insert_by ltb_bytes
replica_first = refl

then_failover :
    next_cluster_rollout_step (pods (codes "v1") (codes "v2")) shards (codes "v2")
    ≡ ClusterAction.cluster_rollout_failover (codes "r0")
unfolding next_cluster_rollout_step is_stale is_fresh pod_named or_pod revision_of ready_of
    all_replicas stale_replicas hand_over first_master replica_or_master eqb is_empty exists every
    keep sort_by insert_by ltb_bytes
then_failover = refl

next_cluster_rollout_step-IsSound_example :
    IsSound
      (pods (codes "v1") (codes "v2"))
      shards
      (codes "v2")
      (next_cluster_rollout_step (pods (codes "v1") (codes "v2")) shards (codes "v2"))
next_cluster_rollout_step-IsSound_example =
    next_cluster_rollout_step-IsSound (pods (codes "v1") (codes "v2")) shards (codes "v2")

abbrev old_pod : Bytes → Pod
old_pod name = record {
  name = name;
  phase = codes "Running";
  node_name = codes "n1";
  conditions = record { kind = codes "Ready"; status = codes "True" } ∷ [];
  labels = (codes "controller-revision-hash", codes "r1") ∷ [];
  ip = [];
  deleting = false;
}

abbrev pub rolling : Env
rolling = record calm {
  reply = λ h host c. some lines;
  pods = λ h. some (
      old_pod (codes "demo-0")
      ∷ old_pod (codes "demo-1")
      ∷ old_pod (codes "demo-2")
      ∷ old_pod (codes "demo-3")
      ∷ old_pod (codes "demo-4")
      ∷ old_pod (codes "demo-5")
      ∷ []);
}

abbrev start : World
start = record { vc = demo_cluster; effects = [] }

drive_cluster_rollout_steps_example :
    Extends
      (ClusterStepOf rolling (codes "pw") start)
      start.effects
      (drive_cluster_rollout rolling (codes "pw") start).1.effects
drive_cluster_rollout_steps_example = drive_cluster_rollout_steps rolling (codes "pw") start
