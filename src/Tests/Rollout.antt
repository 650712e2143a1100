-- ===== src/Tests/Rollout.antt =====
-- Rollouts and manual failovers on small replication sets.
use wellcake.Common.{
  ◌≡◌, refl, List, [], ◌∷◌, true, false, pos, codes, Bytes, some, In, eqb, is_empty, keep, sort_by,
  insert_by, exists, every, ltb_ℤ, ◌≤ℤ◌, ◌⊎◌,
}
use wellcake.Naming.{pod_name}
use wellcake.Api.{map_get}
use wellcake.Info.{role_master, role_slave}
use wellcake.Failover.{PodRole}
use wellcake.Failover.Replicas.{IsReplica}
use wellcake.Failover.Targets.{best_target, is_candidate, take_better, higher_offset}
use wellcake.Failover.Manual.{pick_failover_target, manual_failover}
use wellcake.Failover.Manual.Outcome.{
  pick_failover_target_chooses, manual_failover-IsOutcome, IsOutcome,
}
use wellcake.Rollout.{
  RolloutPod, RolloutAction, next_rollout_step, is_stale, sort_by_ordinal, first_replica,
}
use wellcake.Rollout.Decision.{IsJustified, next_rollout_step-IsJustified}
use wellcake.Rollout.Order.{StepOf, drive_replication_rollout_steps}
use wellcake.Rollout.Run.{drive_replication_rollout}
use wellcake.Runtime.Emits.{Extends}
use wellcake.Tests.Samples.{sample_pod, demo, calm, fresh}

abbrev rolling : Bytes → Bytes → Bytes → List RolloutPod
rolling a b c =
    record { name = codes "demo-2"; ordinal = pos 2; revision = c; ready = true }
    ∷ record { name = codes "demo-0"; ordinal = pos 0; revision = a; ready = true }
    ∷ record { name = codes "demo-1"; ordinal = pos 1; revision = b; ready = true }
    ∷ []

-- The stale replica with the lowest ordinal goes first, the primary last.
replica_first :
    next_rollout_step (rolling (codes "r1") (codes "r1") (codes "r1")) (codes "r2") (codes "demo-0")
    ≡ RolloutAction.rollout_roll_replica (codes "demo-1")
unfolding next_rollout_step is_stale sort_by_ordinal sort_by insert_by first_replica keep exists
    every ltb_ℤ eqb is_empty
replica_first = refl

primary_last :
    next_rollout_step (rolling (codes "r1") (codes "r2") (codes "r2")) (codes "r2") (codes "demo-0")
    ≡ RolloutAction.rollout_promote (codes "demo-0")
unfolding next_rollout_step is_stale sort_by_ordinal sort_by insert_by first_replica keep exists
    every ltb_ℤ eqb is_empty
primary_last = refl

next_rollout_step-IsJustified_example :
    IsJustified (rolling (codes "r1") (codes "r1") (codes "r2")) (codes "r2") (codes "demo-0") (
      next_rollout_step
        (rolling (codes "r1") (codes "r1") (codes "r2"))
        (codes "r2")
        (codes "demo-0"))
next_rollout_step-IsJustified_example =
    next_rollout_step-IsJustified (rolling (codes "r1") (codes "r1") (codes "r2")) (codes "r2")
      (codes "demo-0")

abbrev survey : List PodRole
survey =
    sample_pod 0 role_master 50 7 ∷ sample_pod 1 role_slave 40 7 ∷ sample_pod 2 role_slave 45 7 ∷ []

drive_replication_rollout_steps_example :
    Extends
      (StepOf calm survey fresh)
      fresh.effects
      (drive_replication_rollout calm (codes "pw") survey fresh).1.effects
drive_replication_rollout_steps_example =
    drive_replication_rollout_steps calm (codes "pw") survey fresh

highest : pick_failover_target demo survey [] ≡ some (sample_pod 2 role_slave 45 7)
unfolding pick_failover_target best_target take_better is_candidate higher_offset eqb ltb_ℤ is_empty
highest = refl

pick_failover_target_chooses_example :
    (In (sample_pod 2 role_slave 45 7) survey × IsReplica (sample_pod 2 role_slave 45 7))
    × (((is_empty [] ≡ false) × (pod_name demo (pos 2) ≡ []))
        ⊎ ((is_empty [] ≡ true) × ((r : PodRole) → In r survey → IsReplica r → r.offset ≤ℤ pos 45)))
pick_failover_target_chooses_example =
    pick_failover_target_chooses demo survey [] (sample_pod 2 role_slave 45 7) highest

manual_failover-IsOutcome_example :
    IsOutcome calm
      (codes "pw")
      survey
      (codes "t1")
      fresh
      (pick_failover_target demo survey
        (map_get demo.annotations (codes "valkey.wellcake.io/failover-target")))
      (manual_failover calm (codes "pw") survey (codes "t1") fresh)
manual_failover-IsOutcome_example =
    manual_failover-IsOutcome calm (codes "pw") survey (codes "t1") fresh
