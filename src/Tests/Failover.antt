-- ===== src/Tests/Failover.antt =====
-- Failover runs.
use wellcake.Common.{
  ◌≡◌, List, [], ◌∷◌, refl, arith, codes, In, here, there, some, Bytes, eqb, eqb_ℤ, ltb_ℤ, is_empty,
  itoa_ℤ, keep,
}
use wellcake.Failover.{
  PodRole, scan, scan_pods, scan_pod, better_replica, better_master, pick_authoritative_master,
}
use wellcake.Failover.Masters.{GoesBefore, pick_authoritative_master_first}
use wellcake.Failover.Replicas.{IsReplica, IsAhead, scan_best_replica}
use wellcake.Failover.Promotion.{
  reconcile_failover_promotes_best, reconcile_failover_keeps_data, PromotesAheadOf, PromotesNobody,
}
use wellcake.Failover.Debounce.{reconcile_failover_debounces, Waits}
use wellcake.Failover.Run.{
  reconcile_failover, with_masters, adopt_or_promote, promote_after_debounce, promote_replica,
  enforce_replication, retarget, in_place, data_replica, clear_primary_down, clear_down,
  primary_down_long_enough, down_long_enough, set_primary_down, down_elapsed,
}
use wellcake.Runtime.{
  World, ◌>>=◌, object, pure, perform, set_status, ask, dial_repl_client, command, clock, is_some,
}
use wellcake.Naming.{pod_name}
use wellcake.Info.{role_master, role_slave, data_port}
use wellcake.Runtime.Emits.{Emits}
use wellcake.Tests.Samples.{demo, calm, fresh, sample_pod}

-- The primary restarted empty, and two replicas hold the data.
abbrev survey : List PodRole
survey =
    sample_pod 0 role_master 0 0 ∷ sample_pod 1 role_slave 40 7 ∷ sample_pod 2 role_slave 30 7 ∷ []

-- Two masters, of which the second holds data.
abbrev split : List PodRole
split = sample_pod 0 role_master 0 0 ∷ sample_pod 1 role_master 40 7 ∷ []

-- No master answers.
abbrev headless : List PodRole
headless = sample_pod 1 role_slave 40 7 ∷ sample_pod 2 role_slave 30 7 ∷ []

run_failover : List PodRole → Bytes × World
unfolding reconcile_failover with_masters adopt_or_promote promote_after_debounce promote_replica
    enforce_replication retarget in_place data_replica clear_primary_down clear_down
    primary_down_long_enough down_long_enough set_primary_down down_elapsed scan scan_pods scan_pod
    better_replica better_master pick_authoritative_master ◌>>=◌ object pure perform set_status ask
    dial_repl_client command clock is_some pod_name data_port eqb eqb_ℤ ltb_ℤ is_empty itoa_ℤ
run_failover survey = reconcile_failover calm (codes "pw") survey fresh

-- The empty master is not adopted: the replica with the data and the higher offset is promoted.
guard_run : (run_failover survey).0 ≡ codes "demo-1"
unfolding run_failover
guard_run = refl

-- The master with data is adopted, although the other one is the primary of the status.
split_run : (run_failover split).0 ≡ codes "demo-1"
unfolding run_failover
split_run = refl

-- Nothing is promoted on the first miss.
headless_run : (run_failover headless).0 ≡ codes "demo-0"
unfolding run_failover
headless_run = refl

reconcile_failover_promotes_best_example :
    Emits
      (PromotesAheadOf survey (sample_pod 2 role_slave 30 7))
      (reconcile_failover calm (codes "pw") survey)
reconcile_failover_promotes_best_example =
    reconcile_failover_promotes_best calm (codes "pw") survey (sample_pod 2 role_slave 30 7)
      (there (there (here refl))) (refl, refl)

reconcile_failover_keeps_data_example :
    Emits PromotesNobody (reconcile_failover calm (codes "pw") split)
reconcile_failover_keeps_data_example =
    reconcile_failover_keeps_data calm (codes "pw") split (sample_pod 1 role_master 40 7)
      (there (here refl)) (unfold eqb in refl) (omega arith)

reconcile_failover_debounces_example :
    Waits fresh (reconcile_failover calm (codes "pw") headless fresh)
reconcile_failover_debounces_example =
    reconcile_failover_debounces calm (codes "pw") headless fresh (unfold keep eqb in refl) tt

pick_authoritative_master_first_example :
    In
      (pick_authoritative_master demo
        (sample_pod 0 role_master 0 0)
        (sample_pod 1 role_master 40 7 ∷ []))
      (sample_pod 0 role_master 0 0 ∷ sample_pod 1 role_master 40 7 ∷ [])
    × GoesBefore demo
        (pick_authoritative_master demo
          (sample_pod 0 role_master 0 0)
          (sample_pod 1 role_master 40 7 ∷ []))
        (sample_pod 0 role_master 0 0)
pick_authoritative_master_first_example =
    pick_authoritative_master_first demo (sample_pod 0 role_master 0 0)
      (sample_pod 1 role_master 40 7 ∷ []) (sample_pod 0 role_master 0 0) (here refl)

scan_best_replica_example :
    (b : PodRole) × ((scan survey).best_replica ≡ some b)
    × (In b survey × IsReplica b)
    × IsAhead b (sample_pod 2 role_slave 30 7)
scan_best_replica_example =
    scan_best_replica survey (sample_pod 2 role_slave 30 7) (there (there (here refl))) (refl, refl)
