-- ===== src/Tests/Sentinel.antt =====
-- Three Sentinels, of which one lists a dead replica.
use wellcake.Common.{
  ◌≡◌, ◌⊎◌, refl, List, [], ◌∷◌, true, false, codes, pos, negsuc, some, ℕ, exists, every, eqb,
  ltb_ℤ,
}
use wellcake.Api.{Topology}
use wellcake.Handover.Run.{sentinel_replicas}
use wellcake.Info.{role_master}
use wellcake.Sentinel.{
  SentinelView, pick_sentinel_to_reset, reset_stale_sentinels, repair_sentinel_data_pods,
  first_dead, has_dead, is_settled, agrees, peers, signed,
}
use wellcake.Sentinel.Reset.{ResetsDead, reset_stale_sentinels_resets}
use wellcake.Sentinel.Repair.{Repairs, repair_sentinel_data_pods-Repairs}
use wellcake.Runtime.{World}
use wellcake.Runtime.Emits.{Extends}
use wellcake.Tests.Samples.{demo, sample_spec}
use wellcake.Tests.Handover.{linked}

abbrev view : ℕ → ℕ → ℕ → SentinelView
view i others stale = record {
  ordinal = pos i;
  master = codes "demo-0.demo-headless.default.svc.cluster.local:6379";
  flags = role_master;
  other_sentinels = pos others;
  stale_replicas = stale;
}

abbrev start : World
start = record {
  vc = record demo {
    spec = record sample_spec {
      topology = Topology.sentinel;
      sentinel = some (record {
        replicas = 3;
        quorum = 2;
        down_after_milliseconds = 5000;
        failover_timeout = 60000;
      });
    };
  };
  effects = [];
}

abbrev others : List SentinelView
others = view 1 2 1 ∷ view 2 3 0 ∷ []

second_first : pick_sentinel_to_reset (view 0 2 0 ∷ others) 3 ≡ pos 1
unfolding pick_sentinel_to_reset first_dead has_dead is_settled agrees peers signed every eqb ltb_ℤ
second_first = refl

-- The Sentinel that was reset last has not found its peers again.
waits : pick_sentinel_to_reset (view 0 1 0 ∷ others) 3 ≡ negsuc 0
unfolding pick_sentinel_to_reset first_dead has_dead is_settled agrees peers signed every eqb ltb_ℤ
waits = refl

reset_stale_sentinels_resets_example :
    Extends
      (ResetsDead start.vc (view 0 2 0 ∷ others))
      start.effects
      (reset_stale_sentinels linked (codes "pw") (view 0 2 0 ∷ others) start).1.effects
    × (((reset_stale_sentinels linked (codes "pw") (view 0 2 0 ∷ others) start).0 ≡ true)
        ⊎ (exists (has_dead (sentinel_replicas start.vc.spec.sentinel)) (view 0 2 0 ∷ others)
            ≡ false))
reset_stale_sentinels_resets_example =
    reset_stale_sentinels_resets linked (codes "pw") (view 0 2 0 ∷ others) start

repair_sentinel_data_pods-Repairs_example :
    Extends
      (Repairs linked (codes "pw") (view 0 2 0 ∷ others) start)
      start.effects
      (repair_sentinel_data_pods linked (codes "pw") (view 0 2 0 ∷ others) start).1.effects
repair_sentinel_data_pods-Repairs_example =
    repair_sentinel_data_pods-Repairs linked (codes "pw") (view 0 2 0 ∷ others) start
