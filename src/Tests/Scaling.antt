-- ===== src/Tests/Scaling.antt =====
-- A Cluster in the per-shard layout that shrinks from four shards to three, and a reshard that is
-- asked for during a scale-up.
use wellcake.Common.{◌≡◌, refl, [], ◌∷◌, true, codes, some, int32_lt, eqb, is_empty}
use wellcake.Api.{ValkeyCluster, map_get}
use wellcake.Sizing.{shard_count_of, old_shards_of, count_from, replicas_per_shard_of}
use wellcake.Cluster.Scaling.{
  leaving_shards, run_cluster_scale_down, maybe_reconcile_cluster_scaling, run_cluster_scale_up,
  run_cluster_reshard, run_job, watch_job, create_job, is_final, returns_or, reshard_when,
}
use wellcake.Cluster.Scaling.Leaving.{Leaves, run_cluster_scale_down-Leaves}
use wellcake.Cluster.Scaling.Order.{IsSized, run_cluster_scale_down-IsSized}
use wellcake.Runtime.{succeeds, Env, World, Answer, Kind, create, get, ◌>>=◌, object, pure, ask}
use wellcake.Runtime.Emits.{Extends}
use wellcake.Tests.Samples.{calm, demo_cluster, sample_status}

abbrev shrinking : ValkeyCluster
shrinking = record demo_cluster {
  spec = record demo_cluster.spec { per_shard_workload = some true };
}

abbrev start : World
start = record { vc = shrinking; effects = [] }

abbrev moved : Env
moved = record calm {
  job = λ h name. Answer.found (record { succeeded = 1; failures = 0; backoff_limit = 3 });
}

last_leaves : leaving_shards shrinking ≡ 3 ∷ []
unfolding leaving_shards shard_count_of old_shards_of replicas_per_shard_of count_from int32_lt
last_leaves = refl

run_cluster_scale_down-Leaves_example :
    Extends (Leaves moved start) start.effects (run_cluster_scale_down moved start).1.effects
run_cluster_scale_down-Leaves_example = run_cluster_scale_down-Leaves moved start

abbrev growing : World
growing = record {
  vc = record demo_cluster {
    annotations = (codes "valkey.wellcake.io/reshard", codes "t1") ∷ [];
    status = record sample_status { cluster_initialized = true; last_applied_replicas = 4 };
  };
  effects = [];
}

-- The scale-up Job that was just created does not end the pass: the reshard Job starts beside it.
both_start :
    (maybe_reconcile_cluster_scaling calm 6 true growing).1.effects
    ≡ create Kind.job (codes "demo-reshard")
      ∷ get Kind.job (codes "demo-reshard")
      ∷ create Kind.job (codes "demo-scaleup")
      ∷ get Kind.job (codes "demo-scaleup")
      ∷ []
unfolding maybe_reconcile_cluster_scaling run_cluster_scale_up run_cluster_reshard run_job watch_job
    create_job is_final succeeds returns_or reshard_when int32_lt eqb is_empty map_get ◌>>=◌ object
    pure ask
both_start = refl

run_cluster_scale_down-IsSized_example : IsSized moved start (run_cluster_scale_down moved start).1
run_cluster_scale_down-IsSized_example = run_cluster_scale_down-IsSized moved start
