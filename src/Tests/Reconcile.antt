-- ===== src/Tests/Reconcile.antt =====
-- Passes of the reconcile loop on small clusters.
use wellcake.Common.{
  codes, ◌≡◌, ◌≢◌, refl, List, [], ◌∷◌, true, false, some, eqb, is_empty, int32_lt, contains,
  has_prefix, int32, parse_bool,
}
use wellcake.Api.{ValkeyCluster, Phase, map_get, is_cluster}
use wellcake.Api.Defaults.{default}
use wellcake.Api.Defaults.Filled.{IsComplete, IsDefaulted, default_twice}
use wellcake.Sizing.{total_replicas}
use wellcake.Naming.{cluster_any_pod_host}
use wellcake.Rollout.{
  proactive_rollout_enabled, rollout_pods, instance_label, list_rollout_pods, map_pods,
}
use wellcake.Rollout.Run.{get_stateful_set, step_revision, step_pods, drive_replication_rollout}
use wellcake.Reconcile.Claims.{
  uses_memory_storage, data_size, ensure_pvc_size, sentinel_claim_prefix,
}
use wellcake.Reconcile.Cluster.{form_then_recover}
use wellcake.Reconcile.Failures.{AcceptsStatus, form_then_recover_forgets}
use wellcake.Reconcile.Formation.{
  bootstrap_or_restore, bootstrap_job_name, cluster_formed, ask_formed, shows_formed,
}
use wellcake.Reconcile.Forming.{Forms, bootstrap_or_restore-Forms}
use wellcake.Reconcile.Growth.{Grown, ensure_pvc_size-Grown}
use wellcake.Reconcile.Hibernation.{reconcile_hibernated-miss}
use wellcake.Reconcile.Labelling.{IsUnlabelled, manage_survey-IsUnlabelled}
use wellcake.Reconcile.Pass.{Permits}
use wellcake.Reconcile.Pass.Whole.{reconcile_replication-Permits}
use wellcake.Reconcile.Replication.{reconcile_replication, manage_survey}
use wellcake.Reconcile.Status.{reconcile_hibernated}
use wellcake.Runtime.{
  Env, World, Answer, Job, Claim, StatefulSet, list_claims, scale, ◌>>=◌, object, ask, pure,
  dial_repl_client, query,
}
use wellcake.Runtime.Emits.{Extends}
use wellcake.Tests.Samples.{calm, fresh, demo, demo_cluster, sample_status, sample_pod}

reconcile_replication-Permits_example :
    Extends (Permits calm fresh) [] (reconcile_replication calm fresh).1.effects
reconcile_replication-Permits_example = reconcile_replication-Permits calm fresh

-- Two data volumes and one of a Sentinel.
abbrev claims : List Claim
claims =
    record { name = codes "data-demo-0"; size = 5 }
    ∷ record { name = codes "data-demo-1"; size = 10 }
    ∷ record { name = codes "data-demo-sentinel-0"; size = 1 }
    ∷ []

abbrev with_claims : Env
with_claims = record calm { claims = λ h. some claims }

ensure_pvc_size-Grown_example :
    Grown with_claims
      (sentinel_claim_prefix demo)
      (data_size with_claims demo)
      claims
      (record fresh { effects = list_claims ((instance_label, demo.name) ∷ []) ∷ [] })
      (ensure_pvc_size with_claims demo fresh)
ensure_pvc_size-Grown_example =
    ensure_pvc_size-Grown with_claims demo fresh claims (unfold uses_memory_storage in refl)
      (unfold data_size wellcake.Reconcile.Claims.data_size_with in refl) refl

reconcile_hibernated-miss_example :
    Extends
      (λ e. e ≢ scale (wellcake.Naming.shard_sts_name demo_cluster 0) 0)
      []
      (reconcile_hibernated calm (record fresh { vc = demo_cluster })).1.effects
reconcile_hibernated-miss_example =
    reconcile_hibernated-miss calm (record fresh { vc = demo_cluster }) 0 0

-- A rollout is opted into, and the pods are not all there yet.
abbrev opted : ValkeyCluster
opted = record demo {
  annotations = (codes "valkey.wellcake.io/proactive-rollout", codes "true") ∷ [];
}

abbrev sets : StatefulSet
sets = record { update_revision = codes "r2"; ready_replicas = 3; replicas = some 3 }

going :
    (drive_replication_rollout calm
      (codes "pw")
      (sample_pod 1 (codes "slave") 40 7 ∷ [])
      (record fresh { vc = opted })).0.in_progress
    ≡ true
unfolding drive_replication_rollout get_stateful_set step_revision list_rollout_pods step_pods
    map_pods rollout_pods is_empty int32_lt int32 total_replicas is_cluster ◌>>=◌ object ask pure
going = refl

manage_survey-IsUnlabelled_example :
    Extends IsUnlabelled []
      (manage_survey calm opted
        (codes "pw")
        sets
        (sample_pod 1 (codes "slave") 40 7 ∷ [])
        (record fresh { vc = opted })).1.effects
manage_survey-IsUnlabelled_example =
    manage_survey-IsUnlabelled calm opted (codes "pw") sets (sample_pod 1 (codes "slave") 40 7 ∷ [])
      (record fresh { vc = opted })
      (unfold proactive_rollout_enabled map_get eqb parse_bool in refl) going

-- A Cluster that nobody has formed yet, with a bootstrap Job that has failed for good.
abbrev unformed : World
unformed = record fresh {
  vc = record demo_cluster { status = record sample_status { cluster_initialized = false } };
}

abbrev broken : Job
broken = record { succeeded = 0; failures = 7; backoff_limit = 6 }

abbrev failing : Env
failing = record calm { job = λ h name. Answer.found broken }

bootstrap_or_restore-Forms_example :
    Forms
      (bootstrap_job_name unformed.vc)
      (cluster_formed failing (codes "pw") unformed).0
      (Answer.found broken)
      []
      (bootstrap_or_restore failing (codes "pw") unformed).1
bootstrap_or_restore-Forms_example = bootstrap_or_restore-Forms failing (codes "pw") unformed refl

accepts : AcceptsStatus failing
accepts h s = unfold wellcake.Runtime.succeeds in refl

unshown : (cluster_formed failing (codes "pw") unformed).0 ≡ false
unfolding cluster_formed ask_formed shows_formed contains has_prefix is_empty dial_repl_client query
    ◌>>=◌ object ask pure
unshown = refl

form_then_recover_forgets_example :
    ((bootstrap_or_restore failing (codes "pw") unformed).1.vc.status.phase ≡ Phase.failed)
    × ((form_then_recover failing (codes "pw") 6 true unformed).1.vc.status.phase ≡ Phase.creating)
form_then_recover_forgets_example =
    form_then_recover_forgets failing (codes "pw") 6 unformed broken accepts refl refl unshown refl
      (unfold int32_lt in refl) (unfold int32_lt in refl)

default_twice_example :
    IsDefaulted demo (default demo)
    × IsComplete (default demo)
    × (default (default demo) ≡ default demo)
default_twice_example = default_twice demo
