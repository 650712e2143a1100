-- ===== src/Reconcile/Formation.antt =====
-- internal/controller/cluster.go and restore_assembly.go: how a Cluster is formed for the first time,
-- by the Job that creates it or by the one that assembles it from a backup.
use wellcake.Common.{
  Bytes, codes, Option, none, some, Bool, true, false, not, ◌++◌, if◌then◌else◌, ◌&&◌, contains,
  int32_lt,
}
use wellcake.Api.{ValkeyCluster, RestoreSpec, Status}
use wellcake.Sizing.{total_replicas}
use wellcake.Naming.{cluster_any_pod_host}
use wellcake.Info.{data_port}
use wellcake.Cluster.Scaling.{Outcome, outcome, patch, create_job, run_job}
use wellcake.Runtime.{
  Env, M, Answer, Job, Kind, Command, get, pure, ◌>>=◌, object, ask, dial_repl_client, query,
}

-- The reply to CLUSTER INFO of a cluster that has all its slots.
unfoldable pub shows_formed : Option Bytes → Bool
shows_formed none = false
shows_formed (some out) =
    contains out (codes "cluster_state:ok") && contains out (codes "cluster_slots_assigned:16384")

unfoldable pub bootstrap_job_name : ValkeyCluster → Bytes
bootstrap_job_name vc = vc.name ++ codes "-bootstrap"

unfoldable pub assembly_job_name : ValkeyCluster → Bytes
assembly_job_name vc = vc.name ++ codes "-restore-assembly"

unfoldable pub initialized_status : ValkeyCluster → Status
initialized_status vc = record vc.status {
  cluster_initialized = true;
  last_applied_replicas = total_replicas vc;
}

module _ (env : Env) where
  -- clusterFormed.
  unfoldable pub ask_formed : Bytes → Bool → M Bool
  ask_formed host false = pure false
  ask_formed host true = do out ← query env host Command.cluster_info; pure (shows_formed out)

  unfoldable pub cluster_formed : Bytes → M Bool
  cluster_formed password = do
    vc ← object
    connected ← dial_repl_client env (cluster_any_pod_host vc) (data_port vc) password
    ask_formed (cluster_any_pod_host vc) connected

  -- adoptFormedCluster, and the end of a Job that has succeeded.
  unfoldable pub adopt_formed_cluster : M Outcome
  adopt_formed_cluster = do
    vc ← object
    ok ← patch env (initialized_status vc)
    pure (outcome false (not ok))

  -- runClusterBootstrap.
  unfoldable pub bootstrap_unless : Bool → M Outcome
  bootstrap_unless true = adopt_formed_cluster
  bootstrap_unless false = do
    vc ← object
    run_job env (bootstrap_job_name vc) false adopt_formed_cluster

  unfoldable pub run_cluster_bootstrap : Bytes → M Outcome
  run_cluster_bootstrap password = do formed ← cluster_formed password; bootstrap_unless formed

  -- runClusterRestoreAssembly: a Job that failed is watched on.
  unfoldable pub watch_assembly : Bytes → Answer Job → M Outcome
  watch_assembly name Answer.not_found = create_job env name true
  watch_assembly name Answer.failed = pure (outcome false true)
  watch_assembly name (Answer.found j) =
      if int32_lt 0 j.succeeded then adopt_formed_cluster else pure (outcome true false)

  unfoldable pub assemble_unless : Bool → M Outcome
  assemble_unless true = adopt_formed_cluster
  assemble_unless false = do
    vc ← object
    job ← ask (get Kind.job (assembly_job_name vc)) (λ h. env.job h (assembly_job_name vc))
    watch_assembly (assembly_job_name vc) job

  unfoldable pub run_cluster_restore_assembly : Bytes → M Outcome
  run_cluster_restore_assembly password = do
    formed ← cluster_formed password
    assemble_unless formed

  -- bootstrapOrRestore.
  unfoldable pub form_from : Bytes → Option RestoreSpec → M Outcome
  form_from password none = run_cluster_bootstrap password
  form_from password (some r) = run_cluster_restore_assembly password

  unfoldable pub bootstrap_or_restore : Bytes → M Outcome
  bootstrap_or_restore password = do vc ← object; form_from password vc.spec.restore_from
