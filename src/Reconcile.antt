-- ===== src/Reconcile.antt =====
-- internal/controller/valkeycluster_controller.go and backup.go: the objects that the operator
-- keeps. What an object holds is data for the API, so an object is its kind and its name, and
-- whether the one that is there is as wanted is an answer of Env: the code compares the specs and the
-- labels, or a hash of what it wants with the one that it wrote into an annotation.
pub mod Claims
pub mod Status
pub mod Replication
pub mod Upkeep
pub mod Pass
pub mod Growth
pub mod Formation
pub mod Cluster
pub mod Forming
pub mod Failures
pub mod Labelling
pub mod Hibernation
use wellcake.Common.{
  ℕ, zero, suc, Bytes, codes, Option, none, some, Bool, true, false, not, List, [], ◌∷◌, ◌++◌,
  if◌then◌else◌, ◌&&◌, ◌||◌, int32_lt,
}
use wellcake.Api.{ValkeyCluster, PdbSpec, BackupSpec, is_standalone}
use wellcake.Api.Defaults.{deref, is_absent}
use wellcake.Sizing.{stateful_set_replicas}
use wellcake.Naming.{stateful_set_name, headless_service_name}
use wellcake.Rollout.Run.{get_stateful_set}
use wellcake.Rotation.Run.{update_answer}
use wellcake.Runtime.{
  Env, M, Effect, History, Answer, Kind, StatefulSet, get, create, update, delete, pure, ◌>>=◌, ask,
  succeeds,
}

-- pdbEnabled (resources.go).
unfoldable pub pdb_enabled_with : ValkeyCluster → Option PdbSpec → Bool
pdb_enabled_with vc none = int32_lt 1 vc.spec.replicas
pdb_enabled_with vc (some p) = deref p.enabled true

unfoldable pub pdb_enabled : ValkeyCluster → Bool
pdb_enabled vc = pdb_enabled_with vc vc.spec.pod_disruption_budget

-- networkPolicyEnabled (resources.go).
unfoldable pub network_policy_enabled : ValkeyCluster → Bool
network_policy_enabled vc = elim vc.spec.network_policy [ none ↦ false | some n ↦ n.enabled ]

-- The guard of ensureMetricsServiceMonitor.
unfoldable pub wants_service_monitor : ValkeyCluster → Bool
wants_service_monitor vc = elim vc.spec.metrics [
  | none ↦ false
  | some m ↦ m.enabled && m.service_monitor
]

-- The names of the objects (resources.go).
unfoldable pub client_service_name : ValkeyCluster → Bytes
client_service_name vc = vc.name

unfoldable pub primary_service_name : ValkeyCluster → Bytes
primary_service_name vc = vc.name ++ codes "-primary"

unfoldable pub replicas_service_name : ValkeyCluster → Bytes
replicas_service_name vc = vc.name ++ codes "-replicas"

unfoldable pub config_map_name : ValkeyCluster → Bytes
config_map_name vc = vc.name ++ codes "-config"

-- An object that was read, with whether it is as wanted.
unfoldable pub with_settled {ℓ} : {A : Type ℓ} → Answer A → Bool → Answer (A × Bool)
with_settled (Answer.found a) b = Answer.found (a, b)
with_settled Answer.not_found b = Answer.not_found
with_settled Answer.failed b = Answer.failed

-- A created StatefulSet has no status yet; an updated one wants the new number of pods.
unfoldable pub created_stateful_set : ℕ → StatefulSet
created_stateful_set wanted = record {
  update_revision = [];
  ready_replicas = 0;
  replicas = some wanted;
}

unfoldable pub updated_stateful_set : ℕ → StatefulSet → Option Bool → Option (Option StatefulSet)
updated_stateful_set wanted sts none = none
updated_stateful_set wanted sts (some true) = some (some (record sts { replicas = some wanted }))
updated_stateful_set wanted sts (some false) = some none

-- retry.RetryOnConflict: another attempt only after a conflict.
unfoldable pub or_retry : {A : Type 0} → Option A → M A → M A
or_retry none next = next
or_retry (some a) next = pure a

module _ (env : Env) where
  unfoldable pub get_object : Kind → Bytes → M (Answer (Unit {0} × Bool))
  get_object kind name =
      ask (get kind name) (λ h. with_settled (env.any h kind name) (env.settled h kind name))

  -- r.Create and r.Update: whether they return no error.
  unfoldable pub create_object : Kind → Bytes → M Bool
  create_object kind name = do
    answer ← ask (create kind name) (λ h. env.accepts h (create kind name))
    pure (succeeds answer)

  unfoldable pub update_object : Kind → Bytes → M Bool
  update_object kind name = do
    answer ← ask (update kind name) (λ h. env.accepts h (update kind name))
    pure (succeeds answer)

  -- The end of a part that is switched off: the object is deleted where it is there.
  unfoldable pub delete_found : Kind → Bytes → Answer (Unit {0} × Bool) → M Bool
  delete_found kind name (Answer.found x) = do
    answer ← ask (delete kind name) (λ h. env.accepts h (delete kind name))
    pure (succeeds answer)
  delete_found kind name Answer.not_found = pure true
  delete_found kind name Answer.failed = pure true

  unfoldable pub drop_object : Kind → Bytes → M Bool
  drop_object kind name = do found ← get_object kind name; delete_found kind name found

  -- applyService, and ensureConfigMap, ensureNetworkPolicy and ensureBackupCronJob, which go the
  -- same way: created where there is none, left alone where it is as wanted, else updated.
  unfoldable pub apply_found : Kind → Bytes → Answer (Unit {0} × Bool) → M Bool
  apply_found kind name Answer.not_found = create_object kind name
  apply_found kind name Answer.failed = pure false
  apply_found kind name (Answer.found (x, true)) = pure true
  apply_found kind name (Answer.found (x, false)) = update_object kind name

  unfoldable pub apply_object : Kind → Bytes → M Bool
  apply_object kind name = do found ← get_object kind name; apply_found kind name found

  -- The attempts of applyPDB after a conflict: none is one more conflict.
  unfoldable pub attempt_found : Kind → Bytes → Answer (Unit {0} × Bool) → M (Option Bool)
  attempt_found kind name Answer.not_found = pure (some false)
  attempt_found kind name Answer.failed = pure (some false)
  attempt_found kind name (Answer.found (x, true)) = pure (some true)
  attempt_found kind name (Answer.found (x, false)) =
      ask (update kind name)
        (λ h. update_answer (env.conflicts h) (env.accepts h (update kind name)))

  unfoldable pub retry_update : ℕ → Kind → Bytes → M Bool
  retry_update zero kind name = pure false
  retry_update (suc steps) kind name = do
    found ← get_object kind name
    updated ← attempt_found kind name found
    or_retry updated (retry_update steps kind name)

  unfoldable pub retry_found : Kind → Bytes → Answer (Unit {0} × Bool) → M Bool
  retry_found kind name Answer.not_found = create_object kind name
  retry_found kind name Answer.failed = pure false
  retry_found kind name (Answer.found x) = retry_update 5 kind name

  -- applyPDB.
  unfoldable pub apply_pdb : ValkeyCluster → Bytes → M Bool
  apply_pdb vc name =
      if not (pdb_enabled vc) then drop_object Kind.pod_disruption_budget name else do
        found ← get_object Kind.pod_disruption_budget name
        retry_found Kind.pod_disruption_budget name found

  unfoldable pub ensure_pdb : ValkeyCluster → M Bool
  ensure_pdb vc = apply_pdb vc (vc.name ++ codes "-pdb")

  unfoldable pub ensure_network_policy : ValkeyCluster → M Bool
  ensure_network_policy vc =
      let name = vc.name ++ codes "-allow" in
      if not (network_policy_enabled vc)
      then drop_object Kind.network_policy name
      else apply_object Kind.network_policy name

  -- ensureBackupCronJob: no destination is an error.
  unfoldable pub ensure_backup : Bytes → Option BackupSpec → M Bool
  ensure_backup name none = drop_object Kind.cron_job name
  ensure_backup name (some b) =
      if not b.enabled
      then drop_object Kind.cron_job name
      else if is_absent b.s3
      then pure false
      else apply_object Kind.cron_job name

  unfoldable pub ensure_backup_cron_job : ValkeyCluster → M Bool
  ensure_backup_cron_job vc = ensure_backup (vc.name ++ codes "-backup") vc.spec.backup

  -- ensureMetricsServiceMonitor: it is updated in any case, and left out where the kind is unknown.
  unfoldable pub monitor_found : Bytes → Bool → Answer (Unit {0} × Bool) → M Bool
  monitor_found name unknown Answer.not_found = create_object Kind.service_monitor name
  monitor_found name unknown Answer.failed = pure unknown
  monitor_found name unknown (Answer.found x) = update_object Kind.service_monitor name

  unfoldable pub get_monitor : Bytes → M (Answer (Unit {0} × Bool) × Bool)
  get_monitor name w =
      let h = get Kind.service_monitor name ∷ w.effects in
      (
        (
          with_settled (env.any h Kind.service_monitor name)
              (env.settled h Kind.service_monitor name),
          env.no_match h,
        ),
        record w { effects = h },
      )

  unfoldable pub ensure_service_monitor : ValkeyCluster → M Bool
  ensure_service_monitor vc =
      if not (wants_service_monitor vc)
      then pure true
      else do found ← get_monitor vc.name; monitor_found vc.name found.1 found.0

  -- applyStatefulSet: the StatefulSet as it is known afterwards, none on an error.
  unfoldable pub attempt_stateful_set :
      Bytes → ℕ → Answer (StatefulSet × Bool) → M (Option (Option StatefulSet))
  attempt_stateful_set name wanted Answer.not_found = pure (some none)
  attempt_stateful_set name wanted Answer.failed = pure (some none)
  attempt_stateful_set name wanted (Answer.found (sts, true)) = pure (some (some sts))
  attempt_stateful_set name wanted (Answer.found (sts, false)) =
      ask (update Kind.stateful_set name) (λ h.
        updated_stateful_set wanted sts
          (update_answer (env.conflicts h) (env.accepts h (update Kind.stateful_set name))))

  unfoldable pub retry_stateful_set : ℕ → Bytes → ℕ → M (Option StatefulSet)
  retry_stateful_set zero name wanted = pure none
  retry_stateful_set (suc steps) name wanted = do
    found ←
        ask (get Kind.stateful_set name)
          (λ h. with_settled (env.stateful_set h name) (env.settled h Kind.stateful_set name))
    updated ← attempt_stateful_set name wanted found
    or_retry updated (retry_stateful_set steps name wanted)

  unfoldable pub apply_found_stateful_set : Bytes → ℕ → Answer StatefulSet → M (Option StatefulSet)
  apply_found_stateful_set name wanted Answer.not_found = do
    ok ← create_object Kind.stateful_set name
    pure (if ok then some (created_stateful_set wanted) else none)
  apply_found_stateful_set name wanted Answer.failed = pure none
  apply_found_stateful_set name wanted (Answer.found sts) = retry_stateful_set 5 name wanted

  unfoldable pub apply_stateful_set : Bytes → ℕ → M (Option StatefulSet)
  apply_stateful_set name wanted = do
    found ← get_stateful_set env name
    apply_found_stateful_set name wanted found
