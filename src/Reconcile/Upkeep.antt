-- ===== src/Reconcile/Upkeep.antt =====
-- What the operator does to keep the objects of a cluster (internal/controller,
-- valkeycluster_controller.go and backup.go): it reads, creates, updates and deletes objects, but
-- no pod, and sends nothing to a pod.
pub mod Workload
use wellcake.Common.{
  ℕ, zero, suc, Bytes, codes, ◌++◌, Option, none, some, Bool, true, false, not, List, [], ◌∷◌,
  if◌then◌else◌, is_empty, ◌==◌,
}
use wellcake.Api.{ValkeyCluster, BackupSpec}
use wellcake.Api.Defaults.{auth_enabled, is_absent}
use wellcake.Sizing.{stateful_set_replicas}
use wellcake.Naming.{stateful_set_name}
use wellcake.Rollout.Run.{get_stateful_set}
use wellcake.Rotation.Run.{
  ensure_password_secret, managed_secret, create_password, existing_secret_of,
}
use wellcake.Reconcile.{
  get_object, create_object, update_object, delete_found, drop_object, apply_found, apply_object,
  or_retry, attempt_found, retry_update, retry_found, apply_pdb, pdb_enabled, ensure_pdb,
  ensure_network_policy, network_policy_enabled, ensure_backup, ensure_backup_cron_job, get_monitor,
  monitor_found, ensure_service_monitor, wants_service_monitor, attempt_stateful_set,
  retry_stateful_set, apply_found_stateful_set, apply_stateful_set,
}
use wellcake.Reconcile.Claims.{
  is_left, grow_one, grow_claims, grow_listed, uses_memory_storage, data_size, ensure_pvc_size,
  after_sizes, ensure_stateful_set,
}
use wellcake.Runtime.{
  Env, M, Answer, Kind, Effect, StatefulSet, Claim, get, create, update, delete, list_claims,
  grow_claim, generate_password,
}
use wellcake.Runtime.Emits.{
  Emits, more, same, Emits-pure, Emits-bind, Emits-if, Emits-ask, Emits-object,
}

abbrev pub IsUpkeep : Effect → Type 0
IsUpkeep (get kind name) = Unit
IsUpkeep (create kind name) = Unit
IsUpkeep (update kind name) = Unit
IsUpkeep (delete Kind.pod name) = ⊥
IsUpkeep (delete kind name) = Unit
IsUpkeep (list_claims labels) = Unit
IsUpkeep (grow_claim name size) = Unit
IsUpkeep generate_password = Unit
IsUpkeep _ = ⊥

pub retried :
    {A : Type 0} {P : Effect → Type 0} (o : Option A) (next : M A)
    → Emits P next
    → Emits P (or_retry o next)
unfolding or_retry
retried none next h = h
retried (some a) next h = Emits-pure a

module _ (env : Env) where
  gets : (kind : Kind) (name : Bytes) → Emits IsUpkeep (get_object env kind name)
  unfolding get_object
  gets kind name = Emits-ask _ _ tt

  pub creates : (kind : Kind) (name : Bytes) → Emits IsUpkeep (create_object env kind name)
  unfolding create_object
  creates kind name = Emits-bind _ _ (Emits-ask _ _ tt) (λ a. Emits-pure _)

  updates : (kind : Kind) (name : Bytes) → Emits IsUpkeep (update_object env kind name)
  unfolding update_object
  updates kind name = Emits-bind _ _ (Emits-ask _ _ tt) (λ a. Emits-pure _)

  drops :
      (kind : Kind) (name : Bytes)
      → IsUpkeep (delete kind name)
      → Emits IsUpkeep (drop_object env kind name)
  unfolding drop_object
  drops kind name k = Emits-bind _ _ (gets kind name) (λ found. deletes found)
    where
      deletes : (a : Answer (Unit {0} × Bool)) → Emits IsUpkeep (delete_found env kind name a)
      deletes (Answer.found x) =
          unfold delete_found in Emits-bind _ _ (Emits-ask _ _ k) (λ a. Emits-pure _)
      deletes Answer.not_found = unfold delete_found in Emits-pure _
      deletes Answer.failed = unfold delete_found in Emits-pure _

  pub applies : (kind : Kind) (name : Bytes) → Emits IsUpkeep (apply_object env kind name)
  unfolding apply_object
  applies kind name = Emits-bind _ _ (gets kind name) (λ found. on found)
    where
      on : (a : Answer (Unit {0} × Bool)) → Emits IsUpkeep (apply_found env kind name a)
      on Answer.not_found = unfold apply_found in creates kind name
      on Answer.failed = unfold apply_found in Emits-pure _
      on (Answer.found (x, true)) = unfold apply_found in Emits-pure _
      on (Answer.found (x, false)) = unfold apply_found in updates kind name

  attempts :
      (kind : Kind) (name : Bytes) (a : Answer (Unit {0} × Bool))
      → Emits IsUpkeep (attempt_found env kind name a)
  unfolding attempt_found
  attempts kind name Answer.not_found = Emits-pure _
  attempts kind name Answer.failed = Emits-pure _
  attempts kind name (Answer.found (x, true)) = Emits-pure _
  attempts kind name (Answer.found (x, false)) = Emits-ask _ _ tt

  retries : (n : ℕ) (kind : Kind) (name : Bytes) → Emits IsUpkeep (retry_update env n kind name)
  unfolding retry_update
  retries zero kind name = Emits-pure _
  retries (suc n) kind name =
      Emits-bind _ _ (gets kind name) (λ found.
        Emits-bind _ _ (attempts kind name found) (λ o. retried o _ (retries n kind name)))

  creates_or_retries :
      (kind : Kind) (name : Bytes) (a : Answer (Unit {0} × Bool))
      → Emits IsUpkeep (retry_found env kind name a)
  unfolding retry_found
  creates_or_retries kind name Answer.not_found = creates kind name
  creates_or_retries kind name Answer.failed = Emits-pure _
  creates_or_retries kind name (Answer.found x) = retries 5 kind name

  pub ensure_pdb-IsUpkeep : (vc : ValkeyCluster) → Emits IsUpkeep (ensure_pdb env vc)
  unfolding ensure_pdb apply_pdb
  ensure_pdb-IsUpkeep vc =
      Emits-if (not (pdb_enabled vc)) _ _ (λ _. drops Kind.pod_disruption_budget _ tt)
        (λ _. Emits-bind _ _ (gets Kind.pod_disruption_budget _) (λ a. creates_or_retries _ _ a))

  pub ensure_network_policy-IsUpkeep :
      (vc : ValkeyCluster) → Emits IsUpkeep (ensure_network_policy env vc)
  unfolding ensure_network_policy
  ensure_network_policy-IsUpkeep vc =
      Emits-if (not (network_policy_enabled vc)) _ _ (λ _. drops Kind.network_policy _ tt)
        (λ _. applies Kind.network_policy _)

  pub ensure_backup_cron_job-IsUpkeep :
      (vc : ValkeyCluster) → Emits IsUpkeep (ensure_backup_cron_job env vc)
  unfolding ensure_backup_cron_job
  ensure_backup_cron_job-IsUpkeep vc = on _ vc.spec.backup
    where
      on : (name : Bytes) (o : Option BackupSpec) → Emits IsUpkeep (ensure_backup env name o)
      on name none = unfold ensure_backup in drops Kind.cron_job name tt
      on name (some b) =
          unfold ensure_backup in
          Emits-if (not b.enabled) _ _ (λ _. drops Kind.cron_job name tt)
            (λ _.
              Emits-if (is_absent b.s3) _ _ (λ _. Emits-pure _) (λ _. applies Kind.cron_job name))

  pub ensure_service_monitor-IsUpkeep :
      (vc : ValkeyCluster) → Emits IsUpkeep (ensure_service_monitor env vc)
  unfolding ensure_service_monitor
  ensure_service_monitor-IsUpkeep vc =
      Emits-if (not (wants_service_monitor vc)) _ _ (λ _. Emits-pure _)
        (λ _.
          Emits-bind _ _ (unfold get_monitor in record { at = λ w. more tt same })
            (λ found. on vc.name found.1 found.0))
    where
      on :
          (name : Bytes) (unknown : Bool) (a : Answer (Unit {0} × Bool))
          → Emits IsUpkeep (monitor_found env name unknown a)
      on name unknown Answer.not_found = unfold monitor_found in creates _ name
      on name unknown Answer.failed = unfold monitor_found in Emits-pure _
      on name unknown (Answer.found x) = unfold monitor_found in updates _ name
