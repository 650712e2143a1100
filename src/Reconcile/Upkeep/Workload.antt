-- ===== src/Reconcile/Upkeep/Workload.antt =====
-- The upkeep of the StatefulSets, the volumes and the password Secret (internal/controller,
-- valkeycluster_controller.go).
use wellcake.Common.{
  ℕ, zero, suc, Bytes, Option, none, some, Bool, true, false, not, List, [], ◌∷◌, is_empty, ◌==◌,
}
use wellcake.Api.{ValkeyCluster}
use wellcake.Api.Defaults.{auth_enabled}
use wellcake.Rollout.Run.{get_stateful_set}
use wellcake.Rotation.Run.{
  ensure_password_secret, managed_secret, create_password, existing_secret_of,
}
use wellcake.Reconcile.{
  attempt_stateful_set, retry_stateful_set, apply_found_stateful_set, apply_stateful_set,
}
use wellcake.Reconcile.Claims.{
  is_left, grow_one, grow_claims, grow_listed, uses_memory_storage, data_size, ensure_pvc_size,
  after_sizes, ensure_stateful_set,
}
use wellcake.Runtime.{Env, Answer, StatefulSet, Claim}
use wellcake.Runtime.Emits.{Emits, Emits-pure, Emits-bind, Emits-if, Emits-ask, Emits-object}
use wellcake.Reconcile.Upkeep.{IsUpkeep, retried, creates}

module _ (env : Env) where
  attempts_stateful_set :
      (name : Bytes) (wanted : ℕ) (a : Answer (StatefulSet × Bool))
      → Emits IsUpkeep (attempt_stateful_set env name wanted a)
  unfolding attempt_stateful_set
  attempts_stateful_set name wanted Answer.not_found = Emits-pure _
  attempts_stateful_set name wanted Answer.failed = Emits-pure _
  attempts_stateful_set name wanted (Answer.found (sts, true)) = Emits-pure _
  attempts_stateful_set name wanted (Answer.found (sts, false)) = Emits-ask _ _ tt

  retries_stateful_set :
      (n : ℕ) (name : Bytes) (wanted : ℕ) → Emits IsUpkeep (retry_stateful_set env n name wanted)
  unfolding retry_stateful_set
  retries_stateful_set zero name wanted = Emits-pure _
  retries_stateful_set (suc n) name wanted = Emits-bind _ _ (Emits-ask _ _ tt) (λ found.
      Emits-bind _ _ (attempts_stateful_set name wanted found)
        (λ o. retried o _ (retries_stateful_set n name wanted)))

  pub apply_stateful_set-IsUpkeep :
      (name : Bytes) (wanted : ℕ) → Emits IsUpkeep (apply_stateful_set env name wanted)
  unfolding apply_stateful_set get_stateful_set
  apply_stateful_set-IsUpkeep name wanted = Emits-bind _ _ (Emits-ask _ _ tt) (λ a. on a)
    where
      on : (a : Answer StatefulSet) → Emits IsUpkeep (apply_found_stateful_set env name wanted a)
      on Answer.not_found =
          unfold apply_found_stateful_set in
          Emits-bind _ _ (creates env _ name) (λ ok. Emits-pure _)
      on Answer.failed = unfold apply_found_stateful_set in Emits-pure _
      on (Answer.found sts) = unfold apply_found_stateful_set in retries_stateful_set 5 name wanted

  grows :
      (prefix : Bytes) (desired : ℕ) (claims : List Claim)
      → Emits IsUpkeep (grow_claims env prefix desired claims)
  unfolding grow_claims grow_one
  grows prefix desired [] = Emits-pure _
  grows prefix desired (c ∷ claims) =
      Emits-if (is_left prefix desired c) _ _ (λ _. grows prefix desired claims)
        (λ _.
          Emits-bind _ _ (Emits-bind _ _ (Emits-ask _ _ tt) (λ a. Emits-pure _))
            (λ ok. Emits-if (not ok) _ _ (λ _. Emits-pure _) (λ _. grows prefix desired claims)))

  pub ensure_pvc_size-IsUpkeep : (vc : ValkeyCluster) → Emits IsUpkeep (ensure_pvc_size env vc)
  unfolding ensure_pvc_size
  ensure_pvc_size-IsUpkeep vc =
      Emits-if (uses_memory_storage vc) _ _ (λ _. Emits-pure _)
        (λ _.
          Emits-if (data_size env vc == 0) _ _ (λ _. Emits-pure _)
            (λ _. Emits-bind _ _ (Emits-ask _ _ tt) (λ o. on _ _ o)))
    where
      on :
          (prefix : Bytes) (desired : ℕ) (o : Option (List Claim))
          → Emits IsUpkeep (grow_listed env prefix desired o)
      on prefix desired none = unfold grow_listed in Emits-pure _
      on prefix desired (some claims) = unfold grow_listed in grows prefix desired claims

  pub ensure_stateful_set-IsUpkeep :
      (vc : ValkeyCluster) → Emits IsUpkeep (ensure_stateful_set env vc)
  unfolding ensure_stateful_set
  ensure_stateful_set-IsUpkeep vc = Emits-bind _ _ (apply_stateful_set-IsUpkeep _ _) (λ o. on o)
    where
      on : (o : Option StatefulSet) → Emits IsUpkeep (after_sizes env vc o)
      on none = unfold after_sizes in Emits-pure _
      on (some sts) =
          unfold after_sizes in Emits-bind _ _ (ensure_pvc_size-IsUpkeep vc) (λ ok. Emits-pure _)

  pub ensure_password_secret-IsUpkeep : Emits IsUpkeep (ensure_password_secret env)
  unfolding ensure_password_secret
  ensure_password_secret-IsUpkeep = Emits-bind _ _ Emits-object (λ vc.
      Emits-if (not (auth_enabled vc.spec)) _ _ (λ _. Emits-pure _)
        (λ _.
          Emits-if (not (is_empty (existing_secret_of vc.spec.auth))) _ _
            (λ _. Emits-bind _ _ (Emits-ask _ _ tt) (λ a. Emits-pure _))
            (λ _. Emits-bind _ _ (Emits-ask _ _ tt) (λ a. on _ a))))
    where
      makes : (name : Bytes) (o : Option Bytes) → Emits IsUpkeep (create_password env name o)
      makes name none = unfold create_password in Emits-pure _
      makes name (some pw) =
          unfold create_password in Emits-bind _ _ (Emits-ask _ _ tt) (λ a. Emits-pure _)

      on : (name : Bytes) (a : Answer Bytes) → Emits IsUpkeep (managed_secret env name a)
      on name Answer.not_found =
          unfold managed_secret in Emits-bind _ _ (Emits-ask _ _ tt) (λ o. makes name o)
      on name Answer.failed = unfold managed_secret in Emits-pure _
      on name (Answer.found pw) = unfold managed_secret in Emits-pure _
