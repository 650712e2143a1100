-- ===== src/Rotation/Run.antt =====
-- internal/controller/password_rotation.go: reconcilePasswordRotation, with ensurePasswordSecret of
-- valkeycluster_controller.go. The uncached reader is set, as cmd/main.go sets it.
use wellcake.Common.{
  ℕ, zero, suc, Bytes, codes, Option, none, some, Bool, true, false, not, List, [], ◌∷◌, ◌++◌,
  if◌then◌else◌, ◌||◌, eqb, is_empty, has_prefix, int32, int32_lt,
}
use wellcake.Api.{ValkeyCluster, AuthSpec, map_get}
use wellcake.Api.Defaults.{auth_enabled}
use wellcake.Sizing.{total_replicas}
use wellcake.Naming.{sentinel_stateful_set_name}
use wellcake.Rollout.{instance_label, pod_is_ready}
use wellcake.Rotation.{apply_password_to_pods}
use wellcake.Runtime.{
  succeeds, Env, M, pure, ◌>>=◌, object, ask, Answer, Kind, Pod, get, create, list_pods,
  update_secret, update_status, generate_password,
}

-- What reconcilePasswordRotation returns.
pub data RotationResult : Type 0 where
  rotated unchanged rotation_failed : RotationResult

unfoldable pub password_secret_name : ValkeyCluster → Bytes
password_secret_name vc = vc.name ++ codes "-auth"

unfoldable pub existing_secret_of : Option AuthSpec → Bytes
existing_secret_of none = []
existing_secret_of (some a) = a.existing_secret

-- The count of allDataPodsReady: no Sentinel pod, and none that is going away.
unfoldable pub count_ready : Bytes → List Pod → ℕ
count_ready sentinel [] = 0
count_ready sentinel (p ∷ pods) =
    let rest = count_ready sentinel pods in
    if has_prefix p.name (sentinel ++ (b'-' ∷ [])) || p.deleting
    then rest
    else if pod_is_ready p
    then suc rest
    else rest

unfoldable pub has_all_ready : ValkeyCluster → Option (List Pod) → Option Bool
has_all_ready vc none = none
has_all_ready vc (some pods) =
    some (
      not (int32_lt (int32 (count_ready (sentinel_stateful_set_name vc) pods)) (total_replicas vc)))

unfoldable pub found_password : Answer Bytes → Option Bytes
found_password (Answer.found pw) = some pw
found_password Answer.not_found = none
found_password Answer.failed = none

unfoldable pub update_answer : Bool → Answer (Unit {0}) → Option Bool
update_answer conflict (Answer.found x) = some true
update_answer conflict Answer.not_found = some false
update_answer conflict Answer.failed = if conflict then none else some false

module _ (env : Env) where
  -- allDataPodsReady; none is an error.
  unfoldable pub all_data_pods_ready : M (Option Bool)
  all_data_pods_ready = do
    vc ← object
    pods ← ask (list_pods ((instance_label, vc.name) ∷ [])) env.pods
    pure (has_all_ready vc pods)

  unfoldable pub create_password : Bytes → Option Bytes → M (Option Bytes)
  create_password name none = pure none
  create_password name (some pw) = do
    answer ← ask (create Kind.secret name) (λ h. env.accepts h (create Kind.secret name))
    pure (if succeeds answer then some pw else none)

  unfoldable pub managed_secret : Bytes → Answer Bytes → M (Option Bytes)
  managed_secret name (Answer.found pw) = pure (some pw)
  managed_secret name Answer.failed = pure none
  managed_secret name Answer.not_found = do
    pw ← ask generate_password env.password
    create_password name pw

  -- ensurePasswordSecret.
  unfoldable pub ensure_password_secret : M (Option Bytes)
  ensure_password_secret = do
    vc ← object
    let existing = existing_secret_of vc.spec.auth
    let name = password_secret_name vc
    if not (auth_enabled vc.spec)
        then pure (some [])
        else if not (is_empty existing)
        then (do
          answer ← ask (get Kind.secret existing) (λ h. env.secret h existing)
          pure (found_password answer))
        else do
          answer ← ask (get Kind.secret name) (λ h. env.secret h name)
          managed_secret name answer

  unfoldable pub rewrite_secret : Bytes → Bytes → Option Bytes → M Bool
  rewrite_secret name new none = pure false
  rewrite_secret name new (some old) = do
    answer ← ask (update_secret name new) (λ h. env.accepts h (update_secret name new))
    pure (succeeds answer)

  -- updatePasswordSecret.
  unfoldable pub update_password_secret : Bytes → M Bool
  update_password_secret new = do
    vc ← object
    let name = password_secret_name vc
    answer ← ask (get Kind.secret name) (λ h. env.secret h name)
    rewrite_secret name new (found_password answer)

  -- One attempt: whether it succeeds, or none after a conflict.
  unfoldable pub write_token : Bytes → Answer ValkeyCluster → M (Option Bool)
  write_token token Answer.not_found = pure (some false)
  write_token token Answer.failed = pure (some false)
  write_token token (Answer.found latest) =
      let s = record latest.status { last_password_rotation_token = token } in
      ask (update_status s) (λ h. update_answer (env.conflicts h) (env.accepts h (update_status s)))

  -- retry.RetryOnConflict: at most `steps` attempts, and another one only after a conflict.
  unfoldable pub record_token : ℕ → Bytes → M Bool
  record_token zero token = pure false
  record_token (suc steps) token = do
    vc ← object
    latest ← ask (get Kind.valkey_cluster vc.name) env.cluster
    written ← write_token token latest
    elim written [ some b ↦ pure b | none ↦ record_token steps token ]

  unfoldable pub finish_rotation : Bytes → Bytes → Bytes → M RotationResult
  finish_rotation token old new = do
    applied ← apply_password_to_pods env old new
    if not applied then pure RotationResult.rotation_failed else do
      updated ← update_password_secret new
      if not updated then pure RotationResult.rotation_failed else do
        recorded ← record_token 5 token
        pure (if recorded then RotationResult.rotated else RotationResult.rotation_failed)

  unfoldable pub with_new : Bytes → Bytes → Option Bytes → M RotationResult
  with_new token old none = pure RotationResult.rotation_failed
  with_new token old (some new) = finish_rotation token old new

  unfoldable pub with_old : Bytes → Option Bytes → M RotationResult
  with_old token none = pure RotationResult.rotation_failed
  with_old token (some old) =
      if is_empty old
      then pure RotationResult.unchanged
      else do new ← ask generate_password env.password; with_new token old new

  unfoldable pub with_ready : Bytes → Option Bool → M RotationResult
  with_ready token none = pure RotationResult.rotation_failed
  with_ready token (some false) = pure RotationResult.unchanged
  with_ready token (some true) = do old ← ensure_password_secret; with_old token old

  unfoldable pub with_fresh : Bytes → Answer ValkeyCluster → M RotationResult
  with_fresh token Answer.not_found = pure RotationResult.rotation_failed
  with_fresh token Answer.failed = pure RotationResult.rotation_failed
  with_fresh token (Answer.found latest) =
      if eqb token latest.status.last_password_rotation_token
      then pure RotationResult.unchanged
      else do ready ← all_data_pods_ready; with_ready token ready

  -- reconcilePasswordRotation.
  unfoldable pub reconcile_password_rotation : M RotationResult
  reconcile_password_rotation = do
    vc ← object
    let token = map_get vc.annotations (codes "valkey.wellcake.io/rotate-password")
    if not (auth_enabled vc.spec)
        then pure RotationResult.unchanged
        else if not (is_empty (existing_secret_of vc.spec.auth))
        then pure RotationResult.unchanged
        else if is_empty token || eqb token vc.status.last_password_rotation_token
        then pure RotationResult.unchanged
        else do latest ← ask (get Kind.valkey_cluster vc.name) env.cluster; with_fresh token latest
