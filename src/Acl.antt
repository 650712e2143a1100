-- ===== src/Acl.antt =====
-- internal/controller/valkeyacl_controller.go: the users of a ValkeyACL, written to the pods of the
-- cluster that it names. The object in memory is the ValkeyACL, which is an argument here.
pub mod Fanout
pub mod Reach
pub mod Targets
pub mod Run
pub mod Passwords
use wellcake.Common.{
  ℕ, zero, suc, Bytes, codes, Option, none, some, Bool, true, false, not, List, [], ◌∷◌, ◌++◌, map,
  if◌then◌else◌, ◌||◌, ◌==◌, eqb, is_empty, exists, fields, pos, sort_by, ltb_bytes,
}
use wellcake.Api.{ValkeyCluster, SecretKeyReference, AuthSpec, map_get, is_cluster}
use wellcake.Api.Acl.{AclUser, AclStatus, ValkeyAcl}
use wellcake.Api.Defaults.{auth_enabled}
use wellcake.Sizing.{range_int32, total_replicas}
use wellcake.Naming.{ordinal_name, fqdn, stateful_set_name, headless_service_name}
use wellcake.Info.{data_port}
use wellcake.Rotation.{sentinel_acl_user, replication_acl_user}
use wellcake.Rotation.Run.{password_secret_name, existing_secret_of, found_password}
use wellcake.Runtime.{
  succeeds, ReconcileResult, reconcile_result, Env, M, Answer, Kind, Command, get, patch_acl_status,
  pure, ◌>>=◌, ◌>>◌, ask, dial_repl_client, command,
}

-- isReservedACLUser (resources.go).
unfoldable pub is_reserved_acl_user : Bytes → Bool
is_reserved_acl_user name =
    eqb name (codes "default") || (eqb name sentinel_acl_user.0 || eqb name replication_acl_user.0)

-- aclTargets.
unfoldable pub acl_target : ValkeyCluster → ℕ → Bytes
acl_target vc i =
    fqdn (ordinal_name (stateful_set_name vc) (pos i)) (headless_service_name vc) vc.namespace

unfoldable pub acl_targets : ValkeyCluster → List Bytes
acl_targets vc =
    if is_cluster vc.spec.topology
    then map (acl_target vc) (range_int32 (total_replicas vc))
    else if is_empty vc.status.primary
    then []
    else fqdn vc.status.primary (headless_service_name vc) vc.namespace ∷ []

-- The arguments of ACL SETUSER after the name in applyACLUser.
unfoldable pub acl_user_arguments : AclUser → Bytes → List Bytes
acl_user_arguments u password =
    codes "reset"
    ∷ (fields u.rules ++ (if is_empty password then codes "nopass" else (b'>' ∷ password)) ∷ [])

-- Membership in the set desiredNames, and its names once each.
unfoldable pub has_name : Bytes → List Bytes → Bool
has_name name names = exists (eqb name) names

unfoldable pub user_names : List AclUser → List Bytes
user_names [] = []
user_names (u ∷ users) =
    let rest = user_names users in if has_name u.name rest then rest else u.name ∷ rest

unfoldable pub is_dropped : List Bytes → Bytes → Bool
is_dropped names prev = not (has_name prev names || is_reserved_acl_user prev)

-- len(targets) == 0.
unfoldable pub is_nil : List Bytes → Bool
is_nil [] = true
is_nil (x ∷ xs) = false

-- The wait of the reconcile, before the pods may be written to.
unfoldable pub is_not_ready : ValkeyCluster → Bool
is_not_ready vc =
    if is_cluster vc.spec.topology
    then not vc.status.cluster_initialized || vc.status.ready_replicas == 0
    else is_empty vc.status.primary || vc.status.ready_replicas == 0

unfoldable pub key_or_password : Bytes → Bytes
key_or_password key = if is_empty key then codes "password" else key

unfoldable pub secret_of : ValkeyCluster → Bytes
secret_of vc =
    let existing = existing_secret_of vc.spec.auth in
    if is_empty existing then password_secret_name vc else existing

unfoldable pub with_password : Bytes → Answer Bytes → List (Bytes × Bytes) → List (Bytes × Bytes)
with_password name (Answer.found password) m = (name, password) ∷ m
with_password name Answer.not_found m = m
with_password name Answer.failed m = m

module _ (env : Env) where
  -- resolveUserPasswords: the map of the passwords, where the last entry of a name comes first.
  unfoldable pub read_password :
      Bytes → Option SecretKeyReference → List (Bytes × Bytes) → M (List (Bytes × Bytes))
  read_password name none m = pure m
  read_password name (some ref) m = do
    answer ←
        ask (get Kind.secret ref.name) (λ h. env.secret_data h ref.name (key_or_password ref.key))
    pure (with_password name answer m)

  unfoldable pub resolve_user_passwords :
      List AclUser → List (Bytes × Bytes) → M (List (Bytes × Bytes))
  resolve_user_passwords [] m = pure m
  resolve_user_passwords (u ∷ users) m = do
    m' ← read_password u.name u.password_secret m
    resolve_user_passwords users m'

  -- applyACLUser for each user of the spec.
  unfoldable pub set_acl_users : Bytes → List (Bytes × Bytes) → List AclUser → M (Unit {0})
  set_acl_users host passwords [] = pure tt
  set_acl_users host passwords (u ∷ users) = do
    command env host (Command.acl_set_user u.name (acl_user_arguments u (map_get passwords u.name)))
    set_acl_users host passwords users

  unfoldable pub drop_acl_users : Bytes → List Bytes → List Bytes → M (Unit {0})
  drop_acl_users host names [] = pure tt
  drop_acl_users host names (prev ∷ applied) =
      let rest = drop_acl_users host names applied in
      if not (is_dropped names prev)
      then rest
      else (do command env host (Command.acl_del_user prev); rest)

  unfoldable pub apply_on_target :
      ValkeyAcl → List Bytes → List (Bytes × Bytes) → Bytes → M (Unit {0})
  apply_on_target acl names passwords host = do
    set_acl_users host passwords acl.spec.users
    drop_acl_users host names acl.status.applied_users
    command env host Command.acl_save
    pure tt

  -- applyACLFanout: the number of the targets that were reached.
  unfoldable pub apply_acl_fanout :
      ValkeyAcl → ℕ → Bytes → List Bytes → List (Bytes × Bytes) → List Bytes → M ℕ
  apply_acl_fanout acl port password names passwords [] = pure 0
  apply_acl_fanout acl port password names passwords (host ∷ targets) = do
    connected ← dial_repl_client env host port password
    if not connected then apply_acl_fanout acl port password names passwords targets else do
      apply_on_target acl names passwords host
      reached ← apply_acl_fanout acl port password names passwords targets
      pure (suc reached)

  -- lookupClusterPassword.
  unfoldable pub lookup_cluster_password : ValkeyCluster → M (Option Bytes)
  lookup_cluster_password vc = if not (auth_enabled vc.spec) then pure (some []) else do
    answer ← ask (get Kind.secret (secret_of vc)) (λ h. env.secret h (secret_of vc))
    pure (found_password answer)

  -- markUnavailable, and with the wait of 15 seconds.
  unfoldable pub patch_acl : AclStatus → ℕ → M ReconcileResult
  patch_acl s seconds = do
    answer ← ask (patch_acl_status s) (λ h. env.accepts h (patch_acl_status s))
    pure (if succeeds answer then reconcile_result seconds false else reconcile_result 0 true)

  unfoldable pub mark_unavailable : ValkeyAcl → Bytes → ℕ → M ReconcileResult
  mark_unavailable acl reason seconds =
      patch_acl
        (record acl.status {
          observed_generation = acl.generation;
          available = false;
          reason = reason;
        })
        seconds

  unfoldable pub record_applied : ValkeyAcl → List Bytes → M ReconcileResult
  record_applied acl names =
      patch_acl
        (record acl.status {
          applied_users = sort_by ltb_bytes names;
          observed_generation = acl.generation;
          available = true;
          reason = codes "Applied";
        })
        0

  unfoldable pub apply_with : ValkeyAcl → ValkeyCluster → Option Bytes → M ReconcileResult
  apply_with acl vc none = pure (reconcile_result 0 true)
  apply_with acl vc (some password) =
      if is_nil (acl_targets vc) then mark_unavailable acl (codes "NoTargets") 15 else do
        passwords ← resolve_user_passwords acl.spec.users []
        reached ←
            apply_acl_fanout acl (data_port vc) password (user_names acl.spec.users) passwords
              (acl_targets vc)
        if reached == 0
            then mark_unavailable acl (codes "PrimaryUnreachable") 15
            else record_applied acl (user_names acl.spec.users)

  unfoldable pub apply_to : ValkeyAcl → Answer ValkeyCluster → M ReconcileResult
  apply_to acl Answer.not_found = mark_unavailable acl (codes "ClusterMissing") 0
  apply_to acl Answer.failed = pure (reconcile_result 0 true)
  apply_to acl (Answer.found vc) =
      if is_not_ready vc
      then mark_unavailable acl (codes "ClusterNotReady") 15
      else do password ← lookup_cluster_password vc; apply_with acl vc password

  unfoldable pub reconcile_found : Answer ValkeyAcl → M ReconcileResult
  reconcile_found Answer.not_found = pure (reconcile_result 0 false)
  reconcile_found Answer.failed = pure (reconcile_result 0 true)
  reconcile_found (Answer.found acl) = do
    vc ← ask (get Kind.valkey_cluster acl.spec.cluster_ref) env.cluster
    apply_to acl vc

  -- ValkeyACLReconciler.Reconcile.
  unfoldable pub reconcile_acl : Bytes → M ReconcileResult
  reconcile_acl name = do acl ← ask (get Kind.valkey_acl name) env.acl; reconcile_found acl
