-- ===== src/Webhook.antt =====
-- internal/webhook/v1beta1: the admission of a ValkeyCluster and of a ValkeyACL. A verdict holds the
-- reason of a rejection in place of its text.
pub mod Cluster
pub mod Users
use wellcake.Common.{
  Bytes, codes, Option, none, some, Bool, true, false, not, List, [], ◌∷◌, ◌++◌, if◌then◌else◌,
  ◌&&◌, ◌||◌, eqb, is_empty, contains,
}
use wellcake.Api.{
  ValkeyCluster, Topology, Profile, Spec, AuthSpec, TlsSpec, BackupSpec, S3Spec, RestoreSpec,
  ReplicateFromSpec, SecretKeyReference, SourceCaSecretRef, map_get, is_cluster, is_sentinel,
  is_durable,
}
use wellcake.Api.Acl.{AclUser, ValkeyAcl}
use wellcake.Api.Defaults.{auth_enabled, is_absent}
use wellcake.Acl.{has_name}
use wellcake.Rotation.Run.{existing_secret_of}
use wellcake.Runtime.{Env, M, Answer, Kind, get, pure, ◌>>=◌, ask}

pub data Rejection : Type 0 where
  secret_not_found secret_unreadable : Bytes → Rejection
  shards_required sentinel_required placeholder_required risk_unacknowledged : Rejection
  cluster_unreadable : Rejection
  duplicate_user reserved_user : Bytes → Rejection

pub data Warning : Type 0 where
  manual_restore durability_risk cluster_not_found : Warning

-- admission.Warnings and the error.
pub record Verdict : Type 0 where
  pub warnings : List Warning
  pub error : Option Rejection

abbrev pub verdict : List Warning → Option Rejection → Verdict
verdict warnings error = record { warnings = warnings; error = error }

-- referencedSecrets: the names that are keys of the map.
unfoldable pub name_unless_empty : Bytes → List Bytes
name_unless_empty name = if is_empty name then [] else name ∷ []

unfoldable pub tls_secrets : Option TlsSpec → List Bytes
tls_secrets none = []
tls_secrets (some t) = if t.enabled then name_unless_empty t.existing_secret else []

unfoldable pub s3_secrets : Option S3Spec → List Bytes
s3_secrets none = []
s3_secrets (some s) = name_unless_empty s.credentials_secret

unfoldable pub backup_secrets : Option BackupSpec → List Bytes
backup_secrets none = []
backup_secrets (some b) = if b.enabled then s3_secrets b.s3 else []

unfoldable pub restore_secrets : Option RestoreSpec → List Bytes
restore_secrets none = []
restore_secrets (some r) = s3_secrets r.s3

unfoldable pub key_secrets : Option SecretKeyReference → List Bytes
key_secrets none = []
key_secrets (some ref) = ref.name ∷ []

unfoldable pub ca_secrets : Option SourceCaSecretRef → List Bytes
ca_secrets none = []
ca_secrets (some ref) = ref.name ∷ []

unfoldable pub source_secrets : Option ReplicateFromSpec → List Bytes
source_secrets none = []
source_secrets (some r) = key_secrets r.password_secret ++ ca_secrets r.ca_secret

unfoldable pub referenced_secrets : Spec → List Bytes
referenced_secrets s =
    (if auth_enabled s then name_unless_empty (existing_secret_of s.auth) else [])
    ++ (tls_secrets s.tls
        ++ (backup_secrets s.backup
            ++ (restore_secrets s.restore_from ++ source_secrets s.replicate_from)))

-- The switch on the topology.
unfoldable pub shape_error : Spec → Option Rejection
shape_error s =
    if is_cluster s.topology && is_absent s.shards
    then some Rejection.shards_required
    else if is_sentinel s.topology && is_absent s.sentinel
    then some Rejection.sentinel_required
    else none

-- The restore of a Cluster.
unfoldable pub has_placeholder : Option RestoreSpec → Bool
has_placeholder none = true
has_placeholder (some r) = contains r.source_key (codes "{shard}")

unfoldable pub restores_cluster : Spec → Bool
restores_cluster s = is_cluster s.topology && not (is_absent s.restore_from)

unfoldable pub restore_warnings : Spec → List Warning
restore_warnings s = if restores_cluster s then Warning.manual_restore ∷ [] else []

-- The Durable profile on an operator-arbitrated topology.
unfoldable pub is_operator_arbitrated : Topology → Bool
is_operator_arbitrated Topology.unset = true
is_operator_arbitrated Topology.replication = true
is_operator_arbitrated Topology.standalone = false
is_operator_arbitrated Topology.sentinel = false
is_operator_arbitrated Topology.cluster = false

unfoldable pub is_risky : Spec → Bool
is_risky s = is_durable s.profile && is_operator_arbitrated s.topology

unfoldable pub is_acknowledged : ValkeyCluster → Bool
is_acknowledged vc =
    eqb (map_get vc.annotations (codes "valkey.wellcake.io/accept-replication-durability-risk"))
      (codes "true")

unfoldable pub check_risk : ValkeyCluster → Bool → List Warning → Verdict
check_risk vc is_create warnings =
    if not (is_risky vc.spec)
    then verdict warnings none
    else if is_create && not (is_acknowledged vc)
    then verdict warnings (some Rejection.risk_unacknowledged)
    else verdict (warnings ++ Warning.durability_risk ∷ []) none

unfoldable pub check_restore : ValkeyCluster → Bool → Verdict
check_restore vc is_create =
    if restores_cluster vc.spec && not (has_placeholder vc.spec.restore_from)
    then verdict [] (some Rejection.placeholder_required)
    else check_risk vc is_create (restore_warnings vc.spec)

unfoldable pub check_shape : ValkeyCluster → Bool → Option Rejection → Verdict
check_shape vc is_create (some e) = verdict [] (some e)
check_shape vc is_create none = check_restore vc is_create

unfoldable pub secret_error : Bytes → Answer Bytes → Option Rejection
secret_error name (Answer.found x) = none
secret_error name Answer.not_found = some (Rejection.secret_not_found name)
secret_error name Answer.failed = some (Rejection.secret_unreadable name)

unfoldable pub check_after : ValkeyCluster → Bool → Option Rejection → Verdict
check_after vc is_create (some e) = verdict [] (some e)
check_after vc is_create none = check_shape vc is_create (shape_error vc.spec)

-- The names of the users, and the Secrets that they refer to.
unfoldable pub is_reserved_name : Bytes → Bool
is_reserved_name name =
    eqb name (codes "default")
    || (eqb name (codes "sentinel-user") || eqb name (codes "replicator"))

unfoldable pub name_error : List AclUser → List Bytes → Option Rejection
name_error [] seen = none
name_error (u ∷ users) seen =
    let rest = name_error users (u.name ∷ seen) in
    if has_name u.name seen
    then some (Rejection.duplicate_user u.name)
    else if is_reserved_name u.name
    then some (Rejection.reserved_user u.name)
    else rest

unfoldable pub user_secrets : List AclUser → List Bytes
user_secrets [] = []
user_secrets (u ∷ users) = key_secrets u.password_secret ++ user_secrets users

unfoldable pub or_check : Option Rejection → M (Option Rejection) → M (Option Rejection)
or_check (some e) rest = pure (some e)
or_check none rest = rest

module _ (env : Env) where
  -- The loop over the referenced Secrets, in the order in which the map gives its keys.
  unfoldable pub check_secrets : List Bytes → M (Option Rejection)
  check_secrets [] = pure none
  check_secrets (name ∷ names) = do
    answer ← ask (get Kind.secret name) (λ h. env.secret h name)
    or_check (secret_error name answer) (check_secrets names)

  -- ValkeyClusterCustomValidator.validate; `visited` is referencedSecrets in any order.
  unfoldable pub validate : ValkeyCluster → List Bytes → Bool → M Verdict
  validate vc visited is_create = do
    missing ← check_secrets visited
    pure (check_after vc is_create missing)

  -- ValkeyACLCustomValidator.validate.
  unfoldable pub check_users : ValkeyAcl → List Warning → Option Rejection → M Verdict
  check_users acl warnings (some e) = pure (verdict [] (some e))
  check_users acl warnings none = do
    missing ← check_secrets (user_secrets acl.spec.users)
    pure (verdict warnings missing)

  unfoldable pub validate_acl_with : ValkeyAcl → Answer ValkeyCluster → M Verdict
  validate_acl_with acl Answer.failed = pure (verdict [] (some Rejection.cluster_unreadable))
  validate_acl_with acl Answer.not_found =
      check_users acl (Warning.cluster_not_found ∷ []) (name_error acl.spec.users [])
  validate_acl_with acl (Answer.found vc) = check_users acl [] (name_error acl.spec.users [])

  unfoldable pub validate_acl : ValkeyAcl → M Verdict
  validate_acl acl = do
    vc ← ask (get Kind.valkey_cluster acl.spec.cluster_ref) env.cluster
    validate_acl_with acl vc
