-- ===== src/Tests/Acl.antt =====
-- A ValkeyACL with two users, and the admission of the two objects.
use wellcake.Common.{
  ◌≡◌, ◌≢◌, refl, ◌⊎◌, List, [], ◌∷◌, ◌++◌, codes, Bytes, true, false, some, none, In, here, eqb,
  is_empty, fields, exists, ◌<◌,
}
use wellcake.Api.{ValkeyCluster, is_cluster}
use wellcake.Api.Defaults.{auth_enabled}
use wellcake.Api.Acl.{AclUser, ValkeyAcl}
use wellcake.Naming.{cluster_data_pods, shard_pods, shard_pod}
use wellcake.Sizing.{
  per_shard_enabled, range_int32, count_from, total_replicas, shard_count_of, replicas_per_shard_of,
}
use wellcake.Acl.{
  acl_target, acl_targets, apply_acl_fanout, resolve_user_passwords, reconcile_acl, is_dropped,
  has_name, is_reserved_acl_user,
}
use wellcake.Acl.Fanout.{Writes, apply_acl_fanout-Writes}
use wellcake.Acl.Reach.{IsMissed, IsServed, apply_acl_fanout_serves}
use wellcake.Acl.Targets.{acl_targets-miss}
use wellcake.Acl.Passwords.{apply_acl_fanout-nopass}
use wellcake.Acl.Run.{Ends, reconcile_acl-Ends}
use wellcake.Webhook.{
  Rejection, validate, validate_acl, validate_acl_with, check_users, check_secrets, or_check,
  secret_error, name_error, is_reserved_name, user_secrets, key_secrets, referenced_secrets,
  name_unless_empty, tls_secrets, backup_secrets, restore_secrets, source_secrets,
}
use wellcake.Webhook.Cluster.{IsAnswered, HasSecret, IsShapeVerdict, validate-IsVerdict}
use wellcake.Webhook.Users.{SparesReserved, IsDistinct, validate_acl-SparesReserved}
use wellcake.Runtime.{Env, Answer, Command, send, pure, ask, ◌>>=◌}
use wellcake.Runtime.Emits.{Extends}
use wellcake.Tests.Samples.{calm, fresh, demo, demo_cluster, sample_spec}

abbrev users : List AclUser
users =
    record {
      name = codes "app";
      password_secret = some (record { name = codes "app-secret"; key = [] });
      rules = codes "on ~* +@read";
    }
    ∷ record { name = codes "probe"; password_secret = none; rules = codes "on +ping" }
    ∷ []

abbrev grants : ValkeyAcl
grants = record {
  name = codes "grants";
  namespace = codes "default";
  generation = 2;
  spec = record { cluster_ref = codes "demo"; users = users };
  status = record {
    applied_users = codes "app" ∷ codes "old" ∷ codes "default" ∷ [];
    observed_generation = 1;
    available = true;
    reason = codes "Applied";
  };
}

abbrev names : List Bytes
names = codes "app" ∷ codes "probe" ∷ []

old_goes : is_dropped names (codes "old") ≡ true
unfolding is_dropped has_name exists eqb is_reserved_acl_user
old_goes = refl

default_stays : is_dropped names (codes "default") ≡ false
unfolding is_dropped has_name exists eqb is_reserved_acl_user
default_stays = refl

abbrev targets : List Bytes
targets = codes "demo-0.demo-headless.default.svc.cluster.local" ∷ []

apply_acl_fanout-Writes_example :
    Extends
      (Writes grants names [] targets)
      fresh.effects
      (apply_acl_fanout calm grants 6379 (codes "pw") names [] targets fresh).1.effects
apply_acl_fanout-Writes_example =
    apply_acl_fanout-Writes calm grants 6379 (codes "pw") names [] targets fresh

apply_acl_fanout_serves_example :
    let r = apply_acl_fanout calm grants 6379 (codes "pw") names [] targets fresh in
    (((r.0 ≡ 0)
        × ((host : Bytes) → In host targets → IsMissed calm 6379 (codes "pw") r.1.effects host))
      ⊎ ((0 < r.0)
          × ((host : Bytes) × In host targets × IsServed grants names [] r.1.effects host)))
    × ((host : Bytes)
        → In host targets
        → IsMissed calm 6379 (codes "pw") r.1.effects host
          ⊎ IsServed grants names [] r.1.effects host)
apply_acl_fanout_serves_example =
    apply_acl_fanout_serves calm grants 6379 (codes "pw") names [] targets fresh

abbrev no_secrets : Env
no_secrets = record calm { secret_data = λ h name key. Answer.not_found }

apply_acl_fanout-nopass_example :
    let read = resolve_user_passwords no_secrets users [] fresh in
    let r = apply_acl_fanout no_secrets grants 6379 (codes "pw") names read.0 targets read.1 in
    IsMissed no_secrets 6379
      (codes "pw")
      r.1.effects
      (codes "demo-0.demo-headless.default.svc.cluster.local")
    ⊎ ((u : AclUser)
        → In u users
        → In
            (send (codes "demo-0.demo-headless.default.svc.cluster.local") (
              Command.acl_set_user u.name
                (codes "reset" ∷ (fields u.rules ++ codes "nopass" ∷ []))))
            r.1.effects)
apply_acl_fanout-nopass_example =
    apply_acl_fanout-nopass no_secrets grants 6379 (codes "pw") names targets fresh
      (λ h name key. refl) (codes "demo-0.demo-headless.default.svc.cluster.local") (here refl)

abbrev granting : Env
granting = record calm { acl = λ h. Answer.found grants; cluster = λ h. Answer.found demo }

reconcile_acl-Ends_example :
    Ends granting grants
      (Answer.found demo)
      fresh.effects
      (reconcile_acl granting (codes "grants") fresh)
reconcile_acl-Ends_example = reconcile_acl-Ends granting (codes "grants") grants fresh refl

abbrev sharded : ValkeyCluster
sharded = record demo_cluster { spec = record demo_cluster.spec { per_shard_workload = some true } }

sharded_layout : per_shard_enabled sharded ≡ true
unfolding per_shard_enabled is_cluster
sharded_layout = refl

first_target : In (acl_target sharded 0) (acl_targets sharded)
unfolding acl_targets total_replicas is_cluster range_int32 count_from
first_target = here refl

first_pod : In (shard_pod sharded 0 0) (cluster_data_pods sharded)
unfolding cluster_data_pods per_shard_enabled is_cluster shard_pods range_int32 count_from
    shard_count_of replicas_per_shard_of
first_pod = here refl

acl_targets-miss_example : acl_target sharded 0 ≢ (shard_pod sharded 0 0).host
acl_targets-miss_example =
    acl_targets-miss sharded sharded_layout (acl_target sharded 0) first_target
      (shard_pod sharded 0 0) first_pod

abbrev with_tls : ValkeyCluster
with_tls = record demo {
  spec = record sample_spec {
    tls = some (record { enabled = true; existing_secret = codes "tls"; mutual_tls = false });
  };
}

tls_only : referenced_secrets with_tls.spec ≡ codes "tls" ∷ []
unfolding referenced_secrets tls_secrets name_unless_empty is_empty backup_secrets restore_secrets
    source_secrets auth_enabled
tls_only = refl

validate-IsVerdict_example :
    let v = (validate calm with_tls (referenced_secrets with_tls.spec) true fresh).0 in
    ((n : Bytes) × (a : Answer Bytes) × (e : Rejection) × (v.error ≡ some e)
      × In n (referenced_secrets with_tls.spec)
      × IsAnswered calm fresh n a
      × (secret_error n a ≡ some e))
    ⊎ (((n : Bytes) → In n (referenced_secrets with_tls.spec) → HasSecret calm fresh n)
        × IsShapeVerdict with_tls true v)
validate-IsVerdict_example =
    validate-IsVerdict calm with_tls (referenced_secrets with_tls.spec) true fresh (λ n i. i)
      (λ n i. i)

admitted : (validate_acl calm grants fresh).0.error ≡ none
unfolding validate_acl validate_acl_with check_users check_secrets or_check secret_error name_error
    is_reserved_name user_secrets key_secrets has_name exists eqb ◌>>=◌ pure ask
admitted = refl

validate_acl-SparesReserved_example :
    IsDistinct users
    × Extends SparesReserved fresh.effects
        (apply_acl_fanout calm grants 6379 (codes "pw") names [] targets fresh).1.effects
validate_acl-SparesReserved_example =
    validate_acl-SparesReserved calm grants fresh admitted 6379 (codes "pw") names [] targets fresh
