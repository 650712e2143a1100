-- ===== src/Api/Defaults.antt =====
-- api/v1beta1/defaults.go: the defaults of unset fields, and the accessors of optional fields.
pub mod Filled
use wellcake.Common.{
  ℕ, Bytes, codes, Option, none, some, Bool, true, false, if◌then◌else◌, is_empty, ◌==◌, [], ◌≡◌,
  ◌≢◌, ◌⊎◌, refl, inl, inr, Bool-cases, arith,
}
use wellcake.Api.{Topology, Profile, Spec, StorageSpec, BackupSpec, ValkeyCluster, is_standalone}

abbrev pub default_image : Bytes
default_image = codes "valkey/valkey:8.0"

abbrev pub default_pvc_size : Bytes
default_pvc_size = codes "10Gi"

abbrev pub pull_if_not_present : Bytes
pull_if_not_present = codes "IfNotPresent"

pub default_topology : Topology → Topology
default_topology Topology.unset = Topology.replication
default_topology t = t

pub default_profile : Profile → Profile
default_profile Profile.unset = Profile.cache
default_profile p = p

pub default_text : Bytes → Bytes → Bytes
default_text s d = if is_empty s then d else s

pub default_replicas : Topology → ℕ → ℕ
default_replicas t n = if n == 0 then (if is_standalone t then 1 else 3) else n

pub default_storage : Profile → Option StorageSpec → Option StorageSpec
default_storage Profile.durable none =
    some (record { size = default_pvc_size; mode = codes "both"; medium = [] })
default_storage p s = s

-- ValkeyCluster.Default.
unfoldable pub default : ValkeyCluster → ValkeyCluster
unfolding default_topology default_profile default_text default_replicas default_storage
default vc =
    let s = vc.spec in
    let t : Topology = default_topology s.topology in
    let p : Profile = default_profile s.profile in
    record vc {
      spec = record s {
        topology = t;
        profile = p;
        image = default_text s.image default_image;
        image_pull_policy = default_text s.image_pull_policy pull_if_not_present;
        replicas = default_replicas t s.replicas;
        storage = default_storage p s.storage;
      };
    }

-- ptr.Deref.
abbrev pub deref {ℓ} : {A : Type ℓ} → Option A → A → A
deref none d = d
deref (some a) d = a

-- Whether a pointer is nil.
unfoldable pub is_absent {ℓ} : {A : Type ℓ} → Option A → Bool
is_absent none = true
is_absent (some a) = false

-- ValkeyClusterSpec.AuthEnabled.
unfoldable pub auth_enabled : Spec → Bool
auth_enabled s = elim s.auth [ none ↦ false | some a ↦ deref a.enabled true ]

-- ValkeyClusterSpec.AutoReshardEnabled.
unfoldable pub auto_reshard_enabled : Spec → Bool
auto_reshard_enabled s = deref s.auto_reshard true

-- BackupSpec.RetentionCount.
unfoldable pub retention_count : BackupSpec → ℕ
retention_count b = deref b.retention 7
