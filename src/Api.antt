-- ===== src/Api.antt =====
-- The ValkeyCluster resource: api/v1beta1/valkeycluster_types.go and defaults.go. A Go pointer to
-- an optional field is an Option; an enumeration that is stored as a string is a data type with
-- `unset` for the empty string. Fields that no modelled code reads are left out.
pub mod Defaults
pub mod Acl
use wellcake.Common.{ℕ, Bytes, Option, Bool, true, false, List, [], ◌∷◌, eqb, if◌then◌else◌, ℤ}

pub data Topology : Type 0 where
  unset standalone replication sentinel cluster : Topology

pub data Profile : Type 0 where
  unset cache durable : Profile

pub data Phase : Type 0 where
  unset pending creating ready updating failed hibernated : Phase

pub data Health : Type 0 where
  ready degraded down unknown : Health

pub record SecretKeyReference : Type 0 where
  pub name : Bytes
  pub key : Bytes

pub record SourceCaSecretRef : Type 0 where
  pub name : Bytes

pub record S3Spec : Type 0 where
  pub bucket : Bytes
  pub credentials_secret : Bytes

pub record ReplicateFromSpec : Type 0 where
  pub host : Bytes
  pub port : ℕ
  pub password_secret : Option SecretKeyReference
  pub tls : Bool
  pub ca_secret : Option SourceCaSecretRef

pub record RestoreSpec : Type 0 where
  pub s3 : Option S3Spec
  pub source_key : Bytes

pub record BackupSpec : Type 0 where
  pub enabled : Bool
  pub schedule : Bytes
  pub s3 : Option S3Spec
  pub retention : Option ℕ

pub record StorageSpec : Type 0 where
  pub size : Bytes
  pub mode : Bytes
  pub medium : Bytes

pub record AuthSpec : Type 0 where
  pub enabled : Option Bool
  pub existing_secret : Bytes

pub record TlsSpec : Type 0 where
  pub enabled : Bool
  pub existing_secret : Bytes
  pub mutual_tls : Bool

pub record SentinelSpec : Type 0 where
  pub replicas : ℕ
  pub quorum : ℕ
  pub down_after_milliseconds : ℕ
  pub failover_timeout : ℕ

pub record MetricsSpec : Type 0 where
  pub enabled : Bool
  pub service_monitor : Bool

pub record PdbSpec : Type 0 where
  pub enabled : Option Bool

pub record NetworkPolicySpec : Type 0 where
  pub enabled : Bool

-- ValkeyClusterSpec. An int32 is its bit pattern.
pub record Spec : Type 0 where
  pub topology : Topology
  pub profile : Profile
  pub image : Bytes
  pub image_pull_policy : Bytes
  pub replicas : ℕ
  pub shards : Option ℕ
  pub replicas_per_shard : Option ℕ
  pub per_shard_workload : Option Bool
  pub auto_reshard : Option Bool
  pub sentinel : Option SentinelSpec
  pub storage : Option StorageSpec
  pub auth : Option AuthSpec
  pub tls : Option TlsSpec
  pub backup : Option BackupSpec
  pub restore_from : Option RestoreSpec
  pub replicate_from : Option ReplicateFromSpec
  pub metrics : Option MetricsSpec
  pub pod_disruption_budget : Option PdbSpec
  pub network_policy : Option NetworkPolicySpec

pub record ReplicaOffset : Type 0 where
  pub pod : Bytes
  pub offset : ℤ

pub record ShardStatus : Type 0 where
  pub index : ℕ
  pub primary : Bytes
  pub primary_node_id : Bytes
  pub replicas : List Bytes
  pub slot_ranges : List Bytes
  pub slot_count : ℕ
  pub health : Health
  pub primary_offset : ℤ
  pub replica_offsets : List ReplicaOffset
  pub max_lag_bytes : ℤ

-- ValkeyClusterStatus. A time is a number of nanoseconds.
pub record Status : Type 0 where
  pub phase : Phase
  pub ready_replicas : ℕ
  pub primary : Bytes
  pub internal_endpoint : Bytes
  pub primary_down_since : Option ℕ
  pub quorum_down_since : Option ℕ
  pub shards : ℕ
  pub ready_shards : ℕ
  pub cluster_initialized : Bool
  pub last_applied_replicas : ℕ
  pub shard_details : List ShardStatus
  pub observed_generation : ℕ
  pub last_reshard_token : Bytes
  pub last_failover_token : Bytes
  pub last_password_rotation_token : Bytes
  pub last_tls_cert_fingerprint : Bytes

pub record ValkeyCluster : Type 0 where
  pub name : Bytes
  pub namespace : Bytes
  pub annotations : List (Bytes × Bytes)
  pub generation : ℕ
  pub finalizers : List Bytes
  pub deleting : Bool  -- metadata.deletionTimestamp is set
  pub spec : Spec
  pub status : Status

-- m[key] on a map of strings: the empty string where the key is missing.
unfoldable pub map_get : List (Bytes × Bytes) → Bytes → Bytes
map_get [] key = []
map_get ((k, v) ∷ m) key = if eqb k key then v else map_get m key

-- v, ok := m[key].
unfoldable pub map_find : List (Bytes × Bytes) → Bytes → Option Bytes
map_find [] key = Option.none
map_find ((k, v) ∷ m) key = if eqb k key then Option.some v else map_find m key

-- The comparisons with an enumeration's constants.
unfoldable pub is_cluster : Topology → Bool
is_cluster Topology.cluster = true
is_cluster Topology.unset = false
is_cluster Topology.standalone = false
is_cluster Topology.replication = false
is_cluster Topology.sentinel = false

unfoldable pub is_sentinel : Topology → Bool
is_sentinel Topology.sentinel = true
is_sentinel Topology.unset = false
is_sentinel Topology.standalone = false
is_sentinel Topology.replication = false
is_sentinel Topology.cluster = false

unfoldable pub is_standalone : Topology → Bool
is_standalone Topology.standalone = true
is_standalone Topology.unset = false
is_standalone Topology.sentinel = false
is_standalone Topology.replication = false
is_standalone Topology.cluster = false

unfoldable pub is_replication : Topology → Bool
is_replication Topology.replication = true
is_replication Topology.unset = false
is_replication Topology.standalone = false
is_replication Topology.sentinel = false
is_replication Topology.cluster = false

unfoldable pub is_durable : Profile → Bool
is_durable Profile.durable = true
is_durable Profile.unset = false
is_durable Profile.cache = false
