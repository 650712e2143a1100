-- ===== src/Tests/Samples.antt =====
-- A cluster, pods and an environment for the runs.
use wellcake.Common.{ℕ, Bytes, codes, true, false, [], none, some, pos}
use wellcake.Api.{ValkeyCluster, Spec, Status, Topology, Profile, Phase}
use wellcake.Failover.{PodRole}
use wellcake.Runtime.{Env, World, Answer}

abbrev pub sample_spec : Spec
sample_spec = record {
  topology = Topology.replication;
  profile = Profile.cache;
  image = codes "valkey/valkey:8.0";
  image_pull_policy = codes "IfNotPresent";
  replicas = 3;
  shards = none;
  replicas_per_shard = none;
  per_shard_workload = none;
  auto_reshard = none;
  sentinel = none;
  storage = none;
  auth = none;
  tls = none;
  backup = none;
  restore_from = none;
  replicate_from = none;
  metrics = none;
  pod_disruption_budget = none;
  network_policy = none;
}

abbrev pub sample_status : Status
sample_status = record {
  phase = Phase.ready;
  ready_replicas = 3;
  primary = codes "demo-0";
  internal_endpoint = [];
  primary_down_since = none;
  quorum_down_since = none;
  shards = 0;
  ready_shards = 0;
  cluster_initialized = false;
  last_applied_replicas = 0;
  shard_details = [];
  observed_generation = 1;
  last_reshard_token = [];
  last_failover_token = [];
  last_password_rotation_token = [];
  last_tls_cert_fingerprint = [];
}

abbrev pub demo : ValkeyCluster
demo = record {
  name = codes "demo";
  namespace = codes "default";
  annotations = [];
  generation = 1;
  finalizers = [];
  deleting = false;
  spec = sample_spec;
  status = sample_status;
}

-- Six shards of one primary and one replica each, while three are still members.
abbrev pub demo_cluster : ValkeyCluster
demo_cluster = record demo {
  spec = record sample_spec {
    topology = Topology.cluster;
    shards = some 3;
    replicas_per_shard = some 1;
  };
  status = record sample_status { cluster_initialized = true; last_applied_replicas = 8 };
}

-- Every pod answers, every command is accepted, and no object is missing.
abbrev pub calm : Env
calm = record {
  reachable = λ h host port password. true;
  reply = λ h host c. some (codes "OK");
  pod = λ h name. Answer.not_found;
  node = λ h name. Answer.not_found;
  stateful_set = λ h name.
      Answer.found (record { update_revision = codes "r2"; ready_replicas = 3; replicas = some 3 });
  job = λ h name. Answer.not_found;
  secret = λ h name. Answer.found (codes "old");
  secret_data = λ h name key. Answer.found (codes "old");
  cluster = λ h. Answer.found demo;
  acl = λ h. Answer.not_found;
  conflicts = λ h. false;
  refusal = λ h. codes "ERR";
  pods = λ h. some [];
  any = λ h kind name. Answer.found tt;
  settled = λ h kind name. true;
  no_match = λ h. false;
  claims = λ h. some [];
  quantity = λ q. 10;
  fingerprint = λ pem. some (codes "f2");
  served = λ h host. some (codes "f1");
  accepts = λ h e. Answer.found tt;
  password = λ h. some (codes "secret");
  now = λ h. 5000000000;
}

abbrev pub fresh : World
fresh = record { vc = demo; effects = [] }

abbrev pub sample_pod : ℕ → Bytes → ℕ → ℕ → PodRole
sample_pod i role offset keys = record {
  ordinal = pos i;
  host = codes "host";
  role = role;
  master_host = codes "host0";
  master_port = pos 6379;
  master_link = codes "up";
  offset = pos offset;
  keys = pos keys;
  reachable = true;
}
