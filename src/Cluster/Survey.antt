-- ===== src/Cluster/Survey.antt =====
-- internal/controller/cluster.go: surveyCluster and fillReplicaLag, which turn the nodes into the
-- shards of the status, and summarizeShards.
use wellcake.Common.{
  ℕ, suc, ◌+◌, Bytes, codes, Option, none, some, Bool, true, false, not, List, [], ◌∷◌, ◌++◌,
  if◌then◌else◌, ◌&&◌, ◌||◌, eqb, is_empty, ltb_ℤ, ℤ, pos, parse_int64, itoa, sub_ℤ,
}
use wellcake.Api.{ShardStatus, Health, map_find}
use wellcake.Naming.{cluster_any_pod_host, pod_fqdn}
use wellcake.Info.{data_port, parse_info, number_or}
use wellcake.Cluster.{ClusterNode, is_master, is_healthy, parse_cluster_nodes}
use wellcake.Cluster.Slots.{slots_count}
use wellcake.Runtime.{Env, M, pure, ◌>>=◌, object, dial_repl_client, query, Command}

unfoldable pub is_ready_shard : Health → Bool
is_ready_shard Health.ready = true
is_ready_shard Health.degraded = false
is_ready_shard Health.down = false
is_ready_shard Health.unknown = false

unfoldable pub is_down : Health → Bool
is_down Health.down = true
is_down Health.degraded = false
is_down Health.ready = false
is_down Health.unknown = false

unfoldable pub new_shard : ℕ → ClusterNode → ShardStatus
new_shard idx n = record {
  index = idx;
  primary = n.pod_name;
  primary_node_id = n.id;
  replicas = [];
  slot_ranges = n.slots;
  slot_count = slots_count n.slots;
  health = if not (is_healthy n) then Health.down else Health.ready;
  primary_offset = pos 0;
  replica_offsets = [];
  max_lag_bytes = pos 0;
}

-- The first loop: a shard for each master, numbered in order.
unfoldable pub shards_of_masters : ℕ → List ClusterNode → List ShardStatus
shards_of_masters idx [] = []
shards_of_masters idx (n ∷ nodes) =
    let rest = shards_of_masters (if is_master n then idx + 1 else idx) nodes in
    if not (is_master n) then rest else new_shard idx n ∷ rest

-- A replica joins the shard of its master; where two masters have one id, byID holds the last.
unfoldable pub with_replica : ClusterNode → ShardStatus → ShardStatus
with_replica n s = record s {
  replicas = s.replicas ++ n.pod_name ∷ [];
  health = if not (is_healthy n) && is_ready_shard s.health then Health.degraded else s.health;
}

unfoldable pub has_id : Bytes → List ShardStatus → Bool
has_id id [] = false
has_id id (s ∷ shards) = eqb s.primary_node_id id || has_id id shards

unfoldable pub attach : ClusterNode → List ShardStatus → List ShardStatus
attach n [] = []
attach n (s ∷ shards) =
    let later = attach n shards in
    if eqb s.primary_node_id n.master_id && not (has_id n.master_id shards)
    then with_replica n s ∷ shards
    else s ∷ later

-- The second loop.
unfoldable pub attach_replicas : List ClusterNode → List ShardStatus → List ShardStatus
attach_replicas [] shards = shards
attach_replicas (n ∷ nodes) shards =
    attach_replicas nodes (if is_master n || is_empty n.master_id then shards else attach n shards)

unfoldable pub shards_of_nodes : List ClusterNode → List ShardStatus
shards_of_nodes nodes = attach_replicas nodes (shards_of_masters 0 nodes)

-- An offset of INFO replication: `old` where it is not there or is no number.
unfoldable pub offset_field : Option Bytes → ℤ → ℤ
offset_field none old = old
offset_field (some v) old = number_or old (parse_int64 v)

unfoldable pub with_replica_offset : Bytes → ShardStatus → ℤ → ShardStatus
with_replica_offset pod s off =
    let lag = sub_ℤ s.primary_offset off in
    record s {
      replica_offsets = s.replica_offsets ++ record { pod = pod; offset = off } ∷ [];
      max_lag_bytes = if ltb_ℤ s.max_lag_bytes lag then lag else s.max_lag_bytes;
    }

unfoldable pub replica_answer : Bytes → ShardStatus → Option Bytes → ShardStatus
replica_answer pod s none = s
replica_answer pod s (some text) =
    with_replica_offset pod s
      (offset_field (map_find (parse_info text) (codes "slave_repl_offset")) (pos 0))

unfoldable pub primary_answer : ShardStatus → Option Bytes → Option ShardStatus
primary_answer s none = none
primary_answer s (some text) = some (record s {
  primary_offset =
      offset_field (map_find (parse_info text) (codes "master_repl_offset")) s.primary_offset;
})

module _ (env : Env) where
  -- INFO replication of a pod, where it answers.
  unfoldable pub info_of_pod : Bytes → Bytes → M (Option Bytes)
  info_of_pod password pod = do
    vc ← object
    let host = pod_fqdn vc pod
    connected ← dial_repl_client env host (data_port vc) password
    if not connected then pure none else query env host Command.info_replication

  unfoldable pub fill_replicas : Bytes → List Bytes → ShardStatus → M ShardStatus
  fill_replicas password [] s = pure s
  fill_replicas password (pod ∷ pods) s = do
    info ← info_of_pod password pod
    fill_replicas password pods (replica_answer pod s info)

  unfoldable pub fill_from : Bytes → ShardStatus → Option ShardStatus → M ShardStatus
  fill_from password old none = pure old
  fill_from password old (some s) = fill_replicas password s.replicas s

  unfoldable pub fill_shard : Bytes → ShardStatus → M ShardStatus
  fill_shard password s =
      if is_down s.health || is_empty s.primary
      then pure s
      else do info ← info_of_pod password s.primary; fill_from password s (primary_answer s info)

  -- fillReplicaLag.
  unfoldable pub fill_replica_lag : Bytes → List ShardStatus → M (List ShardStatus)
  fill_replica_lag password [] = pure []
  fill_replica_lag password (s ∷ shards) = do
    filled ← fill_shard password s
    rest ← fill_replica_lag password shards
    pure (filled ∷ rest)

  unfoldable pub survey_answer : Bytes → Option Bytes → M (List ShardStatus)
  survey_answer password none = pure []
  survey_answer password (some raw) =
      fill_replica_lag password (shards_of_nodes (parse_cluster_nodes raw))

  -- surveyCluster.
  unfoldable pub survey_cluster : Bytes → M (List ShardStatus)
  survey_cluster password = do
    vc ← object
    let host = cluster_any_pod_host vc
    connected ← dial_repl_client env host (data_port vc) password
    if not connected
        then pure []
        else do raw ← query env host Command.cluster_nodes; survey_answer password raw

unfoldable pub health_name : Health → Bytes
health_name Health.ready = codes "Ready"
health_name Health.degraded = codes "Degraded"
health_name Health.down = codes "Down"
health_name Health.unknown = codes "Unknown"

-- summarizeShards: how many shards are ready, and a text for each of the others.
unfoldable pub summarize_shards : List ShardStatus → ℕ × List Bytes
summarize_shards [] = (0, [])
summarize_shards (s ∷ shards) =
    let (ready, bad) = summarize_shards shards in
    if is_ready_shard s.health
    then (suc ready, bad)
    else (ready, (itoa s.index ++ (b':' ∷ health_name s.health)) ∷ bad)
