-- ===== src/Cluster/Shards.antt =====
-- The shards that surveyCluster makes of the nodes (internal/controller/cluster.go).
use wellcake.Common.{
  ℕ, ◌+◌, Bytes, ◌≡◌, refl, ap, ◌∙◌, inl, inr, Bool, true, false, not, Bool-cases, List, [], ◌∷◌,
  map, keep, if◌then◌else◌, ◌&&◌, ◌||◌, eqb, is_empty,
}
use wellcake.Api.{ShardStatus, Health}
use wellcake.Cluster.{ClusterNode, is_master, is_healthy}
use wellcake.Cluster.Survey.{
  is_down, is_ready_shard, new_shard, shards_of_masters, with_replica, has_id, attach,
  attach_replicas, shards_of_nodes,
}

-- What a shard says of its primary, and what it is of a node.
abbrev pub shard_view : ShardStatus → Bytes × (Bytes × Bool)
shard_view s = (s.primary, (s.primary_node_id, is_down s.health))

abbrev pub node_view : ClusterNode → Bytes × (Bytes × Bool)
node_view n = (n.pod_name, (n.id, not (is_healthy n)))

new_shard-view : (idx : ℕ) (n : ClusterNode) → shard_view (new_shard idx n) ≡ node_view n
unfolding new_shard is_down
new_shard-view idx n = elim (Bool-cases (is_healthy n)) [
  | inl up ↦ rw up refl
  | inr down ↦ rw down refl
]

shards_of_masters-view :
    (idx : ℕ) (nodes : List ClusterNode)
    → map shard_view (shards_of_masters idx nodes) ≡ map node_view (keep is_master nodes)
unfolding shards_of_masters keep
shards_of_masters-view idx [] = refl
shards_of_masters-view idx (n ∷ nodes) = elim (Bool-cases (is_master n)) [
  | inr replica ↦ rw replica (shards_of_masters-view idx nodes)
  | inl master ↦ rw master (
      ap (λ v. v ∷ map shard_view (shards_of_masters (idx + 1) nodes)) (new_shard-view idx n)
      ∙ ap (λ l. node_view n ∷ l) (shards_of_masters-view (idx + 1) nodes))
]

degrading :
    (b : Bool) (h : Health)
    → is_down (if b && is_ready_shard h then Health.degraded else h) ≡ is_down h
unfolding is_down is_ready_shard
degrading true Health.ready = refl
degrading true Health.degraded = refl
degrading true Health.down = refl
degrading true Health.unknown = refl
degrading false h = refl

with_replica-view :
    (n : ClusterNode) (s : ShardStatus) → shard_view (with_replica n s) ≡ shard_view s
unfolding with_replica
with_replica-view n s =
    ap (λ b. (s.primary, (s.primary_node_id, b))) (degrading (not (is_healthy n)) s.health)

attach-view :
    (n : ClusterNode) (shards : List ShardStatus)
    → map shard_view (attach n shards) ≡ map shard_view shards
unfolding attach
attach-view n [] = refl
attach-view n (s ∷ shards) =
    elim (Bool-cases (eqb s.primary_node_id n.master_id && not (has_id n.master_id shards))) [
      | inl own ↦ rw own (ap (λ v. v ∷ map shard_view shards) (with_replica-view n s))
      | inr other ↦ rw other (ap (λ l. shard_view s ∷ l) (attach-view n shards))
    ]

attach_replicas-view :
    (nodes : List ClusterNode) (shards : List ShardStatus)
    → map shard_view (attach_replicas nodes shards) ≡ map shard_view shards
unfolding attach_replicas
attach_replicas-view [] shards = refl
attach_replicas-view (n ∷ nodes) shards =
    attach_replicas-view nodes _ ∙ by_test (is_master n || is_empty n.master_id)
  where
    by_test :
        (b : Bool) → map shard_view (if b then shards else attach n shards) ≡ map shard_view shards
    by_test true = refl
    by_test false = attach-view n shards

-- There is one shard for each master of CLUSTER NODES, in their order, with its pod and its id, and
-- it is Down exactly where that master is not healthy: replicas only ever degrade a shard.
pub shards_of_nodes-view :
    (nodes : List ClusterNode)
    → map shard_view (shards_of_nodes nodes) ≡ map node_view (keep is_master nodes)
unfolding shards_of_nodes
shards_of_nodes-view nodes =
    attach_replicas-view nodes (shards_of_masters 0 nodes) ∙ shards_of_masters-view 0 nodes
