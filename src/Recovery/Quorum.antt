-- ===== src/Recovery/Quorum.antt =====
-- What the recovery asks before it acts (internal/controller/cluster_recovery.go): the questions
-- change neither the object nor the cluster.
use wellcake.Common.{Bytes, List, [], ◌∷◌, true, false, none, some, ℤ}
use wellcake.Naming.{PodRef}
use wellcake.Cluster.{ClusterNode}
use wellcake.Recovery.{
  Checked, node_ready, fenced_answer, primary_fenced_by_k8s, primary_still_serving, ask_offset,
  pick_among, pick_takeover_replica,
}
use wellcake.Recovery.Run.{
  dial_any, dial_any_cluster_pod, fenced_target, recoverable_shard, recoverable_shards,
}
use wellcake.Runtime.{Env, Effect, Command, Answer, Pod, send, delete}
use wellcake.Runtime.Emits.{
  Emits, Emits-pure, Emits-bind, Emits-if, Emits-object, Emits-ask, Emits-dial, emits_rules,
}
use wellcake.Runtime.Keeps.{
  Keeps, Keeps-pure, Keeps-bind, Keeps-if, Keeps-object, Keeps-dial, keeps_rules,
}

-- No deletion and no takeover.
abbrev pub IsCalm : Effect → Type 0
IsCalm (delete kind n) = ⊥
IsCalm (send host Command.cluster_failover_takeover) = ⊥
IsCalm _ = Unit

module _ (env : Env) where
  node_ready-Keeps : (name : Bytes) → Keeps (node_ready env name)
  unfolding node_ready
  node_ready-Keeps name = search keeps_rules depth 8

  node_ready-IsCalm : (name : Bytes) → Emits IsCalm (node_ready env name)
  unfolding node_ready
  node_ready-IsCalm name = Emits-bind _ _ (Emits-ask _ _ tt) (λ a. Emits-pure _)

  fenced_answer-Keeps : (a : Answer Pod) → Keeps (fenced_answer env a)
  unfolding fenced_answer
  fenced_answer-Keeps Answer.not_found = Keeps-pure _
  fenced_answer-Keeps Answer.failed = Keeps-pure _
  fenced_answer-Keeps (Answer.found pod) = search (keeps_rules, node_ready-Keeps) depth 8

  fenced_answer-IsCalm : (a : Answer Pod) → Emits IsCalm (fenced_answer env a)
  unfolding fenced_answer
  fenced_answer-IsCalm Answer.not_found = Emits-pure _
  fenced_answer-IsCalm Answer.failed = Emits-pure _
  fenced_answer-IsCalm (Answer.found pod) = search (emits_rules, node_ready-IsCalm) depth 8

  pub fenced-Keeps : (name : Bytes) → Keeps (primary_fenced_by_k8s env name)
  unfolding primary_fenced_by_k8s
  fenced-Keeps name = search (keeps_rules, fenced_answer-Keeps) depth 8

  pub fenced-IsCalm : (name : Bytes) → Emits IsCalm (primary_fenced_by_k8s env name)
  unfolding primary_fenced_by_k8s
  fenced-IsCalm name = Emits-bind _ _ (Emits-ask _ _ tt) fenced_answer-IsCalm

  module _ (password : Bytes) where
    pub serving-Keeps : (pod : Bytes) → Keeps (primary_still_serving env password pod)
    unfolding primary_still_serving
    serving-Keeps pod = search keeps_rules depth 12

    pub serving-IsCalm : (pod : Bytes) → Emits IsCalm (primary_still_serving env password pod)
    unfolding primary_still_serving
    serving-IsCalm pod = search emits_rules depth 12

    ask_offset-Keeps : (pod : Bytes) → Keeps (ask_offset env password pod)
    unfolding ask_offset
    ask_offset-Keeps pod = search keeps_rules depth 12

    ask_offset-IsCalm : (pod : Bytes) → Emits IsCalm (ask_offset env password pod)
    unfolding ask_offset
    ask_offset-IsCalm pod = search emits_rules depth 12

    pick_among-Keeps :
        (replicas : List ClusterNode) (best : Bytes × ℤ)
        → Keeps (pick_among env password replicas best)
    unfolding pick_among
    pick_among-Keeps [] best = Keeps-pure _
    pick_among-Keeps (r ∷ replicas) best =
        Keeps-bind _ _ (ask_offset-Keeps r.pod_name) (λ info. pick_among-Keeps replicas _)

    pick_among-IsCalm :
        (replicas : List ClusterNode) (best : Bytes × ℤ)
        → Emits IsCalm (pick_among env password replicas best)
    unfolding pick_among
    pick_among-IsCalm [] best = Emits-pure _
    pick_among-IsCalm (r ∷ replicas) best =
        Emits-bind _ _ (ask_offset-IsCalm r.pod_name) (λ info. pick_among-IsCalm replicas _)

    pick-Keeps : (replicas : List ClusterNode) → Keeps (pick_takeover_replica env password replicas)
    unfolding pick_takeover_replica
    pick-Keeps replicas = pick_among-Keeps replicas _

    pick-IsCalm :
        (replicas : List ClusterNode) → Emits IsCalm (pick_takeover_replica env password replicas)
    unfolding pick_takeover_replica
    pick-IsCalm replicas = pick_among-IsCalm replicas _

    fenced_target-Keeps :
        (nodes : List ClusterNode) (n : ClusterNode) (c : Checked)
        → Keeps (fenced_target env password nodes n c)
    unfolding fenced_target
    fenced_target-Keeps nodes n none = Keeps-pure _
    fenced_target-Keeps nodes n (some false) = Keeps-pure _
    fenced_target-Keeps nodes n (some true) =
        search (keeps_rules, serving-Keeps, pick-Keeps) depth 12

    fenced_target-IsCalm :
        (nodes : List ClusterNode) (n : ClusterNode) (c : Checked)
        → Emits IsCalm (fenced_target env password nodes n c)
    unfolding fenced_target
    fenced_target-IsCalm nodes n none = Emits-pure _
    fenced_target-IsCalm nodes n (some false) = Emits-pure _
    fenced_target-IsCalm nodes n (some true) =
        search (emits_rules, serving-IsCalm, pick-IsCalm) depth 12

    recoverable_shard-Keeps :
        (nodes : List ClusterNode) (n : ClusterNode)
        → Keeps (recoverable_shard env password nodes n)
    unfolding recoverable_shard
    recoverable_shard-Keeps nodes n =
        search (keeps_rules, fenced-Keeps, fenced_target-Keeps) depth 12

    recoverable_shard-IsCalm :
        (nodes : List ClusterNode) (n : ClusterNode)
        → Emits IsCalm (recoverable_shard env password nodes n)
    unfolding recoverable_shard
    recoverable_shard-IsCalm nodes n =
        search (emits_rules, fenced-IsCalm, fenced_target-IsCalm) depth 12

    pub recoverable_shards-Keeps :
        (nodes rest : List ClusterNode) → Keeps (recoverable_shards env password nodes rest)
    unfolding recoverable_shards
    recoverable_shards-Keeps nodes [] = Keeps-pure _
    recoverable_shards-Keeps nodes (n ∷ rest) =
        Keeps-bind _ _ (recoverable_shard-Keeps nodes n)
          (λ t. Keeps-bind _ _ (recoverable_shards-Keeps nodes rest) (λ ts. Keeps-pure _))

    pub recoverable_shards-IsCalm :
        (nodes rest : List ClusterNode) → Emits IsCalm (recoverable_shards env password nodes rest)
    unfolding recoverable_shards
    recoverable_shards-IsCalm nodes [] = Emits-pure _
    recoverable_shards-IsCalm nodes (n ∷ rest) =
        Emits-bind _ _ (recoverable_shard-IsCalm nodes n)
          (λ t. Emits-bind _ _ (recoverable_shards-IsCalm nodes rest) (λ ts. Emits-pure _))

    dial_any-Keeps : (pods : List PodRef) → Keeps (dial_any env password pods)
    unfolding dial_any
    dial_any-Keeps [] = Keeps-pure _
    dial_any-Keeps (p ∷ pods) = Keeps-bind _ _ Keeps-object (λ vc.
        Keeps-bind _ _ (Keeps-dial env p.host _ password)
          (λ connected. Keeps-if connected _ _ (Keeps-pure _) (dial_any-Keeps pods)))

    dial_any-IsCalm : (pods : List PodRef) → Emits IsCalm (dial_any env password pods)
    unfolding dial_any
    dial_any-IsCalm [] = Emits-pure _
    dial_any-IsCalm (p ∷ pods) = Emits-bind _ _ Emits-object (λ vc.
        Emits-bind _ _ (Emits-dial env p.host _ password tt)
          (λ connected. Emits-if connected _ _ (λ _. Emits-pure _) (λ _. dial_any-IsCalm pods)))

    pub dial_any_cluster_pod-Keeps : Keeps (dial_any_cluster_pod env password)
    unfolding dial_any_cluster_pod
    dial_any_cluster_pod-Keeps = search (keeps_rules, dial_any-Keeps) depth 8

    pub dial_any_cluster_pod-IsCalm : Emits IsCalm (dial_any_cluster_pod env password)
    unfolding dial_any_cluster_pod
    dial_any_cluster_pod-IsCalm = search (emits_rules, dial_any-IsCalm) depth 8
