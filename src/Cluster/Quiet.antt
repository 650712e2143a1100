-- ===== src/Cluster/Quiet.antt =====
-- surveyCluster asks only (internal/controller/cluster.go): it keeps the object, and sends nothing
-- but the two questions.
use wellcake.Common.{ℕ, Bytes, List, [], ◌∷◌, Option, none, some, ◌||◌, is_empty}
use wellcake.Api.{ShardStatus}
use wellcake.Cluster.Survey.{
  is_down, info_of_pod, fill_replicas, fill_from, fill_shard, fill_replica_lag, survey_answer,
  survey_cluster,
}
use wellcake.Runtime.{Env, Effect, Command, dial, send}
use wellcake.Runtime.Emits.{Emits, Emits-pure, Emits-bind, Emits-if, emits_rules}
use wellcake.Runtime.Keeps.{Keeps, Keeps-pure, Keeps-bind, Keeps-if, keeps_rules}

module _ (env : Env) (password : Bytes) where
  info-Keeps : (pod : Bytes) → Keeps (info_of_pod env password pod)
  unfolding info_of_pod
  info-Keeps pod = search keeps_rules depth 12

  fill_replicas-Keeps :
      (pods : List Bytes) (s : ShardStatus) → Keeps (fill_replicas env password pods s)
  unfolding fill_replicas
  fill_replicas-Keeps [] s = Keeps-pure _
  fill_replicas-Keeps (p ∷ pods) s =
      Keeps-bind _ _ (info-Keeps p) (λ info. fill_replicas-Keeps pods _)

  fill_from-Keeps : (s : ShardStatus) (o : Option ShardStatus) → Keeps (fill_from env password s o)
  unfolding fill_from
  fill_from-Keeps s none = Keeps-pure _
  fill_from-Keeps s (some t) = fill_replicas-Keeps _ t

  fill_shard-Keeps : (s : ShardStatus) → Keeps (fill_shard env password s)
  unfolding fill_shard
  fill_shard-Keeps s =
      Keeps-if (is_down s.health || is_empty s.primary) _ _ (Keeps-pure _)
        (Keeps-bind _ _ (info-Keeps s.primary) (λ info. fill_from-Keeps s _))

  fill_lag-Keeps : (l : List ShardStatus) → Keeps (fill_replica_lag env password l)
  unfolding fill_replica_lag
  fill_lag-Keeps [] = Keeps-pure _
  fill_lag-Keeps (s ∷ l) =
      Keeps-bind _ _ (fill_shard-Keeps s)
        (λ f. Keeps-bind _ _ (fill_lag-Keeps l) (λ r. Keeps-pure _))

  answer-Keeps : (o : Option Bytes) → Keeps (survey_answer env password o)
  unfolding survey_answer
  answer-Keeps none = Keeps-pure _
  answer-Keeps (some raw) = fill_lag-Keeps _

  pub survey_cluster-Keeps : Keeps (survey_cluster env password)
  unfolding survey_cluster
  survey_cluster-Keeps = search (keeps_rules, answer-Keeps) depth 12

  module _ (P : Effect → Type 0) (dials : (h : Bytes) (port : ℕ) (pw : Bytes) → P (dial h port pw))
      (infos : (h : Bytes) → P (send h Command.info_replication))
      (nodes : (h : Bytes) → P (send h Command.cluster_nodes)) where
    Emits-info : (pod : Bytes) → Emits P (info_of_pod env password pod)
    unfolding info_of_pod
    Emits-info pod = search (emits_rules, dials, infos) depth 12

    Emits-fill_replicas :
        (pods : List Bytes) (s : ShardStatus) → Emits P (fill_replicas env password pods s)
    unfolding fill_replicas
    Emits-fill_replicas [] s = Emits-pure _
    Emits-fill_replicas (p ∷ pods) s =
        Emits-bind _ _ (Emits-info p) (λ info. Emits-fill_replicas pods _)

    Emits-fill_from :
        (s : ShardStatus) (o : Option ShardStatus) → Emits P (fill_from env password s o)
    unfolding fill_from
    Emits-fill_from s none = Emits-pure _
    Emits-fill_from s (some t) = Emits-fill_replicas _ t

    Emits-fill_shard : (s : ShardStatus) → Emits P (fill_shard env password s)
    unfolding fill_shard
    Emits-fill_shard s =
        Emits-if (is_down s.health || is_empty s.primary) _ _ (λ _. Emits-pure _)
          (λ _. Emits-bind _ _ (Emits-info s.primary) (λ info. Emits-fill_from s _))

    Emits-fill_lag : (l : List ShardStatus) → Emits P (fill_replica_lag env password l)
    unfolding fill_replica_lag
    Emits-fill_lag [] = Emits-pure _
    Emits-fill_lag (s ∷ l) =
        Emits-bind _ _ (Emits-fill_shard s)
          (λ f. Emits-bind _ _ (Emits-fill_lag l) (λ r. Emits-pure _))

    Emits-answer : (o : Option Bytes) → Emits P (survey_answer env password o)
    unfolding survey_answer
    Emits-answer none = Emits-pure _
    Emits-answer (some raw) = Emits-fill_lag _

    pub Emits-survey_cluster : Emits P (survey_cluster env password)
    unfolding survey_cluster
    Emits-survey_cluster = search (emits_rules, dials, nodes, Emits-answer) depth 12
