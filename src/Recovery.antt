-- ===== src/Recovery.antt =====
-- internal/controller/cluster_recovery.go: the recovery of a Cluster that has lost the majority of
-- its primaries.
pub mod Run
pub mod Quorum
pub mod Fence
pub mod Takeover
use wellcake.Common.{
  ℕ, suc, ◌+◌, ◌*◌, Bytes, codes, Option, none, some, Bool, true, false, not, List, [], ◌∷◌, ◌++◌,
  if◌then◌else◌, ◌&&◌, ◌||◌, ◌==◌, ltb, eqb, is_empty, exists, ℤ, pos, negsuc, ltb_ℤ, parse_bool,
}
use wellcake.Api.{ValkeyCluster, map_get, map_find, is_durable}
use wellcake.Naming.{cluster_data_pods, PodRef, pod_fqdn, pod_name_from_fqdn}
use wellcake.Info.{data_port, parse_info, parse_cluster_info, InfoMap}
use wellcake.Failover.Run.{down_elapsed}
use wellcake.Rollout.{has_ready, pod_is_ready, delete_pod_by_name}
use wellcake.Cluster.{ClusterNode, is_master, is_healthy, parse_cluster_nodes}
use wellcake.Cluster.Survey.{offset_field}
use wellcake.Runtime.{
  Env, M, pure, ◌>>=◌, ◌>>◌, object, perform, set_status, ask, dial_repl_client, query, command,
  clock, Command, Kind, Answer, Pod, Condition, get, patch_status,
}

-- quorumTakeoverTarget.
pub record Target : Type 0 where
  pub primary_pod : Bytes
  pub primary_id : Bytes
  pub replica_pod : Bytes

-- quorumRecoveryDownAfter, in nanoseconds.
abbrev pub quorum_recovery_down_after : ℕ
quorum_recovery_down_after = 45000000000

-- quorumRecoveryEnabled: the annotation, else the profile.
unfoldable pub enabled_by : Option Bool → ValkeyCluster → Bool
enabled_by (some v) vc = v
enabled_by none vc = not (is_durable vc.spec.profile)

unfoldable pub quorum_recovery_enabled : ValkeyCluster → Bool
quorum_recovery_enabled vc =
    enabled_by (parse_bool (map_get vc.annotations (codes "valkey.wellcake.io/quorum-takeover"))) vc

-- countMasters: the healthy masters, and all of them.
unfoldable pub count_masters : List ClusterNode → ℕ × ℕ
count_masters [] = (0, 0)
count_masters (n ∷ nodes) =
    let (healthy, total) = count_masters nodes in
    if not (is_master n)
    then (healthy, total)
    else ((if is_healthy n then suc healthy else healthy), suc total)

-- knownDataPods.
unfoldable pub is_known : ValkeyCluster → Bytes → Bool
is_known vc pod = exists (λ p. eqb (pod_name_from_fqdn p.host) pod) (cluster_data_pods vc)

-- The result of a question that may fail: none is the error.
abbrev pub Checked : Type 0
Checked = Option Bool

unfoldable pub node_answer : Answer (List Condition) → Checked
node_answer Answer.not_found = some false
node_answer Answer.failed = none
node_answer (Answer.found conditions) = some (has_ready conditions)

unfoldable pub negate : Checked → Checked
negate none = none
negate (some b) = some (not b)

unfoldable pub reports_ok : Option Bytes → Bool
reports_ok none = false
reports_ok (some text) =
    eqb (map_get (parse_cluster_info text) (codes "cluster_state")) (codes "ok")

unfoldable pub takeover_answer : Bytes → Option Bytes → Bytes × ℤ → Bytes × ℤ
takeover_answer pod none best = best
takeover_answer pod (some text) (best, offset) =
    let off = offset_field (map_find (parse_info text) (codes "slave_repl_offset")) (pos 0) in
    if ltb_ℤ offset off then (pod, off) else (best, offset)

module _ (env : Env) where
  -- setQuorumDown, clearQuorumDown and quorumDownLongEnough.
  unfoldable pub set_quorum_down : Option ℕ → M (Unit {0})
  set_quorum_down t = do
    vc ← object
    set_status (record vc.status { quorum_down_since = t })
    perform (patch_status (record vc.status { quorum_down_since = t }))

  unfoldable pub clear_quorum : Option ℕ → M (Unit {0})
  clear_quorum none = pure tt
  clear_quorum (some t) = set_quorum_down none

  unfoldable pub clear_quorum_down : M (Unit {0})
  clear_quorum_down = do vc ← object; clear_quorum vc.status.quorum_down_since

  unfoldable pub quorum_down_for : Option ℕ → M Bool
  quorum_down_for none = do now ← clock env; set_quorum_down (some now); pure false
  quorum_down_for (some since) = do
    now ← clock env
    pure (down_elapsed since now quorum_recovery_down_after)

  unfoldable pub quorum_down_long_enough : M Bool
  quorum_down_long_enough = do vc ← object; quorum_down_for vc.status.quorum_down_since

  -- nodeReady: a node that is gone is not ready.
  unfoldable pub node_ready : Bytes → M Checked
  node_ready name = do
    answer ← ask (get Kind.node name) (λ h. env.node h name)
    pure (node_answer answer)

  -- primaryFencedByK8s.
  unfoldable pub fenced_answer : Answer Pod → M Checked
  fenced_answer Answer.not_found = pure (some true)
  fenced_answer Answer.failed = pure none
  fenced_answer (Answer.found pod) =
      if not (eqb pod.phase (codes "Running")) || not (pod_is_ready pod)
      then pure (some true)
      else if is_empty pod.node_name
      then pure (some false)
      else do ready ← node_ready pod.node_name; pure (negate ready)

  unfoldable pub primary_fenced_by_k8s : Bytes → M Checked
  primary_fenced_by_k8s name = do
    answer ← ask (get Kind.pod name) (λ h. env.pod h name)
    fenced_answer answer

  -- primaryStillServing: it answers and reports cluster_state:ok.
  unfoldable pub primary_still_serving : Bytes → Bytes → M Bool
  primary_still_serving password pod = do
    vc ← object
    let host = pod_fqdn vc pod
    connected ← dial_repl_client env host (data_port vc) password
    if not connected
        then pure false
        else do info ← query env host Command.cluster_info; pure (reports_ok info)

  -- pickTakeoverReplica: the replica that answers with the highest offset; "" where none does.
  unfoldable pub ask_offset : Bytes → Bytes → M (Option Bytes)
  ask_offset password pod = if is_empty pod then pure none else do
    vc ← object
    let host = pod_fqdn vc pod
    connected ← dial_repl_client env host (data_port vc) password
    if not connected then pure none else query env host Command.info_replication

  unfoldable pub pick_among : Bytes → List ClusterNode → Bytes × ℤ → M Bytes
  pick_among password [] best = pure best.0
  pick_among password (rep ∷ replicas) best = do
    info ← ask_offset password rep.pod_name
    pick_among password replicas (takeover_answer rep.pod_name info best)

  unfoldable pub pick_takeover_replica : Bytes → List ClusterNode → M Bytes
  pick_takeover_replica password replicas = pick_among password replicas ([], negsuc 0)
