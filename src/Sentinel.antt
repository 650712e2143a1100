-- ===== src/Sentinel.antt =====
-- internal/controller/sentinel.go: the repairs that wait for all Sentinels to agree. The views of
-- the Sentinels, which collectSentinelViews reads, are an argument.
pub mod Reset
pub mod Repair
use wellcake.Common.{
  ℕ, ◌+◌, ◌-◌, Bytes, codes, Option, none, some, Bool, true, false, not, List, [], ◌∷◌, ◌++◌,
  length, if◌then◌else◌, ◌&&◌, ◌||◌, ◌==◌, ltb, eqb, is_empty, has_suffix, cut, exists, every, ℤ,
  pos, negsuc, ltb_ℤ, eqb_ℤ, neg, sub_ℤ, int32, get_elem?, keep,
}
use wellcake.Api.{ValkeyCluster}
use wellcake.Naming.{
  labels_for, ordinal_from_pod_name, pod_name_from_fqdn, before_or_all, stateful_set_name,
  headless_service_name, pod_name, pod_fqdn, sentinel_pod_fqdn, svc_suffix,
}
use wellcake.Info.{data_port, role_master, role_slave}
use wellcake.Failover.{PodRole, survey_replication}
use wellcake.Rollout.{RolloutPod, instance_label, list_rollout_pods}
use wellcake.Rotation.{sentinel_listen_port}
use wellcake.Handover.Run.{sentinel_replicas}
use wellcake.Runtime.{
  Env, M, Pod, Command, list_pods, pure, ◌>>=◌, ◌>>◌, object, ask, dial_repl_client, command,
}

-- sentinelView.
pub record SentinelView : Type 0 where
  pub ordinal : ℤ
  pub master : Bytes
  pub flags : Bytes
  pub other_sentinels : ℤ
  pub stale_replicas : ℕ

-- int(replicas), and int(replicas)-1: the peers that a Sentinel should know.
unfoldable pub signed : ℕ → ℤ
signed n = if ltb n 2147483648 then pos n else neg (4294967296 - n)

unfoldable pub peers : ℕ → ℤ
peers replicas = sub_ℤ (signed replicas) (pos 1)

unfoldable pub agrees : Bytes → SentinelView → Bool
agrees master v = eqb v.master master && eqb v.flags role_master

unfoldable pub is_settled : Bytes → ℕ → SentinelView → Bool
is_settled master replicas v = agrees master v && not (ltb_ℤ v.other_sentinels (peers replicas))

unfoldable pub has_dead : ℕ → SentinelView → Bool
has_dead replicas v = ltb_ℤ (peers replicas) v.other_sentinels || ltb 0 v.stale_replicas

unfoldable pub first_dead : ℕ → List SentinelView → ℤ
first_dead replicas [] = negsuc 0
first_dead replicas (v ∷ views) =
    let later = first_dead replicas views in if has_dead replicas v then v.ordinal else later

-- pickSentinelToReset: -1 where none is to be reset.
unfoldable pub pick_sentinel_to_reset : List SentinelView → ℕ → ℤ
pick_sentinel_to_reset [] replicas = negsuc 0
pick_sentinel_to_reset (v ∷ rest) replicas =
    let views = v ∷ rest in
    if not (int32 (length views) == replicas)
    then negsuc 0
    else if not (every (is_settled v.master replicas) views)
    then negsuc 0
    else first_dead replicas views

-- agreedMaster.
unfoldable pub agreed_master : List SentinelView → ℕ → Option Bytes
agreed_master [] replicas = none
agreed_master (v ∷ rest) replicas =
    let views = v ∷ rest in
    if not (int32 (length views) == replicas)
    then none
    else if not (every (agrees v.master) views)
    then none
    else some v.master

-- misplacedDataPod: the pod at the index that it returns, none for -1.
unfoldable pub is_ordinal : ℤ → Option ℤ → Bool
is_ordinal master none = false
is_ordinal master (some ord) = eqb_ℤ ord master

unfoldable pub is_placed : (Bytes → Option ℤ) → ℤ → PodRole → Bool
is_placed ordinal_of master s =
    not s.reachable
    || (eqb_ℤ s.ordinal master
        || (eqb s.role role_slave && is_ordinal master (ordinal_of s.master_host)))

unfoldable pub misplaced_data_pod : List PodRole → ℤ → (Bytes → Option ℤ) → Option PodRole
misplaced_data_pod [] master ordinal_of = none
misplaced_data_pod (s ∷ survey) master ordinal_of =
    let later = misplaced_data_pod survey master ordinal_of in
    if is_placed ordinal_of master s then later else some s

-- scaledDownDataPod.
unfoldable pub is_from : ℕ → Option ℤ → Bool
is_from replicas none = false
is_from replicas (some ord) = not (ltb_ℤ ord (signed replicas))

unfoldable pub scaled_down_data_pod : ValkeyCluster → Bytes → Bool
scaled_down_data_pod vc host =
    if not (
      has_suffix host
        (codes "." ++ (headless_service_name vc ++ (codes "." ++ (vc.namespace ++ svc_suffix)))))
    then false
    else is_from vc.spec.replicas
        (ordinal_from_pod_name (pod_name_from_fqdn host) (stateful_set_name vc))

-- ordinalOf of repairSentinelDataPods: the last pod with the address, else by name.
unfoldable pub with_ip : Bytes → Pod → Option ℤ → Option ℤ → Option ℤ
with_ip host p none found = found
with_ip host p (some ord) found = if not (is_empty p.ip) && eqb p.ip host then some ord else found

unfoldable pub by_ip : Bytes → List Pod → Bytes → Option ℤ → Option ℤ
by_ip sts [] host found = found
by_ip sts (p ∷ pods) host found =
    by_ip sts pods host (with_ip host p (ordinal_from_pod_name p.name sts) found)

unfoldable pub or_by_name : Option ℤ → Bytes → Bytes → Option ℤ
or_by_name none sts host = ordinal_from_pod_name (pod_name_from_fqdn host) sts
or_by_name (some ord) sts host = some ord

unfoldable pub ordinal_of_host : Bytes → List Pod → Bytes → Option ℤ
ordinal_of_host sts pods host = or_by_name (by_ip sts pods host none) sts host

-- The master's entry, at the index of its ordinal. A negative ordinal, where the code would panic,
-- is no index.
unfoldable pub is_live_master : Option PodRole → Bool
is_live_master none = false
is_live_master (some s) = s.reachable && eqb s.role role_master

unfoldable pub entry_at : List PodRole → ℤ → Option PodRole
entry_at survey (pos n) = get_elem? survey n
entry_at survey (negsuc n) = none

module _ (env : Env) (password : Bytes) where
  -- resetStaleSentinels.
  unfoldable pub reset_stale_sentinels : List SentinelView → M Bool
  reset_stale_sentinels views = do
    vc ← object
    let replicas = sentinel_replicas vc.spec.sentinel
    let ord = pick_sentinel_to_reset views replicas
    let host = sentinel_pod_fqdn vc ord
    if ltb_ℤ ord (pos 0) then pure (exists (has_dead replicas) views) else do
      connected ← dial_repl_client env host (sentinel_listen_port vc) password
      if not connected
          then pure true
          else do ok ← command env host (Command.sentinel_reset (codes "mymaster")); pure true

  -- repairSentinelDataPods.
  unfoldable pub point_at : Bytes → ℕ → Option PodRole → M Bool
  point_at target port none = pure false
  point_at target port (some s) = do
    connected ← dial_repl_client env s.host port password
    if not connected then pure false else do
      ok ← command env s.host (Command.replica_of target port)
      if not ok then pure true else do saved ← command env s.host Command.config_rewrite; pure true

  unfoldable pub repair_behind : (Bytes → Option ℤ) → Option ℤ → M Bool
  repair_behind ordinal_of none = pure false
  repair_behind ordinal_of (some master) = do
    vc ← object
    survey ← survey_replication env password
    if not (is_live_master (entry_at survey master))
        then pure false
        else point_at (pod_fqdn vc (pod_name vc master)) (data_port vc)
            (misplaced_data_pod survey master ordinal_of)

  unfoldable pub repair_with : Bytes → Option (List Pod) → M Bool
  repair_with master none = pure false
  repair_with master (some pods) = do
    vc ← object
    let ordinal_of = ordinal_of_host (stateful_set_name vc) pods
    repair_behind ordinal_of (ordinal_of (before_or_all (cut b':' master) master))

  unfoldable pub repair_among : Bytes → Option (List RolloutPod) → M Bool
  repair_among master none = pure false
  repair_among master (some pods) = do
    vc ← object
    if not (int32 (length pods) == vc.spec.replicas)
        then pure false
        else if not (every (λ p. p.ready) pods)
        then pure false
        else do items ← ask (list_pods (labels_for vc)) env.pods; repair_with master items

  unfoldable pub repair_agreed : Option Bytes → M Bool
  repair_agreed none = pure false
  repair_agreed (some master) = do pods ← list_rollout_pods env; repair_among master pods

  unfoldable pub repair_sentinel_data_pods : List SentinelView → M Bool
  repair_sentinel_data_pods views = do
    vc ← object
    repair_agreed (agreed_master views (sentinel_replicas vc.spec.sentinel))
