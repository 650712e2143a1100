-- ===== src/Handover.antt =====
-- internal/controller/rollout_sentinel.go: the handover of the master of a Sentinel cluster, before
-- its pod is restarted.
pub mod Pause
pub mod Run
pub mod Mild
pub mod Planes
use wellcake.Common.{
  ℕ, zero, suc, Bytes, codes, Option, none, some, Bool, true, false, not, List, [], ◌∷◌, ◌++◌,
  length, if◌then◌else◌, ◌&&◌, ◌||◌, ◌==◌, eqb, is_empty, has_prefix, contains, cut, split_on,
  exists, ℤ, pos, ltb_ℤ, eqb_ℤ, parse_int64, itoa,
}
use wellcake.Common.{pos_part}
use wellcake.Api.{ValkeyCluster, SentinelSpec, map_get}
use wellcake.Sizing.{range_int32, count_from}
use wellcake.Naming.{pod_name, sentinel_pod_fqdn}
use wellcake.Info.{data_port, parse_info, InfoMap, role_master}
use wellcake.Failover.{PodRole}
use wellcake.Rotation.{sentinel_listen_port}
use wellcake.Runtime.{
  Env, M, History, pure, ◌>>=◌, ◌>>◌, object, ask, dial_repl_client, query, command, Command, send,
  is_some,
}

-- Why a handover was not done.
pub data HandoverError : Type 0 where
  no_target dial_failed not_linked pause_failed not_caught_up : HandoverError
  failover_failed not_promoted replica_of_failed unpause_failed : HandoverError

-- handoverTimings: the pause in milliseconds, and the numbers of rounds that fit into the two waits.
pub record HandoverTimings : Type 0 where
  pub pause : ℕ
  pub catch_up_rounds : ℕ
  pub promote_rounds : ℕ

-- 15 seconds, and a round of 100 milliseconds at least in 5 and in 8 seconds.
abbrev pub sentinel_handover_timings : HandoverTimings
sentinel_handover_timings = record { pause = 15000; catch_up_rounds = 51; promote_rounds = 81 }

abbrev slave_field : ℕ → Bytes
slave_field i = codes "slave" ++ itoa i

-- replicasLinked: the fields slave0, slave1, ... of the connected replicas.
unfoldable pub are_online : InfoMap → List ℕ → Bool
are_online info [] = true
are_online info (i ∷ rest) =
    contains (map_get info (slave_field i)) (codes "state=online") && are_online info rest

unfoldable pub linked : InfoMap → ℕ → Option ℤ → Bool
linked info want none = false
linked info want (some n) =
    if ltb_ℤ n (pos want) then false else are_online info (count_from 0 (pos_part n))

unfoldable pub replicas_linked : InfoMap → ℕ → Bool
replicas_linked info want = linked info want (parse_int64 (map_get info (codes "connected_slaves")))

-- replicasCaughtUp: the pairs of a slave field, the last one of a key first.
unfoldable pub add_pair : Option (Bytes × Bytes) → InfoMap → InfoMap
add_pair none out = out
add_pair (some p) out = p ∷ out

unfoldable pub slave_pairs : List Bytes → InfoMap → InfoMap
slave_pairs [] out = out
slave_pairs (kv ∷ rest) out = slave_pairs rest (add_pair (cut b'=' kv) out)

unfoldable pub is_at : ℤ → InfoMap → Option ℤ → Bool
is_at master pairs none = false
is_at master pairs (some offset) =
    eqb (map_get pairs (codes "state")) (codes "online") && not (ltb_ℤ offset master)

unfoldable pub are_caught_up : InfoMap → ℤ → List ℕ → Bool
are_caught_up info master [] = true
are_caught_up info master (i ∷ rest) =
    let pairs = slave_pairs (split_on b',' (map_get info (slave_field i))) [] in
    is_at master pairs (parse_int64 (map_get pairs (codes "offset")))
    && are_caught_up info master rest

unfoldable pub caught_up : InfoMap → Option ℤ → Option ℤ → Bool
caught_up info none n = false
caught_up info (some master) none = false
caught_up info (some master) (some n) =
    if eqb_ℤ n (pos 0) then false else are_caught_up info master (count_from 0 (pos_part n))

unfoldable pub replicas_caught_up : InfoMap → Bool
replicas_caught_up info =
    caught_up info (parse_int64 (map_get info (codes "master_repl_offset")))
      (parse_int64 (map_get info (codes "connected_slaves")))

unfoldable pub answers_linked : ℕ → Option Bytes → Bool
answers_linked want none = false
answers_linked want (some text) = replicas_linked (parse_info text) want

unfoldable pub answers_caught_up : Option Bytes → Bool
answers_caught_up none = false
answers_caught_up (some text) = replicas_caught_up (parse_info text)

unfoldable pub answers_master : Option Bytes → Bool
answers_master none = false
answers_master (some text) = eqb (map_get (parse_info text) (codes "role")) role_master

-- The hosts of sentinelHandover: the master's, and those of the other pods that answer. The last
-- pod with the name counts.
unfoldable pub master_host : ValkeyCluster → Bytes → List PodRole → Bytes → Bytes
master_host vc master [] host = host
master_host vc master (s ∷ survey) host =
    master_host vc master survey (if eqb (pod_name vc s.ordinal) master then s.host else host)

unfoldable pub replica_hosts : ValkeyCluster → Bytes → List PodRole → List Bytes
replica_hosts vc master [] = []
replica_hosts vc master (s ∷ survey) =
    let rest = replica_hosts vc master survey in
    if eqb (pod_name vc s.ordinal) master then rest else if s.reachable then s.host ∷ rest else rest

unfoldable pub sentinels_of : Option SentinelSpec → List ℕ
sentinels_of none = []
sentinels_of (some s) = range_int32 s.replicas

unfoldable pub is_refused : Option Bytes → Bool
is_refused none = false
is_refused (some text) = not (has_prefix text (codes "INPROG"))

-- The deferred CLIENT UNPAUSE, whose error only counts where there is no other.
unfoldable pub or_unpause : Option HandoverError → Bool → Option HandoverError
or_unpause (some e) ok = some e
or_unpause none ok = if ok then none else some HandoverError.unpause_failed

module _ (env : Env) where
  -- issueSentinelFailover: the error's text, or none. With no Sentinel there is no error.
  unfoldable pub error_of : Bool → History → Option Bytes
  error_of ok h = if ok then none else some (env.refusal h)

  unfoldable pub try_sentinels : Bytes → List ℕ → Option Bytes → M (Option Bytes)
  try_sentinels password [] last = pure last
  try_sentinels password (i ∷ rest) last = do
    vc ← object
    let host = sentinel_pod_fqdn vc (pos i)
    connected ← dial_repl_client env host (sentinel_listen_port vc) password
    if not connected
        then try_sentinels password rest
            (some (codes "dial sentinel " ++ (host ++ codes " failed")))
        else ask (send host (Command.sentinel_failover (codes "mymaster"))) (λ h.
          error_of (is_some (env.reply h host (Command.sentinel_failover (codes "mymaster")))) h)

  unfoldable pub issue_sentinel_failover : Bytes → M (Option Bytes)
  issue_sentinel_failover password = do
    vc ← object
    try_sentinels password (sentinels_of vc.spec.sentinel) none

  -- wait.PollUntilContextTimeout, of the rounds that fit.
  unfoldable pub wait_caught_up : ℕ → Bytes → M Bool
  wait_caught_up zero master = pure false
  wait_caught_up (suc rounds) master = do
    info ← query env master Command.info_replication
    if answers_caught_up info then pure true else wait_caught_up rounds master

  -- A round of the second wait: the promoted host, and the hosts with an open connection.
  unfoldable pub find_promoted : Bytes → ℕ → List Bytes → List Bytes → M (Option Bytes × List Bytes)
  find_promoted password port [] opened = pure (none, opened)
  find_promoted password port (h ∷ hosts) opened = do
    connected ← if exists (eqb h) opened then pure true else dial_repl_client env h port password
    if not connected then find_promoted password port hosts opened else do
      info ← query env h Command.info_replication
      if answers_master info
          then pure (some h, h ∷ opened)
          else find_promoted password port hosts (h ∷ opened)

  unfoldable pub wait_promoted : ℕ → Bytes → ℕ → List Bytes → List Bytes → M (Option Bytes)
  wait_promoted zero password port hosts opened = pure none
  wait_promoted (suc rounds) password port hosts opened = do
    found ← find_promoted password port hosts opened
    elim found.0 [
      | some h ↦ pure (some h)
      | none ↦ wait_promoted rounds password port hosts found.1
    ]

  unfoldable pub demote : Bytes → ℕ → Option Bytes → M (Option HandoverError)
  demote master port none = pure (some HandoverError.not_promoted)
  demote master port (some promoted) = do
    ok ← command env master (Command.replica_of promoted port)
    pure (if ok then none else some HandoverError.replica_of_failed)

  -- What happens while the writes are paused.
  unfoldable pub hand_over_paused :
      HandoverTimings → Bytes → Bytes → List Bytes → ℕ → M (Option HandoverError)
  hand_over_paused t password master replicas port = do
    ready ← wait_caught_up t.catch_up_rounds master
    if not ready then pure (some HandoverError.not_caught_up) else do
      error ← issue_sentinel_failover password
      if is_refused error then pure (some HandoverError.failover_failed) else do
        promoted ← wait_promoted t.promote_rounds password port replicas []
        demote master port promoted

  unfoldable pub with_pause : Bytes → M (Option HandoverError) → M (Option HandoverError)
  with_pause master body = do
    error ← body
    ok ← command env master Command.client_unpause
    pure (or_unpause error ok)

  -- handOverMaster.
  unfoldable pub hand_over_master :
      HandoverTimings → Bytes → Bytes → List Bytes → ℕ → M (Option HandoverError)
  hand_over_master t password master replicas port =
      if is_empty master || length replicas == 0 then pure (some HandoverError.no_target) else do
        connected ← dial_repl_client env master port password
        if not connected then pure (some HandoverError.dial_failed) else do
          info ← query env master Command.info_replication
          if not (answers_linked (length replicas) info)
              then pure (some HandoverError.not_linked)
              else do
                paused ← command env master (Command.client_pause_write t.pause)
                if not paused
                    then pure (some HandoverError.pause_failed)
                    else with_pause master (hand_over_paused t password master replicas port)

  -- sentinelHandover.
  unfoldable pub sentinel_handover : Bytes → List PodRole → Bytes → M (Option HandoverError)
  sentinel_handover password survey master = do
    vc ← object
    hand_over_master sentinel_handover_timings password (master_host vc master survey [])
        (replica_hosts vc master survey) (data_port vc)
