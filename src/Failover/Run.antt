-- ===== src/Failover/Run.antt =====
-- internal/controller/failover.go: reconcileFailover and manualFailover, with the debounce, the
-- promotion and the retargeting that they call.
use wellcake.Common.{
  ℕ, ◌+◌, Bytes, codes, Option, none, some, Bool, false, not, List, [], ◌∷◌, if◌then◌else◌, ◌&&◌,
  ◌||◌, eqb, ltb, leb, pos, ltb_ℤ, eqb_ℤ,
}
use wellcake.Naming.{pod_name}
use wellcake.Info.{data_port, role_slave}
use wellcake.Failover.{PodRole, scan, pick_authoritative_master}
use wellcake.Runtime.{
  Env, M, pure, ◌>>=◌, ◌>>◌, object, perform, set_status, dial_repl_client, command, clock, Command,
  patch_status,
}

-- downElapsed.
unfoldable pub down_elapsed : ℕ → ℕ → ℕ → Bool
down_elapsed since now threshold = leb (since + threshold) now

-- failoverDownAfter, in nanoseconds.
abbrev pub failover_down_after : ℕ
failover_down_after = 20000000000

module _ (env : Env) where
  -- setPrimaryDown: a failed patch is only logged.
  unfoldable pub set_primary_down : Option ℕ → M (Unit {0})
  set_primary_down t = do
    vc ← object
    set_status (record vc.status { primary_down_since = t })
    perform (patch_status (record vc.status { primary_down_since = t }))

  unfoldable pub clear_down : Option ℕ → M (Unit {0})
  clear_down none = pure tt
  clear_down (some t) = set_primary_down none

  -- clearPrimaryDown.
  unfoldable pub clear_primary_down : M (Unit {0})
  clear_primary_down = do vc ← object; clear_down vc.status.primary_down_since

  unfoldable pub down_long_enough : Option ℕ → M Bool
  down_long_enough none = do now ← clock env; set_primary_down (some now); pure false
  down_long_enough (some since) = do
    now ← clock env
    pure (down_elapsed since now failover_down_after)

  -- primaryDownLongEnough.
  unfoldable pub primary_down_long_enough : M Bool
  primary_down_long_enough = do vc ← object; down_long_enough vc.status.primary_down_since

-- The test of enforceReplication: pods that are left alone.
unfoldable pub in_place : PodRole → PodRole → Bool
in_place primary s =
    not s.reachable
    || eqb_ℤ s.ordinal primary.ordinal
    || (eqb s.role role_slave && eqb s.master_host primary.host && eqb s.master_link (codes "up"))

-- The empty-master guard: the chosen master holds nothing and a replica holds data.
unfoldable pub data_replica : PodRole → Option PodRole → Option PodRole
data_replica chosen none = none
data_replica chosen (some b) =
    if eqb_ℤ chosen.keys (pos 0) && ltb_ℤ (pos 0) b.keys then some b else none

module _ (env : Env) where
  unfoldable pub retarget : Bytes → ℕ → PodRole → PodRole → M (Unit {0})
  retarget password port primary s = do
    connected ← dial_repl_client env s.host port password
    if not connected
        then pure tt
        else do command env s.host (Command.replica_of primary.host port); pure tt

  -- enforceReplication: errors are only logged.
  unfoldable pub enforce_replication : Bytes → ℕ → PodRole → List PodRole → M (Unit {0})
  enforce_replication password port primary [] = pure tt
  enforce_replication password port primary (s ∷ survey) = do
    if in_place primary s then pure tt else retarget password port primary s
    enforce_replication password port primary survey

  -- promoteReplica: the new primary, or status.primary where the promotion was not issued.
  unfoldable pub promote_replica : Bytes → List PodRole → PodRole → M Bytes
  promote_replica password survey target = do
    vc ← object
    let port = data_port vc
    connected ← dial_repl_client env target.host port password
    if not connected then pure vc.status.primary else do
      promoted ← command env target.host Command.replica_of_no_one
      if not promoted
          then pure vc.status.primary
          else do enforce_replication password port target survey; pure (pod_name vc target.ordinal)

  unfoldable pub adopt_or_promote : Bytes → List PodRole → PodRole → Option PodRole → M Bytes
  adopt_or_promote password survey chosen (some b) = promote_replica password survey b
  adopt_or_promote password survey chosen none = do
    vc ← object
    enforce_replication password (data_port vc) chosen survey
    pure (pod_name vc chosen.ordinal)

  -- No master answers: the debounce, then the promotion of the best replica.
  unfoldable pub promote_after_debounce : Bytes → List PodRole → Option PodRole → M Bytes
  promote_after_debounce password survey none = do vc ← object; pure vc.status.primary
  promote_after_debounce password survey (some b) = do
    elapsed ← primary_down_long_enough env
    if not elapsed
        then (do vc ← object; pure vc.status.primary)
        else do clear_primary_down env; promote_replica password survey b

  unfoldable pub with_masters : Bytes → List PodRole → List PodRole → Option PodRole → M Bytes
  with_masters password survey [] best = promote_after_debounce password survey best
  with_masters password survey (m ∷ masters) best = do
    clear_primary_down env
    vc ← object
    let chosen = pick_authoritative_master vc m masters
    adopt_or_promote password survey chosen (data_replica chosen best)

  -- reconcileFailover: the pod that counts as the primary afterwards.
  unfoldable pub reconcile_failover : Bytes → List PodRole → M Bytes
  reconcile_failover password survey = do
    vc ← object
    let seen = scan survey
    if ltb seen.reachable 2
        then pure vc.status.primary
        else with_masters password survey seen.masters seen.best_replica
