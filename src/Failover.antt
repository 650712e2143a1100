-- ===== src/Failover.antt =====
-- internal/controller/failover.go: the survey of a replication set, and the failover of its
-- primary: what is read, and how a pod is chosen.
pub mod Targets
pub mod Run
pub mod Manual
pub mod Masters
pub mod Replicas
pub mod Reads
pub mod Safety
pub mod Debounce
pub mod Promotion
use wellcake.Common.{
  ℕ, suc, ◌+◌, Bytes, codes, Option, none, some, Bool, true, false, not, List, [], ◌∷◌, ◌++◌,
  if◌then◌else◌, ◌&&◌, ◌||◌, eqb, is_empty, ltb, leb, ℤ, pos, ltb_ℤ, eqb_ℤ, parse_int32,
  parse_int64,
}
use wellcake.Api.{ValkeyCluster, Status, map_get}
use wellcake.Sizing.{range_int32}
use wellcake.Naming.{pod_name, ordinal_name, fqdn, stateful_set_name, headless_service_name}
use wellcake.Info.{parse_info, InfoMap, number_or, data_port, role_master, role_slave}
use wellcake.Runtime.{
  Env, M, pure, ◌>>=◌, ◌>>◌, object, perform, set_status, dial_repl_client, query, command, clock,
  Command, patch_status,
}

-- podRole. `role` is "master", "slave" or anything else.
pub record PodRole : Type 0 where
  pub ordinal : ℤ
  pub host : Bytes
  pub role : Bytes
  pub master_host : Bytes
  pub master_port : ℤ
  pub master_link : Bytes
  pub offset : ℤ
  pub keys : ℤ
  pub reachable : Bool

unfoldable pub blank_role : ℤ → Bytes → PodRole
blank_role i host = record {
  ordinal = i;
  host = host;
  role = [];
  master_host = [];
  master_port = pos 0;
  master_link = [];
  offset = pos 0;
  keys = pos 0;
  reachable = false;
}

offset_of : InfoMap → Bytes → ℤ
offset_of info role =
    if eqb role role_master
    then number_or (pos 0) (parse_int64 (map_get info (codes "master_repl_offset")))
    else if eqb role role_slave
    then number_or (pos 0) (parse_int64 (map_get info (codes "slave_repl_offset")))
    else pos 0

with_info : Option Bytes → PodRole → PodRole
unfolding offset_of
with_info none role = role
with_info (some text) role =
    let info = parse_info text in
    let name = map_get info (codes "role") in
    record role {
      role = name;
      master_host = map_get info (codes "master_host");
      master_link = map_get info (codes "master_link_status");
      master_port = number_or (pos 0) (parse_int32 (map_get info (codes "master_port")));
      offset = offset_of info name;
    }

with_keys : Option Bytes → PodRole → PodRole
with_keys none role = role
with_keys (some text) role = record role { keys = number_or (pos 0) (parse_int64 text) }

module _ (env : Env) where
  -- One round of the loop of surveyReplication.
  unfoldable pub survey_pod : Bytes → ℤ → M PodRole
  unfolding with_info with_keys blank_role
  survey_pod password i = do
    vc ← object
    let host = fqdn (ordinal_name (stateful_set_name vc) i) (headless_service_name vc) vc.namespace
    connected ← dial_repl_client env host (data_port vc) password
    if not connected then pure (blank_role i host) else do
      info ← query env host Command.info_replication
      size ← query env host Command.dbsize
      pure (with_keys size (with_info info (record (blank_role i host) { reachable = true })))

  unfoldable pub survey_pods : Bytes → List ℕ → M (List PodRole)
  unfolding survey_pod
  survey_pods password [] = pure []
  survey_pods password (i ∷ rest) = do
    role ← survey_pod password (pos i)
    others ← survey_pods password rest
    pure (role ∷ others)

  -- surveyReplication.
  unfoldable pub survey_replication : Bytes → M (List PodRole)
  unfolding survey_pods range_int32
  survey_replication password = do vc ← object; survey_pods password (range_int32 vc.spec.replicas)

-- What the loop of reconcileFailover collects.
pub record Scan : Type 0 where
  pub reachable : ℕ
  pub masters : List PodRole
  pub best_replica : Option PodRole

-- The replica with more data, or with as much data and a higher offset.
unfoldable pub better_replica : PodRole → Option PodRole → Bool
better_replica s none = true
better_replica s (some b) = ltb_ℤ b.keys s.keys || (eqb_ℤ s.keys b.keys && ltb_ℤ b.offset s.offset)

unfoldable pub scan_pod : PodRole → Scan → Scan
scan_pod s acc =
    if not s.reachable
    then acc
    else if eqb s.role role_master
    then record acc { reachable = suc acc.reachable; masters = acc.masters ++ s ∷ [] }
    else if eqb s.role role_slave && better_replica s acc.best_replica
    then record acc { reachable = suc acc.reachable; best_replica = some s }
    else record acc { reachable = suc acc.reachable }

unfoldable pub scan_pods : List PodRole → Scan → Scan
scan_pods [] acc = acc
scan_pods (s ∷ survey) acc = scan_pods survey (scan_pod s acc)

unfoldable pub scan : List PodRole → Scan
unfolding scan_pods
scan survey = scan_pods survey (record { reachable = 0; masters = []; best_replica = none })

-- betterMaster: more data, then the pod that status names, then the lower ordinal.
unfoldable pub better_master : ValkeyCluster → PodRole → PodRole → Bool
better_master vc a b =
    let a_primary = eqb (pod_name vc a.ordinal) vc.status.primary in
    let b_primary = eqb (pod_name vc b.ordinal) vc.status.primary in
    if not (eqb_ℤ a.keys b.keys)
    then ltb_ℤ b.keys a.keys
    else if a_primary
    then (if b_primary then ltb_ℤ a.ordinal b.ordinal else true)
    else if b_primary
    then false
    else ltb_ℤ a.ordinal b.ordinal

-- pickAuthoritativeMaster, of masters[0] and the rest.
unfoldable pub pick_authoritative_master : ValkeyCluster → PodRole → List PodRole → PodRole
pick_authoritative_master vc best [] = best
pick_authoritative_master vc best (m ∷ masters) =
    pick_authoritative_master vc (if better_master vc m best then m else best) masters
