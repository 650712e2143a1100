-- ===== src/Cluster.antt =====
-- internal/controller/cluster.go: the nodes that CLUSTER NODES lists, and the shards they form.
pub mod Scaling
pub mod Slots
pub mod Survey
pub mod Shards
pub mod Quiet
use wellcake.Common.{
  ℕ, suc, ◌+◌, ◌-◌, Bytes, codes, Option, none, some, Bool, true, false, not, List, [], ◌∷◌, ◌++◌,
  if◌then◌else◌, ◌&&◌, ◌||◌, eqb, is_empty, ltb, length, drop, exists, keep, cut, split_on, fields,
  trim_space, has_prefix,
}
use wellcake.Naming.{pod_name_from_fqdn}
use wellcake.Info.{role_master}

-- clusterNode.
pub record ClusterNode : Type 0 where
  pub id : Bytes
  pub pod_name : Bytes
  pub flags : List Bytes
  pub master_id : Bytes
  pub slots : List Bytes
  pub link_state : Bytes

-- isMaster and isHealthy.
unfoldable pub is_master : ClusterNode → Bool
is_master n = exists (λ f. eqb f role_master) n.flags

unfoldable pub is_bad_flag : Bytes → Bool
is_bad_flag f = eqb f (codes "fail") || eqb f (codes "fail?") || eqb f (codes "noaddr")

unfoldable pub is_healthy : ClusterNode → Bool
unfolding is_bad_flag
is_healthy n =
    if not (eqb n.link_state (codes "connected")) then false else not (exists is_bad_flag n.flags)

-- The pod of an address "host:port@bus[,hostname]".
before_bus : Option (Bytes × Bytes) → Bytes
before_bus none = []
before_bus (some (before, after)) = pod_name_from_fqdn before

unfoldable pub address_pod : Option (Bytes × Bytes) → Bytes → Bytes
unfolding before_bus
address_pod (some (before, after)) addr = pod_name_from_fqdn after
address_pod none addr = before_bus (cut b'@' addr)

-- One line of CLUSTER NODES; a line with fewer than eight fields is skipped.
unfoldable pub parse_fields : List Bytes → List ClusterNode
unfolding address_pod
parse_fields (id ∷ addr ∷ flags ∷ master ∷ ping ∷ pong ∷ epoch ∷ link ∷ slots) =
    record {
      id = id;
      pod_name = address_pod (cut b',' addr) addr;
      flags = split_on b',' flags;
      master_id = if not (eqb master (codes "-")) then master else [];
      slots = keep (λ t. not (has_prefix t (codes "["))) slots;
      link_state = link;
    }
    ∷ []
parse_fields _ = []

unfoldable pub parse_lines : List Bytes → List ClusterNode
parse_lines [] = []
parse_lines (line ∷ rest) = parse_fields (fields line) ++ parse_lines rest

-- parseClusterNodes.
unfoldable pub parse_cluster_nodes : Bytes → List ClusterNode
unfolding parse_lines
parse_cluster_nodes raw = parse_lines (split_on 10 (trim_space raw))
