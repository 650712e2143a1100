-- ===== src/Info.antt =====
-- internal/controller/failover.go: the replies of INFO and CLUSTER INFO as maps, and the port that
-- a cluster's pods are dialled on (resources.go).
use wellcake.Common.{
  ℕ, Bytes, codes, Option, none, some, Bool, false, List, [], ◌∷◌, if◌then◌else◌, ◌||◌, trim_space,
  split_on, has_prefix, cut, is_empty, ℤ,
}
use wellcake.Api.{ValkeyCluster}

abbrev pub InfoMap : Type 0
InfoMap = List (Bytes × Bytes)

-- A colon at the start of the line does not count.
add_field : Option (Bytes × Bytes) → InfoMap → InfoMap
add_field none out = out
add_field (some (key, value)) out = if is_empty key then out else (key, trim_space value) ∷ out

info_line : Bytes → InfoMap → InfoMap
unfolding add_field
info_line line out =
    if is_empty line || has_prefix line (codes "#") then out else add_field (cut b':' line) out

info_lines : List Bytes → InfoMap → InfoMap
unfolding info_line
info_lines [] out = out
info_lines (line ∷ rest) out = info_lines rest (info_line (trim_space line) out)

-- infoSection, of the reply's text.
unfoldable pub parse_info : Bytes → InfoMap
unfolding info_lines
parse_info text = info_lines (split_on 10 text) []

cluster_info_line : Bytes → InfoMap → InfoMap
unfolding add_field
cluster_info_line line out = if is_empty line then out else add_field (cut b':' line) out

cluster_info_lines : List Bytes → InfoMap → InfoMap
unfolding cluster_info_line
cluster_info_lines [] out = out
cluster_info_lines (line ∷ rest) out =
    cluster_info_lines rest (cluster_info_line (trim_space line) out)

-- clusterInfoMap, of the reply's text.
unfoldable pub parse_cluster_info : Bytes → InfoMap
unfolding cluster_info_lines
parse_cluster_info text = cluster_info_lines (split_on 10 text) []

-- A number that stays at its default where it does not parse.
unfoldable pub number_or : ℤ → Option ℤ → ℤ
number_or d none = d
number_or d (some n) = n

-- tlsEnabled, and the port that follows from it.
unfoldable pub tls_enabled : ValkeyCluster → Bool
tls_enabled vc = elim vc.spec.tls [ none ↦ false | some t ↦ t.enabled ]

unfoldable pub data_port : ValkeyCluster → ℕ
unfolding tls_enabled
data_port vc = if tls_enabled vc then 6380 else 6379

abbrev pub role_master : Bytes
role_master = codes "master"

abbrev pub role_slave : Bytes
role_slave = codes "slave"

abbrev pub role_primary : Bytes
role_primary = codes "primary"

abbrev pub role_replica : Bytes
role_replica = codes "replica"
