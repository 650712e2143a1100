-- ===== src/Rotation.antt =====
-- internal/controller/password_rotation.go: the new password on the pods, with the Sentinels of
-- sentinel.go (rotateSentinelPassword).
pub mod Accepted
pub mod Passes
pub mod Achieves
pub mod Order
pub mod Run
pub mod Questions
pub mod Finish
pub mod Secret
use wellcake.Common.{
  ℕ, ◌+◌, ◌*◌, Bytes, codes, Option, none, some, Bool, true, false, not, List, [], ◌∷◌, ◌++◌, map,
  if◌then◌else◌, pos,
}
use wellcake.Api.{ValkeyCluster, SentinelSpec, is_sentinel, is_standalone}
use wellcake.Sizing.{range_int32}
use wellcake.Naming.{cluster_data_pods, PodRef, sentinel_pod_fqdn}
use wellcake.Info.{data_port, tls_enabled}
use wellcake.Runtime.{Env, M, pure, ◌>>=◌, object, dial_repl_client, command, Command}

-- `if err := m; err != nil { return err }`, then the rest; true is no error.
unfoldable pub and_then : M Bool → M Bool → M Bool
and_then m rest = do ok ← m; if not ok then pure false else rest

-- managedNonDefaultUsers (resources.go): a name and its rules.
abbrev pub replication_acl_user : Bytes × Bytes
replication_acl_user = (codes "replicator", codes "+psync +replconf +ping")

abbrev pub sentinel_acl_user : Bytes × Bytes
sentinel_acl_user = (
  codes "sentinel-user",
  codes "&* +multi +slaveof +ping +exec +subscribe "
      ++ codes "+config|rewrite +role +publish +info +client|setname +client|kill +script|kill",
)

unfoldable pub managed_non_default_users : ValkeyCluster → List (Bytes × Bytes)
managed_non_default_users vc =
    (if not (is_standalone vc.spec.topology) then replication_acl_user ∷ [] else [])
    ++ (if is_sentinel vc.spec.topology then sentinel_acl_user ∷ [] else [])

-- sentinelListenPort.
unfoldable pub sentinel_listen_port : ValkeyCluster → ℕ
sentinel_listen_port vc = if tls_enabled vc then 26380 else 26379

-- The three steps on a Sentinel.
pub data Step : Type 0 where
  add switch cutover : Step

module _ (env : Env) where
  -- A connection with the old password, else with the new one.
  unfoldable pub dial_either : Bytes → ℕ → Bytes → Bytes → M Bool
  dial_either host port old new = do
    connected ← dial_repl_client env host port old
    if connected then pure true else dial_repl_client env host port new

  -- The closure onEachPod, of the pods that are left.
  unfoldable pub on_each_pod : Bytes → Bytes → (Bytes → M Bool) → List PodRef → M Bool
  on_each_pod old new fn [] = pure true
  on_each_pod old new fn (p ∷ pods) =
      and_then (do vc ← object; dial_either p.host (data_port vc) old new)
        (and_then (fn p.host) (on_each_pod old new fn pods))

  unfoldable pub set_users : Bytes → Bool → Bytes → List (Bytes × Bytes) → M Bool
  set_users new additive host [] = pure true
  set_users new additive host ((name, rules) ∷ users) =
      and_then (command env host (Command.acl_set_managed_user name rules new additive))
        (set_users new additive host users)

  -- The pass "add-new" on one pod.
  unfoldable pub add_new : Bytes → List (Bytes × Bytes) → Bytes → M Bool
  add_new new managed host = and_then (command env host (Command.acl_add_default_password new)) (
      and_then (set_users new true host managed)
        (command env host (Command.config_set (codes "masterauth") new)))

  -- The pass "cutover" on one pod.
  unfoldable pub cut_over : Bytes → List (Bytes × Bytes) → Bytes → M Bool
  cut_over new managed host = and_then (command env host (Command.acl_set_default_password new)) (
      and_then (set_users new false host managed) (
        and_then (command env host (Command.config_set (codes "requirepass") new))
          (command env host Command.acl_save)))

  unfoldable pub sentinel_step : Bytes → Step → Bytes → M Bool
  sentinel_step new Step.add host = command env host (Command.acl_add_default_password new)
  sentinel_step new Step.switch host =
      and_then (command env host (Command.sentinel_set (codes "mymaster") (codes "auth-pass") new))
        (command env host (Command.sentinel_config_set (codes "sentinel-pass") new))
  sentinel_step new Step.cutover host = command env host (Command.acl_set_default_password new)

  unfoldable pub rotate_sentinels : Bytes → Bytes → Step → List ℕ → M Bool
  rotate_sentinels old new step [] = pure true
  rotate_sentinels old new step (i ∷ rest) = do
    vc ← object
    let host = sentinel_pod_fqdn vc (pos i)
    and_then (dial_either host (sentinel_listen_port vc) old new)
        (and_then (sentinel_step new step host) (rotate_sentinels old new step rest))

  unfoldable pub rotate_with : Bytes → Bytes → Step → Bool → Option SentinelSpec → M Bool
  rotate_with old new step false spec = pure true
  rotate_with old new step true none = pure true
  rotate_with old new step true (some spec) =
      rotate_sentinels old new step (range_int32 spec.replicas)

  -- rotateSentinelPassword.
  unfoldable pub rotate_sentinel_password : Bytes → Bytes → Step → M Bool
  rotate_sentinel_password old new step = do
    vc ← object
    rotate_with old new step (is_sentinel vc.spec.topology) vc.spec.sentinel

  -- applyPasswordToPods.
  unfoldable pub apply_passes : Bytes → Bytes → List PodRef → List (Bytes × Bytes) → M Bool
  apply_passes old new pods managed = and_then (on_each_pod old new (add_new new managed) pods) (
      and_then (rotate_sentinel_password old new Step.add) (
        and_then (rotate_sentinel_password old new Step.switch) (
          and_then (on_each_pod old new (cut_over new managed) pods)
            (rotate_sentinel_password old new Step.cutover))))

  unfoldable pub apply_password_to_pods : Bytes → Bytes → M Bool
  apply_password_to_pods old new = do
    vc ← object
    apply_passes old new (cluster_data_pods vc) (managed_non_default_users vc)
