-- ===== src/Failover/Manual.antt =====
-- internal/controller/failover.go: manualFailover, the promotion that an operator asks for.
pub mod Enforced
pub mod Outcome
use wellcake.Common.{
  Bytes, codes, Option, none, some, Bool, true, false, not, List, [], ◌∷◌, ◌≡◌, refl, if◌then◌else◌,
  ◌&&◌, eqb, is_empty, In,
}
use wellcake.Api.{ValkeyCluster, map_get}
use wellcake.Naming.{pod_name}
use wellcake.Info.{data_port, role_slave}
use wellcake.Failover.{PodRole}
use wellcake.Failover.Run.{enforce_replication}
use wellcake.Failover.Targets.{best_target}
use wellcake.Runtime.{
  Env, M, pure, ◌>>=◌, ◌>>◌, object, perform, set_status, dial_repl_client, command, Command,
  patch_status,
}

-- The pod that the annotation names, where it is a replica that answers.
unfoldable pub named_target : ValkeyCluster → List PodRole → Bytes → Option PodRole
named_target vc [] name = none
named_target vc (s ∷ survey) name =
    let later = named_target vc survey name in
    if eqb (pod_name vc s.ordinal) name
    then (if s.reachable && eqb s.role role_slave then some s else none)
    else later

-- pickFailoverTarget.
unfoldable pub pick_failover_target : ValkeyCluster → List PodRole → Bytes → Option PodRole
pick_failover_target vc survey name =
    if not (is_empty name)
    then named_target vc survey name
    else best_target (λ ord. true) survey none

module _ (env : Env) where
  unfoldable pub promote_target : Bytes → List PodRole → Bytes → Option PodRole → M Bytes
  promote_target password survey token none = pure []
  promote_target password survey token (some target) = do
    vc ← object
    let port = data_port vc
    connected ← dial_repl_client env target.host port password
    if not connected then pure [] else do
      promoted ← command env target.host Command.replica_of_no_one
      if not promoted then pure [] else do
        enforce_replication env password port target survey
        now ← object
        set_status (record now.status { last_failover_token = token })
        perform (patch_status (record now.status { last_failover_token = token }))
        pure (pod_name vc target.ordinal)

  -- manualFailover: the new primary, or "" where nothing was done.
  unfoldable pub manual_failover : Bytes → List PodRole → Bytes → M Bytes
  manual_failover password survey token = do
    vc ← object
    promote_target password survey token (
        pick_failover_target vc survey
          (map_get vc.annotations (codes "valkey.wellcake.io/failover-target")))
