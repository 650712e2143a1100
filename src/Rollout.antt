-- ===== src/Rollout.antt =====
-- internal/controller/rollout.go: the restart of a replication set, pod by pod.
pub mod Sorting
pub mod Decision
pub mod Run
pub mod Order
pub mod Shards
use wellcake.Common.{
  Bytes, codes, Option, none, some, Bool, true, false, not, List, [], ◌∷◌, ◌++◌, if◌then◌else◌,
  ◌&&◌, ◌||◌, eqb, is_empty, ℤ, eqb_ℤ, ltb_ℤ, keep, exists, every, parse_bool, sort_by,
}
use wellcake.Api.{ValkeyCluster, map_get}
use wellcake.Naming.{ordinal_from_pod_name, stateful_set_name}
use wellcake.Info.{role_slave}
use wellcake.Failover.{PodRole}
use wellcake.Failover.Targets.{best_target}
use wellcake.Runtime.{
  Env, M, pure, ◌>>=◌, object, ask, Pod, Condition, Answer, Kind, delete, list_pods,
}

-- rolloutPod.
pub record RolloutPod : Type 0 where
  pub name : Bytes
  pub ordinal : ℤ
  pub revision : Bytes
  pub ready : Bool

-- proactiveRolloutEnabled.
is_true : Option Bool → Bool
is_true none = false
is_true (some v) = v

unfoldable pub proactive_rollout_enabled : ValkeyCluster → Bool
unfolding is_true
proactive_rollout_enabled vc =
    is_true (parse_bool (map_get vc.annotations (codes "valkey.wellcake.io/proactive-rollout")))

-- podIsReady: the first condition of type Ready counts.
unfoldable pub has_ready : List Condition → Bool
has_ready [] = false
has_ready (c ∷ rest) =
    if eqb c.kind (codes "Ready") then eqb c.status (codes "True") else has_ready rest

unfoldable pub pod_is_ready : Pod → Bool
unfolding has_ready
pod_is_ready p = has_ready p.conditions

-- The loop of listRolloutPods: no pod that is going away, and none of another StatefulSet.
unfoldable pub rollout_pod : Pod → Option ℤ → List RolloutPod
rollout_pod p none = []
rollout_pod p (some ord) =
    record {
      name = p.name;
      ordinal = ord;
      revision = map_get p.labels (codes "controller-revision-hash");
      ready = pod_is_ready p;
    }
    ∷ []

unfoldable pub rollout_pods : Bytes → List Pod → List RolloutPod
rollout_pods sts [] = []
rollout_pods sts (p ∷ rest) =
    (if p.deleting then [] else rollout_pod p (ordinal_from_pod_name p.name sts))
    ++ rollout_pods sts rest

abbrev pub instance_label : Bytes
instance_label = codes "app.kubernetes.io/instance"

unfoldable pub map_pods : Bytes → Option (List Pod) → Option (List RolloutPod)
map_pods sts none = none
map_pods sts (some pods) = some (rollout_pods sts pods)

unfoldable pub is_gone : Answer (Unit {0}) → Bool
is_gone Answer.failed = false
is_gone Answer.not_found = true
is_gone (Answer.found x) = true

module _ (env : Env) where
  -- listRolloutPods.
  unfoldable pub list_rollout_pods : M (Option (List RolloutPod))
  list_rollout_pods = do
    vc ← object
    pods ← ask (list_pods ((instance_label, vc.name) ∷ [])) env.pods
    pure (map_pods (stateful_set_name vc) pods)

  -- deletePodByName: whether the pod is gone afterwards or going.
  unfoldable pub delete_pod_by_name : Bytes → M Bool
  delete_pod_by_name name = do
    answer ← ask (delete Kind.pod name) (λ h. env.accepts h (delete Kind.pod name))
    pure (is_gone answer)

unfoldable pub is_stale : Bytes → RolloutPod → Bool
is_stale revision p = not (eqb p.revision revision)

-- rolloutAction, with the pod where there is one.
pub data RolloutAction : Type 0 where
  rollout_none : RolloutAction
  rollout_wait : RolloutAction
  rollout_roll_replica : Bytes → RolloutAction
  rollout_promote : Bytes → RolloutAction

-- sort.Slice by ordinal.
abbrev pub lower_ordinal : RolloutPod → RolloutPod → Bool
lower_ordinal a b = ltb_ℤ a.ordinal b.ordinal

unfoldable pub sort_by_ordinal : List RolloutPod → List RolloutPod
sort_by_ordinal pods = sort_by lower_ordinal pods

unfoldable pub first_replica : Bytes → List RolloutPod → RolloutAction
first_replica primary [] = RolloutAction.rollout_promote primary
first_replica primary (p ∷ rest) =
    let later = first_replica primary rest in
    if not (eqb p.name primary) then RolloutAction.rollout_roll_replica p.name else later

-- nextRolloutStep.
unfoldable pub next_rollout_step : List RolloutPod → Bytes → Bytes → RolloutAction
next_rollout_step [] revision primary = RolloutAction.rollout_none
next_rollout_step (p ∷ rest) revision primary =
    let pods = p ∷ rest in
    if is_empty revision
    then RolloutAction.rollout_none
    else if not (exists (is_stale revision) pods)
    then RolloutAction.rollout_none
    else if not (every (λ x. x.ready) pods)
    then RolloutAction.rollout_wait
    else first_replica primary (sort_by_ordinal (keep (is_stale revision) pods))

-- bestRolloutTarget: a pod of the new revision that is Ready, by ordinal.
unfoldable pub is_fresh_ready : Bytes → Bytes → RolloutPod → Bool
is_fresh_ready revision primary p = eqb p.revision revision && p.ready && not (eqb p.name primary)

unfoldable pub fresh_ready : List RolloutPod → Bytes → Bytes → ℤ → Bool
fresh_ready pods revision primary ord =
    exists (λ p. is_fresh_ready revision primary p && eqb_ℤ p.ordinal ord) pods

unfoldable pub best_rollout_target : List PodRole → List RolloutPod → Bytes → Bytes → Option PodRole
best_rollout_target survey pods revision primary =
    best_target (fresh_ready pods revision primary) survey none
