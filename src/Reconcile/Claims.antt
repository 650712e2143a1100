-- ===== src/Reconcile/Claims.antt =====
-- internal/controller/valkeycluster_controller.go: ensurePVCSize, which grows the data volumes, and
-- ensureStatefulSet, which calls it. A size is the value of a quantity.
use wellcake.Common.{
  ℕ, Bytes, codes, Option, none, some, Bool, true, false, not, List, [], ◌∷◌, ◌++◌, if◌then◌else◌,
  ◌==◌, leb, eqb, has_prefix,
}
use wellcake.Api.{ValkeyCluster, Profile, StorageSpec}
use wellcake.Sizing.{stateful_set_replicas}
use wellcake.Naming.{stateful_set_name, sentinel_stateful_set_name}
use wellcake.Rollout.{instance_label}
use wellcake.Reconcile.{apply_stateful_set}
use wellcake.Runtime.{
  Env, M, StatefulSet, Claim, list_claims, grow_claim, pure, ◌>>=◌, ask, succeeds,
}

-- usesMemoryStorage (resources.go).
unfoldable pub uses_memory_storage : ValkeyCluster → Bool
uses_memory_storage vc = elim vc.spec.storage [
  | none ↦ false
  | some s ↦ eqb s.medium (codes "Memory")
]

-- The size in buildDataPVC (resources.go).
unfoldable pub default_data_size : Profile → Bytes
default_data_size Profile.cache = codes "1Gi"
default_data_size Profile.durable = codes "10Gi"
default_data_size Profile.unset = codes "10Gi"

unfoldable pub size_or : ℕ → ℕ → ℕ
size_or size default = if size == 0 then default else size

unfoldable pub data_size_with : Env → Profile → Option StorageSpec → ℕ
data_size_with env p none = env.quantity (default_data_size p)
data_size_with env p (some s) = size_or (env.quantity s.size) (env.quantity (default_data_size p))

unfoldable pub data_size : Env → ValkeyCluster → ℕ
data_size env vc = data_size_with env vc.spec.profile vc.spec.storage

-- The claims of the Sentinels, which the selector matches too.
unfoldable pub sentinel_claim_prefix : ValkeyCluster → Bytes
sentinel_claim_prefix vc = codes "data-" ++ (sentinel_stateful_set_name vc ++ codes "-")

-- The claims that the loop leaves alone.
unfoldable pub is_left : Bytes → ℕ → Claim → Bool
is_left prefix desired c = if has_prefix c.name prefix then true else leb desired c.size

module _ (env : Env) where
  -- The loop of ensurePVCSize: whether it returns no error.
  unfoldable pub grow_one : ℕ → Claim → M Bool
  grow_one desired c = do
    answer ← ask (grow_claim c.name desired) (λ h. env.accepts h (grow_claim c.name desired))
    pure (succeeds answer)

  unfoldable pub grow_claims : Bytes → ℕ → List Claim → M Bool
  grow_claims prefix desired [] = pure true
  grow_claims prefix desired (c ∷ claims) =
      let rest = grow_claims prefix desired claims in
      if is_left prefix desired c
      then rest
      else do ok ← grow_one desired c; if not ok then pure false else rest

  unfoldable pub grow_listed : Bytes → ℕ → Option (List Claim) → M Bool
  grow_listed prefix desired none = pure false
  grow_listed prefix desired (some claims) = grow_claims prefix desired claims

  unfoldable pub ensure_pvc_size : ValkeyCluster → M Bool
  ensure_pvc_size vc =
      if uses_memory_storage vc then pure true else if data_size env vc == 0 then pure true else do
        claims ← ask (list_claims ((instance_label, vc.name) ∷ [])) env.claims
        grow_listed (sentinel_claim_prefix vc) (data_size env vc) claims

  -- ensureStatefulSet.
  unfoldable pub after_sizes : ValkeyCluster → Option StatefulSet → M (Option StatefulSet)
  after_sizes vc none = pure none
  after_sizes vc (some sts) = do ok ← ensure_pvc_size vc; pure (if ok then some sts else none)

  unfoldable pub ensure_stateful_set : ValkeyCluster → M (Option StatefulSet)
  ensure_stateful_set vc = do
    sts ← apply_stateful_set env (stateful_set_name vc) (stateful_set_replicas vc)
    after_sizes vc sts
