-- ===== src/Labels.antt =====
-- internal/controller/primary_service.go: the role labels that the Services select by.
pub mod Roles
use wellcake.Common.{
  Bytes, codes, Option, none, some, Bool, true, false, List, [], ◌∷◌, if◌then◌else◌, eqb, is_empty,
}
use wellcake.Api.{map_get}
use wellcake.Naming.{labels_for}
use wellcake.Runtime.{Env, M, Pod, list_pods, label_pod, pure, ◌>>=◌, ◌>>◌, object, ask, perform}

unfoldable pub wanted_role : Bytes → Pod → Bytes
wanted_role primary p = if eqb p.name primary then codes "primary" else codes "replica"

abbrev pub current_role : Pod → Bytes
current_role p = map_get p.labels (codes "valkey.wellcake.io/role")

-- The loop of ensureRoleLabels; a failed patch is only logged.
unfoldable pub label_pods : Bytes → List Pod → M (Unit {0})
label_pods primary [] = pure tt
label_pods primary (p ∷ rest) =
    let next = label_pods primary rest in
    if eqb (current_role p) (wanted_role primary p)
    then next
    else (do perform (label_pod p.name (wanted_role primary p)); next)

unfoldable pub label_listed : Bytes → Option (List Pod) → M Bool
label_listed primary none = pure false
label_listed primary (some pods) = do label_pods primary pods; pure true

-- ensureRoleLabels: whether it returns no error.
unfoldable pub ensure_role_labels : Env → Bytes → M Bool
ensure_role_labels env primary =
    if is_empty primary
    then pure true
    else do vc ← object; pods ← ask (list_pods (labels_for vc)) env.pods; label_listed primary pods
