-- ===== src/Tests/Labels.antt =====
-- The role labels after a failover from pod 0 to pod 1.
use wellcake.Common.{refl, List, [], ◌∷◌, codes, Bytes, false, some, In, is_empty}
use wellcake.Naming.{labels_for}
use wellcake.Labels.{ensure_role_labels}
use wellcake.Labels.Roles.{Labels, IsLabelled, ensure_role_labels-IsRight}
use wellcake.Runtime.{Env, Pod, list_pods}
use wellcake.Runtime.Emits.{Extends}
use wellcake.Tests.Samples.{calm, fresh}

abbrev labelled : Bytes → Bytes → Pod
labelled name role = record {
  name = name;
  phase = codes "Running";
  node_name = codes "n1";
  conditions = [];
  labels = (codes "valkey.wellcake.io/role", role) ∷ [];
  ip = [];
  deleting = false;
}

abbrev two_pods : List Pod
two_pods =
    labelled (codes "demo-0") (codes "primary") ∷ labelled (codes "demo-1") (codes "replica") ∷ []

abbrev listing : Env
listing = record calm { pods = λ h. some two_pods }

ensure_role_labels-IsRight_example :
    Extends
      (Labels two_pods (codes "demo-1"))
      (list_pods (labels_for fresh.vc) ∷ fresh.effects)
      (ensure_role_labels listing (codes "demo-1") fresh).1.effects
    × ((p : Pod)
        → In p two_pods
        → IsLabelled
            (codes "demo-1")
            (ensure_role_labels listing (codes "demo-1") fresh).1.effects
            p)
ensure_role_labels-IsRight_example =
    ensure_role_labels-IsRight listing (codes "demo-1") fresh (unfold is_empty in refl) two_pods
      refl
