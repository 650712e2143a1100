-- ===== src/Labels/Roles.antt =====
-- Which labels ensureRoleLabels writes (internal/controller/primary_service.go).
use wellcake.Common.{
  Bytes, ◌≡◌, ◌⊎◌, inl, inr, refl, true, false, Bool-cases, List, [], ◌∷◌, some, In, here, there,
  eqb, is_empty,
}
use mathlib.Core.Path.{subst}
use wellcake.Labels.{wanted_role, current_role, label_pods, label_listed, ensure_role_labels}
use wellcake.Naming.{labels_for}
use wellcake.Runtime.{
  Env, World, Effect, History, Pod, list_pods, label_pod, pure, ◌>>=◌, object, ask, perform,
}
use wellcake.Runtime.Emits.{In-Extends, Extends, same, more, Extends-trans, Extends-map}

abbrev pub Labels : List Pod → Bytes → Effect → Type 0
Labels pods primary e =
    (p : Pod) × In p pods
    × (e ≡ label_pod p.name (wanted_role primary p))
    × (eqb (current_role p) (wanted_role primary p) ≡ false)

-- The pod has its role, or gets it in one of the effects.
abbrev pub IsLabelled : Bytes → History → Pod → Type 0
IsLabelled primary h p =
    (eqb (current_role p) (wanted_role primary p) ≡ true)
    ⊎ In (label_pod p.name (wanted_role primary p)) h

labels :
    (pods : List Pod) (primary : Bytes) (w : World)
    → Extends (Labels pods primary) w.effects (label_pods primary pods w).1.effects
      × ((p : Pod) → In p pods → IsLabelled primary (label_pods primary pods w).1.effects p)
unfolding label_pods ◌>>=◌ perform pure
labels [] primary w = (same, λ p i. elim i [ ])
labels (p ∷ pods) primary w = elim (Bool-cases (eqb (current_role p) (wanted_role primary p))) [
  | inl right ↦
      let (x, l) = labels pods primary w in
      rw right (
        Extends-map widen x,
        λ q i. elim i [ here e ↦ subst (IsLabelled primary _) e (inl right) | there j ↦ l q j ],
      )
  | inr wrong ↦
      let (x, l) = labels pods primary written in
      rw wrong (
        Extends-trans (more (p, here refl, refl, wrong) same) (Extends-map widen x),
        λ q i. elim i [
          | here e ↦ subst (IsLabelled primary _) e (inr (In-Extends x (here refl)))
          | there j ↦ l q j
        ],
      )
]
  where
    written : World
    written = record w { effects = label_pod p.name (wanted_role primary p) ∷ w.effects }

    widen : (e : Effect) → Labels pods primary e → Labels (p ∷ pods) primary e
    widen e (q, i, r, k) = (q, there i, r, k)

-- Where a primary is known and the pods can be listed, ensureRoleLabels labels listed pods alone,
-- each with the role that it should have and lacks, and each listed pod has its role or got it
-- written.
pub ensure_role_labels-IsRight :
    (env : Env) (primary : Bytes) (w : World)
    → is_empty primary ≡ false
    → (pods : List Pod) → env.pods (list_pods (labels_for w.vc) ∷ w.effects) ≡ some pods
    → let r = (ensure_role_labels env primary w).1.effects in
      Extends (Labels pods primary) (list_pods (labels_for w.vc) ∷ w.effects) r
      × ((p : Pod) → In p pods → IsLabelled primary r p)
unfolding ensure_role_labels label_listed ◌>>=◌ object ask pure
ensure_role_labels-IsRight env primary w known pods listed =
    rw (known, listed)
      (labels pods primary (record w { effects = list_pods (labels_for w.vc) ∷ w.effects }))
