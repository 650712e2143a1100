-- ===== src/Webhook/Cluster.antt =====
-- The verdict on a ValkeyCluster (internal/webhook/v1beta1/valkeycluster_webhook.go).
use wellcake.Common.{
  Bytes, ◌≡◌, refl, sym, ap, ◌∙◌, ◌⊎◌, inl, inr, Bool, true, false, Bool-cases, ◌&&◌, List, [], ◌∷◌,
  ◌++◌, append-nil, In, here, there, Option, none, some, if◌then◌else◌,
}
use mathlib.Core.Path.{subst}
use wellcake.Api.{ValkeyCluster, is_cluster, is_sentinel}
use wellcake.Rotation.Accepted.{Grows}
use wellcake.Api.Defaults.{is_absent}
use wellcake.Webhook.{
  Rejection, Warning, Verdict, verdict, referenced_secrets, shape_error, has_placeholder,
  restores_cluster, restore_warnings, is_risky, is_acknowledged, check_risk, check_restore,
  check_shape, check_after, secret_error, check_secrets, or_check, validate,
}
use wellcake.Runtime.{Env, World, History, Answer, Kind, get, pure, ◌>>=◌, ask}
use wellcake.Runtime.Emits.{same, more}

-- What the API has answered for a Secret after w.
abbrev pub IsAnswered : Env → World → Bytes → Answer Bytes → Type 0
IsAnswered env w name a =
    (h : History) × Grows w.effects h × (env.secret (get Kind.secret name ∷ h) name ≡ a)

abbrev pub HasSecret : Env → World → Bytes → Type 0
HasSecret env w name = (x : Bytes) × IsAnswered env w name (Answer.found x)

-- Where the Secrets are there, the reason for which the object is rejected, and no reason.
abbrev pub IsShapeReason : ValkeyCluster → Bool → Rejection → Type 0
IsShapeReason vc is_create Rejection.shards_required =
    (is_cluster vc.spec.topology ≡ true) × (is_absent vc.spec.shards ≡ true)
IsShapeReason vc is_create Rejection.sentinel_required =
    (is_sentinel vc.spec.topology ≡ true) × (is_absent vc.spec.sentinel ≡ true)
IsShapeReason vc is_create Rejection.placeholder_required =
    (restores_cluster vc.spec ≡ true) × (has_placeholder vc.spec.restore_from ≡ false)
IsShapeReason vc is_create Rejection.risk_unacknowledged =
    (is_create ≡ true) × (is_risky vc.spec ≡ true) × (is_acknowledged vc ≡ false)
IsShapeReason vc is_create _ = ⊥

abbrev pub IsWellShaped : ValkeyCluster → Bool → Type 0
IsWellShaped vc is_create =
    ((is_cluster vc.spec.topology ≡ false) ⊎ (is_absent vc.spec.shards ≡ false))
    × ((is_sentinel vc.spec.topology ≡ false) ⊎ (is_absent vc.spec.sentinel ≡ false))
    × ((restores_cluster vc.spec ≡ false) ⊎ (has_placeholder vc.spec.restore_from ≡ true))
    × ((is_create ≡ false) ⊎ ((is_risky vc.spec ≡ false) ⊎ (is_acknowledged vc ≡ true)))

-- The verdict once every Secret is there.
abbrev pub IsShapeVerdict : ValkeyCluster → Bool → Verdict → Type 0
IsShapeVerdict vc is_create v =
    ((e : Rejection) × (v.error ≡ some e) × IsShapeReason vc is_create e)
    ⊎ ((v.error ≡ none)
        × IsWellShaped vc is_create
        × (v.warnings
            ≡ restore_warnings vc.spec
              ++ (if is_risky vc.spec then Warning.durability_risk ∷ [] else [])))

module _ (vc : ValkeyCluster) (is_create : Bool) where
  -- A verdict that the code gives is proved of its value.
  by_value :
      (v : Verdict) {v' : Verdict}
      → v' ≡ v
      → IsShapeVerdict vc is_create v
      → IsShapeVerdict vc is_create v'
  by_value v e h = subst (IsShapeVerdict vc is_create) (sym e) h

  warned :
      (b : Bool)
      → is_risky vc.spec ≡ b
      → restore_warnings vc.spec ++ (if b then Warning.durability_risk ∷ [] else [])
        ≡ restore_warnings vc.spec
          ++ (if is_risky vc.spec then Warning.durability_risk ∷ [] else [])
  warned b e =
      ap (λ c. restore_warnings vc.spec ++ (if c then Warning.durability_risk ∷ [] else [])) (sym e)

  risk :
      (is_cluster vc.spec.topology ≡ false) ⊎ (is_absent vc.spec.shards ≡ false)
      → (is_sentinel vc.spec.topology ≡ false) ⊎ (is_absent vc.spec.sentinel ≡ false)
      → (restores_cluster vc.spec ≡ false) ⊎ (has_placeholder vc.spec.restore_from ≡ true)
      → IsShapeVerdict vc is_create (check_risk vc is_create (restore_warnings vc.spec))
  unfolding check_risk
  risk shards sentinel restore = elim (Bool-cases (is_risky vc.spec)) [
    | inr safe ↦ by_value (verdict (restore_warnings vc.spec) none) (rw safe) (
        inr (
          refl,
          (shards, sentinel, restore, inr (inl safe)),
          sym (append-nil (restore_warnings vc.spec)) ∙ warned false safe,
        ))
    | inl risky ↦ elim (Bool-cases (is_acknowledged vc)) [
      | inl known ↦
          by_value (accepted) (rw (risky, known) (as_accepted is_create))
            (inr (refl, (shards, sentinel, restore, inr (inr known)), warned true risky))
      | inr unknown ↦ elim (Bool-cases is_create) [
        | inl new ↦
            by_value (verdict (restore_warnings vc.spec) (some Rejection.risk_unacknowledged))
              (rw (risky, unknown, new))
              (inl (Rejection.risk_unacknowledged, refl, (new, risky, unknown)))
        | inr old ↦
            by_value accepted (rw (risky, unknown, old))
              (inr (refl, (shards, sentinel, restore, inl old), warned true risky))
      ]
    ]
  ]
    where
      accepted : Verdict
      accepted = verdict (restore_warnings vc.spec ++ Warning.durability_risk ∷ []) none

      as_accepted :
          (b : Bool)
          → (if b && false
              then verdict (restore_warnings vc.spec) (some Rejection.risk_unacknowledged)
              else accepted)
            ≡ accepted
      as_accepted true = refl
      as_accepted false = refl

  restore :
      (is_cluster vc.spec.topology ≡ false) ⊎ (is_absent vc.spec.shards ≡ false)
      → (is_sentinel vc.spec.topology ≡ false) ⊎ (is_absent vc.spec.sentinel ≡ false)
      → IsShapeVerdict vc is_create (check_restore vc is_create)
  unfolding check_restore
  restore shards sentinel = elim (Bool-cases (restores_cluster vc.spec)) [
    | inr none_there ↦
        by_value (check_risk vc is_create (restore_warnings vc.spec)) (rw none_there)
          (risk shards sentinel (inl none_there))
    | inl some_there ↦ elim (Bool-cases (has_placeholder vc.spec.restore_from)) [
      | inl there_is ↦
          by_value (check_risk vc is_create (restore_warnings vc.spec)) (rw (some_there, there_is))
            (risk shards sentinel (inr there_is))
      | inr missing ↦
          by_value (verdict [] (some Rejection.placeholder_required)) (rw (some_there, missing))
            (inl (Rejection.placeholder_required, refl, (some_there, missing)))
    ]
  ]

  -- Two conditions that both hold, or one that does not.
  both : (a b : Bool) → ((a ≡ true) × (b ≡ true)) ⊎ ((a ≡ false) ⊎ (b ≡ false))
  both true true = inl (refl, refl)
  both true false = inr (inr refl)
  both false b = inr (inl refl)

  and-false : (a b : Bool) → (a ≡ false) ⊎ (b ≡ false) → (a && b) ≡ false
  and-false a b (inl e) = rw e
  and-false true b (inr e) = e
  and-false false b (inr e) = refl

  shape : IsShapeVerdict vc is_create (check_after vc is_create none)
  unfolding check_after check_shape shape_error
  shape = elim (both (is_cluster vc.spec.topology) (is_absent vc.spec.shards)) [
    | inl (c, a) ↦
        by_value (verdict [] (some Rejection.shards_required)) (rw (c, a))
          (inl (Rejection.shards_required, refl, (c, a)))
    | inr shards ↦ elim (both (is_sentinel vc.spec.topology) (is_absent vc.spec.sentinel)) [
      | inl (c, a) ↦
          by_value (verdict [] (some Rejection.sentinel_required)) (rw (and-false _ _ shards, c, a))
            (inl (Rejection.sentinel_required, refl, (c, a)))
      | inr sentinel ↦
          by_value (check_restore vc is_create) (rw (and-false _ _ shards, and-false _ _ sentinel))
            (restore shards sentinel)
    ]
  ]

-- A Secret that could not be read, or all of them were.
abbrev pub IsSecretsVerdict : Env → World → List Bytes → Option Rejection → Type 0
IsSecretsVerdict env w names r =
    ((n : Bytes) × (a : Answer Bytes) × (e : Rejection) × (r ≡ some e)
      × In n names
      × IsAnswered env w n a
      × (secret_error n a ≡ some e))
    ⊎ ((r ≡ none) × ((n : Bytes) → In n names → HasSecret env w n))

module _ (env : Env) (w : World) where
  later-IsSecretsVerdict :
      (m : Bytes) (names : List Bytes) (r : Option Rejection)
      → HasSecret env w m
      → IsSecretsVerdict env w names r
      → IsSecretsVerdict env w (m ∷ names) r
  later-IsSecretsVerdict m names r x (inl (n, a, e, q, i, k, l)) = inl (n, a, e, q, there i, k, l)
  later-IsSecretsVerdict m names r x (inr (q, all)) =
      inr (q, λ n i. elim i [ here e ↦ subst (HasSecret env w) e x | there j ↦ all n j ])

  pub check_secrets-IsSecretsVerdict :
      (names : List Bytes) (now : World)
      → Grows w.effects now.effects
      → IsSecretsVerdict env w names (check_secrets env names now).0
  unfolding check_secrets ◌>>=◌ ask pure
  check_secrets-IsSecretsVerdict [] now x = inr (refl, λ n i. elim i [ ])
  check_secrets-IsSecretsVerdict (m ∷ names) now x =
      reads (env.secret asked m) refl
        (check_secrets-IsSecretsVerdict names (record now { effects = asked }) (more tt x))
    where
      asked : History
      asked = get Kind.secret m ∷ now.effects

      reads :
          (a : Answer Bytes)
          → env.secret asked m ≡ a
          → IsSecretsVerdict env w names
              (check_secrets env names (record now { effects = asked })).0
          → IsSecretsVerdict env w
              (m ∷ names)
              (or_check
                (secret_error m a)
                (check_secrets env names)
                (record now { effects = asked })).0
      reads (Answer.found y) e later =
          unfold secret_error or_check pure in
          later-IsSecretsVerdict m names _ (y, (now.effects, x, e)) later
      reads Answer.not_found e later =
          unfold secret_error or_check pure in
          inl (m, Answer.not_found, _, refl, here refl, (now.effects, x, e), refl)
      reads Answer.failed e later =
          unfold secret_error or_check pure in
          inl (m, Answer.failed, _, refl, here refl, (now.effects, x, e), refl)

-- The verdict on a ValkeyCluster is a rejection for a Secret that the spec refers to and that the
-- API does not have or fails to give, or for a shape that is not allowed; or it is an admission, and
-- then every Secret that the spec refers to was there, Cluster has shards, Sentinel has its spec, a
-- restored Cluster has the placeholder, and a new object of the risky shape is acknowledged; and it
-- warns exactly of a manual restore and of the risky shape.
pub validate-IsVerdict :
    (env : Env) (vc : ValkeyCluster) (visited : List Bytes) (is_create : Bool) (w : World)
    → ((n : Bytes) → In n visited → In n (referenced_secrets vc.spec))
    → ((n : Bytes) → In n (referenced_secrets vc.spec) → In n visited)
    → let v = (validate env vc visited is_create w).0 in
      ((n : Bytes) × (a : Answer Bytes) × (e : Rejection) × (v.error ≡ some e)
        × In n (referenced_secrets vc.spec)
        × IsAnswered env w n a
        × (secret_error n a ≡ some e))
      ⊎ (((n : Bytes) → In n (referenced_secrets vc.spec) → HasSecret env w n)
          × IsShapeVerdict vc is_create v)
unfolding validate ◌>>=◌ pure
validate-IsVerdict env vc visited is_create w back forth =
    elim (check_secrets-IsSecretsVerdict env w visited w same) [
      | inl (n, a, e, q, i, k, s) ↦ inl (
        n,
        a,
        e,
        ap (λ o. (check_after vc is_create o).error) q ∙ (unfold check_after in refl),
        back n i,
        k,
        s,
      )
      | inr (q, all) ↦ inr (
        λ n i. all n (forth n i),
        subst (λ o. IsShapeVerdict vc is_create (check_after vc is_create o)) (sym q)
            (shape vc is_create),
      )
    ]
