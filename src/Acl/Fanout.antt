-- ===== src/Acl/Fanout.antt =====
-- Which users applyACLFanout writes and drops (internal/controller/valkeyacl_controller.go).
use wellcake.Common.{
  ℕ, Bytes, ◌≡◌, refl, Bool, true, false, not, ◌||◌, List, [], ◌∷◌, In, here, there,
}
use wellcake.Api.{map_get}
use wellcake.Api.Acl.{AclUser, ValkeyAcl}
use wellcake.Acl.{
  is_reserved_acl_user, acl_user_arguments, has_name, is_dropped, set_acl_users, drop_acl_users,
  apply_on_target, apply_acl_fanout,
}
use wellcake.Runtime.{Env, World, Effect, Command, dial, send}
use wellcake.Runtime.Emits.{
  Emits, Extends, Emits-pure, Emits-bind, Emits-if, Emits-dial, Emits-command,
}

-- A write to a pod of the targets: a user of the spec with its arguments, a dropped user, or a save.
abbrev pub Writes : ValkeyAcl → List Bytes → List (Bytes × Bytes) → List Bytes → Effect → Type 0
Writes acl names passwords targets (dial host port password) = In host targets
Writes acl names passwords targets (send host (Command.acl_set_user n args)) =
    In host targets
    × ((u : AclUser) × In u acl.spec.users
        × (n ≡ u.name)
        × (args ≡ acl_user_arguments u (map_get passwords u.name)))
Writes acl names passwords targets (send host (Command.acl_del_user n)) =
    In host targets
    × (In n acl.status.applied_users
        × (has_name n names ≡ false)
        × (is_reserved_acl_user n ≡ false))
Writes acl names passwords targets (send host Command.acl_save) = In host targets
Writes acl names passwords targets _ = ⊥

dropped-parts :
    (names : List Bytes) (prev : Bytes)
    → not (is_dropped names prev) ≡ false
    → (has_name prev names ≡ false) × (is_reserved_acl_user prev ≡ false)
unfolding is_dropped
dropped-parts names prev h = parts (has_name prev names) (is_reserved_acl_user prev) h
  where
    parts : (a b : Bool) → not (not (a || b)) ≡ false → (a ≡ false) × (b ≡ false)
    parts true b h = cc
    parts false true h = cc
    parts false false h = (refl, refl)

module _ (env : Env) (acl : ValkeyAcl) (names : List Bytes) (passwords : List (Bytes × Bytes))
    (targets : List Bytes) where
  abbrev W : Effect → Type 0
  W = Writes acl names passwords targets

  set-Emits :
      (host : Bytes) (users : List AclUser)
      → In host targets
      → ((u : AclUser) → In u users → In u acl.spec.users)
      → Emits W (set_acl_users env host passwords users)
  unfolding set_acl_users
  set-Emits host [] t inside = Emits-pure tt
  set-Emits host (u ∷ users) t inside =
      Emits-bind _ _ (Emits-command env host _ (t, (u, inside u (here refl), refl, refl)))
        (λ _. set-Emits host users t (λ v i. inside v (there i)))

  drop-Emits :
      (host : Bytes) (applied : List Bytes)
      → In host targets
      → ((n : Bytes) → In n applied → In n acl.status.applied_users)
      → Emits W (drop_acl_users env host names applied)
  unfolding drop_acl_users
  drop-Emits host [] t inside = Emits-pure tt
  drop-Emits host (prev ∷ applied) t inside =
      let later = drop-Emits host applied t (λ n i. inside n (there i)) in
      Emits-if (not (is_dropped names prev)) _ _ (λ _. later)
        (λ e.
          Emits-bind _ _
            (Emits-command env host _ (
              t,
              (
                inside prev (here refl),
                (dropped-parts names prev e).0,
                (dropped-parts names prev e).1,
              ),
            ))
            (λ _. later))

  target-Emits :
      (host : Bytes) → In host targets → Emits W (apply_on_target env acl names passwords host)
  unfolding apply_on_target
  target-Emits host t = Emits-bind _ _ (set-Emits host acl.spec.users t (λ u i. i)) (λ _.
      Emits-bind _ _ (drop-Emits host acl.status.applied_users t (λ n i. i))
        (λ _. Emits-bind _ _ (Emits-command env host _ t) (λ _. Emits-pure tt)))

  fanout-Emits :
      (port : ℕ) (password : Bytes) (l : List Bytes)
      → ((h : Bytes) → In h l → In h targets)
      → Emits W (apply_acl_fanout env acl port password names passwords l)
  unfolding apply_acl_fanout
  fanout-Emits port password [] inside = Emits-pure 0
  fanout-Emits port password (host ∷ l) inside =
      let later = fanout-Emits port password l (λ h i. inside h (there i)) in
      Emits-bind _ _ (Emits-dial env host port password (inside host (here refl))) (λ connected.
        Emits-if (not connected) _ _ (λ _. later)
          (λ _.
            Emits-bind _ _ (target-Emits host (inside host (here refl)))
              (λ _. Emits-bind _ _ later (λ reached. Emits-pure _))))

-- applyACLFanout writes to the targets alone: SETUSER for the users of the spec, each from a reset
-- with its rules and its password, DELUSER for users that were applied before, are wanted no more
-- and are not reserved by the operator, and ACL SAVE.
pub apply_acl_fanout-Writes :
    (env : Env) (acl : ValkeyAcl) (port : ℕ) (password : Bytes) (names : List Bytes)
    (passwords : List (Bytes × Bytes)) (targets : List Bytes) (w : World)
    → Extends
        (Writes acl names passwords targets)
        w.effects
        (apply_acl_fanout env acl port password names passwords targets w).1.effects
apply_acl_fanout-Writes env acl port password names passwords targets w =
    (fanout-Emits env acl names passwords targets port password targets (λ h i. i)).at w
