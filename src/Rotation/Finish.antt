-- ===== src/Rotation/Finish.antt =====
-- What reconcilePasswordRotation does once it has a new password
-- (internal/controller/password_rotation.go).
use wellcake.Common.{
  ℕ, zero, suc, Bytes, codes, In, ◌≡◌, ◌⊎◌, inl, inr, refl, List, ◌∷◌, Bool, true, false, not,
  Option, none, some, if◌then◌else◌,
}
use wellcake.Api.{ValkeyCluster}
use wellcake.Naming.{PodRef, cluster_data_pods}
use wellcake.Rotation.{apply_passes, apply_password_to_pods, cut_over, managed_non_default_users}
use wellcake.Rotation.Accepted.{Grows, AllAccepted, AllAccepted-Grows}
use wellcake.Rotation.Passes.{IsQuestion, IsAdditive, IsSafe}
use wellcake.Rotation.Order.{apply_passes-IsSafe, apply_passes-AllAccepted}
use wellcake.Rotation.Achieves.{
  Achieves, cut_over_default, cut_over_users, cut_over_required, cut_over_save,
}
use wellcake.Rotation.Run.{
  RotationResult, password_secret_name, rewrite_secret, update_password_secret, write_token,
  record_token, finish_rotation,
}
use wellcake.Runtime.{
  Env, World, History, Effect, Command, dial, handshake, send, update_status, Kind, Answer, M, get,
  update_secret, ◌>>=◌, pure, object, ask,
}
use wellcake.Runtime.Emits.{
  Extends, Extends-map, same, more, Emits, Emits-pure, Emits-bind, Emits-if, Emits-ask,
  Emits-object,
}
use wellcake.Runtime.Follows as follows

-- Every data pod has the new password alone, for the default user, for every managed user and as the
-- one it requires, and has saved its users.
abbrev pub IsRotated : Env → Bytes → List (Bytes × Bytes) → List PodRef → History → Type 0
IsRotated env new managed pods h =
    AllAccepted env (Command.acl_set_default_password new) pods h
    × ((u : Bytes × Bytes)
        → In u managed
        → AllAccepted env (Command.acl_set_managed_user u.0 u.1 new false) pods h)
    × AllAccepted env (Command.config_set (codes "requirepass") new) pods h
    × AllAccepted env Command.acl_save pods h

-- A safe effect of the passes, or the new password in the Secret once every data pod is rotated.
abbrev pub RotatesSafely :
    Env → Bytes → List (Bytes × Bytes) → List PodRef → History → Effect → Type 0
RotatesSafely env new managed pods h e =
    IsSafe new managed env pods h e
    ⊎ ((name : Bytes) × (e ≡ update_secret name new) × IsRotated env new managed pods h)

-- A read, or a record in the status.
abbrev IsWrite : Effect → Type 0
IsWrite (update_status s) = Unit
IsWrite e = IsQuestion e

written-IsAdditive :
    (new : Bytes) (managed : List (Bytes × Bytes)) (e : Effect)
    → IsWrite e
    → IsAdditive new managed e
written-IsAdditive new managed (dial host port password) q = tt
written-IsAdditive new managed (handshake host port) q = tt
written-IsAdditive new managed (send host c) q = absurd q
written-IsAdditive new managed (update_secret name p) q = absurd q
written-IsAdditive new managed e q = tt

question-IsWrite : (e : Effect) → IsQuestion e → IsWrite e
question-IsWrite (update_status s) q = tt
question-IsWrite e q = q

module _ (env : Env) where
  write_token-IsWrite :
      (token : Bytes) (a : Answer ValkeyCluster) → Emits IsWrite (write_token env token a)
  unfolding write_token
  write_token-IsWrite token Answer.not_found = Emits-pure _
  write_token-IsWrite token Answer.failed = Emits-pure _
  write_token-IsWrite token (Answer.found latest) = Emits-ask _ _ tt

  record_token-IsWrite : (steps : ℕ) (token : Bytes) → Emits IsWrite (record_token env steps token)
  unfolding record_token
  record_token-IsWrite zero token = Emits-pure _
  record_token-IsWrite (suc steps) token = Emits-bind _ _ Emits-object (λ vc.
      Emits-bind _ _ (Emits-ask _ _ tt) (λ latest.
        Emits-bind _ _ (write_token-IsWrite token latest)
          (λ written. after (record_token-IsWrite steps token) written)))
    where
      after :
          Emits IsWrite (record_token env steps token)
          → (o : Option Bool)
          → Emits IsWrite (elim o [ some b ↦ pure b | none ↦ record_token env steps token ])
      after again (some b) = Emits-pure _
      after again none = again

  module _ (vc : ValkeyCluster) (new : Bytes) where
    abbrev pub Rotates : History → History → Type 0
    Rotates a b =
        follows.Follows
          (RotatesSafely env new (managed_non_default_users vc) (cluster_data_pods vc)) a b

    records : {a b : History} → Extends IsWrite a b → Rotates a b
    records x =
        follows.Extends-Follows
          (λ h e c. inl (inl (written-IsAdditive new (managed_non_default_users vc) e c))) x

    pub asks : {a b : History} → Extends IsQuestion a b → Rotates a b
    asks x = records (Extends-map question-IsWrite x)

    abbrev Done : History → Type 0
    Done h = IsRotated env new (managed_non_default_users vc) (cluster_data_pods vc) h

    Done-Grows : {a b : History} → Grows a b → Done a → Done b
    Done-Grows x (default, users, required, saved) = (
      AllAccepted-Grows env (Command.acl_set_default_password new) _ _ _ x default,
      λ u i.
          AllAccepted-Grows env (Command.acl_set_managed_user u.0 u.1 new false) _ _ _ x
            (users u i),
      AllAccepted-Grows env (Command.config_set (codes "requirepass") new) _ _ _ x required,
      AllAccepted-Grows env Command.acl_save _ _ _ x saved,
    )

    rewrite-Rotates :
        (name : Bytes) (o : Option Bytes) (w : World)
        → Done w.effects
        → Rotates w.effects (rewrite_secret env name new o w).1.effects
    unfolding rewrite_secret ◌>>=◌ pure ask
    rewrite-Rotates name none w r = follows.same
    rewrite-Rotates name (some old) w r = follows.more (inr (name, refl, r)) follows.same

    update-Rotates :
        (w : World)
        → Done w.effects
        → Rotates w.effects (update_password_secret env new w).1.effects
    unfolding update_password_secret ◌>>=◌ object ask
    update-Rotates w r =
        let name = password_secret_name w.vc in
        let read = get Kind.secret name ∷ w.effects in
        follows.Follows-trans (asks (more tt same))
          (rewrite-Rotates name _ (record w { effects = read }) (Done-Grows (more tt same) r))

    -- The passes, on the pods and the users of the object in memory.
    abbrev passes : Bytes → M Bool
    passes old = apply_passes env old new (cluster_data_pods vc) (managed_non_default_users vc)

    passes-Done :
        (old : Bytes) (w : World) → (passes old w).0 ≡ true → Done (passes old w).1.effects
    passes-Done old w f = (
      all (Command.acl_set_default_password new) (cut_over_default env new _),
      λ u i.
          all (Command.acl_set_managed_user u.0 u.1 new false)
            (λ host. cut_over_users env new _ host u i),
      all (Command.config_set (codes "requirepass") new) (cut_over_required env new _),
      all Command.acl_save (cut_over_save env new _),
    )
      where
        all :
            (c : Command)
            → ((host : Bytes)
                → Achieves env host c (cut_over env new (managed_non_default_users vc) host))
            → AllAccepted env c (cluster_data_pods vc) (passes old w).1.effects
        all c k = apply_passes-AllAccepted env old new (managed_non_default_users vc) c _ k w f

    recorded : Bytes → Bool → M RotationResult
    recorded token updated =
        if not updated
        then pure RotationResult.rotation_failed
        else (record_token env 5 token >>= λ b.
            pure (if b then RotationResult.rotated else RotationResult.rotation_failed))

    recorded-IsWrite : (token : Bytes) (b : Bool) → Emits IsWrite (recorded token b)
    unfolding recorded
    recorded-IsWrite token b =
        Emits-if (not b) _ _ (λ _. Emits-pure RotationResult.rotation_failed)
          (λ _.
            Emits-bind (record_token env 5 token) _ (record_token-IsWrite 5 token)
              (λ r. Emits-pure _))

    updates :
        (token : Bytes) (b : Bool) (w : World)
        → (b ≡ true → Done w.effects)
        → Rotates w.effects
            ((if not b
                then pure RotationResult.rotation_failed
                else update_password_secret env new >>= recorded token)
              w).1.effects
    unfolding ◌>>=◌ pure
    updates token false w k = follows.same
    updates token true w k = follows.Follows-trans (update-Rotates w (k refl)) (
        records (
          (recorded-IsWrite token (update_password_secret env new w).0).at
            (update_password_secret env new w).1))

  pub finish-Rotates :
      (new token old : Bytes) (w : World)
      → Rotates w.vc new w.effects (finish_rotation env token old new w).1.effects
  unfolding finish_rotation ◌>>=◌ pure apply_password_to_pods object recorded
  finish-Rotates new token old w =
      follows.Follows-trans
        (follows.Follows-map (λ h x y. inl y)
          (apply_passes-IsSafe env old new (managed_non_default_users w.vc) (cluster_data_pods w.vc)
            w))
        (updates w.vc new token (passes w.vc new old w).0 (passes w.vc new old w).1
          (passes-Done w.vc new old w))
