-- ===== src/Rotation/Passes.antt =====
-- What the passes of applyPasswordToPods may do (internal/controller/password_rotation.go).
use wellcake.Common.{
  ℕ, Bytes, codes, ◌≡◌, refl, In, here, there, ◌⊎◌, List, [], ◌∷◌, Bool, true, false, Option, none,
  some,
}
use wellcake.Api.{SentinelSpec}
use wellcake.Naming.{PodRef}
use wellcake.Rotation.{
  Step, dial_either, on_each_pod, set_users, add_new, cut_over, sentinel_step, rotate_sentinels,
  rotate_with, rotate_sentinel_password,
}
use wellcake.Rotation.Accepted.{Grows, AllAccepted, AllAccepted-Grows, Emits-and_then}
use wellcake.Runtime.{
  Env, History, Effect, Command, M, dial, handshake, send, update_secret, update_status,
}
use wellcake.Runtime.Emits.{Emits, Emits-pure, Emits-bind, Emits-object, Emits-command, emits_rules}

-- What is done beside the passes: nothing is sent to a node, no certificate is looked at, and no
-- password is written.
abbrev pub IsQuestion : Effect → Type 0
IsQuestion (dial host port password) = ⊥
IsQuestion (handshake host port) = ⊥
IsQuestion (send host c) = ⊥
IsQuestion (update_secret name new) = ⊥
IsQuestion (update_status s) = ⊥
IsQuestion _ = Unit

module _ (new : Bytes) (managed : List (Bytes × Bytes)) where
  -- What costs no node its old password: the new one is added to the default user and to the
  -- managed users with their rules, and is the one that a replica uses. The Secret stays.
  abbrev pub IsAdditive : Effect → Type 0
  IsAdditive (send host (Command.acl_add_default_password p)) = p ≡ new
  IsAdditive (send host (Command.acl_set_managed_user name rules p true)) =
      (p ≡ new) × In (name, rules) managed
  IsAdditive (send host (Command.config_set param value)) =
      (param ≡ codes "masterauth") × (value ≡ new)
  IsAdditive (send host c) = ⊥
  IsAdditive (update_secret name p) = ⊥
  IsAdditive _ = Unit

  -- What takes the old password away: every password that is set is the new one, and a managed user
  -- keeps its rules. The Secret stays.
  abbrev pub IsCut : Effect → Type 0
  IsCut (send host (Command.acl_add_default_password p)) = p ≡ new
  IsCut (send host (Command.acl_set_default_password p)) = p ≡ new
  IsCut (send host (Command.acl_set_managed_user name rules p false)) =
      (p ≡ new) × In (name, rules) managed
  IsCut (send host (Command.config_set param value)) = (param ≡ codes "requirepass") × (value ≡ new)
  IsCut (send host (Command.sentinel_set name param value)) = value ≡ new
  IsCut (send host (Command.sentinel_config_set param value)) = value ≡ new
  IsCut (send host Command.acl_save) = Unit
  IsCut (send host c) = ⊥
  IsCut (update_secret name p) = ⊥
  IsCut _ = Unit

  module _ (env : Env) (pods : List PodRef) where
    -- Every data pod accepts the new password beside the old one, for the default user and for
    -- every managed user, and uses the new one towards its primary.
    abbrev pub IsAdded : History → Type 0
    IsAdded h =
        AllAccepted env (Command.acl_add_default_password new) pods h
        × ((u : Bytes × Bytes)
            → In u managed
            → AllAccepted env (Command.acl_set_managed_user u.0 u.1 new true) pods h)
        × AllAccepted env (Command.config_set (codes "masterauth") new) pods h

    -- An effect that costs no node its old password, or one at a time when every data pod has
    -- accepted the new one beside it; the Secret stays in both cases.
    abbrev pub IsSafe : History → Effect → Type 0
    IsSafe h e = IsAdditive e ⊎ (IsCut e × IsAdded h)

    pub IsAdded-Grows : (a b : History) → Grows a b → IsAdded a → IsAdded b
    IsAdded-Grows a b x (default, users, auth) = (
      AllAccepted-Grows env (Command.acl_add_default_password new) pods a b x default,
      λ u i.
          AllAccepted-Grows env (Command.acl_set_managed_user u.0 u.1 new true) pods a b x
            (users u i),
      AllAccepted-Grows env (Command.config_set (codes "masterauth") new) pods a b x auth,
    )

module _ (env : Env) where
  module _ (P : Effect → Type 0)
      (dials : (h : Bytes) (port : ℕ) (pw : Bytes) → P (dial h port pw)) where
    pub Emits-dial_either :
        (host : Bytes) (port : ℕ) (old new : Bytes) → Emits P (dial_either env host port old new)
    unfolding dial_either
    Emits-dial_either host port old new = search (emits_rules, dials) depth 8

    pub Emits-on_each_pod :
        (old new : Bytes) (fn : Bytes → M Bool) (pods : List PodRef)
        → ((host : Bytes) → Emits P (fn host))
        → Emits P (on_each_pod env old new fn pods)
    unfolding on_each_pod
    Emits-on_each_pod old new fn [] h = Emits-pure _
    Emits-on_each_pod old new fn (p ∷ pods) h =
        Emits-and_then _ _ (Emits-bind _ _ Emits-object (λ vc. Emits-dial_either p.host _ old new))
          (Emits-and_then _ _ (h p.host) (Emits-on_each_pod old new fn pods h))

    Emits-rotate_sentinels :
        (old new : Bytes) (step : Step) (ordinals : List ℕ)
        → ((host : Bytes) → Emits P (sentinel_step env new step host))
        → Emits P (rotate_sentinels env old new step ordinals)
    unfolding rotate_sentinels
    Emits-rotate_sentinels old new step [] h = Emits-pure _
    Emits-rotate_sentinels old new step (i ∷ rest) h = Emits-bind _ _ Emits-object (λ vc.
        Emits-and_then _ _ (Emits-dial_either _ _ old new)
          (Emits-and_then _ _ (h _) (Emits-rotate_sentinels old new step rest h)))

    pub Emits-rotate :
        (old new : Bytes) (step : Step)
        → ((host : Bytes) → Emits P (sentinel_step env new step host))
        → Emits P (rotate_sentinel_password env old new step)
    unfolding rotate_sentinel_password
    Emits-rotate old new step h = Emits-bind _ _ Emits-object (λ vc. by_spec _ _)
      where
        by_spec : (b : Bool) (s : Option SentinelSpec) → Emits P (rotate_with env old new step b s)
        by_spec false s = unfold rotate_with in Emits-pure _
        by_spec true none = unfold rotate_with in Emits-pure _
        by_spec true (some s) = unfold rotate_with in Emits-rotate_sentinels old new step _ h

  pub Emits-set_users :
      {P : Effect → Type 0} (new host : Bytes) (additive : Bool) (users : List (Bytes × Bytes))
      → ((u : Bytes × Bytes)
          → In u users
          → P (send host (Command.acl_set_managed_user u.0 u.1 new additive)))
      → Emits P (set_users env new additive host users)
  unfolding set_users
  Emits-set_users new host additive [] k = Emits-pure _
  Emits-set_users new host additive ((name, rules) ∷ users) k =
      Emits-and_then _ _ (Emits-command env host _ (k (name, rules) (here refl)))
        (Emits-set_users new host additive users (λ u i. k u (there i)))

  module _ (new : Bytes) (managed : List (Bytes × Bytes)) where
    pub add_new-IsAdditive :
        (host : Bytes) → Emits (IsAdditive new managed) (add_new env new managed host)
    unfolding add_new
    add_new-IsAdditive host = Emits-and_then _ _ (Emits-command env host _ refl) (
        Emits-and_then _ _ (Emits-set_users new host true managed (λ u i. (refl, i)))
          (Emits-command env host _ (refl, refl)))

    pub cut_over-IsCut : (host : Bytes) → Emits (IsCut new managed) (cut_over env new managed host)
    unfolding cut_over
    cut_over-IsCut host = Emits-and_then _ _ (Emits-command env host _ refl) (
        Emits-and_then _ _ (Emits-set_users new host false managed (λ u i. (refl, i))) (
          Emits-and_then _ _ (Emits-command env host _ (refl, refl)) (Emits-command env host _ tt)))

    pub sentinel-IsCut :
        (step : Step) (host : Bytes) → Emits (IsCut new managed) (sentinel_step env new step host)
    unfolding sentinel_step
    sentinel-IsCut Step.add host = Emits-command env host _ refl
    sentinel-IsCut Step.switch host =
        Emits-and_then _ _ (Emits-command env host _ refl) (Emits-command env host _ refl)
    sentinel-IsCut Step.cutover host = Emits-command env host _ refl
