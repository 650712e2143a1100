-- ===== src/Rotation/Achieves.antt =====
-- What the passes of applyPasswordToPods achieve on each pod where they return no error
-- (internal/controller/password_rotation.go).
use wellcake.Common.{Bytes, codes, ◌≡◌, sym, ◌∙◌, List, [], ◌∷◌, Bool, true, false, In, here, there}
use mathlib.Core.Path.{subst}
use wellcake.Naming.{PodRef}
use wellcake.Info.{data_port}
use wellcake.Rotation.{and_then, dial_either, on_each_pod, set_users, add_new, cut_over}
use wellcake.Rotation.Accepted.{
  Accepted, Accepted-Grows, AllAccepted, command-Accepted, BothDone, and_then-BothDone,
  Emits-and_then,
}
use wellcake.Rotation.Passes.{Emits-on_each_pod, Emits-set_users}
use wellcake.Runtime.{Env, World, Command, M, command, ◌>>=◌, object}
use wellcake.Runtime.Emits.{Emits, Emits-command}

module _ (env : Env) (old new : Bytes) where
  -- A pass without an error: what the closure achieves on a host holds for every pod.
  pub on_each_pod-AllAccepted :
      (c : Command) (fn : Bytes → M Bool) (pods : List PodRef)
      → ((host : Bytes) (w : World)
          → (fn host w).0 ≡ true
          → Accepted env host c (fn host w).1.effects)
      → ((host : Bytes) → Emits (λ e. Unit {0}) (fn host))
      → (w : World) → (on_each_pod env old new fn pods w).0 ≡ true
      → AllAccepted env c pods (on_each_pod env old new fn pods w).1.effects
  unfolding on_each_pod
  on_each_pod-AllAccepted c fn [] achieves grows w e = λ q i. elim i [ ]
  on_each_pod-AllAccepted c fn (p ∷ pods) achieves grows w e = λ q i.
      subst (Accepted env q.host c) (sym (dialled.ends ∙ applied.ends))
        (on_pod (on_each_pod-AllAccepted c fn pods achieves grows) q i)
    where
      reach : M Bool
      reach = do vc ← object; dial_either env p.host (data_port vc) old new

      rest : M Bool
      rest = on_each_pod env old new fn pods

      dialled : BothDone reach (and_then (fn p.host) rest) w
      dialled = and_then-BothDone reach (and_then (fn p.host) rest) w e

      applied : BothDone (fn p.host) rest (reach w).1
      applied = and_then-BothDone (fn p.host) rest (reach w).1 dialled.second

      on_pod :
          ((v : World) → (rest v).0 ≡ true → AllAccepted env c pods (rest v).1.effects)
          → (q : PodRef) → In q (p ∷ pods)
          → Accepted env q.host c (rest (fn p.host (reach w).1).1).1.effects
      on_pod later q (here f) =
          subst (λ x. Accepted env x.host c (rest (fn p.host (reach w).1).1).1.effects) f
            (Accepted-Grows env p.host c
              ((Emits-on_each_pod env (λ e. Unit {0}) (λ h n x. tt) old new fn pods grows).at
                (fn p.host (reach w).1).1)
              (achieves p.host (reach w).1 applied.first))
      on_pod later q (there j) = later (fn p.host (reach w).1).1 applied.second q j

-- An action that, without an error, has had the command accepted by the host.
abbrev pub Achieves : Env → Bytes → Command → M Bool → Type 0
Achieves env host c m = (w : World) → (m w).0 ≡ true → Accepted env host c (m w).1.effects

-- An action whose effects stay.
abbrev pub Adds : M Bool → Type 0
Adds m = Emits (λ e. Unit {0}) m

module _ (env : Env) (host : Bytes) (c : Command) where
  Achieves-first :
      (m rest : M Bool) → Adds rest → Achieves env host c m → Achieves env host c (and_then m rest)
  Achieves-first m rest k a w e =
      let done = and_then-BothDone m rest w e in
      subst (Accepted env host c) (sym done.ends)
        (Accepted-Grows env host c (k.at (m w).1) (a w done.first))

  Achieves-later :
      (m rest : M Bool) → Achieves env host c rest → Achieves env host c (and_then m rest)
  Achieves-later m rest a w e =
      let done = and_then-BothDone m rest w e in
      subst (Accepted env host c) (sym done.ends) (a (m w).1 done.second)

module _ (env : Env) (new : Bytes) (managed : List (Bytes × Bytes)) (host : Bytes) where
  Adds-command : (c : Command) → Adds (command env host c)
  Adds-command c = Emits-command env host c tt

  Adds-users :
      (additive : Bool) (users : List (Bytes × Bytes))
      → Adds (set_users env new additive host users)
  Adds-users additive users = Emits-set_users env new host additive users (λ u i. tt)

  set_users_achieve :
      (additive : Bool) (users : List (Bytes × Bytes)) (u : Bytes × Bytes)
      → In u users
      → Achieves env host
          (Command.acl_set_managed_user u.0 u.1 new additive)
          (set_users env new additive host users)
  unfolding set_users
  set_users_achieve additive [] u i = elim i [ ]
  set_users_achieve additive ((name, rules) ∷ users) u (here e) =
      subst
        (λ v. Achieves env host (Command.acl_set_managed_user v.0 v.1 new additive) (
          and_then (command env host (Command.acl_set_managed_user name rules new additive))
            (set_users env new additive host users)))
        e (Achieves-first env host _ _ _ (Adds-users additive users) (command-Accepted env host _))
  set_users_achieve additive ((name, rules) ∷ users) u (there i) =
      Achieves-later env host _ _ _ (set_users_achieve additive users u i)

  pub add_new_default :
      Achieves env host (Command.acl_add_default_password new) (add_new env new managed host)
  unfolding add_new
  add_new_default =
      Achieves-first env host _ _ _ (Emits-and_then _ _ (Adds-users true managed) (Adds-command _))
        (command-Accepted env host _)

  pub add_new_users :
      (u : Bytes × Bytes)
      → In u managed
      → Achieves env host
          (Command.acl_set_managed_user u.0 u.1 new true)
          (add_new env new managed host)
  unfolding add_new
  add_new_users u i =
      Achieves-later env host _ _ _
        (Achieves-first env host _ _ _ (Adds-command _) (set_users_achieve true managed u i))

  pub add_new_auth :
      Achieves env host (Command.config_set (codes "masterauth") new) (add_new env new managed host)
  unfolding add_new
  add_new_auth =
      Achieves-later env host _ _ _ (Achieves-later env host _ _ _ (command-Accepted env host _))

  pub cut_over_default :
      Achieves env host (Command.acl_set_default_password new) (cut_over env new managed host)
  unfolding cut_over
  cut_over_default =
      Achieves-first env host _ _ _
        (Emits-and_then _ _ (Adds-users false managed)
          (Emits-and_then _ _ (Adds-command _) (Adds-command _)))
        (command-Accepted env host _)

  pub cut_over_users :
      (u : Bytes × Bytes)
      → In u managed
      → Achieves env host
          (Command.acl_set_managed_user u.0 u.1 new false)
          (cut_over env new managed host)
  unfolding cut_over
  cut_over_users u i = Achieves-later env host _ _ _ (
      Achieves-first env host _ _ _ (Emits-and_then _ _ (Adds-command _) (Adds-command _))
        (set_users_achieve false managed u i))

  pub cut_over_required :
      Achieves env host
        (Command.config_set (codes "requirepass") new)
        (cut_over env new managed host)
  unfolding cut_over
  cut_over_required = Achieves-later env host _ _ _ (
      Achieves-later env host _ _ _
        (Achieves-first env host _ _ _ (Adds-command _) (command-Accepted env host _)))

  pub cut_over_save : Achieves env host Command.acl_save (cut_over env new managed host)
  unfolding cut_over
  cut_over_save =
      Achieves-later env host _ _ _ (
        Achieves-later env host _ _ _ (Achieves-later env host _ _ _ (command-Accepted env host _)))
