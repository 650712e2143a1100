-- ===== src/Rotation/Order.antt =====
-- The order of applyPasswordToPods (internal/controller/password_rotation.go): no node drops the old
-- password before every data pod accepts the new one.
use wellcake.Common.{
  Bytes, codes, ◌≡◌, inl, inr, refl, sym, ◌∙◌, List, Bool, true, false, not, if◌then◌else◌,
}
use mathlib.Core.Path.{subst}
use wellcake.Naming.{PodRef}
use wellcake.Rotation.{
  Step, and_then, on_each_pod, add_new, cut_over, rotate_sentinel_password, apply_passes,
}
use wellcake.Rotation.Accepted.{
  Extends-Grows, AllAccepted, AllAccepted-Grows, BothDone, and_then-BothDone, Emits-and_then,
  Extends-Follows-after,
}
use wellcake.Rotation.Passes.{
  IsAdditive, IsCut, IsAdded, IsAdded-Grows, IsSafe, Emits-on_each_pod, Emits-rotate,
  add_new-IsAdditive, cut_over-IsCut, sentinel-IsCut,
}
use wellcake.Runtime.{Env, World, Command, M, ◌>>=◌, pure}
use wellcake.Runtime.Emits.{Emits}
use wellcake.Runtime.Follows as follows
use wellcake.Rotation.Achieves.{
  Achieves, on_each_pod-AllAccepted, add_new_default, add_new_users, add_new_auth,
}

module _ (env : Env) (old new : Bytes) (managed : List (Bytes × Bytes)) where
  -- All that follows the pass "add-new".
  rest_of : List PodRef → M Bool
  rest_of pods = and_then (rotate_sentinel_password env old new Step.add) (
      and_then (rotate_sentinel_password env old new Step.switch) (
        and_then (on_each_pod env old new (cut_over env new managed) pods)
          (rotate_sentinel_password env old new Step.cutover)))

  Emits-sentinels :
      (step : Step) → Emits (IsCut new managed) (rotate_sentinel_password env old new step)
  Emits-sentinels step =
      Emits-rotate env (IsCut new managed) (λ h n x. tt) old new step
        (sentinel-IsCut env new managed step)

  Emits-cut_over :
      (pods : List PodRef)
      → Emits (IsCut new managed) (on_each_pod env old new (cut_over env new managed) pods)
  Emits-cut_over pods =
      Emits-on_each_pod env (IsCut new managed) (λ h n x. tt) old new (cut_over env new managed)
        pods (cut_over-IsCut env new managed)

  rest_of-IsCut : (pods : List PodRef) → Emits (IsCut new managed) (rest_of pods)
  unfolding rest_of
  rest_of-IsCut pods = Emits-and_then _ _ (Emits-sentinels Step.add) (
      Emits-and_then _ _ (Emits-sentinels Step.switch)
        (Emits-and_then _ _ (Emits-cut_over pods) (Emits-sentinels Step.cutover)))

  add_pass-IsAdditive :
      (pods : List PodRef)
      → Emits (IsAdditive new managed) (on_each_pod env old new (add_new env new managed) pods)
  add_pass-IsAdditive pods =
      Emits-on_each_pod env (IsAdditive new managed) (λ h n x. tt) old new (add_new env new managed)
        pods (add_new-IsAdditive env new managed)

  pub apply_passes-IsSafe :
      (pods : List PodRef) (w : World)
      → follows.Follows
          (IsSafe new managed env pods)
          w.effects
          (apply_passes env old new pods managed w).1.effects
  unfolding apply_passes and_then ◌>>=◌ pure rest_of
  apply_passes-IsSafe pods w = by_result (first w).0 refl
    where
      first : M Bool
      first = on_each_pod env old new (add_new env new managed) pods

      start : follows.Follows (IsSafe new managed env pods) w.effects (first w).1.effects
      start = follows.Extends-Follows (λ h e x. inl x) ((add_pass-IsAdditive pods).at w)

      by_result :
          (b : Bool)
          → (first w).0 ≡ b
          → follows.Follows
              (IsSafe new managed env pods)
              w.effects
              ((if not b then pure false else rest_of pods) (first w).1).1.effects
      by_result false e = start
      by_result true e = follows.Follows-trans start (
          follows.Follows-map (λ h x y. inr y)
            (Extends-Follows-after (IsAdded new managed env pods)
              (IsAdded-Grows new managed env pods)
              (
                all_accept (Command.acl_add_default_password new) (add_new_default env new managed),
                λ u i.
                    all_accept (Command.acl_set_managed_user u.0 u.1 new true)
                      (λ host. add_new_users env new managed host u i),
                all_accept (Command.config_set (codes "masterauth") new)
                    (add_new_auth env new managed),
              )
              ((rest_of-IsCut pods).at (first w).1)))
        where
          all_accept :
              (c : Command)
              → ((host : Bytes) → Achieves env host c (add_new env new managed host))
              → AllAccepted env c pods (first w).1.effects
          all_accept c k =
              on_each_pod-AllAccepted env old new c (add_new env new managed) pods k
                (λ host. record {
                  at = λ v. Extends-Grows ((add_new-IsAdditive env new managed host).at v);
                })
                w e

  -- Without an error every data pod has accepted the commands of the pass "cutover".
  pub apply_passes-AllAccepted :
      (c : Command) (pods : List PodRef)
      → ((host : Bytes) → Achieves env host c (cut_over env new managed host))
      → (w : World) → (apply_passes env old new pods managed w).0 ≡ true
      → AllAccepted env c pods (apply_passes env old new pods managed w).1.effects
  unfolding apply_passes
  apply_passes-AllAccepted c pods achieves w e =
      subst (AllAccepted env c pods) (sym (one.ends ∙ two.ends ∙ three.ends ∙ four.ends)) (
        AllAccepted-Grows env c pods _ _
          (Extends-Grows
            ((Emits-sentinels Step.cutover).at (cut (switched (added (first w).1).1).1).1))
          (on_each_pod-AllAccepted env old new c (cut_over env new managed) pods achieves
            (λ host. record {
              at = λ v. Extends-Grows ((cut_over-IsCut env new managed host).at v);
            })
            (switched (added (first w).1).1).1 four.first))
    where
      first : M Bool
      first = on_each_pod env old new (add_new env new managed) pods

      added : M Bool
      added = rotate_sentinel_password env old new Step.add

      switched : M Bool
      switched = rotate_sentinel_password env old new Step.switch

      cut : M Bool
      cut = on_each_pod env old new (cut_over env new managed) pods

      last : M Bool
      last = rotate_sentinel_password env old new Step.cutover

      one : BothDone first (and_then added (and_then switched (and_then cut last))) w
      one = and_then-BothDone _ _ w e

      two : BothDone added (and_then switched (and_then cut last)) (first w).1
      two = and_then-BothDone _ _ _ one.second

      three : BothDone switched (and_then cut last) (added (first w).1).1
      three = and_then-BothDone _ _ _ two.second

      four : BothDone cut last (switched (added (first w).1).1).1
      four = and_then-BothDone _ _ _ three.second
