-- ===== src/Failover/Debounce.antt =====
-- reconcileFailover with no reachable master: nothing is promoted before the debounce has elapsed.
use wellcake.Common.{
  ℕ, ◌+◌, ◌<◌, Bytes, ◌≡◌, inl, inr, List, [], ◌∷◌, false, arith, refl, Option, none, some, keep,
  Bool-cases, ltb, ◌∙◌,
}
use wellcake.Failover.{PodRole, scan}
use wellcake.Failover.Replicas.{masters-scan, is_reachable_master}
use wellcake.Failover.Run.{
  reconcile_failover, with_masters, promote_after_debounce, primary_down_long_enough,
  down_long_enough, set_primary_down, down_elapsed, failover_down_after,
}
use wellcake.Runtime.{
  Env, Effect, World, dial, send, delete, read_clock, pure, ◌>>=◌, object, perform, set_status,
  clock,
}
use wellcake.Runtime.Emits.{Extends, same, more}

-- Nothing that a pod could notice: no connection, no command, no deletion.
abbrev pub Unnoticed : Effect → Type 0
Unnoticed (dial host port password) = ⊥
Unnoticed (send host c) = ⊥
Unnoticed (delete kind name) = ⊥
Unnoticed _ = Unit

-- The primary has not been seen down for the whole window: it is seen down for the first time, or
-- the clock, read next, is before the end of the window.
abbrev pub Debouncing : Env → World → Option ℕ → Type 0
Debouncing env w none = Unit
Debouncing env w (some since) = env.now (read_clock ∷ w.effects) < since + failover_down_after

down_elapsed_early :
    (since now threshold : ℕ) → now < since + threshold → down_elapsed since now threshold ≡ false
unfolding down_elapsed
down_elapsed_early since now threshold h = ground arith

-- The call leaves everything unnoticed, and returns the primary of the status.
abbrev pub Waits : World → Bytes × World → Type 0
Waits w r = Extends Unnoticed w.effects r.1.effects × (r.0 ≡ w.vc.status.primary)

module _ (env : Env) (password : Bytes) (survey : List PodRole) where
  Waits-from :
      (w : World) (b : PodRole) (d : Option ℕ)
      → w.vc.status.primary_down_since ≡ d
      → Debouncing env w d
      → Waits w (promote_after_debounce env password survey (some b) w)
  unfolding promote_after_debounce primary_down_long_enough down_long_enough set_primary_down ◌>>=◌
      object pure clock set_status perform
  Waits-from w b none e h = rw e (more tt (more tt same), refl)
  Waits-from w b (some since) e h =
      rw (e, down_elapsed_early since _ failover_down_after h) (more tt same, refl)

  Waits-for :
      (w : World) (o : Option PodRole)
      → Debouncing env w w.vc.status.primary_down_since
      → Waits w (promote_after_debounce env password survey o w)
  Waits-for w none h = unfold promote_after_debounce ◌>>=◌ object pure in (same, refl)
  Waits-for w (some b) h = Waits-from w b w.vc.status.primary_down_since refl h

-- With no reachable master, and before the primary was seen down for the whole window,
-- reconcileFailover sends nothing to any pod, deletes none, and keeps the primary of the status.
pub reconcile_failover_debounces :
    (env : Env) (password : Bytes) (survey : List PodRole) (w : World)
    → keep is_reachable_master survey ≡ []
    → Debouncing env w w.vc.status.primary_down_since
    → Waits w (reconcile_failover env password survey w)
unfolding reconcile_failover ◌>>=◌ object pure with_masters promote_after_debounce
reconcile_failover_debounces env password survey w none_up h =
    elim (Bool-cases (ltb (scan survey).reachable 2)) [
      | inl few ↦ rw few (same, refl)
      | inr enough ↦
          rw (enough, masters-scan survey ∙ none_up)
            (Waits-for env password survey w (scan survey).best_replica h)
    ]
