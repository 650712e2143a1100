-- ===== src/Reconcile/Hibernation.antt =====
-- What the pass of a hibernated cluster does (internal/controller/valkeycluster_controller.go,
-- reconcileHibernated).
use wellcake.Common.{
  or-implied-not, ℕ, Bytes, codes, ◌≡◌, ◌≢◌, ◌⊎◌, inl, inr, refl, Option, none, some, true, false,
  [], ◌∷◌, ◌++◌, Bool-cases, itoa, ==→eq,
}
use wellcake.Api.{ValkeyCluster, Status, Phase}
use wellcake.Naming.{stateful_set_name, shard_sts_name}
use wellcake.Rollout.Run.{get_stateful_set}
use wellcake.Cluster.Scaling.{patch}
use wellcake.Reconcile.Status.{
  is_asleep, report_hibernated, scale_to_zero, hibernate_found, reconcile_hibernated,
  done_or_failed,
}
use wellcake.Runtime.{
  Env, World, Effect, History, Answer, Kind, StatefulSet, ReconcileResult, get, scale, patch_status,
  pure, ◌>>=◌, object, ask, set_status, succeeds,
}
use wellcake.Runtime.Emits.{Extends, same, more, Extends-trans, Extends-map, Written}

-- What it may do: read the StatefulSet with the name of the cluster, scale it to no pods, and
-- report.
abbrev pub Sleeps : ValkeyCluster → Effect → Type 0
Sleeps vc (get kind name) = (kind ≡ Kind.stateful_set) × (name ≡ stateful_set_name vc)
Sleeps vc (scale name n) = (name ≡ stateful_set_name vc) × (n ≡ 0)
Sleeps vc (patch_status s) = s.phase ≡ Phase.hibernated
Sleeps vc e = ⊥

-- The StatefulSet that was read is not there, has no pods to keep, or the API accepted that it be
-- scaled to none.
abbrev pub IsScaled : Env → Bytes → Answer StatefulSet → History → Type 0
IsScaled env name Answer.failed h = ⊥
IsScaled env name Answer.not_found h = Unit
IsScaled env name (Answer.found sts) h = (sts.replicas ≡ some 0) ⊎ Written env (scale name 0) h

abbrev SleepsWhen :
    Env → ValkeyCluster → Answer StatefulSet → History → ReconcileResult × World → Type 0
SleepsWhen env vc a before r =
    Extends (Sleeps vc) before r.1.effects
    × (r.0.failed ≡ false
        → (r.1.vc.status.phase ≡ Phase.hibernated)
          × IsScaled env (stateful_set_name vc) a r.1.effects)

abbrev pub IsAsleep :
    Env → ValkeyCluster → Answer StatefulSet → History → ReconcileResult × World → Type 0
IsAsleep env vc a before r =
    Extends (Sleeps vc) before r.1.effects
    × ((r.0.failed ≡ true)
        ⊎ ((r.1.vc.status.phase ≡ Phase.hibernated)
            × IsScaled env (stateful_set_name vc) a r.1.effects))

asleep-eq : (o : Option ℕ) → is_asleep o ≡ true → o ≡ some 0
unfolding is_asleep
asleep-eq none h = cc
asleep-eq (some n) h = rw (==→eq n 0 h) refl

module _ (env : Env) (vc : ValkeyCluster) where
  reports :
      (a : Answer StatefulSet) (ready : ℕ) (now : World)
      → ((s : Status)
          → s.phase ≡ Phase.hibernated
          → IsScaled env (stateful_set_name vc) a (patch_status s ∷ now.effects))
      → SleepsWhen env vc a now.effects (report_hibernated env ready now)
  unfolding report_hibernated patch done_or_failed ◌>>=◌ object set_status ask pure
  reports a ready now k = (more refl same, λ ok. (refl, k _ refl))

  sleeps :
      (a : Answer StatefulSet) (now : World)
      → SleepsWhen env vc a now.effects (hibernate_found env (stateful_set_name vc) a now)
  unfolding hibernate_found
  sleeps Answer.failed now = unfold pure in (same, λ ok. cc)
  sleeps Answer.not_found now = reports Answer.not_found 0 now (λ s p. tt)
  sleeps (Answer.found sts) now =
      unfold ◌>>=◌ scale_to_zero ask pure in
      elim (Bool-cases (is_asleep sts.replicas)) [
        | inl down ↦ rw down (
            reports (Answer.found sts) sts.ready_replicas now
              (λ s p. inl (asleep-eq sts.replicas down)))
        | inr up ↦
            elim (Bool-cases (succeeds (env.accepts scaled (scale (stateful_set_name vc) 0)))) [
              | inr refused ↦ rw (up, refused) (more (refl, refl) same, λ ok. cc)
              | inl accepted ↦
                  let (x, k) =
                    reports (Answer.found sts) sts.ready_replicas (record now { effects = scaled })
                      (λ s p. inr (now.effects, more tt same, accepted)) in
                  rw (up, accepted) (Extends-trans (more (refl, refl) same) x, k)
            ]
      ]
    where
      scaled : History
      scaled = scale (stateful_set_name vc) 0 ∷ now.effects

pub reconcile_hibernated-IsAsleep :
    (env : Env) (w : World)
    → IsAsleep env w.vc
        (env.stateful_set
          (get Kind.stateful_set (stateful_set_name w.vc) ∷ w.effects)
          (stateful_set_name w.vc))
        w.effects
        (reconcile_hibernated env w)
unfolding reconcile_hibernated get_stateful_set ◌>>=◌ object ask
reconcile_hibernated-IsAsleep env w =
    let (x, k) = sleeps env w.vc _ _ in
    (Extends-trans (more (refl, refl) same) x, or-implied-not _ k)

longer : (a : Bytes) (b : ℕ) (c : Bytes) → a ++ (b ∷ c) ≢ a
longer [] b c h = cc
longer (x ∷ a) b c h = longer a b c (tail-eq h)
  where
    tail-eq : (x ∷ (a ++ (b ∷ c))) ≡ x ∷ a → (a ++ (b ∷ c)) ≡ a
    tail-eq h = cc

-- In the per-shard layout reconcileHibernated scales no StatefulSet of a shard, whatever the number
-- of shards.
pub reconcile_hibernated-miss :
    (env : Env) (w : World) (shard n : ℕ)
    → Extends
        (λ e. e ≢ scale (shard_sts_name w.vc shard) n)
        w.effects
        (reconcile_hibernated env w).1.effects
reconcile_hibernated-miss env w shard n = Extends-map misses (reconcile_hibernated-IsAsleep env w).0
  where
    named :
        (name : Bytes) (k : ℕ)
        → scale name k ≡ scale (shard_sts_name w.vc shard) n
        → name ≡ stateful_set_name w.vc
        → shard_sts_name w.vc shard ≡ stateful_set_name w.vc
    named name k h e = cc

    misses : (e : Effect) → Sleeps w.vc e → e ≢ scale (shard_sts_name w.vc shard) n
    misses (scale name k) (same_name, z) h =
        longer w.vc.name b'-' (codes "sh" ++ itoa shard)
          (unfold shard_sts_name stateful_set_name in named name k h same_name)
    misses (get kind name) q h = cc
    misses (patch_status s) q h = cc
    misses e q h = absurd q
