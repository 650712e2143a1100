-- ===== src/Failover/Promotion.antt =====
-- The promises of reconcileFailover about data: whom it promotes, and when it promotes nobody.
use mathlib.Core.Path.{subst}
use wellcake.Common.{
  Bytes, ◌≡◌, List, [], ◌∷◌, true, arith, In, pos, ◌<ℤ◌, some, In-keep, inl, inr, ltb,
}
use wellcake.Api.{ValkeyCluster}
use wellcake.Failover.{PodRole, scan, pick_authoritative_master}
use wellcake.Failover.Masters.{pick_authoritative_master_first, GoesBefore}
use wellcake.Failover.Replicas.{
  IsReplica, IsAhead, scan_best_replica, masters-scan, is_reachable_master,
}
use wellcake.Failover.Run.{reconcile_failover, with_masters}
use wellcake.Failover.Safety.{Quiet, Emits-reconcile, Emits-with_masters, data_replica_guard}
use wellcake.Runtime.{Env, Effect, Command, send}
use wellcake.Runtime.Emits.{Emits, Emits-bind, Emits-object, Emits-if, Emits-pure}

-- A promotion goes to a reachable replica of the survey that is ahead of s.
abbrev pub PromotesAheadOf : List PodRole → PodRole → Effect → Type 0
PromotesAheadOf survey s (send host Command.replica_of_no_one) =
    (b : PodRole) × (host ≡ b.host) × In b survey × IsReplica b × IsAhead b s
PromotesAheadOf survey s _ = Unit

PromotesAheadOf-Quiet : (survey : List PodRole) (s : PodRole) → Quiet (PromotesAheadOf survey s)
PromotesAheadOf-Quiet survey s = record { dials = λ h p w. tt; clocks = tt; patches = λ vc t. tt }

-- Whatever the pods answer, each REPLICAOF NO ONE that reconcileFailover sends goes to a reachable
-- replica of the survey that is ahead of every reachable replica s: more data, or as much data and
-- no lower offset.
pub reconcile_failover_promotes_best :
    (env : Env) (password : Bytes) (survey : List PodRole) (s : PodRole)
    → In s survey
    → IsReplica s
    → Emits (PromotesAheadOf survey s) (reconcile_failover env password survey)
reconcile_failover_promotes_best env password survey s i h =
    Emits-reconcile env (PromotesAheadOf survey s) (PromotesAheadOf-Quiet survey s) password survey
      (λ b e. best b e (scan_best_replica survey s i h)) (λ primary r port j k. tt)
  where
    best :
        (b : PodRole)
        → (scan survey).best_replica ≡ some b
        → (x : PodRole) × ((scan survey).best_replica ≡ some x)
          × (In x survey × IsReplica x)
          × IsAhead x s
        → (x : PodRole) × (b.host ≡ x.host) × In x survey × IsReplica x × IsAhead x s
    best b e (x, f, (j, k), a) = (x, cc (e, f), j, k, a)

-- No promotion at all.
abbrev pub PromotesNobody : Effect → Type 0
PromotesNobody (send host Command.replica_of_no_one) = ⊥
PromotesNobody _ = Unit

PromotesNobody-Quiet : Quiet PromotesNobody
PromotesNobody-Quiet = record { dials = λ h p w. tt; clocks = tt; patches = λ vc t. tt }

GoesBefore-positive :
    (vc : ValkeyCluster) (c m : PodRole) → GoesBefore vc c m → pos 0 <ℤ m.keys → pos 0 <ℤ c.keys
GoesBefore-positive vc c m (inl less) k = omega arith
GoesBefore-positive vc c m (inr (same, tie)) k = subst (λ x. pos 0 <ℤ x) same k

-- While a reachable master holds data, reconcileFailover promotes nobody.
pub reconcile_failover_keeps_data :
    (env : Env) (password : Bytes) (survey : List PodRole) (m : PodRole)
    → In m survey
    → is_reachable_master m ≡ true
    → pos 0 <ℤ m.keys
    → Emits PromotesNobody (reconcile_failover env password survey)
unfolding reconcile_failover
reconcile_failover_keeps_data env password survey m i h k = Emits-bind _ _ Emits-object (λ vc.
    Emits-if (ltb (scan survey).reachable 2) _ _ (λ _. Emits-pure _)
      (λ _.
        by_masters (scan survey).masters
          (rw masters-scan (In-keep is_reachable_master m survey i h))))
  where
    by_masters :
        (masters : List PodRole)
        → In m masters
        → Emits PromotesNobody (with_masters env password survey masters (scan survey).best_replica)
    by_masters [] j = elim j [ ]
    by_masters (x ∷ masters) j =
        Emits-with_masters env PromotesNobody PromotesNobody-Quiet password survey x masters _
          (λ vc b e. cc (
            e,
            data_replica_guard (pick_authoritative_master vc x masters) (scan survey).best_replica (
                GoesBefore-positive vc (pick_authoritative_master vc x masters) m
                  (pick_authoritative_master_first vc x masters m j).1 k),
          ))
          (λ primary r port a c. tt)
