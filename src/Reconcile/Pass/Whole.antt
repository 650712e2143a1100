-- ===== src/Reconcile/Pass/Whole.antt =====
-- What one pass of reconcileReplication may do to the pods (internal/controller,
-- valkeycluster_controller.go), from the first object to the status.
use wellcake.Common.{
  Bytes, ◌≡◌, refl, Option, none, some, Bool, true, false, not, [], if◌then◌else◌, &&-left,
  &&-right, is_empty, not-false, int32_lt,
}
use wellcake.Api.{is_replication}
use wellcake.Failover.{survey_replication}
use wellcake.Failover.Reads.{Emits-survey_replication}
use wellcake.Labels.{ensure_role_labels}
use wellcake.Reconcile.Replication.{
  unless_failed, ensure_service, ensure_replication_objects, ensure_policies, ensure_extras,
  finish_replication, is_managed, manage_replication, with_stateful_set, with_secret,
  reconcile_replication,
}
use wellcake.Reconcile.Upkeep.{
  IsUpkeep, applies, ensure_pdb-IsUpkeep, ensure_network_policy-IsUpkeep,
  ensure_backup_cron_job-IsUpkeep, ensure_service_monitor-IsUpkeep,
}
use wellcake.Reconcile.Upkeep.Workload.{
  ensure_stateful_set-IsUpkeep, ensure_password_secret-IsUpkeep,
}
use wellcake.Runtime.{Env, World, M, Kind, StatefulSet, ◌>>=◌, object}
use wellcake.Runtime.Emits.{
  Emits, Extends, same, Extends-map, Extends-trans, Emits-pure, Emits-bind, Emits-if,
}
use wellcake.Reconcile.Pass.{
  ManagesReplication, Permits, upkeep-Permits, status-Permits, rolls-Permits,
}

-- What follows upkeep only.
record After {A : Type 0} (env : Env) (w : World) (n : M A) : Type 0 where
  at :
      (now : World)
      → Extends IsUpkeep w.effects now.effects
      → Extends (Permits env w) now.effects (n now).1.effects

module _ (env : Env) (w : World) where
  After-Emits : {A : Type 0} {n : M A} → Emits (Permits env w) n → After env w n
  After-Emits e = record { at = λ now k. e.at now }

  After-bind :
      {A B : Type 0} (n : M A) (f : A → M B)
      → Emits IsUpkeep n
      → ((a : A) → After env w (f a))
      → After env w (n >>= f)
  unfolding ◌>>=◌
  After-bind n f u k = record {
    at = λ now x.
        let (a, later) = n now in
        Extends-trans (Extends-map (upkeep-Permits env w) (u.at now))
          ((k a).at later (Extends-trans x (u.at now)));
  }

  After-if :
      {A : Type 0} (b : Bool) (n k : M A)
      → (b ≡ true → After env w n)
      → (b ≡ false → After env w k)
      → After env w (if b then n else k)
  After-if true n k f g = f refl
  After-if false n k f g = g refl

  unless-IsUpkeep :
      (step next : M Bool)
      → Emits IsUpkeep step
      → Emits IsUpkeep next
      → Emits IsUpkeep (unless_failed step next)
  unfolding unless_failed
  unless-IsUpkeep step next f g =
      Emits-bind _ _ f (λ ok. Emits-if (not ok) _ _ (λ _. Emits-pure _) (λ _. g))

  unmanaged-Permits : (sts : StatefulSet) → Emits (Permits env w) (finish_replication env sts [] 0)
  unfolding finish_replication ensure_role_labels is_empty
  unmanaged-Permits sts =
      Emits-bind _ _ (Emits-pure _)
        (λ ok. Emits-bind _ _ (status-Permits env w sts []) (λ res. Emits-pure _))

  managed_by : (sts : StatefulSet) → is_managed w.vc sts ≡ true → ManagesReplication w.vc
  unfolding is_managed
  managed_by sts h = (
    &&-left _ _ h,
    &&-right (int32_lt 0 sts.ready_replicas) _ (&&-right (is_replication w.vc.spec.topology) _ h),
  )

  manages :
      (password : Bytes) (sts : StatefulSet)
      → After env w (manage_replication env w.vc password sts)
  unfolding manage_replication ◌>>=◌
  manages password sts =
      After-if (not (is_managed w.vc sts)) _ _ (λ _. After-Emits (unmanaged-Permits sts))
        (λ managed. record {
          at = λ now x.
              let m = managed_by sts (not-false _ managed) in
              Extends-trans
                ((Emits-survey_replication env password (Permits env w) (λ h q. m) (λ h. m)
                    (λ h. m)).at
                  now)
                ((rolls-Permits env w m now password x w.vc sts (λ e. e)).at
                  (survey_replication env password now).1);
        })

  with-set :
      (password : Bytes) (o : Option StatefulSet)
      → After env w (with_stateful_set env w.vc password o)
  unfolding with_stateful_set ensure_policies ensure_extras
  with-set password none = After-Emits (Emits-pure _)
  with-set password (some sts) =
      After-bind _ _
        (unless-IsUpkeep _ _ (ensure_pdb-IsUpkeep env w.vc)
          (ensure_network_policy-IsUpkeep env w.vc))
        (λ ok.
          After-if (not ok) _ _ (λ _. After-Emits (Emits-pure _))
            (λ _.
              After-bind _ _
                (Emits-bind _ _ (ensure_service_monitor-IsUpkeep env w.vc) (λ a.
                  Emits-bind _ _ (ensure_backup_cron_job-IsUpkeep env w.vc) (λ b. Emits-pure _)))
                (λ _. manages password sts)))

  with-password : (o : Option Bytes) → After env w (with_secret env w.vc o)
  unfolding with_secret ensure_replication_objects ensure_service
  with-password none = After-Emits (Emits-pure _)
  with-password (some password) =
      After-bind _ _
        (unless-IsUpkeep _ _ (applies env Kind.service _) (
          unless-IsUpkeep _ _ (applies env Kind.service _) (
            unless-IsUpkeep _ _ (applies env Kind.service _)
              (unless-IsUpkeep _ _ (applies env Kind.service _) (applies env Kind.config_map _)))))
        (λ ok.
          After-if (not ok) _ _ (λ _. After-Emits (Emits-pure _))
            (λ _.
              After-bind _ _ (ensure_stateful_set-IsUpkeep env w.vc) (λ o. with-set password o)))

-- Every pod that a pass of reconcileReplication dials, sends to, labels or deletes is touched because
-- the topology is Replication and spec.replicateFrom is not set. A pod is deleted only where the
-- proactive rollout is opted into, and promoted only as a replica that answered in a survey of the
-- pass, which was made before anything but the objects was touched.
pub reconcile_replication-Permits :
    (env : Env) (w : World)
    → Extends (Permits env w) w.effects (reconcile_replication env w).1.effects
unfolding reconcile_replication ◌>>=◌ object
reconcile_replication-Permits env w =
    (After-bind env w _ _ (ensure_password_secret-IsUpkeep env) (λ o. with-password env w o)).at w
      same
