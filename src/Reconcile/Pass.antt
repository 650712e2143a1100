-- ===== src/Reconcile/Pass.antt =====
-- What one pass of reconcileReplication may do to the pods (internal/controller,
-- valkeycluster_controller.go), whatever the parts that it is made of find.
pub mod Whole
use wellcake.Common.{
  ℕ, Bytes, codes, ◌≡◌, ◌⊎◌, inl, inr, refl, sym, Option, none, some, Bool, true, false, not, List,
  [], ◌∷◌, In, Bool-cases, if◌then◌else◌, ◌&&◌, &&-left, &&-right, eqb, eqb→eq, is_empty, not-false,
  int32_lt,
}
use mathlib.Core.Path.{subst}
use mathlib.Core.Option.{some-injective}
use wellcake.Api.{ValkeyCluster, is_replication, map_get}
use wellcake.Api.Defaults.{is_absent}
use wellcake.Info.{role_slave}
use wellcake.Failover.{PodRole, survey_replication, scan}
use wellcake.Failover.Reads.{Emits-survey_replication}
use wellcake.Failover.Replicas.{IsReplica, Holds, scan-Holds}
use wellcake.Failover.Run.{reconcile_failover}
use wellcake.Failover.Safety.{Quiet, Emits-reconcile, Emits-enforce}
use wellcake.Failover.Targets.{is_candidate, best_target-Comes}
use wellcake.Failover.Manual.{manual_failover, promote_target, pick_failover_target}
use wellcake.Failover.Manual.Outcome.{pick_failover_target_chooses}
use wellcake.Labels.{ensure_role_labels, label_listed, label_pods, wanted_role, current_role}
use wellcake.Rollout.{proactive_rollout_enabled, is_fresh_ready, fresh_ready, best_rollout_target}
use wellcake.Rollout.Order.{StepOf, drive_replication_rollout_steps}
use wellcake.Rollout.Run.{RolloutResult, drive_replication_rollout}
use wellcake.Cluster.Scaling.{patch}
use wellcake.Reconcile.Replication.{
  unless_failed, ensure_service, ensure_replication_objects, ensure_policies, ensure_extras,
  finish_replication, manual_or, fail_over, after_rollout, manage_survey, is_managed,
  manage_replication, with_stateful_set, with_secret, reconcile_replication, requeue_in,
}
use wellcake.Reconcile.Status.{Emits-update_status, update_status}
use wellcake.Reconcile.Upkeep.{IsUpkeep}
use wellcake.Runtime.{
  Env, World, M, Effect, Command, Kind, Pod, StatefulSet, ReconcileResult, dial, send, delete,
  label_pod, pure, ◌>>=◌, object,
}
use wellcake.Runtime.Emits.{
  Emits, Extends, same, more, Extends-map, Extends-trans, Emits-pure, Emits-bind, Emits-if,
  Emits-ask, Emits-object, Emits-perform, Emits-set_status, Emits-dial, Emits-command,
}

-- The operator manages replication: the topology has it, and nobody outside is the primary.
abbrev pub ManagesReplication : ValkeyCluster → Type 0
ManagesReplication vc =
    (is_replication vc.spec.topology ≡ true) × (is_absent vc.spec.replicate_from ≡ true)

-- The host of a replica that answered in a survey of the pass, made after upkeep only.
abbrev pub IsSurveyed : Env → World → Bytes → Type 0
IsSurveyed env w host =
    (now : World) × (password : Bytes) × (t : PodRole) × Extends IsUpkeep w.effects now.effects
    × In t (survey_replication env password now).0
    × IsReplica t
    × (host ≡ t.host)

-- What a pass may do to a pod.
abbrev pub Permits : Env → World → Effect → Type 0
Permits env w (dial host port password) = ManagesReplication w.vc
Permits env w (send host Command.replica_of_no_one) =
    ManagesReplication w.vc × IsSurveyed env w host
Permits env w (send host c) = ManagesReplication w.vc
Permits env w (label_pod name role) = ManagesReplication w.vc
Permits env w (delete Kind.pod name) =
    ManagesReplication w.vc × (proactive_rollout_enabled w.vc ≡ true)
Permits env w _ = Unit

pub upkeep-Permits : (env : Env) (w : World) (e : Effect) → IsUpkeep e → Permits env w e
upkeep-Permits env w (dial host port password) q = absurd q
upkeep-Permits env w (send host c) q = absurd q
upkeep-Permits env w (label_pod name role) q = absurd q
upkeep-Permits env w (delete Kind.pod name) q = absurd q
upkeep-Permits env w e q = tt

-- The target of a rollout is a replica that answered.
rollout_target-IsReplica : (allowed : _) (s : PodRole) → is_candidate allowed s ≡ true → IsReplica s
unfolding is_candidate
rollout_target-IsReplica allowed s h =
    let both = &&-left (s.reachable && eqb s.role role_slave) _ h in
    (
      &&-left s.reachable (eqb s.role role_slave) both,
      eqb→eq s.role role_slave (&&-right s.reachable (eqb s.role role_slave) both),
    )

module _ (env : Env) (w : World) where
  pub status-Permits :
      (sts : StatefulSet) (primary : Bytes) → Emits (Permits env w) (update_status env sts primary)
  status-Permits sts primary = Emits-update_status env (Permits env w) (λ s. tt) sts primary

-- Once a pass manages replication, what the parts do after the survey.
module _ (env : Env) (w : World) (m : ManagesReplication w.vc) (now : World) (password : Bytes)
    (kept : Extends IsUpkeep w.effects now.effects) where
  abbrev survey : List PodRole
  survey = (survey_replication env password now).0

  surveyed :
      (t : PodRole)
      → In t survey
      → IsReplica t
      → Permits env w (send t.host Command.replica_of_no_one)
  surveyed t i r = (m, (now, password, t, kept, i, r, refl))

  quiet : Quiet (Permits env w)
  quiet = record { dials = λ h q p. m; clocks = tt; patches = λ vc t. tt }

  failover-Permits : Emits (Permits env w) (reconcile_failover env password survey)
  failover-Permits =
      Emits-reconcile env (Permits env w) quiet password survey
        (λ b e.
          let (i, r) =
            holds (scan survey).best_replica b e (scan-Holds _ survey (λ s j k. (j, k))) in
          surveyed b i r)
        (λ primary s port i k. m)
    where
      holds :
          (o : Option PodRole) (b : PodRole)
          → o ≡ some b
          → Holds (λ s. In s survey × IsReplica s) o
          → In b survey × IsReplica b
      holds none b e h = cc
      holds (some x) b e h = subst (λ y. In y survey × IsReplica y) (some-injective x b e) h

  manual-Permits :
      (token : Bytes) → Emits (Permits env w) (manual_failover env password survey token)
  unfolding manual_failover
  manual-Permits token = Emits-bind _ _ Emits-object (λ vc.
      on
        (pick_failover_target vc survey
          (map_get vc.annotations (codes "valkey.wellcake.io/failover-target")))
        (λ t e.
          (pick_failover_target_chooses vc survey
            (map_get vc.annotations (codes "valkey.wellcake.io/failover-target")) t e).0))
    where
      on :
          (o : Option PodRole)
          → ((t : PodRole) → o ≡ some t → In t survey × IsReplica t)
          → Emits (Permits env w) (promote_target env password survey token o)
      on none h = unfold promote_target in Emits-pure _
      on (some t) h =
          unfold promote_target in
          Emits-bind _ _ Emits-object (λ vc.
            Emits-bind _ _ (Emits-dial env t.host _ password m) (λ connected.
              Emits-if (not connected) _ _ (λ _. Emits-pure _)
                (λ _.
                  Emits-bind _ _
                    (Emits-command env t.host Command.replica_of_no_one
                      (surveyed t (h t refl).0 (h t refl).1))
                    (λ promoted.
                      Emits-if (not promoted) _ _ (λ _. Emits-pure _)
                        (λ _.
                          Emits-bind _ _
                            (Emits-enforce env (Permits env w) quiet password _ t survey
                              (λ s i e. m))
                            (λ _. Emits-bind _ _ Emits-object (λ later.
                              Emits-bind _ _ (Emits-set_status _) (λ _.
                                Emits-bind _ _ (Emits-perform _ tt) (λ _. Emits-pure _)))))))))

  each-Permits :
      (primary : Bytes) (pods : List Pod) → Emits (Permits env w) (label_pods primary pods)
  unfolding label_pods
  each-Permits primary [] = Emits-pure _
  each-Permits primary (p ∷ pods) =
      Emits-if (eqb (current_role p) (wanted_role primary p)) _ _ (λ _. each-Permits primary pods)
        (λ _. Emits-bind _ _ (Emits-perform _ m) (λ _. each-Permits primary pods))

  labels-Permits : (primary : Bytes) → Emits (Permits env w) (ensure_role_labels env primary)
  unfolding ensure_role_labels
  labels-Permits primary =
      Emits-if (is_empty primary) _ _ (λ _. Emits-pure _)
        (λ _. Emits-bind _ _ Emits-object (λ vc. Emits-bind _ _ (Emits-ask _ _ tt) (λ o. listed o)))
    where
      listed : (o : Option (List Pod)) → Emits (Permits env w) (label_listed primary o)
      listed none = unfold label_listed in Emits-pure _
      listed (some pods) =
          unfold label_listed in Emits-bind _ _ (each-Permits primary pods) (λ _. Emits-pure _)

  finish-Permits :
      (sts : StatefulSet) (primary : Bytes) (seconds : ℕ)
      → Emits (Permits env w) (finish_replication env sts primary seconds)
  unfolding finish_replication
  finish-Permits sts primary seconds =
      Emits-bind _ _ (labels-Permits primary)
        (λ ok. Emits-bind _ _ (status-Permits env w sts primary) (λ res. Emits-pure _))

  fail_over-Permits :
      (sts : StatefulSet) → Emits (Permits env w) (fail_over env password sts survey)
  unfolding fail_over manual_or
  fail_over-Permits sts = Emits-bind _ _ failover-Permits (λ kept.
      Emits-bind _ _
        (Emits-bind _ _ Emits-object (λ vc.
          Emits-if
            (not (
              not (is_empty (map_get vc.annotations (codes "valkey.wellcake.io/failover")))
              && not (
                  eqb (map_get vc.annotations (codes "valkey.wellcake.io/failover"))
                    vc.status.last_failover_token)))
            _ _ (λ _. Emits-pure _)
            (λ _. Emits-bind _ _ (manual-Permits _) (λ chosen. Emits-pure _))))
        (λ primary. finish-Permits sts primary 15))

  after_rollout-Permits :
      (sts : StatefulSet) (r : RolloutResult)
      → Emits (Permits env w) (after_rollout env password sts survey r)
  unfolding after_rollout
  after_rollout-Permits sts r =
      Emits-if r.failed _ _ (λ _. Emits-pure _)
        (λ _.
          Emits-if r.in_progress _ _
            (λ _. Emits-bind _ _ (status-Permits env w sts r.primary) (λ res. Emits-pure _))
            (λ _. fail_over-Permits sts))

  rollout-Permits :
      proactive_rollout_enabled w.vc ≡ true
      → (later : World) (e : Effect) → StepOf env survey later e
      → Permits env w e
  unfolding best_rollout_target
  rollout-Permits opted later (send host Command.replica_of_no_one) (inl q) = absurd q
  rollout-Permits opted later (send host Command.replica_of_no_one)
        (inr (sts, pods, a, b, (j, t, best, same_host))) =
      let (i, c) = best_target-Comes _ survey t best in
      subst (λ h. Permits env w (send h Command.replica_of_no_one)) (sym same_host)
        (surveyed t i (rollout_target-IsReplica _ t c))
  rollout-Permits opted later (send host c) q = m
  rollout-Permits opted later (dial host port p) q = m
  rollout-Permits opted later (label_pod n r) q = m
  rollout-Permits opted later (delete Kind.pod n) q = (m, opted)
  rollout-Permits opted later e q = tt

  pub rolls-Permits :
      (vc : ValkeyCluster) (sts : StatefulSet)
      → (proactive_rollout_enabled vc ≡ true → proactive_rollout_enabled w.vc ≡ true)
      → Emits (Permits env w) (manage_survey env vc password sts survey)
  unfolding manage_survey
  rolls-Permits vc sts same_vc =
      Emits-if (not (proactive_rollout_enabled vc)) _ _ (λ _. fail_over-Permits sts)
        (λ opted.
          Emits-bind _ _
            (record {
              at = λ later.
                  Extends-map (rollout-Permits (same_vc (not-false _ opted)) later)
                    (drive_replication_rollout_steps env password survey later);
            })
            (λ r. after_rollout-Permits sts r))
