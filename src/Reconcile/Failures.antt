-- ===== src/Reconcile/Failures.antt =====
-- What becomes of the errors of a pass of reconcileCluster (internal/controller, cluster.go and
-- rollout.go).
use wellcake.Common.{
  ℕ, Bytes, ◌≡◌, refl, sym, ◌∙◌, ap, none, Bool, true, false, not, ◌∷◌, if◌then◌else◌, ◌&&◌,
  int32_lt, arith,
}
use mathlib.Core.Path.{subst}
use wellcake.Api.{ValkeyCluster, Phase, Status}
use wellcake.Sizing.{total_replicas}
use wellcake.Naming.{stateful_set_name}
use wellcake.Rollout.Run.{get_stateful_set}
use wellcake.Rollout.Shards.{drive_cluster_rollout, step_cluster_revision}
use wellcake.Recovery.Run.{maybe_recover_cluster_quorum, recover_initialized, not_handled}
use wellcake.Cluster.Scaling.{
  Outcome, outcome, is_final, patch, set_phase, run_job, watch_job, maybe_reconcile_cluster_scaling,
}
use wellcake.Reconcile.Formation.{
  cluster_formed, bootstrap_unless, run_cluster_bootstrap, form_from, bootstrap_or_restore,
  bootstrap_job_name,
}
use wellcake.Reconcile.Forming.{cluster_formed-Keeps}
use wellcake.Reconcile.Cluster.{
  is_steady, rollout_outcome, maybe_drive_cluster_rollout, roll_then_report, scale_then_roll,
  recover_then_scale, form_then_recover, survey_and_report, report_cluster, update_cluster_status,
  cluster_status, cluster_phase,
}
use wellcake.Runtime.{
  Env, World, History, Answer, Job, Kind, get, patch_status, pure, ◌>>=◌, object, ask, set_status,
  succeeds,
}

module _ (env : Env) (password : Bytes) (ready : ℕ) where
  reports-creating :
      (now : World)
      → now.vc.status.cluster_initialized ≡ false
      → (survey_and_report env password ready true now).1.vc.status.phase ≡ Phase.creating
  unfolding survey_and_report report_cluster update_cluster_status cluster_status cluster_phase
      patch ◌>>=◌ object set_status ask pure
  reports-creating now u = rw u refl

  recovers :
      (now : World)
      → now.vc.status.cluster_initialized ≡ false
      → maybe_recover_cluster_quorum env password now ≡ (not_handled, now)
  unfolding maybe_recover_cluster_quorum ◌>>=◌ object
  recovers now u = rw u (unfold recover_initialized pure in refl)

  scales :
      (want : ℕ) (now : World)
      → now.vc.status.cluster_initialized ≡ false
      → maybe_reconcile_cluster_scaling env want true now ≡ ((outcome false false, false), now)
  unfolding maybe_reconcile_cluster_scaling ◌>>=◌ object pure
  scales want now u = rw u refl

  unsteady :
      (want : ℕ) (vc : ValkeyCluster)
      → vc.status.cluster_initialized ≡ false
      → is_steady vc want ≡ false
  unfolding is_steady
  unsteady want vc u = ground arith

  drives :
      (want : ℕ) (now : World)
      → now.vc.status.cluster_initialized ≡ false
      → maybe_drive_cluster_rollout env password want now ≡ ((outcome false false, false), now)
  unfolding maybe_drive_cluster_rollout ◌>>=◌ object pure
  drives want now u = rw (unsteady want now.vc u) refl

  -- A Cluster that is not initialized: recovery, scaling and rollout are left out.
  rest-creating :
      (now : World)
      → now.vc.status.cluster_initialized ≡ false
      → (recover_then_scale env password ready true now).1.vc.status.phase ≡ Phase.creating
  unfolding recover_then_scale scale_then_roll roll_then_report ◌>>=◌ object
  rest-creating now u = rw (recovers now u, scales _ now u, drives _ now u) (reports-creating now u)

-- The API accepts every patch of the status.
abbrev pub AcceptsStatus : Env → Type 0
AcceptsStatus env = (h : History) (s : Status) → succeeds (env.accepts h (patch_status s)) ≡ true

module _ (env : Env) (accepts : AcceptsStatus env) (password : Bytes) (ready : ℕ) where
  -- The bootstrap of a failed Job.
  gives_up :
      (now : World) (j : Job)
      → env.job (get Kind.job (bootstrap_job_name now.vc) ∷ now.effects) (bootstrap_job_name now.vc)
        ≡ Answer.found j
      → int32_lt 0 j.succeeded ≡ false
      → int32_lt j.backoff_limit j.failures ≡ true
      → ((bootstrap_unless env false now).0 ≡ outcome false false)
        × ((bootstrap_unless env false now).1.vc.status.cluster_initialized
            ≡ now.vc.status.cluster_initialized)
        × ((bootstrap_unless env false now).1.vc.status.phase ≡ Phase.failed)
  unfolding bootstrap_unless run_job ◌>>=◌ object ask
  gives_up now j found undone broken = rw found (
      unfold watch_job set_phase patch ◌>>=◌ object set_status ask pure in
      rw (undone, broken, accepts _ _) (refl, refl, refl))

  boots :
      (w : World)
      → w.vc.spec.restore_from ≡ none
      → (cluster_formed env password w).0 ≡ false
      → bootstrap_or_restore env password w
        ≡ bootstrap_unless env false (cluster_formed env password w).1
  unfolding bootstrap_or_restore ◌>>=◌ object
  boots w bare unformed =
      subst
        (λ o.
          form_from env password o w ≡ bootstrap_unless env false (cluster_formed env password w).1)
        (sym bare)
        (unfold form_from run_cluster_bootstrap ◌>>=◌ in
          ap (λ b. bootstrap_unless env b (cluster_formed env password w).1) unformed)

  goes_on :
      (b : Outcome × World)
      → b.0 ≡ outcome false false
      → b.1.vc.status.cluster_initialized ≡ false
      → ((if is_final env b.0 then pure b.0 else recover_then_scale env password ready true)
          b.1).1.vc.status.phase
        ≡ Phase.creating
  unfolding is_final
  goes_on (o, now) e u = rw e (rest-creating env password ready now u)

-- Where a Cluster is not initialized and not restored from a backup, all pods are Ready and show no
-- formed cluster, the bootstrap Job has failed for good, and the API accepts every patch of the
-- status, the bootstrap reports the phase Failed, and the pass goes on and ends with the phase
-- Creating.
pub form_then_recover_forgets :
    (env : Env) (password : Bytes) (ready : ℕ) (w : World) (j : Job)
    → AcceptsStatus env
    → w.vc.status.cluster_initialized ≡ false
    → w.vc.spec.restore_from ≡ none
    → (cluster_formed env password w).0 ≡ false
    → env.job
        (get Kind.job (bootstrap_job_name w.vc) ∷ (cluster_formed env password w).1.effects)
        (bootstrap_job_name w.vc)
      ≡ Answer.found j
    → int32_lt 0 j.succeeded ≡ false
    → int32_lt j.backoff_limit j.failures ≡ true
    → ((bootstrap_or_restore env password w).1.vc.status.phase ≡ Phase.failed)
      × ((form_then_recover env password ready true w).1.vc.status.phase ≡ Phase.creating)
unfolding form_then_recover ◌>>=◌ object
form_then_recover_forgets env password ready w j accepts u bare unformed found undone broken =
    let (quiet, untouched, failed) =
      gives_up env accepts password ready (cluster_formed env password w).1 j
        (subst
          (λ (v : ValkeyCluster).
            env.job
              (get Kind.job (bootstrap_job_name v) ∷ (cluster_formed env password w).1.effects)
              (bootstrap_job_name v)
            ≡ Answer.found j)
          (sym kept) found)
        undone broken in
    (
      subst (λ (b : Outcome × World). b.1.vc.status.phase ≡ Phase.failed) (sym booted) failed,
      passes (not w.vc.status.cluster_initialized && true) (ground arith)
          (subst (λ (b : Outcome × World). b.0 ≡ outcome false false) (sym booted) quiet)
          (subst (λ (b : Outcome × World). b.1.vc.status.cluster_initialized ≡ false) (sym booted)
            (untouched ∙ ap (λ (v : ValkeyCluster). v.status.cluster_initialized) kept ∙ u)),
    )
  where
    kept : (cluster_formed env password w).1.vc ≡ w.vc
    kept = (cluster_formed-Keeps env password).kept w

    booted :
        bootstrap_or_restore env password w
        ≡ bootstrap_unless env false (cluster_formed env password w).1
    booted = boots env accepts password ready w bare unformed

    passes :
        (guard : Bool)
        → guard ≡ true
        → (bootstrap_or_restore env password w).0 ≡ outcome false false
        → (bootstrap_or_restore env password w).1.vc.status.cluster_initialized ≡ false
        → (((if guard then bootstrap_or_restore env password else pure (outcome false false))
              >>= λ formed.
                  if is_final env formed
                  then pure formed
                  else recover_then_scale env password ready true)
            w).1.vc.status.phase
          ≡ Phase.creating
    passes true e q i = goes_on env accepts password ready (bootstrap_or_restore env password w) q i
    passes false e q i = cc

-- In a steady Cluster with the proactive rollout, where the API has no StatefulSet with the name of
-- the cluster, the pass ends with an error as soon as it has looked for it: it deletes no pod,
-- sends nothing and reports no status.
pub roll_then_report_fails :
    (env : Env) (password : Bytes) (ready : ℕ) (all_ready : Bool) (w : World)
    → is_steady w.vc (total_replicas w.vc) ≡ true
    → env.stateful_set
        (get Kind.stateful_set (stateful_set_name w.vc) ∷ w.effects)
        (stateful_set_name w.vc)
      ≡ Answer.not_found
    → roll_then_report env password ready all_ready w ≡ (
      outcome false true,
      record w { effects = get Kind.stateful_set (stateful_set_name w.vc) ∷ w.effects },
    )
unfolding roll_then_report maybe_drive_cluster_rollout drive_cluster_rollout get_stateful_set
    rollout_outcome ◌>>=◌ object ask pure
roll_then_report_fails env password ready all_ready w steady missing =
    rw (steady, missing) (unfold step_cluster_revision pure in refl)
