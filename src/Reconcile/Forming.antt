-- ===== src/Reconcile/Forming.antt =====
-- When a Cluster counts as formed (internal/controller, cluster.go and restore_assembly.go).
use wellcake.Common.{
  or-implied, Bytes, ◌≡◌, ◌⊎◌, inl, inr, refl, sym, ◌∙◌, ap, Option, none, some, Bool, true, false,
  ◌∷◌, Bool-cases, int32_lt,
}
use mathlib.Core.Path.{subst}
use wellcake.Api.{ValkeyCluster, RestoreSpec}
use wellcake.Cluster.Scaling.{patch, create_job, run_job, watch_job, set_phase}
use wellcake.Reconcile.Formation.{
  ask_formed, cluster_formed, adopt_formed_cluster, bootstrap_unless, run_cluster_bootstrap,
  watch_assembly, assemble_unless, run_cluster_restore_assembly, form_from, bootstrap_or_restore,
  bootstrap_job_name, assembly_job_name,
}
use wellcake.Runtime.{
  Env, World, Effect, History, Answer, Job, Kind, get, create, pure, ◌>>=◌, object, ask, set_status,
}
use wellcake.Runtime.Emits.{
  Extends, same, more, Extends-trans, Emits, Emits-pure, Emits-bind, Emits-object, Emits-dial,
  Emits-query,
}
use wellcake.Runtime.Keeps.{Keeps, Keeps-pure, Keeps-bind, Keeps-object, Keeps-dial, Keeps-query}

-- The Job that forms the cluster: it creates one, or assembles one from the backup.
abbrev pub forming_job : ValkeyCluster → Option RestoreSpec → Bytes
forming_job vc none = bootstrap_job_name vc
forming_job vc (some r) = assembly_job_name vc

asks-Keeps : (env : Env) (host : Bytes) (b : Bool) → Keeps (ask_formed env host b)
unfolding ask_formed
asks-Keeps env host false = Keeps-pure _
asks-Keeps env host true = Keeps-bind _ _ (Keeps-query env host _) (λ out. Keeps-pure _)

pub cluster_formed-Keeps : (env : Env) (password : Bytes) → Keeps (cluster_formed env password)
unfolding cluster_formed
cluster_formed-Keeps env password =
    Keeps-bind _ _ Keeps-object
      (λ vc. Keeps-bind _ _ (Keeps-dial env _ _ password) (λ connected. asks-Keeps env _ connected))

-- What a pass knows of the cluster before it is formed: the Job, as it is read after the question to
-- the pods.
abbrev pub job_at : Env → Bytes → World → Answer Job
job_at env password w =
    let name = forming_job w.vc w.vc.spec.restore_from in
    env.job (get Kind.job name ∷ (cluster_formed env password w).1.effects) name

-- The pods show a formed cluster, or the Job has succeeded.
abbrev pub IsFormed : Bool → Answer Job → Type 0
IsFormed formed (Answer.found j) = (formed ≡ true) ⊎ (int32_lt 0 j.succeeded ≡ true)
IsFormed formed a = formed ≡ true

-- A Job is created only where the pods show no formed cluster and there is no such Job.
abbrev pub Creates : Bytes → Bool → Answer Job → Effect → Type 0
Creates name formed a (create kind n) =
    (kind ≡ Kind.job) × (n ≡ name) × (formed ≡ false) × (a ≡ Answer.not_found)
Creates name formed a e = Unit

abbrev FormsWhen : Bytes → Bool → Answer Job → History → World → Type 0
FormsWhen name formed a before w =
    Extends (Creates name formed a) before w.effects
    × (w.vc.status.cluster_initialized ≡ true → IsFormed formed a)

abbrev pub Forms : Bytes → Bool → Answer Job → History → World → Type 0
Forms name formed a before w =
    Extends (Creates name formed a) before w.effects
    × ((w.vc.status.cluster_initialized ≡ false) ⊎ IsFormed formed a)

module _ (env : Env) (name : Bytes) (formed : Bool) (a : Answer Job) (now : World) where
  adopts : IsFormed formed a → FormsWhen name formed a now.effects (adopt_formed_cluster env now).1
  unfolding adopt_formed_cluster patch ◌>>=◌ object set_status ask pure
  adopts f = (more tt same, λ i. f)

  fails :
      now.vc.status.cluster_initialized ≡ false
      → FormsWhen name formed a now.effects (set_phase env now).1
  unfolding set_phase patch ◌>>=◌ object set_status ask pure
  fails u = (more tt same, λ i. cc)

  creates :
      formed ≡ false
      → a ≡ Answer.not_found
      → now.vc.status.cluster_initialized ≡ false
      → (b : Bool) → FormsWhen name formed a now.effects (create_job env name b now).1
  unfolding create_job ◌>>=◌ ask pure
  creates f m u b = (more (refl, refl, f, m) same, λ i. cc)

  watches :
      formed ≡ false
      → now.vc.status.cluster_initialized ≡ false
      → (c : Answer Job) → a ≡ c
      → FormsWhen name formed a now.effects
          (watch_job env name false (adopt_formed_cluster env) c now).1
  unfolding watch_job
  watches f u Answer.not_found e = creates f e u false
  watches f u Answer.failed e = unfold pure in (same, λ i. cc)
  watches f u (Answer.found j) e = elim (Bool-cases (int32_lt 0 j.succeeded)) [
    | inl done ↦ rw done (adopts (subst (IsFormed formed) (sym e) (inr done)))
    | inr undone ↦ elim (Bool-cases (int32_lt j.backoff_limit j.failures)) [
      | inl broken ↦ rw (undone, broken) (fails u)
      | inr running ↦ rw (undone, running) (unfold pure in (same, λ i. cc))
    ]
  ]

  assembles :
      formed ≡ false
      → now.vc.status.cluster_initialized ≡ false
      → (c : Answer Job) → a ≡ c
      → FormsWhen name formed a now.effects (watch_assembly env name c now).1
  unfolding watch_assembly
  assembles f u Answer.not_found e = creates f e u true
  assembles f u Answer.failed e = unfold pure in (same, λ i. cc)
  assembles f u (Answer.found j) e = elim (Bool-cases (int32_lt 0 j.succeeded)) [
    | inl done ↦ rw done (adopts (subst (IsFormed formed) (sym e) (inr done)))
    | inr undone ↦ rw undone (unfold pure in (same, λ i. cc))
  ]

shown : (formed : Bool) (a : Answer Job) → formed ≡ true → IsFormed formed a
shown formed (Answer.found j) h = inl h
shown formed Answer.not_found h = h
shown formed Answer.failed h = h

module _ (env : Env) (now : World) (u : now.vc.status.cluster_initialized ≡ false) where
  boots :
      (formed : Bool)
      → FormsWhen
          (bootstrap_job_name now.vc)
          formed
          (env.job
            (get Kind.job (bootstrap_job_name now.vc) ∷ now.effects)
            (bootstrap_job_name now.vc))
          now.effects
          (bootstrap_unless env formed now).1
  unfolding bootstrap_unless run_job ◌>>=◌ object ask
  boots true = adopts env _ true _ now (shown true _ refl)
  boots false =
      let (x, k) =
        watches env (bootstrap_job_name now.vc) false _
          (record now { effects = get Kind.job (bootstrap_job_name now.vc) ∷ now.effects }) refl u _
          refl in
      (Extends-trans (more tt same) x, k)

  joins :
      (formed : Bool)
      → FormsWhen
          (assembly_job_name now.vc)
          formed
          (env.job
            (get Kind.job (assembly_job_name now.vc) ∷ now.effects)
            (assembly_job_name now.vc))
          now.effects
          (assemble_unless env formed now).1
  unfolding assemble_unless ◌>>=◌ object ask
  joins true = adopts env _ true _ now (shown true _ refl)
  joins false =
      let (x, k) =
        assembles env (assembly_job_name now.vc) false _
          (record now { effects = get Kind.job (assembly_job_name now.vc) ∷ now.effects }) refl u _
          refl in
      (Extends-trans (more tt same) x, k)

asks-Creates :
    (env : Env) (password : Bytes) (name : Bytes) (formed : Bool) (a : Answer Job)
    → Emits (Creates name formed a) (cluster_formed env password)
unfolding cluster_formed
asks-Creates env password name formed a =
    Emits-bind _ _ Emits-object
      (λ vc. Emits-bind _ _ (Emits-dial env _ _ password tt) (λ connected. asks _ connected))
  where
    asks : (host : Bytes) (b : Bool) → Emits (Creates name formed a) (ask_formed env host b)
    asks host false = unfold ask_formed in Emits-pure _
    asks host true =
        unfold ask_formed in Emits-bind _ _ (Emits-query env host _ tt) (λ out. Emits-pure _)

-- Of a Cluster that is not initialized, bootstrapOrRestore creates a Job only where the pods show no
-- formed cluster and the API has no such Job, the one that assembles a backup where spec.restoreFrom
-- is set and the one that creates the cluster elsewhere; and it marks the cluster as initialized only
-- where the pods show that it is formed or that Job has succeeded.
pub bootstrap_or_restore-Forms :
    (env : Env) (password : Bytes) (w : World)
    → w.vc.status.cluster_initialized ≡ false
    → Forms
        (forming_job w.vc w.vc.spec.restore_from)
        (cluster_formed env password w).0
        (job_at env password w)
        w.effects
        (bootstrap_or_restore env password w).1
unfolding bootstrap_or_restore ◌>>=◌ object
bootstrap_or_restore-Forms env password w u =
    let (x, k) = by_source w.vc.spec.restore_from in (x, or-implied _ k)
  where
    kept : (cluster_formed env password w).1.vc ≡ w.vc
    kept = (cluster_formed-Keeps env password).kept w

    uninitialized : (cluster_formed env password w).1.vc.status.cluster_initialized ≡ false
    uninitialized = ap (λ (v : ValkeyCluster). v.status.cluster_initialized) kept ∙ u

    after :
        (name : Bytes) (answer : Answer Job) (r : World)
        → FormsWhen name
            (cluster_formed env password w).0
            answer
            (cluster_formed env password w).1.effects
            r
        → FormsWhen name (cluster_formed env password w).0 answer w.effects r
    after name answer r (x, k) = (
      Extends-trans ((asks-Creates env password name (cluster_formed env password w).0 answer).at w)
          x,
      k,
    )

    by_source :
        (o : Option RestoreSpec)
        → FormsWhen
            (forming_job w.vc o)
            (cluster_formed env password w).0
            (env.job
              (get Kind.job (forming_job w.vc o) ∷ (cluster_formed env password w).1.effects)
              (forming_job w.vc o))
            w.effects
            (form_from env password o w).1
    by_source none =
        unfold form_from run_cluster_bootstrap ◌>>=◌ in
        after _ _
          (bootstrap_unless env (cluster_formed env password w).0
            (cluster_formed env password w).1).1
          (subst
            (λ (v : ValkeyCluster).
              FormsWhen (bootstrap_job_name v) (cluster_formed env password w).0
                (env.job
                  (get Kind.job (bootstrap_job_name v) ∷ (cluster_formed env password w).1.effects)
                  (bootstrap_job_name v))
                (cluster_formed env password w).1.effects
                (bootstrap_unless env (cluster_formed env password w).0
                  (cluster_formed env password w).1).1)
            kept
            (boots env (cluster_formed env password w).1 uninitialized
              (cluster_formed env password w).0))
    by_source (some r) =
        unfold form_from run_cluster_restore_assembly ◌>>=◌ in
        after _ _
          (assemble_unless env (cluster_formed env password w).0
            (cluster_formed env password w).1).1
          (subst
            (λ (v : ValkeyCluster).
              FormsWhen (assembly_job_name v) (cluster_formed env password w).0
                (env.job
                  (get Kind.job (assembly_job_name v) ∷ (cluster_formed env password w).1.effects)
                  (assembly_job_name v))
                (cluster_formed env password w).1.effects
                (assemble_unless env (cluster_formed env password w).0
                  (cluster_formed env password w).1).1)
            kept
            (joins env (cluster_formed env password w).1 uninitialized
              (cluster_formed env password w).0))
