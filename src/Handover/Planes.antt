-- ===== src/Handover/Planes.antt =====
-- What driveSentinelRollout deletes (internal/controller/rollout_sentinel.go): replicas and
-- Sentinels, never the master.
use wellcake.Common.{
  Bytes, ◌≡◌, ◌⊎◌, inl, inr, refl, List, [], false, Bool-cases, Option, none, some, is_empty,
  exists, int32, int32_lt, length,
}
use wellcake.Naming.{stateful_set_name, sentinel_stateful_set_name}
use wellcake.Rotation.Accepted.{Grows, Extends-Grows}
use wellcake.Failover.{PodRole, survey_replication}
use wellcake.Rollout.{
  RolloutPod, RolloutAction, is_stale, list_rollout_pods, delete_pod_by_name, next_rollout_step,
}
use wellcake.Rollout.Decision.{IsJustified, next_rollout_step-IsJustified}
use wellcake.Rollout.Run.{get_stateful_set}
use wellcake.Rollout.Shards.{Progress, roll_pod}
use wellcake.Handover.Mild.{IsMild, handover-IsMild, survey-IsMild}
use wellcake.Handover.Run.{
  sentinel_replicas, sentinel_data_master, list_sentinel_rollout_pods, sentinel_action,
  sentinel_pods, sentinel_revision, sentinel_plane, data_action, data_survey, data_pods,
  data_revision, drive_sentinel_rollout,
}
use wellcake.Runtime.{
  Env, Effect, World, History, M, Answer, StatefulSet, Kind, delete, ◌>>=◌, object, pure, ask,
}
use wellcake.Runtime.Emits.{Extends, same, more, Extends-trans, Extends-map}

-- A stale replica of the data pods that were listed, while every one of them is Ready, for the
-- revision of their StatefulSet. The survey shows one master, and the pod is not it. All this was
-- read after w.
abbrev pub IsDataStep : Env → Bytes → World → Bytes → Type 0
IsDataStep env password w n =
    (x : World) × (v : World) × (u : World) × (sts : StatefulSet) × (pods : List RolloutPod)
    × (Grows w.effects x.effects × Grows w.effects v.effects × Grows w.effects u.effects)
    × ((get_stateful_set env (stateful_set_name w.vc) x).0 ≡ Answer.found sts)
    × ((list_rollout_pods env v).0 ≡ some pods)
    × (is_empty (sentinel_data_master w.vc (survey_replication env password u).0) ≡ false)
    × IsJustified pods sts.update_revision
        (sentinel_data_master w.vc (survey_replication env password u).0)
        (RolloutAction.rollout_roll_replica n)

-- A stale one of the Sentinels that were listed, while every one of them is Ready.
abbrev pub IsSentinelStep : Env → World → Bytes → Type 0
IsSentinelStep env w n =
    (x : World) × (v : World) × (sts : StatefulSet) × (pods : List RolloutPod) × (Grows w.effects
        x.effects
      × Grows w.effects v.effects)
    × ((get_stateful_set env (sentinel_stateful_set_name x.vc) x).0 ≡ Answer.found sts)
    × ((list_sentinel_rollout_pods env v).0 ≡ some pods)
    × IsJustified pods sts.update_revision [] (RolloutAction.rollout_roll_replica n)

abbrev pub PlaneStep : Env → Bytes → World → Effect → Type 0
PlaneStep env password w e =
    IsMild e
    ⊎ ((n : Bytes) × (e ≡ delete Kind.pod n)
        × (IsDataStep env password w n ⊎ IsSentinelStep env w n))

module _ (env : Env) (password : Bytes) (w : World) where
  -- A stage that starts at `now`, after w.
  abbrev Stage : M Progress → World → Type 0
  Stage m now = Extends (PlaneStep env password w) now.effects (m now).1.effects

  mild : {a b : History} → Extends IsMild a b → Extends (PlaneStep env password w) a b
  mild x = Extends-map (λ e c. inl c) x

  roll-Stage :
      (n : Bytes) (now : World)
      → IsDataStep env password w n ⊎ IsSentinelStep env w n
      → Stage (roll_pod env n) now
  unfolding roll_pod delete_pod_by_name ◌>>=◌ pure ask
  roll-Stage n now h = more (inr (n, refl, h)) same

  sentinel-Stage :
      (x v : World) (sts : StatefulSet) (o : Option (List RolloutPod)) (now : World)
      → Grows w.effects x.effects
      → Grows w.effects v.effects
      → (get_stateful_set env (sentinel_stateful_set_name x.vc) x).0 ≡ Answer.found sts
      → (list_sentinel_rollout_pods env v).0 ≡ o
      → Stage (sentinel_pods env x.vc sts.update_revision o) now
  unfolding sentinel_pods pure
  sentinel-Stage x v sts none now gx gv e f = same
  sentinel-Stage x v sts (some pods) now gx gv e f =
      elim (Bool-cases (int32_lt (int32 (length pods)) (sentinel_replicas x.vc.spec.sentinel))) [
        | inl few ↦ rw few same
        | inr enough ↦ rw enough (
            acts (next_rollout_step pods sts.update_revision [])
              (next_rollout_step-IsJustified pods sts.update_revision []))
      ]
    where
      acts :
          (a : RolloutAction)
          → IsJustified pods sts.update_revision [] a
          → Stage (sentinel_action env a) now
      acts RolloutAction.rollout_none h = unfold sentinel_action pure in same
      acts RolloutAction.rollout_wait h = unfold sentinel_action pure in same
      acts (RolloutAction.rollout_promote n) h = unfold sentinel_action pure in same
      acts (RolloutAction.rollout_roll_replica n) h =
          unfold sentinel_action in roll-Stage n now (inr (x, v, sts, pods, (gx, gv), e, f, h))

  plane-Stage : (now : World) → Grows w.effects now.effects → Stage (sentinel_plane env) now
  unfolding sentinel_plane ◌>>=◌ object
  plane-Stage now g = Extends-trans (mild asks) (with_sts (get_stateful_set env name now).0 refl)
    where
      name : Bytes
      name = sentinel_stateful_set_name now.vc

      got : World
      got = (get_stateful_set env name now).1

      asks : Extends IsMild now.effects got.effects
      asks = unfold get_stateful_set ask in more tt same

      lists : Extends IsMild got.effects (list_sentinel_rollout_pods env got).1.effects
      lists = unfold list_sentinel_rollout_pods ◌>>=◌ object ask pure in more tt same

      with_sts :
          (a : Answer StatefulSet)
          → (get_stateful_set env name now).0 ≡ a
          → Stage (sentinel_revision env now.vc a) got
      with_sts Answer.not_found e = unfold sentinel_revision pure in same
      with_sts Answer.failed e = unfold sentinel_revision pure in same
      with_sts (Answer.found sts) e =
          unfold sentinel_revision ◌>>=◌ pure in
          elim (Bool-cases (is_empty sts.update_revision)) [
            | inl unknown ↦ rw unknown same
            | inr known ↦ rw known (
                Extends-trans (mild lists) (
                  sentinel-Stage now got sts (list_sentinel_rollout_pods env got).0
                    (list_sentinel_rollout_pods env got).1 g (Extends-trans g (Extends-Grows asks))
                    e refl))
          ]

  data-Stage :
      (x v now : World) (sts : StatefulSet) (pods : List RolloutPod)
      → Grows w.effects x.effects
      → Grows w.effects v.effects
      → Grows w.effects now.effects
      → (get_stateful_set env (stateful_set_name w.vc) x).0 ≡ Answer.found sts
      → (list_rollout_pods env v).0 ≡ some pods
      → Stage
          (data_survey env password w.vc sts.update_revision pods
            (survey_replication env password now).0)
          (survey_replication env password now).1
  unfolding data_survey pure
  data-Stage x v now sts pods gx gv g e f = elim (Bool-cases (is_empty master)) [
    | inl nobody ↦ rw nobody same
    | inr somebody ↦ rw somebody (
        acts somebody (next_rollout_step pods sts.update_revision master)
          (next_rollout_step-IsJustified pods sts.update_revision master))
  ]
    where
      survey : List PodRole
      survey = (survey_replication env password now).0

      after : World
      after = (survey_replication env password now).1

      master : Bytes
      master = sentinel_data_master w.vc survey

      acts :
          is_empty master ≡ false
          → (a : RolloutAction) → IsJustified pods sts.update_revision master a
          → Stage (data_action env password survey a) after
      acts s RolloutAction.rollout_none h =
          unfold data_action in
          plane-Stage after (Extends-trans g (Extends-Grows ((survey-IsMild env password).at now)))
      acts s RolloutAction.rollout_wait h = unfold data_action pure in same
      acts s (RolloutAction.rollout_roll_replica n) h =
          unfold data_action in
          roll-Stage n after (inl (x, v, now, sts, pods, (gx, gv, g), e, f, s, h))
      acts s (RolloutAction.rollout_promote n) h =
          unfold data_action ◌>>=◌ pure in mild ((handover-IsMild env password survey n).at after)

  pods-Stage :
      (x v now : World) (sts : StatefulSet) (o : Option (List RolloutPod))
      → Grows w.effects x.effects
      → Grows w.effects v.effects
      → Grows w.effects now.effects
      → (get_stateful_set env (stateful_set_name w.vc) x).0 ≡ Answer.found sts
      → (list_rollout_pods env v).0 ≡ o
      → Stage (data_pods env password w.vc sts.update_revision o) now
  unfolding data_pods ◌>>=◌ pure
  pods-Stage x v now sts none gx gv g e f = same
  pods-Stage x v now sts (some pods) gx gv g e f =
      elim (Bool-cases (int32_lt (int32 (length pods)) w.vc.spec.replicas)) [
        | inl few ↦ rw few same
        | inr enough ↦ elim (Bool-cases (exists (is_stale sts.update_revision) pods)) [
          | inr fresh ↦ rw (enough, fresh) (plane-Stage now g)
          | inl stale ↦
              rw (enough, stale)
                (Extends-trans (mild ((survey-IsMild env password).at now))
                  (data-Stage x v now sts pods gx gv g e f))
        ]
      ]

-- driveSentinelRollout promotes no pod by REPLICAOF NO ONE, and deletes a pod only as a stale
-- replica that is not the one master of the survey, while all listed data pods are Ready, or as a
-- stale Sentinel while all listed Sentinels are Ready.
pub drive_sentinel_rollout_steps :
    (env : Env) (password : Bytes) (w : World)
    → Extends (PlaneStep env password w) w.effects (drive_sentinel_rollout env password w).1.effects
unfolding drive_sentinel_rollout ◌>>=◌ object
drive_sentinel_rollout_steps env password w =
    Extends-trans (mild env password w asks) (with_sts (get_stateful_set env name w).0 refl)
  where
    name : Bytes
    name = stateful_set_name w.vc

    got : World
    got = (get_stateful_set env name w).1

    asks : Extends IsMild w.effects got.effects
    asks = unfold get_stateful_set ask in more tt same

    lists : Extends IsMild got.effects (list_rollout_pods env got).1.effects
    lists = unfold list_rollout_pods ◌>>=◌ object ask pure in more tt same

    with_sts :
        (a : Answer StatefulSet)
        → (get_stateful_set env name w).0 ≡ a
        → Extends
            (PlaneStep env password w)
            got.effects
            (data_revision env password w.vc a got).1.effects
    with_sts Answer.not_found e = unfold data_revision pure in same
    with_sts Answer.failed e = unfold data_revision pure in same
    with_sts (Answer.found sts) e =
        unfold data_revision ◌>>=◌ pure in
        elim (Bool-cases (is_empty sts.update_revision)) [
          | inl unknown ↦ rw unknown same
          | inr known ↦ rw known (
              Extends-trans (mild env password w lists) (
                pods-Stage env password w w got (list_rollout_pods env got).1 sts
                  (list_rollout_pods env got).0 same (Extends-Grows asks)
                  (Extends-trans (Extends-Grows asks) (Extends-Grows lists)) e refl))
        ]
