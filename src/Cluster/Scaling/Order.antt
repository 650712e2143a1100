-- ===== src/Cluster/Scaling/Order.antt =====
-- What comes before runClusterScaleDown lowers the size in the status (internal/controller/cluster.go).
use wellcake.Common.{
  ℕ, Bytes, ◌≡◌, ◌⊎◌, inl, inr, refl, Bool, true, false, Bool-cases, List, [], ◌∷◌, int32_lt, All,
}
use wellcake.Api.{Status}
use wellcake.Sizing.{total_replicas, per_shard_enabled}
use wellcake.Naming.{shard_sts_name, shard_headless_name}
use wellcake.Rollout.{is_gone}
use wellcake.Rotation.Accepted.{Grows}
use wellcake.Cluster.Scaling.{
  leaving_shards, patch, delete_object, create_job, delete_job, set_phase, delete_shards,
  delete_leaving_shards, watch_job, run_job, patch_then_delete, record_size, leave_then_record,
  run_cluster_scale_down,
}
use wellcake.Cluster.Scaling.Leaving.{HasMoved, scale_down_name}
use wellcake.Runtime.{
  succeeds, Env, World, History, Answer, Job, Kind, delete, get, patch_status, pure, ◌>>=◌, object,
  ask, set_status,
}
use wellcake.Runtime.Emits.{same, more}

-- The StatefulSet and the Service of a shard are gone by what the API answered after w.
abbrev pub IsTorn : Env → World → ℕ → Type 0
IsTorn env w s =
    (a : History) × Grows w.effects a
    × (is_gone (
          env.accepts (delete Kind.stateful_set (shard_sts_name w.vc s) ∷ a)
            (delete Kind.stateful_set (shard_sts_name w.vc s)))
        ≡ true)
    × (is_gone (
          env.accepts
            (delete Kind.service (shard_headless_name w.vc s)
              ∷ delete Kind.stateful_set (shard_sts_name w.vc s)
              ∷ a)
            (delete Kind.service (shard_headless_name w.vc s)))
        ≡ true)

-- The size as it was, or the wanted one after the Job has succeeded and every leaving shard is gone.
abbrev pub IsSized : Env → World → World → Type 0
IsSized env w r =
    (r.vc.status.last_applied_replicas ≡ w.vc.status.last_applied_replicas)
    ⊎ ((r.vc.status.last_applied_replicas ≡ total_replicas w.vc)
        × HasMoved env w
        × ((per_shard_enabled w.vc ≡ false) ⊎ All (IsTorn env w) (leaving_shards w.vc)))

module _ (env : Env) (w : World) where
  abbrev at : History → World
  at h = record w { effects = h }

  tears :
      (l : List ℕ) (h : History)
      → Grows w.effects h
      → (b : Bool) × (g : History) × (delete_shards env l (at h) ≡ (b, at g))
        × ((b ≡ false) ⊎ All (IsTorn env w) l)
  unfolding delete_shards delete_object ◌>>=◌ object pure ask
  tears [] h grown = (true, h, refl, inr tt)
  tears (s ∷ l) h grown =
      elim (Bool-cases (is_gone (env.accepts one (delete Kind.stateful_set sts)))) [
        | inr stays ↦ (false, one, rw stays refl, inl refl)
        | inl gone ↦ elim (Bool-cases (is_gone (env.accepts two (delete Kind.service svc)))) [
          | inr stays ↦ (false, two, rw (gone, stays) refl, inl refl)
          | inl both ↦
              let (b, g, e, x) = tears l two (more tt (more tt grown)) in
              (
                b,
                g,
                rw (gone, both) e,
                elim x [
                  | inl stopped ↦ inl stopped
                  | inr rest ↦ inr ((h, grown, gone, both), rest)
                ],
              )
        ]
      ]
    where
      sts : Bytes
      sts = shard_sts_name w.vc s

      svc : Bytes
      svc = shard_headless_name w.vc s

      one : History
      one = delete Kind.stateful_set sts ∷ h

      two : History
      two = delete Kind.service svc ∷ one

  -- T is what is known of the shards.
  sizes :
      {T : Type 0} (h : History)
      → HasMoved env w
      → T
      → let r = (record_size env (scale_down_name w) (at h)).1 in
        (r.vc.status.last_applied_replicas ≡ w.vc.status.last_applied_replicas)
        ⊎ ((r.vc.status.last_applied_replicas ≡ total_replicas w.vc) × HasMoved env w × T)
  unfolding record_size patch_then_delete patch delete_job delete_object ◌>>=◌ object pure ask
      set_status
  sizes h moved torn = elim (Bool-cases (succeeds (env.accepts patched (patch_status s)))) [
    | inr refused ↦ rw refused (inr (refl, moved, torn))
    | inl accepted ↦ rw accepted (inr (refl, moved, torn))
  ]
    where
      s : Status
      s = record w.vc.status { last_applied_replicas = total_replicas w.vc }

      patched : History
      patched = patch_status s ∷ h

  leave-IsSized :
      (h : History)
      → Grows w.effects h
      → HasMoved env w
      → IsSized env w (leave_then_record env (scale_down_name w) (at h)).1
  unfolding leave_then_record delete_leaving_shards ◌>>=◌ object pure
  leave-IsSized h grown moved = elim (Bool-cases (per_shard_enabled w.vc)) [
    | inr single ↦ rw single (sizes h moved (inl refl))
    | inl per ↦
        let (b, g, e, x) = tears (leaving_shards w.vc) h grown in
        rw (per, e)
          (elim x [
            | inl stopped ↦ rw stopped (inl refl)
            | inr torn ↦ elim (Bool-cases b) [
              | inr stopped ↦ rw stopped (inl refl)
              | inl done ↦ rw done (sizes g moved (inr torn))
            ]
          ])
  ]

-- After runClusterScaleDown the applied size of the status is as before, or it is the wanted one;
-- and then the API has the scale-down Job as succeeded, and, in the per-shard layout, the
-- StatefulSet and the Service of every leaving shard were gone before.
pub run_cluster_scale_down-IsSized :
    (env : Env) (w : World) → IsSized env w (run_cluster_scale_down env w).1
unfolding run_cluster_scale_down run_job ◌>>=◌ object ask
run_cluster_scale_down-IsSized env w = watches (env.job asked (scale_down_name w)) refl
  where
    asked : History
    asked = get Kind.job (scale_down_name w) ∷ w.effects

    watches :
        (a : Answer Job)
        → env.job asked (scale_down_name w) ≡ a
        → IsSized env w
            (watch_job env
              (scale_down_name w)
              false
              (leave_then_record env (scale_down_name w))
              a
              (record w { effects = asked })).1
    watches Answer.not_found e = unfold watch_job create_job ◌>>=◌ ask pure in inl refl
    watches Answer.failed e = unfold watch_job pure in inl refl
    watches (Answer.found j) e =
        unfold watch_job pure in
        elim (Bool-cases (int32_lt 0 j.succeeded)) [
          | inl done ↦ rw done (leave-IsSized env w asked (more tt same) (j, e, done))
          | inr not_done ↦ elim (Bool-cases (int32_lt j.backoff_limit j.failures)) [
            | inl gave_up ↦
                rw (not_done, gave_up)
                  (unfold set_phase patch ◌>>=◌ object ask pure set_status in inl refl)
            | inr running ↦ rw (not_done, running) (inl refl)
          ]
        ]
