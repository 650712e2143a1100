-- ===== src/Cluster/Scaling/Leaving.antt =====
-- What runClusterScaleDown does to the workloads (internal/controller/cluster.go and
-- cluster_pershard.go).
use wellcake.Common.{
  ℕ, Bytes, codes, ◌≡◌, ◌⊎◌, inl, inr, refl, Bool, true, false, Bool-cases, List, [], ◌∷◌, ◌++◌, In,
  here, there, int32_lt,
}
use wellcake.Api.{Status}
use wellcake.Sizing.{total_replicas, per_shard_enabled}
use wellcake.Naming.{shard_sts_name, shard_headless_name}
use wellcake.Rollout.{is_gone}
use wellcake.Cluster.Scaling.{
  leaving_shards, patch, delete_object, create_job, delete_job, set_phase, delete_shards,
  delete_leaving_shards, watch_job, run_job, patch_then_delete, record_size, leave_then_record,
  run_cluster_scale_down,
}
use wellcake.Runtime.{
  succeeds, Env, World, Effect, History, Answer, Job, Kind, create, delete, get, patch_status, pure,
  ◌>>=◌, object, ask, set_status,
}
use wellcake.Runtime.Emits.{Extends, same, more, Extends-trans}

abbrev pub scale_down_name : World → Bytes
scale_down_name w = w.vc.name ++ codes "-scaledown"

-- The API has the Job that moves the slots away, and it has succeeded.
abbrev pub HasMoved : Env → World → Type 0
HasMoved env w =
    (j : Job) × (env.job (get Kind.job (scale_down_name w) ∷ w.effects) (scale_down_name w)
      ≡ Answer.found j)
    × (int32_lt 0 j.succeeded ≡ true)

abbrev pub Leaves : Env → World → Effect → Type 0
Leaves env w (delete Kind.stateful_set n) =
    HasMoved env w
    × (per_shard_enabled w.vc ≡ true)
    × ((s : ℕ) × In s (leaving_shards w.vc) × (n ≡ shard_sts_name w.vc s))
Leaves env w (delete Kind.service n) =
    HasMoved env w
    × (per_shard_enabled w.vc ≡ true)
    × ((s : ℕ) × In s (leaving_shards w.vc) × (n ≡ shard_headless_name w.vc s))
Leaves env w (delete Kind.job n) = HasMoved env w × (n ≡ scale_down_name w)
Leaves env w (patch_status s) =
    (s.last_applied_replicas ≡ w.vc.status.last_applied_replicas)
    ⊎ (HasMoved env w × (s.last_applied_replicas ≡ total_replicas w.vc))
Leaves env w (get Kind.job n) = n ≡ scale_down_name w
Leaves env w (create Kind.job n) = n ≡ scale_down_name w
Leaves env w _ = ⊥

module _ (env : Env) (w : World) where
  abbrev at : History → World
  at h = record w { effects = h }

  deletes :
      HasMoved env w
      → per_shard_enabled w.vc ≡ true
      → (l : List ℕ) → ((s : ℕ) → In s l → In s (leaving_shards w.vc))
      → (h : History)
      → (b : Bool) × (g : History) × (delete_shards env l (at h) ≡ (b, at g))
        × Extends (Leaves env w) h g
  unfolding delete_shards delete_object ◌>>=◌ object pure ask
  deletes moved per [] inside h = (true, h, refl, same)
  deletes moved per (s ∷ l) inside h =
      elim (Bool-cases (is_gone (env.accepts one (delete Kind.stateful_set sts)))) [
        | inr stays ↦ (false, one, rw stays refl, first)
        | inl gone ↦ elim (Bool-cases (is_gone (env.accepts two (delete Kind.service svc)))) [
          | inr stays ↦ (false, two, rw (gone, stays) refl, second)
          | inl both ↦
              let (b, g, e, x) = deletes moved per l (λ t i. inside t (there i)) two in
              (b, g, rw (gone, both) e, Extends-trans second x)
        ]
      ]
    where
      sts : Bytes
      sts = shard_sts_name w.vc s

      svc : Bytes
      svc = shard_headless_name w.vc s

      one : History
      one = delete Kind.stateful_set sts ∷ h

      two : History
      two = delete Kind.service svc ∷ one

      first : Extends (Leaves env w) h one
      first = more (moved, per, (s, inside s (here refl), refl)) same

      second : Extends (Leaves env w) h two
      second = more (moved, per, (s, inside s (here refl), refl)) first

  records :
      HasMoved env w
      → (h : History)
      → Extends (Leaves env w) h (record_size env (scale_down_name w) (at h)).1.effects
  unfolding record_size patch_then_delete patch delete_job delete_object ◌>>=◌ object pure ask
      set_status
  records moved h = elim (Bool-cases (succeeds (env.accepts patched (patch_status s)))) [
    | inr refused ↦ rw refused (more (inr (moved, refl)) same)
    | inl accepted ↦ rw accepted (more (moved, refl) (more (inr (moved, refl)) same))
  ]
    where
      s : Status
      s = record w.vc.status { last_applied_replicas = total_replicas w.vc }

      patched : History
      patched = patch_status s ∷ h

  leaves :
      HasMoved env w
      → (h : History)
      → Extends (Leaves env w) h (leave_then_record env (scale_down_name w) (at h)).1.effects
  unfolding leave_then_record delete_leaving_shards ◌>>=◌ object pure
  leaves moved h = elim (Bool-cases (per_shard_enabled w.vc)) [
    | inr single ↦ rw single (records moved h)
    | inl per ↦
        let (b, g, e, x) = deletes moved per (leaving_shards w.vc) (λ s i. i) h in
        rw (per, e)
          (elim (Bool-cases b) [
            | inr some_stay ↦ rw some_stay x
            | inl all_gone ↦ rw all_gone (Extends-trans x (records moved g))
          ])
  ]

-- runClusterScaleDown deletes the StatefulSets and Services of the leaving shards alone, and lowers
-- the applied size to the wanted one, only when the API has the scale-down Job and it has
-- succeeded; besides these it touches nothing but that Job and the phase.
pub run_cluster_scale_down-Leaves :
    (env : Env) (w : World)
    → Extends (Leaves env w) w.effects (run_cluster_scale_down env w).1.effects
unfolding run_cluster_scale_down run_job ◌>>=◌ object ask
run_cluster_scale_down-Leaves env w = watches (env.job asked (scale_down_name w)) refl
  where
    asked : History
    asked = get Kind.job (scale_down_name w) ∷ w.effects

    first : Extends (Leaves env w) w.effects asked
    first = more refl same

    watches :
        (a : Answer Job)
        → env.job asked (scale_down_name w) ≡ a
        → Extends
            (Leaves env w)
            w.effects
            (watch_job env
              (scale_down_name w)
              false
              (leave_then_record env (scale_down_name w))
              a
              (record w { effects = asked })).1.effects
    watches Answer.not_found e = unfold watch_job create_job ◌>>=◌ ask pure in more refl first
    watches Answer.failed e = unfold watch_job pure in first
    watches (Answer.found j) e =
        unfold watch_job pure in
        elim (Bool-cases (int32_lt 0 j.succeeded)) [
          | inl done ↦ rw done (Extends-trans first (leaves env w (j, e, done) asked))
          | inr not_done ↦ elim (Bool-cases (int32_lt j.backoff_limit j.failures)) [
            | inl gave_up ↦
                rw (not_done, gave_up)
                  (unfold set_phase patch ◌>>=◌ object ask pure set_status in more (inl refl) first)
            | inr running ↦ rw (not_done, running) first
          ]
        ]
