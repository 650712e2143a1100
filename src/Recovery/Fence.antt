-- ===== src/Recovery/Fence.antt =====
-- The order of recoverShard (internal/controller/cluster_recovery.go): the primary is confirmed
-- dead, then deleted, and only then its replica takes over.
use wellcake.Common.{
  ℕ, Bytes, ◌≡◌, refl, ◌∙◌, inl, inr, ◌⊎◌, List, [], ◌∷◌, Bool, true, false, Bool-cases, none, some,
}
use mathlib.Core.Path.{subst}
use wellcake.Api.{ValkeyCluster}
use wellcake.Naming.{pod_fqdn}
use wellcake.Info.{data_port}
use wellcake.Rollout.{delete_pod_by_name, is_gone}
use wellcake.Recovery.{Target, Checked, primary_fenced_by_k8s, primary_still_serving}
use wellcake.Recovery.Run.{fence_and_take_over, recover_fenced, recover_shard, recover_shards}
use wellcake.Recovery.Quorum.{IsCalm, fenced-Keeps, fenced-IsCalm, serving-Keeps, serving-IsCalm}
use wellcake.Runtime.{
  Env, World, History, Effect, Command, Kind, dial, send, delete, ◌>>=◌, object, pure, ask,
  dial_repl_client, command,
}
use wellcake.Runtime.Emits.{Extends, Extends-trans}
use wellcake.Runtime.Keeps.{Keeps, Keeps-pure, Keeps-bind, keeps_rules}
use wellcake.Runtime.Follows.{Follows, same, more, Follows-trans, Extends-Follows}

-- Right before h, the API showed the pod as fenced and the pod did not show itself as serving.
abbrev pub IsConfirmed : Env → Bytes → Bytes → History → Type 0
IsConfirmed env password pod h =
    (w : World) × ((primary_fenced_by_k8s env pod w).0 ≡ some true)
    × ((primary_still_serving env password pod (primary_fenced_by_k8s env pod w).1).0 ≡ false)
    × (h ≡ (primary_still_serving env password pod (primary_fenced_by_k8s env pod w).1).1.effects)

-- The last two effects of h: the pod was deleted without an error, and the host was dialled.
abbrev pub IsDeleted : Env → Bytes → Bytes → History → Type 0
IsDeleted env pod host h =
    (before : History) × (port : ℕ) × (password : Bytes) × (h
      ≡ dial host port password ∷ delete Kind.pod pod ∷ before)
    × (is_gone (env.accepts (delete Kind.pod pod ∷ before) (delete Kind.pod pod)) ≡ true)

-- A deletion of a confirmed pod, a takeover by the replica of a target whose primary is deleted, or
-- neither a deletion nor a takeover.
abbrev pub IsOrdered : Env → Bytes → ValkeyCluster → History → Effect → Type 0
IsOrdered env password vc h e =
    IsCalm e
    ⊎ ((pod : Bytes) × (e ≡ delete Kind.pod pod) × IsConfirmed env password pod h)
    ⊎ ((t : Target) × (e ≡ send (pod_fqdn vc t.replica_pod) Command.cluster_failover_takeover)
        × IsDeleted env t.primary_pod (pod_fqdn vc t.replica_pod) h)

module _ (env : Env) (password : Bytes) (t : Target) where
  calm :
      (vc : ValkeyCluster) {a b : History}
      → Extends IsCalm a b
      → Follows (IsOrdered env password vc) a b
  calm vc x = Extends-Follows (λ h e c. inl c) x

  -- From the answers of the two checks on.
  take_over-IsOrdered :
      (w : World) (serving : Bool)
      → (serving ≡ false → IsConfirmed env password t.primary_pod w.effects)
      → Follows
          (IsOrdered env password w.vc)
          w.effects
          (fence_and_take_over env password t serving w).1.effects
  unfolding fence_and_take_over delete_pod_by_name ◌>>=◌ pure object ask dial_repl_client command
  take_over-IsOrdered w true c = same
  take_over-IsOrdered w false c =
      elim (Bool-cases (is_gone (env.accepts deleted (delete Kind.pod t.primary_pod)))) [
        | inr kept ↦ rw kept (more (inr (inl (t.primary_pod, refl, c refl))) same)
        | inl gone ↦ elim (Bool-cases (env.reachable dialled host (data_port w.vc) password)) [
          | inr down ↦
              rw (gone, down) (more (inl tt) (more (inr (inl (t.primary_pod, refl, c refl))) same))
          | inl up ↦
              rw (gone, up)
                (more (inr (inr (t, refl, (w.effects, data_port w.vc, password, refl, gone))))
                  (more (inl tt) (more (inr (inl (t.primary_pod, refl, c refl))) same)))
        ]
      ]
    where
      host : Bytes
      host = pod_fqdn w.vc t.replica_pod

      deleted : History
      deleted = delete Kind.pod t.primary_pod ∷ w.effects

      dialled : History
      dialled = dial host (data_port w.vc) password ∷ deleted

  -- recoverShard keeps the object, and does its steps in order.
  recover_fenced-IsOrdered :
      (w : World) (c : Checked)
      → (primary_fenced_by_k8s env t.primary_pod w).0 ≡ c
      → Follows
          (IsOrdered env password w.vc)
          w.effects
          (recover_fenced env password t c (primary_fenced_by_k8s env t.primary_pod w).1).1.effects
  unfolding recover_fenced ◌>>=◌ pure
  recover_fenced-IsOrdered w none e = calm w.vc ((fenced-IsCalm env t.primary_pod).at w)
  recover_fenced-IsOrdered w (some false) e = calm w.vc ((fenced-IsCalm env t.primary_pod).at w)
  recover_fenced-IsOrdered w (some true) e =
      let asked = (primary_fenced_by_k8s env t.primary_pod w).1 in
      let answered = primary_still_serving env password t.primary_pod asked in
      Follows-trans
        (calm w.vc (
          Extends-trans ((fenced-IsCalm env t.primary_pod).at w)
            ((serving-IsCalm env password t.primary_pod).at asked)))
        (subst
          (λ v.
            Follows (IsOrdered env password v) answered.1.effects
              (fence_and_take_over env password t answered.0 answered.1).1.effects)
          ((serving-Keeps env password t.primary_pod).kept asked
            ∙ (fenced-Keeps env t.primary_pod).kept w)
          (take_over-IsOrdered answered.1 answered.0 (λ f. (w, e, f, refl))))

  recover_shard-IsOrdered :
      (w : World)
      → Follows (IsOrdered env password w.vc) w.effects (recover_shard env password t w).1.effects
  unfolding recover_shard ◌>>=◌
  recover_shard-IsOrdered w = recover_fenced-IsOrdered w _ refl

  take_over-Keeps : (serving : Bool) → Keeps (fence_and_take_over env password t serving)
  unfolding fence_and_take_over delete_pod_by_name
  take_over-Keeps serving = search keeps_rules depth 16

  recover_fenced-Keeps : (c : Checked) → Keeps (recover_fenced env password t c)
  unfolding recover_fenced
  recover_fenced-Keeps none = Keeps-pure _
  recover_fenced-Keeps (some false) = Keeps-pure _
  recover_fenced-Keeps (some true) =
      Keeps-bind _ _ (serving-Keeps env password t.primary_pod) take_over-Keeps

  recover_shard-Keeps : Keeps (recover_shard env password t)
  unfolding recover_shard
  recover_shard-Keeps = Keeps-bind _ _ (fenced-Keeps env t.primary_pod) recover_fenced-Keeps

-- One shard after the other.
pub recover_shards-IsOrdered :
    (env : Env) (password : Bytes) (targets : List Target) (w : World)
    → Follows
        (IsOrdered env password w.vc)
        w.effects
        (recover_shards env password targets w).1.effects
unfolding recover_shards ◌>>=◌ pure
recover_shards-IsOrdered env password [] w = same
recover_shards-IsOrdered env password (t ∷ targets) w =
    let next = (recover_shard env password t w).1 in
    Follows-trans (recover_shard-IsOrdered env password t w) (
      subst
        (λ v.
          Follows (IsOrdered env password v) next.effects
            (recover_shards env password targets next).1.effects)
        ((recover_shard-Keeps env password t).kept w)
        (recover_shards-IsOrdered env password targets next))
