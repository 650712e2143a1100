-- ===== src/Recovery/Takeover.antt =====
-- When maybeRecoverClusterQuorum acts, and in which order (internal/controller/cluster_recovery.go).
use wellcake.Common.{
  ℕ, ◌+◌, ◌≤◌, Bytes, codes, ◌≡◌, ◌⊎◌, inl, inr, refl, sym, ap, ◌∙◌, List, [], ◌∷◌, Bool, true,
  false, Bool-cases, Option, none, some, eqb, leb→le,
}
use mathlib.Core.Path.{subst}
use wellcake.Api.{ValkeyCluster, map_get}
use wellcake.Info.{parse_cluster_info}
use wellcake.Failover.Run.{down_elapsed}
use wellcake.Cluster.{ClusterNode, parse_cluster_nodes}
use wellcake.Recovery.{
  Target, quorum_recovery_enabled, quorum_recovery_down_after, set_quorum_down, clear_quorum,
  clear_quorum_down, quorum_down_for, quorum_down_long_enough,
}
use wellcake.Recovery.Run.{
  has_lost_quorum, dial_any_cluster_pod, recoverable_shards, recover_shards, recover_targets,
  recover_when, recover_from_nodes, recover_from_info, recover_through, recover_enabled,
  recover_initialized, maybe_recover_cluster_quorum,
}
use wellcake.Recovery.Quorum.{
  IsCalm, recoverable_shards-Keeps, recoverable_shards-IsCalm, dial_any_cluster_pod-Keeps,
  dial_any_cluster_pod-IsCalm,
}
use wellcake.Recovery.Fence.{IsOrdered, recover_shards-IsOrdered}
use wellcake.Runtime.{
  Env, World, History, Command, send, read_clock, ◌>>=◌, object, pure, ask, query, clock,
  set_status, perform,
}
use wellcake.Runtime.Emits.{
  Extends, same, more, Extends-trans, Emits, Emits-pure, Emits-bind, Emits-object, emits_rules,
}
use wellcake.Runtime.Follows as follows

-- A quorum was lost: a pod answered CLUSTER NODES, after calm effects only, with a list where the
-- healthy masters are no majority.
abbrev pub ShowsLoss : Env → World → Type 0
ShowsLoss env w =
    (before : History) × (host : Bytes) × (raw : Bytes) × Extends IsCalm w.effects before
    × (env.reply (send host Command.cluster_nodes ∷ before) host Command.cluster_nodes ≡ some raw)
    × (has_lost_quorum (parse_cluster_nodes raw) ≡ true)

-- The status marks the loss, and the clock is a whole window later.
abbrev pub HasElapsed : Env → World → Type 0
HasElapsed env w =
    (since : ℕ) × (before : History) × (w.vc.status.quorum_down_since ≡ some since)
    × Extends IsCalm w.effects before
    × (since + quorum_recovery_down_after ≤ env.now (read_clock ∷ before))

-- All that has to hold before the operator acts.
abbrev pub MayAct : Env → World → Type 0
MayAct env w =
    (w.vc.status.cluster_initialized ≡ true)
    × (quorum_recovery_enabled w.vc ≡ true)
    × ShowsLoss env w
    × HasElapsed env w

-- Either nothing was deleted and nothing taken over, or the operator might act, and did in order.
abbrev pub ActsInOrder : Env → Bytes → World → World → Type 0
ActsInOrder env password w r =
    Extends IsCalm w.effects r.effects
    ⊎ (MayAct env w × follows.Follows (IsOrdered env password w.vc) w.effects r.effects)

module _ (env : Env) where
  set_quorum_down-IsCalm : (t : Option ℕ) → Emits IsCalm (set_quorum_down env t)
  unfolding set_quorum_down
  set_quorum_down-IsCalm t = search emits_rules depth 8

  clear_quorum_down-IsCalm : Emits IsCalm (clear_quorum_down env)
  unfolding clear_quorum_down
  clear_quorum_down-IsCalm = Emits-bind _ _ Emits-object (λ vc. clears vc.status.quorum_down_since)
    where
      clears : (t : Option ℕ) → Emits IsCalm (clear_quorum env t)
      clears none = unfold clear_quorum in Emits-pure tt
      clears (some t) = unfold clear_quorum in set_quorum_down-IsCalm none

  down_elapsed-le :
      (since now : ℕ)
      → down_elapsed since now quorum_recovery_down_after ≡ true
      → since + quorum_recovery_down_after ≤ now
  unfolding down_elapsed
  down_elapsed-le since now h = leb→le (since + quorum_recovery_down_after) now h

  module _ (password : Bytes) (w : World) (initialized : w.vc.status.cluster_initialized ≡ true)
      (enabled : quorum_recovery_enabled w.vc ≡ true) where
    -- With targets: the debounce, then the takeovers.
    targets-ActsInOrder :
        (now : World)
        → now.vc ≡ w.vc
        → Extends IsCalm w.effects now.effects
        → ShowsLoss env w
        → (targets : List Target)
        → ActsInOrder env password w (recover_targets env password targets now).1
    unfolding recover_targets quorum_down_long_enough ◌>>=◌ pure object
    targets-ActsInOrder now k x loss [] = inl x
    targets-ActsInOrder now k x loss (t ∷ targets) = by_marker now.vc.status.quorum_down_since refl
      where
        started : World
        started = record now { effects = read_clock ∷ now.effects }

        acts :
            (since : ℕ)
            → now.vc.status.quorum_down_since ≡ some since
            → down_elapsed since (env.now (read_clock ∷ now.effects)) quorum_recovery_down_after
              ≡ true
            → MayAct env w
              × follows.Follows
                  (IsOrdered env password w.vc)
                  w.effects
                  (recover_shards env password (t ∷ targets) started).1.effects
        acts since e late = (
          (
            initialized,
            enabled,
            loss,
            (
              since,
              now.effects,
              sym (ap {A = ValkeyCluster} (λ v. v.status.quorum_down_since) k) ∙ e,
              x,
              down_elapsed-le since _ late,
            ),
          ),
          follows.Follows-trans
              (follows.Extends-Follows (λ h e c. inl c) (Extends-trans x (more tt same)))
              (subst
                (λ v.
                  follows.Follows (IsOrdered env password v) started.effects
                    (recover_shards env password (t ∷ targets) started).1.effects)
                k (recover_shards-IsOrdered env password (t ∷ targets) started)),
        )

        by_marker :
            (d : Option ℕ)
            → now.vc.status.quorum_down_since ≡ d
            → ActsInOrder env password w
                ((quorum_down_for env d >>= recover_when env password (t ∷ targets)) now).1
        by_marker none e =
            unfold quorum_down_for set_quorum_down clock ask recover_when set_status perform in
            inl (Extends-trans x (more tt (more tt same)))
        by_marker (some since) e =
            unfold quorum_down_for clock ask in
            elim (Bool-cases (
              down_elapsed since (env.now (read_clock ∷ now.effects)) quorum_recovery_down_after)) [
                | inr early ↦ rw early (unfold recover_when in inl (Extends-trans x (more tt same)))
                | inl late ↦ rw late (unfold recover_when in inr (acts since e late))
              ]

    nodes-ActsInOrder :
        (now : World)
        → now.vc ≡ w.vc
        → Extends IsCalm w.effects now.effects
        → (host : Bytes) (o : Option Bytes)
        → env.reply (send host Command.cluster_nodes ∷ now.effects) host Command.cluster_nodes ≡ o
        → ActsInOrder env password w
            (recover_from_nodes env password o
              (record now { effects = send host Command.cluster_nodes ∷ now.effects })).1
    unfolding recover_from_nodes ◌>>=◌ pure
    nodes-ActsInOrder now k x host none e = inl (Extends-trans x (more tt same))
    nodes-ActsInOrder now k x host (some raw) e =
        elim (Bool-cases (has_lost_quorum (parse_cluster_nodes raw))) [
          | inr quorum ↦ rw quorum (inl (Extends-trans x (more tt same)))
          | inl lost ↦ rw lost (
              targets-ActsInOrder (recoverable_shards env password nodes nodes asked).1
                ((recoverable_shards-Keeps env password nodes nodes).kept asked ∙ k)
                (Extends-trans (Extends-trans x (more tt same))
                  ((recoverable_shards-IsCalm env password nodes nodes).at asked))
                (now.effects, host, raw, x, e, lost) _)
        ]
      where
        nodes : List ClusterNode
        nodes = parse_cluster_nodes raw

        asked : World
        asked = record now { effects = send host Command.cluster_nodes ∷ now.effects }

    info-ActsInOrder :
        (now : World)
        → now.vc ≡ w.vc
        → Extends IsCalm w.effects now.effects
        → (host : Bytes) (o : Option Bytes)
        → ActsInOrder env password w (recover_from_info env password host o now).1
    unfolding recover_from_info ◌>>=◌ pure query ask
    info-ActsInOrder now k x host none = inl x
    info-ActsInOrder now k x host (some info) =
        elim (Bool-cases
          (eqb (map_get (parse_cluster_info info) (codes "cluster_state")) (codes "ok"))) [
            | inl healthy ↦ rw healthy (inl (Extends-trans x (clear_quorum_down-IsCalm.at now)))
            | inr stuck ↦ rw stuck (nodes-ActsInOrder now k x host _ refl)
          ]

    through-ActsInOrder :
        (now : World)
        → now.vc ≡ w.vc
        → Extends IsCalm w.effects now.effects
        → (o : Option Bytes) → ActsInOrder env password w (recover_through env password o now).1
    unfolding recover_through ◌>>=◌ pure query ask
    through-ActsInOrder now k x none = inl x
    through-ActsInOrder now k x (some host) =
        info-ActsInOrder (record now { effects = send host Command.cluster_info ∷ now.effects }) k
          (Extends-trans x (more tt same)) host _

-- maybeRecoverClusterQuorum deletes no pod and takes nothing over, unless the cluster is
-- initialized, the recovery is enabled, a pod shows that the healthy masters are no majority, and
-- the status marked the loss a whole window ago. Then each deleted pod was confirmed right before:
-- fenced for the API, and not serving. And each takeover directly follows the accepted deletion of
-- the dead primary and a connection to the replica.
pub maybe_recover_cluster_quorum-ActsInOrder :
    (env : Env) (password : Bytes) (w : World)
    → ActsInOrder env password w (maybe_recover_cluster_quorum env password w).1
unfolding maybe_recover_cluster_quorum ◌>>=◌ object
maybe_recover_cluster_quorum-ActsInOrder env password w =
    by_flag w.vc.status.cluster_initialized refl
  where
    by_enabled :
        (b : Bool)
        → w.vc.status.cluster_initialized ≡ true
        → quorum_recovery_enabled w.vc ≡ b
        → ActsInOrder env password w (recover_enabled env password b w).1
    by_enabled false i e =
        unfold recover_enabled ◌>>=◌ pure in inl ((clear_quorum_down-IsCalm env).at w)
    by_enabled true i e =
        unfold recover_enabled ◌>>=◌ in
        through-ActsInOrder env password w i e (dial_any_cluster_pod env password w).1
          ((dial_any_cluster_pod-Keeps env password).kept w)
          ((dial_any_cluster_pod-IsCalm env password).at w) _

    by_flag :
        (b : Bool)
        → w.vc.status.cluster_initialized ≡ b
        → ActsInOrder env password w (recover_initialized env password w.vc b w).1
    by_flag false i = unfold recover_initialized pure in inl same
    by_flag true i = unfold recover_initialized in by_enabled _ i refl
