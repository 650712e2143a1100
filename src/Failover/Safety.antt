-- ===== src/Failover/Safety.antt =====
-- What reconcileFailover may send to the pods.
use wellcake.Common.{
  ℕ, Bytes, ◌≡◌, List, [], ◌∷◌, false, not, arith, refl, In, here, there, pos, ◌<ℤ◌, eqb_ℤ, Option,
  none, some, ltb,
}
use wellcake.Api.{ValkeyCluster}
use wellcake.Info.{data_port}
use wellcake.Failover.{PodRole, scan, pick_authoritative_master}
use wellcake.Failover.Run.{
  in_place, retarget, enforce_replication, promote_replica, data_replica, adopt_or_promote,
  promote_after_debounce, with_masters, reconcile_failover, set_primary_down, clear_primary_down,
  clear_down, down_long_enough, primary_down_long_enough,
}
use wellcake.Runtime.{Env, Effect, Command, dial, send, patch_status, read_clock}
use wellcake.Runtime.Emits.{Emits, Emits-pure, Emits-if, Emits-bind, Emits-object, emits_rules}

-- A predicate of effects that the bookkeeping satisfies: dials, the clock and status patches.
pub record Quiet (P : Effect → Type 0) : Type 0 where
  pub dials : (host : Bytes) (port : ℕ) (password : Bytes) → P (dial host port password)
  pub clocks : P read_clock
  pub patches :
      (vc : ValkeyCluster) (t : Option ℕ)
      → P (patch_status (record vc.status { primary_down_since = t }))

module _ (env : Env) (P : Effect → Type 0) (quiet : Quiet P) (password : Bytes) where
  Emits-retarget :
      (port : ℕ) (primary s : PodRole)
      → P (send s.host (Command.replica_of primary.host port))
      → Emits P (retarget env password port primary s)
  unfolding retarget
  Emits-retarget port primary s h = search (emits_rules, quiet.dials, h) depth 8

  pub Emits-enforce :
      (port : ℕ) (primary : PodRole) (survey : List PodRole)
      → ((s : PodRole)
          → In s survey
          → in_place primary s ≡ false
          → P (send s.host (Command.replica_of primary.host port)))
      → Emits P (enforce_replication env password port primary survey)
  unfolding enforce_replication
  Emits-enforce port primary [] h = Emits-pure tt
  Emits-enforce port primary (s ∷ survey) h =
      Emits-bind _ _
        (Emits-if (in_place primary s) _ _ (λ _. Emits-pure tt)
          (λ e. Emits-retarget port primary s (h s (here refl) e)))
        (λ _. Emits-enforce port primary survey (λ r i e. h r (there i) e))

  pub Emits-promote :
      (survey : List PodRole) (target : PodRole)
      → P (send target.host Command.replica_of_no_one)
      → ((s : PodRole) (port : ℕ)
          → In s survey
          → in_place target s ≡ false
          → P (send s.host (Command.replica_of target.host port)))
      → Emits P (promote_replica env password survey target)
  unfolding promote_replica
  Emits-promote survey target h k = search (emits_rules, quiet.dials, h, Emits-enforce, k) depth 12

  Emits-set_primary_down : (t : Option ℕ) → Emits P (set_primary_down env t)
  unfolding set_primary_down
  Emits-set_primary_down t = search (emits_rules, quiet.patches) depth 8

  Emits-clear_primary_down : Emits P (clear_primary_down env)
  unfolding clear_primary_down
  Emits-clear_primary_down = Emits-bind _ _ Emits-object (λ vc. clears vc.status.primary_down_since)
    where
      clears : (t : Option ℕ) → Emits P (clear_down env t)
      clears none = unfold clear_down in Emits-pure tt
      clears (some t) = unfold clear_down in Emits-set_primary_down none

  Emits-primary_down_long_enough : Emits P (primary_down_long_enough env)
  unfolding primary_down_long_enough
  Emits-primary_down_long_enough =
      Emits-bind _ _ Emits-object (λ vc. waits vc.status.primary_down_since)
    where
      waits : (t : Option ℕ) → Emits P (down_long_enough env t)
      waits none =
          unfold down_long_enough in
          search (emits_rules, quiet.clocks, Emits-set_primary_down) depth 8
      waits (some since) = unfold down_long_enough in search (emits_rules, quiet.clocks) depth 8

  -- The retargetings that a survey allows.
  abbrev pub Retargets : List PodRole → Type 0
  Retargets survey =
      (primary s : PodRole) (port : ℕ)
      → In s survey
      → in_place primary s ≡ false
      → P (send s.host (Command.replica_of primary.host port))

  Emits-adopt_or_promote :
      (survey : List PodRole) (chosen : PodRole) (o : Option PodRole)
      → ((b : PodRole) → o ≡ some b → P (send b.host Command.replica_of_no_one))
      → Retargets survey
      → Emits P (adopt_or_promote env password survey chosen o)
  unfolding adopt_or_promote
  Emits-adopt_or_promote survey chosen (some b) h r =
      Emits-promote survey b (h b refl) (λ s port. r b s port)
  Emits-adopt_or_promote survey chosen none h r = Emits-bind _ _ Emits-object (λ vc.
      Emits-bind _ _ (Emits-enforce (data_port vc) chosen survey (λ s. r chosen s (data_port vc)))
        (λ _. Emits-pure _))

  pub Emits-promote_after_debounce :
      (survey : List PodRole) (o : Option PodRole)
      → ((b : PodRole) → o ≡ some b → P (send b.host Command.replica_of_no_one))
      → Retargets survey
      → Emits P (promote_after_debounce env password survey o)
  unfolding promote_after_debounce
  Emits-promote_after_debounce survey none h r = search emits_rules
  Emits-promote_after_debounce survey (some b) h r =
      Emits-bind _ _ Emits-primary_down_long_enough (λ elapsed.
        Emits-if (not elapsed) _ _ (λ _. search emits_rules)
          (λ _.
            Emits-bind _ _ Emits-clear_primary_down
              (λ _. Emits-promote survey b (h b refl) (λ s port. r b s port))))

  -- With a reachable master: whom the empty-master guard may promote.
  pub Emits-with_masters :
      (survey : List PodRole) (m : PodRole) (masters : List PodRole) (best : Option PodRole)
      → ((vc : ValkeyCluster) (b : PodRole)
          → data_replica (pick_authoritative_master vc m masters) best ≡ some b
          → P (send b.host Command.replica_of_no_one))
      → Retargets survey
      → Emits P (with_masters env password survey (m ∷ masters) best)
  unfolding with_masters
  Emits-with_masters survey m masters best h r =
      Emits-bind _ _ Emits-clear_primary_down
        (λ _. Emits-bind _ _ Emits-object (λ vc. Emits-adopt_or_promote survey _ _ (h vc) r))

data_replica-best :
    (chosen b : PodRole) (o : Option PodRole) → data_replica chosen o ≡ some b → o ≡ some b
unfolding data_replica
data_replica-best chosen b none h = cc
data_replica-best chosen b (some x) h = ground arith

pub data_replica_guard :
    (chosen : PodRole) (o : Option PodRole) → pos 0 <ℤ chosen.keys → data_replica chosen o ≡ none
unfolding data_replica eqb_ℤ
data_replica_guard chosen none h = refl
data_replica_guard chosen (some x) h = ground arith

module _ (env : Env) (P : Effect → Type 0) (quiet : Quiet P) (password : Bytes) where
  pub Emits-reconcile :
      (survey : List PodRole)
      → ((b : PodRole)
          → (scan survey).best_replica ≡ some b
          → P (send b.host Command.replica_of_no_one))
      → Retargets env P quiet password survey
      → Emits P (reconcile_failover env password survey)
  unfolding reconcile_failover
  Emits-reconcile survey h r = Emits-bind _ _ Emits-object (λ vc.
      Emits-if (ltb (scan survey).reachable 2) _ _ (λ _. Emits-pure _)
        (λ _. by_masters (scan survey).masters))
    where
      by_masters :
          (masters : List PodRole)
          → Emits P (with_masters env password survey masters (scan survey).best_replica)
      by_masters [] =
          unfold with_masters in Emits-promote_after_debounce env P quiet password survey _ h r
      by_masters (m ∷ masters) =
          Emits-with_masters env P quiet password survey m masters _
            (λ vc b e. h b (data_replica-best _ b _ e)) r
