-- ===== src/Sentinel/Repair.antt =====
-- Which data pod is pointed at the Sentinels' master (internal/controller/sentinel.go,
-- repairSentinelDataPods and misplacedDataPod).
use wellcake.Common.{
  ℕ, Bytes, ◌≡◌, inl, inr, refl, sym, ap, ◌∙◌, List, [], ◌∷◌, Bool, true, false, not, Bool-cases,
  Option, none, some, cut, every, In, here, there, length, int32, ◌==◌, ==→eq, ℤ, if◌then◌else◌,
  eqb_ℤ, ◌||◌,
}
use wellcake.Info.{data_port}
use wellcake.Naming.{labels_for, before_or_all, pod_name, pod_fqdn, stateful_set_name}
use wellcake.Failover.{PodRole, survey_replication}
use wellcake.Failover.Reads.{Emits-survey_replication}
use wellcake.Rollout.{RolloutPod, instance_label, list_rollout_pods}
use wellcake.Handover.Run.{sentinel_replicas}
use wellcake.Sentinel.{
  SentinelView, agreed_master, is_placed, misplaced_data_pod, ordinal_of_host, is_live_master,
  entry_at, point_at, repair_behind, repair_with, repair_among, repair_agreed,
  repair_sentinel_data_pods,
}
use wellcake.Runtime.{
  Env, World, Effect, Command, M, Pod, dial, send, list_pods, pure, ◌>>=◌, object, ask,
}
use wellcake.Runtime.Emits.{
  Emits, Extends, same, more, Extends-trans, Emits-pure, Emits-bind, Emits-if, Emits-dial,
  Emits-command,
}

-- The pod is one of the survey, and neither the master nor a replica of it.
pub misplaced_data_pod-In :
    (f : Bytes → Option ℤ) (master : ℤ) (survey : List PodRole) (s : PodRole)
    → misplaced_data_pod survey master f ≡ some s
    → In s survey × (is_placed f master s ≡ false)
unfolding misplaced_data_pod
misplaced_data_pod-In f master [] s h = cc
misplaced_data_pod-In f master (x ∷ survey) s h = elim (Bool-cases (is_placed f master x)) [
  | inl placed ↦
      let (i, k) = misplaced_data_pod-In f master survey s (chosen placed h) in (there i, k)
  | inr loose ↦ found (some-eq (chosen loose h)) loose
]
  where
    later : Option PodRole
    later = misplaced_data_pod survey master f

    chosen :
        {b : Bool}
        → is_placed f master x ≡ b
        → (if is_placed f master x then later else some x) ≡ some s
        → (if b then later else some x) ≡ some s
    chosen e k = sym (ap (λ b. if b then later else some x) e) ∙ k

    some-eq : some x ≡ some s → x ≡ s
    some-eq e = cc

    found :
        x ≡ s → is_placed f master x ≡ false → In s (x ∷ survey) × (is_placed f master s ≡ false)
    found e l = (here e, sym (ap (is_placed f master) e) ∙ l)

-- What the call reads: the data pods, the pods with their addresses, and the survey.
abbrev selects : World → Effect
selects w = list_pods ((instance_label, w.vc.name) ∷ [])

-- A pod that is not in its place has answered, and is not the master.
unplaced :
    (ordinal_of : Bytes → Option ℤ) (master : ℤ) (s : PodRole)
    → is_placed ordinal_of master s ≡ false
    → (s.reachable ≡ true)
      × (eqb_ℤ s.ordinal master ≡ false)
      × (is_placed ordinal_of master s ≡ false)
unfolding is_placed
unplaced ordinal_of master s h =
    let (answers, other) = parts s.reachable (eqb_ℤ s.ordinal master) _ h in (answers, other, h)
  where
    parts : (a b c : Bool) → (not a || (b || c)) ≡ false → (a ≡ true) × (b ≡ false)
    parts true false c h = (refl, refl)
    parts true true c h = cc
    parts false b c h = cc

abbrev pub data_pods_of : Env → World → Option (List RolloutPod)
data_pods_of env w = (list_rollout_pods env w).0

abbrev pub items_seen : Env → World → World
items_seen env w = record w { effects = list_pods (labels_for w.vc) ∷ selects w ∷ w.effects }

abbrev pub survey_of : Env → Bytes → World → List PodRole
survey_of env password w = (survey_replication env password (items_seen env w)).0

-- The Sentinels agree on `address`, all data pods are there and Ready, the address belongs to the
-- pod with the ordinal `master`, which reports itself as a master, and s is misplaced.
abbrev pub IsAstray : Env → Bytes → List SentinelView → World → ℤ → PodRole → Type 0
IsAstray env password views w master s =
    (address : Bytes) × (pods : List RolloutPod) × (items : List Pod) × (agreed_master views
        (sentinel_replicas w.vc.spec.sentinel)
      ≡ some address)
    × ((data_pods_of env w ≡ some pods)
        × (int32 (length pods) ≡ w.vc.spec.replicas)
        × (every (λ p. p.ready) pods ≡ true))
    × (env.pods (items_seen env w).effects ≡ some items)
    × (ordinal_of_host (stateful_set_name w.vc) items (before_or_all (cut b':' address) address)
        ≡ some master)
    × (is_live_master (entry_at (survey_of env password w) master) ≡ true)
    × In s (survey_of env password w)
    × ((s.reachable ≡ true)
        × (eqb_ℤ s.ordinal master ≡ false)
        × (is_placed (ordinal_of_host (stateful_set_name w.vc) items) master s ≡ false))

-- What a repair does besides reading.
abbrev pub Repairs : Env → Bytes → List SentinelView → World → Effect → Type 0
Repairs env password views w (send host (Command.replica_of target port)) =
    (master : ℤ) × (s : PodRole) × IsAstray env password views w master s
    × (host ≡ s.host)
    × (target ≡ pod_fqdn w.vc (pod_name w.vc master))
Repairs env password views w (send host Command.config_rewrite) =
    (master : ℤ) × (s : PodRole) × IsAstray env password views w master s × (host ≡ s.host)
Repairs env password views w (send host Command.info_replication) = Unit
Repairs env password views w (send host Command.dbsize) = Unit
Repairs env password views w (dial host port p) = Unit
Repairs env password views w (list_pods l) = Unit
Repairs env password views w _ = ⊥

module _ (env : Env) (password : Bytes) (views : List SentinelView) (w : World) where
  abbrev Stage : M Bool → World → Type 0
  Stage m now = Extends (Repairs env password views w) now.effects (m now).1.effects

  point-Emits :
      (master : ℤ) (s : PodRole)
      → IsAstray env password views w master s
      → Emits
          (Repairs env password views w)
          (point_at env password (pod_fqdn w.vc (pod_name w.vc master)) (data_port w.vc) (some s))
  unfolding point_at
  point-Emits master s h = Emits-bind _ _ (Emits-dial env s.host _ password tt) (λ connected.
      Emits-if (not connected) _ _ (λ _. Emits-pure _)
        (λ _. Emits-bind _ _ (Emits-command env s.host _ (master, s, h, refl, refl)) (λ ok.
          Emits-if (not ok) _ _ (λ _. Emits-pure _)
            (λ _.
              Emits-bind _ _ (Emits-command env s.host _ (master, s, h, refl))
                (λ saved. Emits-pure _)))))

  surveys :
      Extends
        (Repairs env password views w)
        (items_seen env w).effects
        (survey_replication env password (items_seen env w)).1.effects
  surveys =
      (Emits-survey_replication env password (Repairs env password views w) (λ host port. tt)
          (λ host. tt) (λ host. tt)).at
        (items_seen env w)

  behind-Stage :
      (address : Bytes) (pods : List RolloutPod) (items : List Pod) (o : Option ℤ)
      → agreed_master views (sentinel_replicas w.vc.spec.sentinel) ≡ some address
      → (data_pods_of env w ≡ some pods)
        × (int32 (length pods) ≡ w.vc.spec.replicas)
        × (every (λ p. p.ready) pods ≡ true)
      → env.pods (items_seen env w).effects ≡ some items
      → ordinal_of_host (stateful_set_name w.vc) items (before_or_all (cut b':' address) address)
        ≡ o
      → Stage
          (repair_behind env password (ordinal_of_host (stateful_set_name w.vc) items) o)
          (items_seen env w)
  unfolding repair_behind ◌>>=◌ object pure
  behind-Stage address pods items none a p i e = same
  behind-Stage address pods items (some master) a p i e =
      elim (Bool-cases (is_live_master (entry_at (survey_of env password w) master))) [
        | inr gone ↦ rw gone surveys
        | inl live ↦
            rw live (Extends-trans surveys (points live (misplaced_data_pod survey master f) refl))
      ]
    where
      f : Bytes → Option ℤ
      f = ordinal_of_host (stateful_set_name w.vc) items

      survey : List PodRole
      survey = survey_of env password w

      after : World
      after = (survey_replication env password (items_seen env w)).1

      points :
          is_live_master (entry_at (survey_of env password w) master) ≡ true
          → (q : Option PodRole) → misplaced_data_pod survey master f ≡ q
          → Stage
              (point_at env password (pod_fqdn w.vc (pod_name w.vc master)) (data_port w.vc) q)
              after
      points live none m = unfold point_at pure in same
      points live (some s) m =
          let (j, k) = misplaced_data_pod-In f master survey s m in
          (point-Emits master s
              (address, pods, items, a, p, i, e, live, j, unplaced f master s k)).at
            after

  with-Stage :
      (address : Bytes) (pods : List RolloutPod) (o : Option (List Pod))
      → agreed_master views (sentinel_replicas w.vc.spec.sentinel) ≡ some address
      → (data_pods_of env w ≡ some pods)
        × (int32 (length pods) ≡ w.vc.spec.replicas)
        × (every (λ p. p.ready) pods ≡ true)
      → env.pods (items_seen env w).effects ≡ o
      → Stage (repair_with env password address o) (items_seen env w)
  unfolding repair_with ◌>>=◌ object pure
  with-Stage address pods none a p i = same
  with-Stage address pods (some items) a p i = behind-Stage address pods items _ a p i refl

  among-Stage :
      (address : Bytes) (o : Option (List RolloutPod))
      → agreed_master views (sentinel_replicas w.vc.spec.sentinel) ≡ some address
      → data_pods_of env w ≡ o
      → Stage (repair_among env password address o) (record w { effects = selects w ∷ w.effects })
  unfolding repair_among ◌>>=◌ object pure ask
  among-Stage address none a d = same
  among-Stage address (some pods) a d =
      elim (Bool-cases (int32 (length pods) == w.vc.spec.replicas)) [
        | inr missing ↦ rw missing same
        | inl all ↦ elim (Bool-cases (every (λ p. p.ready) pods)) [
          | inr waiting ↦ rw (all, waiting) same
          | inl ready ↦
              rw (all, ready)
                (Extends-trans (more tt same) (
                  with-Stage address pods (env.pods (items_seen env w).effects) a
                    (d, ==→eq _ _ all, ready) refl))
        ]
      ]

-- repairSentinelDataPods sends REPLICAOF and CONFIG REWRITE to no pod but one of its survey that is
-- reachable and neither the master nor a replica of it; the master is the pod that all Sentinels
-- agree on and that reports itself as a master, and every data pod is there and Ready. Besides it
-- only reads.
pub repair_sentinel_data_pods-Repairs :
    (env : Env) (password : Bytes) (views : List SentinelView) (w : World)
    → Extends
        (Repairs env password views w)
        w.effects
        (repair_sentinel_data_pods env password views w).1.effects
unfolding repair_sentinel_data_pods ◌>>=◌ object
repair_sentinel_data_pods-Repairs env password views w = starts (agreed_master views replicas) refl
  where
    replicas : ℕ
    replicas = sentinel_replicas w.vc.spec.sentinel

    starts :
        (o : Option Bytes)
        → agreed_master views replicas ≡ o
        → Extends
            (Repairs env password views w)
            w.effects
            (repair_agreed env password o w).1.effects
    starts none a = unfold repair_agreed pure in same
    starts (some address) a =
        unfold repair_agreed list_rollout_pods ◌>>=◌ object ask pure in
        Extends-trans (more tt same) (
          among-Stage env password views w address _ a
            (unfold list_rollout_pods ◌>>=◌ object ask pure in refl))
