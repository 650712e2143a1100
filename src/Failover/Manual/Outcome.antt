-- ===== src/Failover/Manual/Outcome.antt =====
-- Whom manualFailover promotes, and what it records (internal/controller/failover.go).
use wellcake.Common.{
  ℕ, Bytes, ◌≡◌, ◌⊎◌, inl, inr, refl, sym, ap, ◌∙◌, List, [], ◌∷◌, Bool, true, false, not,
  Bool-cases, arith, Option, none, some, eqb, eqb→eq, is_empty, In, here, there, if◌then◌else◌,
  ◌&&◌, &&-left, &&-right, codes, ◌≤ℤ◌,
}
use mathlib.Core.Path.{subst}
use mathlib.Core.Option.{some-injective}
use wellcake.Api.{ValkeyCluster, Status, map_get}
use wellcake.Naming.{pod_name}
use wellcake.Info.{role_slave, data_port}
use wellcake.Failover.{PodRole}
use wellcake.Failover.Replicas.{IsReplica}
use wellcake.Failover.Run.{enforce_replication, retarget, in_place}
use wellcake.Failover.Targets.{best_target, is_candidate, best_target_highest, best_target-Comes}
use wellcake.Failover.Manual.{named_target, pick_failover_target, promote_target, manual_failover}
use wellcake.Failover.Manual.Enforced.{IsPointed, Repoints, points}
use wellcake.Runtime.Emits.{Extends}
use wellcake.Runtime.{
  patch_status, Env, World, ◌>>=◌, object, pure, perform, set_status, dial_repl_client, command,
  ask, is_some, History, Command, dial, send,
}

choose_inv :
    (b c : Bool) (s t : PodRole) (later : Option PodRole)
    → (if b then (if c then some s else none) else later) ≡ some t
    → ((s ≡ t) × (b ≡ true) × (c ≡ true)) ⊎ (later ≡ some t)
choose_inv true true s t later e = inl (some-injective s t e, refl, refl)
choose_inv true false s t later e = cc
choose_inv false c s t later e = inr e

named_target_chooses :
    (vc : ValkeyCluster) (survey : List PodRole) (name : Bytes) (t : PodRole)
    → named_target vc survey name ≡ some t
    → In t survey × IsReplica t × (pod_name vc t.ordinal ≡ name)
unfolding named_target
named_target_chooses vc [] name t e = cc
named_target_chooses vc (s ∷ survey) name t e =
    elim (choose_inv (eqb (pod_name vc s.ordinal) name) (s.reachable && eqb s.role role_slave) s t _
      e) [
        | inl (same, named, fit) ↦ (
          here same,
          subst IsReplica same
              (&&-left s.reachable _ fit, eqb→eq s.role role_slave (&&-right s.reachable _ fit)),
          subst (λ x. pod_name vc x.ordinal ≡ name) same
              (eqb→eq (pod_name vc s.ordinal) name named),
        )
        | inr f ↦ let (i, r, n) = named_target_chooses vc survey name t f in (there i, r, n)
      ]

candidate-IsReplica : (s : PodRole) → is_candidate (λ ord. true) s ≡ true → IsReplica s
unfolding is_candidate
candidate-IsReplica s h =
    let both = &&-left (s.reachable && eqb s.role role_slave) true h in
    (
      &&-left s.reachable (eqb s.role role_slave) both,
      eqb→eq s.role role_slave (&&-right s.reachable (eqb s.role role_slave) both),
    )

IsReplica-candidate : (s : PodRole) → IsReplica s → is_candidate (λ ord. true) s ≡ true
unfolding is_candidate eqb
IsReplica-candidate s (up, role) = rw (up, role) refl

-- The chosen replica answers and is a replica of the survey. Where a pod was named it is that pod;
-- else no replica that answers has a higher offset.
pub pick_failover_target_chooses :
    (vc : ValkeyCluster) (survey : List PodRole) (name : Bytes) (t : PodRole)
    → pick_failover_target vc survey name ≡ some t
    → (In t survey × IsReplica t)
      × (((is_empty name ≡ false) × (pod_name vc t.ordinal ≡ name))
          ⊎ ((is_empty name ≡ true)
              × ((r : PodRole) → In r survey → IsReplica r → r.offset ≤ℤ t.offset)))
unfolding pick_failover_target
pick_failover_target_chooses vc survey name t e = elim (Bool-cases (is_empty name)) [
  | inr named ↦
      let (i, r, n) = named_target_chooses vc survey name t (
        subst
          (λ b.
            (if not b then named_target vc survey name else best_target (λ ord. true) survey none)
            ≡ some t)
          named e) in
      ((i, r), inl (named, n))
  | inl free ↦
      by_offset
        (subst
          (λ b.
            (if not b then named_target vc survey name else best_target (λ ord. true) survey none)
            ≡ some t)
          free e)
        free
]
  where
    by_offset :
        best_target (λ ord. true) survey none ≡ some t
        → is_empty name ≡ true
        → (In t survey × IsReplica t)
          × (((is_empty name ≡ false) × (pod_name vc t.ordinal ≡ name))
              ⊎ ((is_empty name ≡ true)
                  × ((r : PodRole) → In r survey → IsReplica r → r.offset ≤ℤ t.offset)))
    by_offset f free =
        let (i, h) = best_target-Comes (λ ord. true) survey t f in
        ((i, candidate-IsReplica t h), inr (free, λ r j k. highest r j k))
      where
        highest : (r : PodRole) → In r survey → IsReplica r → r.offset ≤ℤ t.offset
        highest r j k =
            let (b, g, c, le) =
              best_target_highest (λ ord. true) survey r j (IsReplica-candidate r k) in
            subst (λ x. r.offset ≤ℤ x.offset) (some-injective b t (sym g ∙ f)) le

module _ (env : Env) (password : Bytes) where
  retarget_keeps :
      (port : ℕ) (primary s : PodRole) (w : World)
      → (retarget env password port primary s w).1.vc ≡ w.vc
  unfolding retarget ◌>>=◌ dial_repl_client ask pure command
  retarget_keeps port primary s w = ground arith

  enforce_keeps :
      (port : ℕ) (primary : PodRole) (survey : List PodRole) (w : World)
      → (enforce_replication env password port primary survey w).1.vc ≡ w.vc
  unfolding enforce_replication ◌>>=◌ pure
  enforce_keeps port primary [] w = refl
  enforce_keeps port primary (s ∷ survey) w = elim (Bool-cases (in_place primary s)) [
    | inl left_alone ↦ rw left_alone (enforce_keeps port primary survey w)
    | inr moved ↦ rw moved (enforce_keeps port primary survey _ ∙ retarget_keeps port primary s w)
  ]

-- The chosen pod gave no connection, or refused REPLICAOF NO ONE, and nothing else was tried.
abbrev pub IsRefused : Env → Bytes → ℕ → PodRole → History → History → Type 0
IsRefused env password port t a h =
    let dialled : History = dial t.host port password ∷ a in
    let sent : History = send t.host Command.replica_of_no_one ∷ dialled in
    ((h ≡ dialled) × (env.reachable dialled t.host port password ≡ false))
    ⊎ ((h ≡ sent) × (is_some (env.reply sent t.host Command.replica_of_no_one) ≡ false))

-- The chosen pod accepted REPLICAOF NO ONE first, then every pod of the survey was pointed at it and
-- no other pod was touched, and the patch of the status with the token was the last effect.
abbrev pub IsPromoted :
    Env → Bytes → List PodRole → ℕ → PodRole → Status → History → History → Type 0
IsPromoted env password survey port t s a h =
    let sent : History = send t.host Command.replica_of_no_one ∷ dial t.host port password ∷ a in
    (is_some (env.reply sent t.host Command.replica_of_no_one) ≡ true)
    × ((before : History) × Extends (Repoints env password port t survey) sent before
        × ((r : PodRole) → In r survey → IsPointed env password port t r before)
        × (h ≡ patch_status s ∷ before))

-- A call that promoted nothing and left the object as it was, or one that promoted a pod.
abbrev pub IsOutcome :
    Env → Bytes → List PodRole → Bytes → World → Option PodRole → Bytes × World → Type 0
IsOutcome env password survey token w o r =
    let recorded : Status = record w.vc.status { last_failover_token = token } in
    ((r.0 ≡ [])
      × (r.1.vc ≡ w.vc)
      × (((o ≡ none) × (r.1.effects ≡ w.effects))
          ⊎ ((t : PodRole) × (o ≡ some t)
              × IsRefused env password (data_port w.vc) t w.effects r.1.effects)))
    ⊎ ((t : PodRole) × (o ≡ some t)
        × (r.0 ≡ pod_name w.vc t.ordinal)
        × (r.1.vc ≡ record w.vc { status = recorded })
        × IsPromoted env password survey (data_port w.vc) t recorded w.effects r.1.effects)

module _ (env : Env) (password : Bytes) where
  promote_target-IsOutcome :
      (survey : List PodRole) (token : Bytes) (w : World) (o : Option PodRole)
      → IsOutcome env password survey token w o (promote_target env password survey token o w)
  unfolding promote_target ◌>>=◌ object pure dial_repl_client command ask set_status perform
  promote_target-IsOutcome survey token w none = inl (refl, refl, inl (refl, refl))
  promote_target-IsOutcome survey token w (some t) =
      elim (Bool-cases (env.reachable dialled t.host port password)) [
        | inr down ↦ rw down (inl (refl, refl, inr (t, refl, inl (refl, down))))
        | inl up ↦ elim (Bool-cases (is_some (env.reply sent t.host Command.replica_of_no_one))) [
          | inr refused ↦ rw (up, refused) (inl (refl, refl, inr (t, refl, inr (refl, refused))))
          | inl accepted ↦
              let (x, k) = points env password port t survey (record w { effects = sent }) in
              rw (up, accepted) (inr (t, refl, refl, recorded, (accepted, (_, x, k, patched))))
        ]
      ]
    where
      port : ℕ
      port = data_port w.vc

      dialled : History
      dialled = dial t.host port password ∷ w.effects

      sent : History
      sent = send t.host Command.replica_of_no_one ∷ dialled

      enforced : World
      enforced = (enforce_replication env password port t survey (record w { effects = sent })).1

      keeps : enforced.vc ≡ w.vc
      keeps = enforce_keeps env password port t survey (record w { effects = sent })

      recorded :
          record enforced.vc { status = record enforced.vc.status { last_failover_token = token } }
          ≡ record w.vc { status = record w.vc.status { last_failover_token = token } }
      recorded =
          ap {A = ValkeyCluster}
            (λ v. record v { status = record v.status { last_failover_token = token } }) keeps

      patched :
          (patch_status (record enforced.vc.status { last_failover_token = token })
            ∷ enforced.effects)
          ≡ patch_status (record w.vc.status { last_failover_token = token }) ∷ enforced.effects
      patched =
          ap {A = ValkeyCluster}
            (λ v. patch_status (record v.status { last_failover_token = token }) ∷ enforced.effects)
            keeps

-- manualFailover leaves the object as it is and returns "" where pickFailoverTarget chooses no pod,
-- and then does nothing, or where the chosen pod gives no connection or refuses REPLICAOF NO ONE, and
-- then does no more. Else it returns the chosen pod: that pod has accepted REPLICAOF NO ONE, after it
-- every pod of the survey was in place, gave no connection or was sent REPLICAOF that pod, no other
-- pod was touched, and the token alone is recorded in the status, by a patch that is the last effect.
pub manual_failover-IsOutcome :
    (env : Env) (password : Bytes) (survey : List PodRole) (token : Bytes) (w : World)
    → IsOutcome env password survey token w
        (pick_failover_target w.vc survey
          (map_get w.vc.annotations (codes "valkey.wellcake.io/failover-target")))
        (manual_failover env password survey token w)
unfolding manual_failover ◌>>=◌ object
manual_failover-IsOutcome env password survey token w =
    promote_target-IsOutcome env password survey token w _
