-- ===== src/Handover/Mild.antt =====
-- The survey and the handover delete no pod and promote none by themselves
-- (internal/controller/rollout_sentinel.go): the Sentinels own the failover.
use wellcake.Common.{
  ℕ, zero, suc, Bytes, List, [], ◌∷◌, Option, none, some, not, ◌||◌, ◌==◌, length, is_empty, exists,
  eqb,
}
use wellcake.Failover.{PodRole, survey_replication}
use wellcake.Failover.Reads.{Emits-survey_replication}
use wellcake.Handover.{
  HandoverTimings, answers_caught_up, answers_linked, answers_master, is_refused, try_sentinels,
  issue_sentinel_failover, wait_caught_up, find_promoted, wait_promoted, demote, hand_over_paused,
  with_pause, hand_over_master, sentinel_handover,
}
use wellcake.Runtime.{Env, Effect, Command, send, delete, pure}
use wellcake.Runtime.Emits.{
  Emits, Emits-pure, Emits-bind, Emits-if, Emits-object, Emits-ask, Emits-dial, Emits-query,
  Emits-command,
}

-- No deletion and no promotion by REPLICAOF NO ONE.
abbrev pub IsMild : Effect → Type 0
IsMild (delete kind n) = ⊥
IsMild (send host Command.replica_of_no_one) = ⊥
IsMild _ = Unit

module _ (env : Env) (password : Bytes) where
  try-IsMild : (l : List ℕ) (last : Option Bytes) → Emits IsMild (try_sentinels env password l last)
  unfolding try_sentinels
  try-IsMild [] last = Emits-pure _
  try-IsMild (i ∷ l) last = Emits-bind _ _ Emits-object (λ vc.
      Emits-bind _ _ (Emits-dial env _ _ password tt)
        (λ connected. Emits-if (not connected) _ _ (λ _. try-IsMild l _) (λ _. Emits-ask _ _ tt)))

  issue-IsMild : Emits IsMild (issue_sentinel_failover env password)
  unfolding issue_sentinel_failover
  issue-IsMild = Emits-bind _ _ Emits-object (λ vc. try-IsMild _ none)

  wait_caught_up-IsMild : (n : ℕ) (master : Bytes) → Emits IsMild (wait_caught_up env n master)
  unfolding wait_caught_up
  wait_caught_up-IsMild zero master = Emits-pure _
  wait_caught_up-IsMild (suc n) master = Emits-bind _ _ (Emits-query env master _ tt) (λ info.
      Emits-if (answers_caught_up info) _ _ (λ _. Emits-pure _)
        (λ _. wait_caught_up-IsMild n master))

  find-IsMild :
      (port : ℕ) (hosts opened : List Bytes)
      → Emits IsMild (find_promoted env password port hosts opened)
  unfolding find_promoted
  find-IsMild port [] opened = Emits-pure _
  find-IsMild port (h ∷ hosts) opened =
      Emits-bind _ _
        (Emits-if (exists (eqb h) opened) _ _ (λ _. Emits-pure _)
          (λ _. Emits-dial env h port password tt))
        (λ connected.
          Emits-if (not connected) _ _ (λ _. find-IsMild port hosts opened)
            (λ _. Emits-bind _ _ (Emits-query env h _ tt) (λ info.
              Emits-if (answers_master info) _ _ (λ _. Emits-pure _)
                (λ _. find-IsMild port hosts (h ∷ opened)))))

  wait_promoted-IsMild :
      (n port : ℕ) (hosts opened : List Bytes)
      → Emits IsMild (wait_promoted env n password port hosts opened)
  unfolding wait_promoted
  wait_promoted-IsMild zero port hosts opened = Emits-pure _
  wait_promoted-IsMild (suc n) port hosts opened =
      Emits-bind _ _ (find-IsMild port hosts opened)
        (λ r. again (λ o. wait_promoted-IsMild n port hosts o) r)
    where
      again :
          ((o : List Bytes) → Emits IsMild (wait_promoted env n password port hosts o))
          → (r : Option Bytes × List Bytes)
          → Emits IsMild (elim r.0 [
            | some h ↦ pure (some h)
            | none ↦ wait_promoted env n password port hosts r.1
          ])
      again f (some h, o) = Emits-pure _
      again f (none, o) = f o

  demote-IsMild :
      (master : Bytes) (port : ℕ) (o : Option Bytes) → Emits IsMild (demote env master port o)
  unfolding demote
  demote-IsMild master port none = Emits-pure _
  demote-IsMild master port (some h) =
      Emits-bind _ _ (Emits-command env master _ tt) (λ ok. Emits-pure _)

  paused-IsMild :
      (t : HandoverTimings) (master : Bytes) (replicas : List Bytes) (port : ℕ)
      → Emits IsMild (hand_over_paused env t password master replicas port)
  unfolding hand_over_paused
  paused-IsMild t master replicas port = Emits-bind _ _ (wait_caught_up-IsMild _ master) (λ ready.
      Emits-if (not ready) _ _ (λ _. Emits-pure _)
        (λ _. Emits-bind _ _ issue-IsMild (λ error.
          Emits-if (is_refused error) _ _ (λ _. Emits-pure _)
            (λ _.
              Emits-bind _ _ (wait_promoted-IsMild _ port replicas [])
                (λ p. demote-IsMild master port p)))))

  hand_over-IsMild :
      (t : HandoverTimings) (master : Bytes) (replicas : List Bytes) (port : ℕ)
      → Emits IsMild (hand_over_master env t password master replicas port)
  unfolding hand_over_master with_pause
  hand_over-IsMild t master replicas port =
      Emits-if (is_empty master || length replicas == 0) _ _ (λ _. Emits-pure _)
        (λ _. Emits-bind _ _ (Emits-dial env master port password tt) (λ c.
          Emits-if (not c) _ _ (λ _. Emits-pure _)
            (λ _. Emits-bind _ _ (Emits-query env master _ tt) (λ info.
              Emits-if (not (answers_linked (length replicas) info)) _ _ (λ _. Emits-pure _)
                (λ _. Emits-bind _ _ (Emits-command env master _ tt) (λ p.
                  Emits-if (not p) _ _ (λ _. Emits-pure _)
                    (λ _. Emits-bind _ _ (paused-IsMild t master replicas port) (λ e.
                      Emits-bind _ _ (Emits-command env master _ tt) (λ ok. Emits-pure _)))))))))

  pub handover-IsMild :
      (survey : List PodRole) (master : Bytes)
      → Emits IsMild (sentinel_handover env password survey master)
  unfolding sentinel_handover
  handover-IsMild survey master = Emits-bind _ _ Emits-object (λ vc. hand_over-IsMild _ _ _ _)

  pub survey-IsMild : Emits IsMild (survey_replication env password)
  survey-IsMild =
      Emits-survey_replication env password IsMild (λ host port. tt) (λ host. tt) (λ host. tt)
