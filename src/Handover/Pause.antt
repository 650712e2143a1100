-- ===== src/Handover/Pause.antt =====
-- The pause of the writes in handOverMaster (internal/controller/rollout_sentinel.go).
use wellcake.Common.{
  ℕ, Bytes, ◌≡◌, ◌⊎◌, inl, inr, refl, List, ◌∷◌, false, Bool-cases, Option, ◌||◌, ◌==◌, length,
  is_empty,
}
use wellcake.Handover.{
  HandoverError, HandoverTimings, answers_linked, with_pause, hand_over_paused, hand_over_master,
}
use wellcake.Runtime.{
  Env, World, History, Effect, Command, M, dial, send, ◌>>=◌, pure, ask, command, query,
  dial_repl_client, is_some,
}
use wellcake.Runtime.Follows.{Follows, same, more}

-- A pause that the master refused, or any other effect.
abbrev pub PausesNothing : Env → History → Effect → Type 0
PausesNothing env h (send host (Command.client_pause_write t)) =
    is_some
      (env.reply (send host (Command.client_pause_write t) ∷ h) host (Command.client_pause_write t))
    ≡ false
PausesNothing env h _ = Unit

-- Either no pause was accepted, or CLIENT UNPAUSE to the master is the last effect.
abbrev pub IsLifted : Env → Bytes → World → World → Type 0
IsLifted env master w r =
    Follows (PausesNothing env) w.effects r.effects
    ⊎ ((before : History) × (r.effects ≡ send master Command.client_unpause ∷ before))

with_pause-lifts :
    (env : Env) (master : Bytes) (body : M (Option HandoverError)) (w : World)
    → (with_pause env master body w).1.effects
      ≡ send master Command.client_unpause ∷ (body w).1.effects
unfolding with_pause ◌>>=◌ pure command ask
with_pause-lifts env master body w = refl

-- handOverMaster lifts the pause that it made on every path, as its last effect, whatever the pods
-- and the Sentinels answer and however long the waits go on.
pub hand_over_master-IsLifted :
    (env : Env) (t : HandoverTimings) (password master : Bytes) (replicas : List Bytes) (port : ℕ)
    (w : World)
    → IsLifted env master w (hand_over_master env t password master replicas port w).1
unfolding hand_over_master ◌>>=◌ pure dial_repl_client query command ask
hand_over_master-IsLifted env t password master replicas port w =
    elim (Bool-cases (is_empty master || length replicas == 0)) [
      | inl none_left ↦ rw none_left (inl same)
      | inr target ↦ elim (Bool-cases (env.reachable dialled master port password)) [
        | inr down ↦ rw (target, down) (inl (more tt same))
        | inl up ↦
            elim (Bool-cases (
              answers_linked (length replicas) (env.reply asked master Command.info_replication))) [
                | inr loose ↦ rw (target, up, loose) (inl (more tt (more tt same)))
                | inl tied ↦
                    elim (Bool-cases
                      (is_some (env.reply paused master (Command.client_pause_write t.pause)))) [
                        | inr refused ↦
                            rw (target, up, tied, refused)
                              (inl (more refused (more tt (more tt same))))
                        | inl accepted ↦
                            rw (target, up, tied, accepted)
                              (inr (
                                _,
                                with_pause-lifts env master
                                    (hand_over_paused env t password master replicas port)
                                    (record w { effects = paused }),
                              ))
                      ]
              ]
      ]
    ]
  where
    dialled : History
    dialled = dial master port password ∷ w.effects

    asked : History
    asked = send master Command.info_replication ∷ dialled

    paused : History
    paused = send master (Command.client_pause_write t.pause) ∷ asked
