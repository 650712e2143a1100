-- ===== src/Failover/Reads.antt =====
-- The effects of surveyReplication (internal/controller/failover.go).
use wellcake.Common.{ℕ, Bytes, List, [], ◌∷◌, not, pos, ℤ}
use wellcake.Failover.{survey_pod, survey_pods, survey_replication}
use wellcake.Runtime.{Env, Effect, Command, dial, send}
use wellcake.Runtime.Emits.{
  Emits, Emits-pure, Emits-bind, Emits-if, Emits-object, Emits-dial, Emits-query,
}

module _ (env : Env) (password : Bytes) (P : Effect → Type 0)
    (dials : (host : Bytes) (port : ℕ) → P (dial host port password))
    (infos : (host : Bytes) → P (send host Command.info_replication))
    (sizes : (host : Bytes) → P (send host Command.dbsize)) where
  Emits-survey_pod : (i : ℤ) → Emits P (survey_pod env password i)
  unfolding survey_pod
  Emits-survey_pod i = Emits-bind _ _ Emits-object (λ vc.
      Emits-bind _ _ (Emits-dial env _ _ password (dials _ _)) (λ connected.
        Emits-if (not connected) _ _ (λ _. Emits-pure _)
          (λ _.
            Emits-bind _ _ (Emits-query env _ _ (infos _))
              (λ info. Emits-bind _ _ (Emits-query env _ _ (sizes _)) (λ size. Emits-pure _)))))

  Emits-survey_pods : (l : List ℕ) → Emits P (survey_pods env password l)
  unfolding survey_pods
  Emits-survey_pods [] = Emits-pure _
  Emits-survey_pods (i ∷ l) =
      Emits-bind _ _ (Emits-survey_pod (pos i))
        (λ r. Emits-bind _ _ (Emits-survey_pods l) (λ rs. Emits-pure _))

  pub Emits-survey_replication : Emits P (survey_replication env password)
  unfolding survey_replication
  Emits-survey_replication = Emits-bind _ _ Emits-object (λ vc. Emits-survey_pods _)
