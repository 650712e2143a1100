-- ===== src/Rotation/Questions.antt =====
-- What reconcilePasswordRotation asks before the passes
-- (internal/controller/password_rotation.go).
use wellcake.Common.{Bytes, not, Option, none, some, is_empty}
use wellcake.Api.Defaults.{auth_enabled}
use wellcake.Rotation.Passes.{IsQuestion}
use wellcake.Rotation.Run.{
  existing_secret_of, all_data_pods_ready, create_password, managed_secret, ensure_password_secret,
}
use wellcake.Runtime.{Env, Answer}
use wellcake.Runtime.Emits.{Emits, Emits-pure, Emits-bind, Emits-if, Emits-ask, Emits-object}
use wellcake.Runtime.Keeps.{Keeps, Keeps-pure, Keeps-ask, Keeps-bind, Keeps-if, Keeps-object}

module _ (env : Env) where
  create-IsQuestion :
      (name : Bytes) (o : Option Bytes) → Emits IsQuestion (create_password env name o)
  unfolding create_password
  create-IsQuestion name none = Emits-pure _
  create-IsQuestion name (some pw) = Emits-bind _ _ (Emits-ask _ _ tt) (λ a. Emits-pure _)

  create-Keeps : (name : Bytes) (o : Option Bytes) → Keeps (create_password env name o)
  unfolding create_password
  create-Keeps name none = Keeps-pure _
  create-Keeps name (some pw) = Keeps-bind _ _ (Keeps-ask _ _) (λ a. Keeps-pure _)

  managed-IsQuestion :
      (name : Bytes) (a : Answer Bytes) → Emits IsQuestion (managed_secret env name a)
  unfolding managed_secret
  managed-IsQuestion name (Answer.found pw) = Emits-pure _
  managed-IsQuestion name Answer.failed = Emits-pure _
  managed-IsQuestion name Answer.not_found =
      Emits-bind _ _ (Emits-ask _ _ tt) (λ pw. create-IsQuestion name pw)

  managed-Keeps : (name : Bytes) (a : Answer Bytes) → Keeps (managed_secret env name a)
  unfolding managed_secret
  managed-Keeps name (Answer.found pw) = Keeps-pure _
  managed-Keeps name Answer.failed = Keeps-pure _
  managed-Keeps name Answer.not_found = Keeps-bind _ _ (Keeps-ask _ _) (λ pw. create-Keeps name pw)

  pub ensure-IsQuestion : Emits IsQuestion (ensure_password_secret env)
  unfolding ensure_password_secret
  ensure-IsQuestion = Emits-bind _ _ Emits-object (λ vc.
      Emits-if (not (auth_enabled vc.spec)) _ _ (λ _. Emits-pure _)
        (λ _.
          Emits-if (not (is_empty (existing_secret_of vc.spec.auth))) _ _
            (λ _. Emits-bind _ _ (Emits-ask _ _ tt) (λ a. Emits-pure _))
            (λ _. Emits-bind _ _ (Emits-ask _ _ tt) (λ a. managed-IsQuestion _ a))))

  pub ensure-Keeps : Keeps (ensure_password_secret env)
  unfolding ensure_password_secret
  ensure-Keeps = Keeps-bind _ _ Keeps-object (λ vc.
      Keeps-if (not (auth_enabled vc.spec)) _ _ (Keeps-pure _) (
        Keeps-if (not (is_empty (existing_secret_of vc.spec.auth))) _ _
          (Keeps-bind _ _ (Keeps-ask _ _) (λ a. Keeps-pure _))
          (Keeps-bind _ _ (Keeps-ask _ _) (λ a. managed-Keeps _ a))))

  pub ready-IsQuestion : Emits IsQuestion (all_data_pods_ready env)
  unfolding all_data_pods_ready
  ready-IsQuestion =
      Emits-bind _ _ Emits-object (λ vc. Emits-bind _ _ (Emits-ask _ _ tt) (λ p. Emits-pure _))

  pub ready-Keeps : Keeps (all_data_pods_ready env)
  unfolding all_data_pods_ready
  ready-Keeps =
      Keeps-bind _ _ Keeps-object (λ vc. Keeps-bind _ _ (Keeps-ask _ _) (λ p. Keeps-pure _))
