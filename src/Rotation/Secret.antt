-- ===== src/Rotation/Secret.antt =====
-- When reconcilePasswordRotation changes the Secret (internal/controller/password_rotation.go).
use wellcake.Common.{Bytes}
use wellcake.Api.{ValkeyCluster}
use wellcake.Rotation.Run.{RotationResult}
use wellcake.Runtime.{Env, World, M}
use wellcake.Runtime.Follows as follows
use wellcake.Rotation.Finish.{Rotates}

module _ (env : Env) where
  -- The whole call, for some new password.
  module _ (vc : ValkeyCluster) where
    abbrev Safe : M RotationResult → World → Type 0
    Safe m w = (new : Bytes) × Rotates env vc new w.effects (m w).1.effects
