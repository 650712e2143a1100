-- ===== src/Tests/Rotation.antt =====
-- A password rotation on the sample cluster.
use wellcake.Common.{
  ◌≡◌, refl, codes, some, none, true, false, [], ◌∷◌, eqb, is_empty, has_prefix, int32_lt, itoa_ℤ,
  Bytes,
}
use wellcake.Api.{is_cluster, is_sentinel, is_standalone, map_get}
use wellcake.Api.Defaults.{auth_enabled}
use wellcake.Naming.{cluster_data_pods}
use wellcake.Rollout.{pod_is_ready, has_ready}
use wellcake.Rotation.{managed_non_default_users}
use wellcake.Rotation.Run.{RotationResult, reconcile_password_rotation}
use wellcake.Runtime.{Env, World, Pod, Answer}
use wellcake.Runtime.Follows.{Follows}
use wellcake.Tests.Samples.{calm, demo, sample_spec}

abbrev ready_pod : Bytes → Pod
ready_pod name = record {
  name = name;
  phase = codes "Running";
  node_name = codes "n1";
  conditions = record { kind = codes "Ready"; status = codes "True" } ∷ [];
  labels = [];
  ip = [];
  deleting = false;
}

-- An operator asks for a rotation while the three data pods are Ready.
abbrev asked : World
asked = record {
  vc = record demo {
    annotations = (codes "valkey.wellcake.io/rotate-password", codes "t1") ∷ [];
    spec = record sample_spec { auth = some (record { enabled = none; existing_secret = [] }) };
  };
  effects = [];
}

abbrev steady : Env
steady = record calm {
  pods = λ h.
      some
        (ready_pod (codes "demo-0") ∷ ready_pod (codes "demo-1") ∷ ready_pod (codes "demo-2") ∷ []);
}

-- The rotation runs to its end.
rotates : (reconcile_password_rotation steady asked).0 ≡ RotationResult.rotated
unfolding reconcile_password_rotation auth_enabled is_empty map_get eqb int32_lt has_prefix
    is_cluster is_sentinel is_standalone itoa_ℤ wellcake.Naming.sentinel_stateful_set_name
    wellcake.Naming.fqdn wellcake.Naming.headless_service_name wellcake.Naming.ordinal_name
    wellcake.Naming.single_pod wellcake.Naming.stateful_set_name wellcake.Naming.cluster_data_pods
    wellcake.Info.data_port wellcake.Info.tls_enabled wellcake.Common.itoa
    wellcake.Rollout.pod_is_ready wellcake.Rollout.has_ready wellcake.Rotation.Run.create_password
    wellcake.Rotation.Run.ensure_password_secret wellcake.Rotation.Run.finish_rotation
    wellcake.Rotation.Run.found_password wellcake.Rotation.Run.managed_secret
    wellcake.Rotation.Run.password_secret_name wellcake.Rotation.Run.record_token
    wellcake.Rotation.Run.rewrite_secret wellcake.Runtime.succeeds
    wellcake.Rotation.Run.update_answer wellcake.Rotation.Run.update_password_secret
    wellcake.Rotation.Run.with_new wellcake.Rotation.Run.with_old wellcake.Rotation.Run.write_token
    wellcake.Rotation.Run.existing_secret_of wellcake.Rotation.Run.with_fresh
    wellcake.Rotation.Run.with_ready wellcake.Rotation.Run.all_data_pods_ready
    wellcake.Rotation.Run.has_all_ready wellcake.Rotation.Run.count_ready wellcake.Rotation.add_new
    wellcake.Rotation.and_then wellcake.Rotation.apply_passes
    wellcake.Rotation.apply_password_to_pods wellcake.Rotation.cut_over
    wellcake.Rotation.dial_either wellcake.Rotation.managed_non_default_users
    wellcake.Rotation.on_each_pod wellcake.Rotation.rotate_sentinel_password
    wellcake.Rotation.rotate_with wellcake.Rotation.sentinel_listen_port
    wellcake.Rotation.sentinel_step wellcake.Rotation.set_users wellcake.Runtime.command
    wellcake.Runtime.dial_repl_client wellcake.Runtime.is_some wellcake.Runtime.object
    wellcake.Runtime.ask wellcake.Runtime.pure wellcake.Runtime.◌>>=◌ wellcake.Sizing.count_from
    wellcake.Sizing.per_shard_enabled wellcake.Sizing.range_int32 wellcake.Sizing.total_replicas
rotates = refl
