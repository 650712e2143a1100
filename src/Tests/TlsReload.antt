-- ===== src/Tests/TlsReload.antt =====
-- A certificate that is renewed on three pods.
use wellcake.Common.{Bytes, codes, ◌≡◌, refl, [], ◌∷◌, some, true, false, Option, eqb, is_empty}
use wellcake.Api.{is_cluster}
use wellcake.Api.Defaults.{auth_enabled}
use wellcake.Info.{tls_enabled}
use wellcake.Naming.{cluster_data_pods}
use wellcake.Rotation.Run.{ensure_password_secret, update_answer}
use wellcake.Sizing.{per_shard_enabled, range_int32, total_replicas}
use wellcake.Reconcile.{or_retry}
use wellcake.TlsReload.{
  ReloadResult, data_hosts, tls_settings, serves, and_rest, served_cert_fingerprint, config_sets,
  reload_connected, reload_serving, reload_pod, reload_rest, reload_tls_on_pods, write_fingerprint,
  record_fingerprint, after_reload, reload_with, reload_unless, reload_to, reload_from,
  reconcile_tls_reload,
}
use wellcake.TlsReload.Recorded.{IsServing, reconcile_tls_reload_loads}
use wellcake.Runtime.{
  Env, World, History, handshake, send, is_some, object, ask, pure, ◌>>=◌, command,
  dial_repl_client,
}
use wellcake.Tests.Samples.{calm, fresh, demo, sample_spec}

-- A pod serves the new certificate right after it got a setting.
abbrev served_after : History → Bytes → Option Bytes
served_after (handshake h port ∷ send host c ∷ before) name = some (codes "f2")
served_after before name = some (codes "f1")

abbrev renewing : Env
renewing = record calm { served = served_after }

abbrev secured : World
secured = record fresh {
  vc = record demo {
    spec = record sample_spec {
      tls = some (record { enabled = true; existing_secret = []; mutual_tls = false });
    };
  };
}

reloads : (reconcile_tls_reload renewing secured).0 ≡ ReloadResult.reloaded
unfolding reconcile_tls_reload tls_enabled reload_from reload_to reload_unless reload_with
    reload_tls_on_pods reload_pod reload_serving reload_connected reload_rest config_sets
    served_cert_fingerprint serves and_rest after_reload record_fingerprint write_fingerprint
    or_retry update_answer ensure_password_secret auth_enabled data_hosts tls_settings eqb is_empty
    is_some object ask pure ◌>>=◌ command dial_repl_client cluster_data_pods per_shard_enabled
    is_cluster range_int32 total_replicas
reloads = refl

reconcile_tls_reload_loads_example :
    IsServing renewing secured.vc secured.effects (reconcile_tls_reload renewing secured).1.effects
reconcile_tls_reload_loads_example = reconcile_tls_reload_loads renewing secured reloads
