-- ===== src/TlsReload.antt =====
-- internal/controller/tls_reload.go: a renewed certificate, loaded on the pods without a restart. The
-- uncached reader is set, as cmd/main.go sets it.
pub mod Served
pub mod Recorded
use wellcake.Common.{
  ℕ, zero, suc, Bytes, codes, Option, none, some, Bool, true, false, not, List, [], ◌∷◌, ◌++◌, map,
  if◌then◌else◌, ◌&&◌, eqb, is_empty,
}
use wellcake.Api.{ValkeyCluster, TlsSpec, ReplicateFromSpec}
use wellcake.Naming.{PodRef, cluster_data_pods}
use wellcake.Info.{tls_enabled}
use wellcake.Api.Defaults.{is_absent}
use wellcake.Rotation.Run.{ensure_password_secret, update_answer}
use wellcake.Reconcile.{or_retry}
use wellcake.Runtime.{
  Env, M, Answer, Kind, Command, get, handshake, update_status, pure, ◌>>=◌, object, ask,
  dial_repl_client, command,
}

-- What reconcileTLSReload returns: nothing to do, every pod on the new certificate, a wait, an error.
pub data ReloadResult : Type 0 where
  up_to_date reloaded not_synced reload_failed : ReloadResult

-- tlsSecretName (resources.go).
unfoldable pub secret_or : Bytes → Option TlsSpec → Bytes
secret_or default none = default
secret_or default (some t) = if is_empty t.existing_secret then default else t.existing_secret

unfoldable pub tls_secret_name : ValkeyCluster → Bytes
tls_secret_name vc = secret_or (vc.name ++ codes "-tls") vc.spec.tls

-- sourceCAMergeEnabled and caCertPath (resources.go).
unfoldable pub has_source_ca : Option ReplicateFromSpec → Bool
has_source_ca none = false
has_source_ca (some r) = r.tls && not (is_absent r.ca_secret)

unfoldable pub ca_cert_path : ValkeyCluster → Bytes
ca_cert_path vc =
    if tls_enabled vc && has_source_ca vc.spec.replicate_from
    then codes "/data/ca-bundle.crt"
    else codes "/etc/valkey/tls/ca.crt"

-- The settings of the loop in reloadTLSOnPods.
unfoldable pub tls_settings : ValkeyCluster → List (Bytes × Bytes)
tls_settings vc =
    (codes "tls-cert-file", codes "/etc/valkey/tls/tls.crt")
    ∷ (codes "tls-key-file", codes "/etc/valkey/tls/tls.key")
    ∷ (codes "tls-ca-cert-file", ca_cert_path vc)
    ∷ []

unfoldable pub data_hosts : ValkeyCluster → List Bytes
data_hosts vc = map (λ (p : PodRef). p.host) (cluster_data_pods vc)

unfoldable pub serves : Bytes → Option Bytes → Bool
serves desired none = false
serves desired (some f) = eqb f desired

unfoldable pub and_rest : Bool → Option Bool → Option Bool
and_rest b none = none
and_rest b (some c) = some (b && c)

module _ (env : Env) where
  -- servedCertFingerprint.
  unfoldable pub served_cert_fingerprint : Bytes → M (Option Bytes)
  served_cert_fingerprint host = ask (handshake host 6380) (λ h. env.served h host)

  unfoldable pub config_sets : Bytes → List (Bytes × Bytes) → M Bool
  config_sets host [] = pure true
  config_sets host ((param, value) ∷ settings) = do
    ok ← command env host (Command.config_set param value)
    if not ok then pure false else config_sets host settings

  -- One pod of reloadTLSOnPods: none on an error, else false where it still serves the old one.
  unfoldable pub reload_connected : Bytes → List (Bytes × Bytes) → Bytes → Bool → M (Option Bool)
  reload_connected desired settings host false = pure (some false)
  reload_connected desired settings host true = do
    ok ← config_sets host settings
    if not ok
        then pure none
        else do served ← served_cert_fingerprint host; pure (some (serves desired served))

  unfoldable pub reload_serving :
      Bytes → List (Bytes × Bytes) → Bytes → Bytes → Option Bytes → M (Option Bool)
  reload_serving password settings desired host none = pure (some true)
  reload_serving password settings desired host (some f) =
      if eqb f desired then pure (some true) else do
        connected ← dial_repl_client env host 6380 password
        reload_connected desired settings host connected

  unfoldable pub reload_pod : Bytes → List (Bytes × Bytes) → Bytes → Bytes → M (Option Bool)
  reload_pod password settings desired host = do
    served ← served_cert_fingerprint host
    reload_serving password settings desired host served

  -- reloadTLSOnPods.
  unfoldable pub reload_rest : Option Bool → M (Option Bool) → M (Option Bool)
  reload_rest none rest = pure none
  reload_rest (some b) rest = do others ← rest; pure (and_rest b others)

  unfoldable pub reload_tls_on_pods :
      Bytes → List (Bytes × Bytes) → Bytes → List Bytes → M (Option Bool)
  reload_tls_on_pods password settings desired [] = pure (some true)
  reload_tls_on_pods password settings desired (host ∷ hosts) = do
    b ← reload_pod password settings desired host
    reload_rest b (reload_tls_on_pods password settings desired hosts)

  -- The record of the fingerprint, again after a conflict, at most five times.
  unfoldable pub write_fingerprint : Bytes → Answer ValkeyCluster → M (Option Bool)
  write_fingerprint desired Answer.not_found = pure (some false)
  write_fingerprint desired Answer.failed = pure (some false)
  write_fingerprint desired (Answer.found latest) =
      let s = record latest.status { last_tls_cert_fingerprint = desired } in
      ask (update_status s) (λ h. update_answer (env.conflicts h) (env.accepts h (update_status s)))

  unfoldable pub record_fingerprint : ℕ → Bytes → M Bool
  record_fingerprint zero desired = pure false
  record_fingerprint (suc steps) desired = do
    vc ← object
    latest ← ask (get Kind.valkey_cluster vc.name) env.cluster
    written ← write_fingerprint desired latest
    or_retry written (record_fingerprint steps desired)

  unfoldable pub after_reload : Bytes → Option Bool → M ReloadResult
  after_reload desired none = pure ReloadResult.reload_failed
  after_reload desired (some false) = pure ReloadResult.not_synced
  after_reload desired (some true) = do
    ok ← record_fingerprint 5 desired
    pure (if ok then ReloadResult.reloaded else ReloadResult.reload_failed)

  unfoldable pub reload_with : ValkeyCluster → Bytes → Option Bytes → M ReloadResult
  reload_with vc desired none = pure ReloadResult.reload_failed
  reload_with vc desired (some password) = do
    all ← reload_tls_on_pods password (tls_settings vc) desired (data_hosts vc)
    after_reload desired all

  unfoldable pub reload_unless : ValkeyCluster → Bytes → Answer ValkeyCluster → M ReloadResult
  reload_unless vc desired Answer.not_found = pure ReloadResult.reload_failed
  reload_unless vc desired Answer.failed = pure ReloadResult.reload_failed
  reload_unless vc desired (Answer.found latest) =
      if eqb desired latest.status.last_tls_cert_fingerprint
      then pure ReloadResult.up_to_date
      else do password ← ensure_password_secret env; reload_with vc desired password

  unfoldable pub reload_to : ValkeyCluster → Option Bytes → M ReloadResult
  reload_to vc none = pure ReloadResult.up_to_date
  reload_to vc (some desired) =
      if eqb desired vc.status.last_tls_cert_fingerprint then pure ReloadResult.up_to_date else do
        latest ← ask (get Kind.valkey_cluster vc.name) env.cluster
        reload_unless vc desired latest

  unfoldable pub reload_from : ValkeyCluster → Answer Bytes → M ReloadResult
  reload_from vc Answer.not_found = pure ReloadResult.up_to_date
  reload_from vc Answer.failed = pure ReloadResult.reload_failed
  reload_from vc (Answer.found pem) =
      if is_empty pem then pure ReloadResult.up_to_date else reload_to vc (env.fingerprint pem)

  -- reconcileTLSReload.
  unfoldable pub reconcile_tls_reload : M ReloadResult
  reconcile_tls_reload = do
    vc ← object
    if not (tls_enabled vc) then pure ReloadResult.up_to_date else do
      pem ←
          ask (get Kind.secret (tls_secret_name vc))
            (λ h. env.secret_data h (tls_secret_name vc) (codes "tls.crt"))
      reload_from vc pem
