-- ===== src/TlsReload/Recorded.antt =====
-- What reconcileTLSReload reports (internal/controller/tls_reload.go).
use wellcake.Common.{
  ℕ, zero, suc, Bytes, ◌≡◌, inl, inr, refl, ap, Option, none, some, Bool, true, false, ◌∷◌,
  Bool-cases, if◌then◌else◌, eqb, is_empty,
}
use wellcake.Api.{ValkeyCluster, Status}
use wellcake.Info.{tls_enabled}
use wellcake.Rotation.Passes.{IsQuestion}
use wellcake.Rotation.Questions.{ensure-IsQuestion}
use wellcake.Rotation.Run.{update_answer}
use wellcake.Reconcile.{or_retry}
use wellcake.TlsReload.{
  ReloadResult, tls_settings, data_hosts, write_fingerprint, record_fingerprint, after_reload,
  reload_with, reload_unless, reload_to, reload_from, reconcile_tls_reload,
}
use wellcake.Runtime.{
  succeeds, Env, World, M, History, Effect, dial, handshake, send, Answer, Kind, update_status, get,
  pure, ◌>>=◌, object, ask,
}
use wellcake.Runtime.Emits.{Extends, Extends-map, same, more, Extends-trans, Written}
use wellcake.TlsReload.Served.{Loads, pods_load}

-- No look at a certificate, and nothing sent to a pod.
abbrev pub IsBlind : Effect → Type 0
IsBlind (dial host port password) = ⊥
IsBlind (handshake host port) = ⊥
IsBlind (send host c) = ⊥
IsBlind _ = Unit

question-IsBlind : (e : Effect) → IsQuestion e → IsBlind e
question-IsBlind (dial host port password) q = q
question-IsBlind (handshake host port) q = q
question-IsBlind (send host c) q = q
question-IsBlind e q = tt

-- The API accepted the fingerprint in the status of the object that was read last.
abbrev pub IsRecorded : Env → Bytes → History → Type 0
IsRecorded env desired h =
    (s : Status) × (s.last_tls_cert_fingerprint ≡ desired) × Written env (update_status s) h

-- Every pod is loaded with one certificate, with no look and no command before and after, and its
-- fingerprint is recorded.
abbrev pub IsServing : Env → ValkeyCluster → History → History → Type 0
IsServing env vc a h =
    (desired : Bytes) × (start : History) × (end : History) × Extends IsBlind a start
    × Loads env (tls_settings vc) desired (data_hosts vc) start end
    × Extends IsBlind end h
    × IsRecorded env desired h

-- Where a call reports the certificate as loaded.
abbrev Serves : Env → ValkeyCluster → History → ReloadResult × World → Type 0
Serves env vc a r = r.0 ≡ ReloadResult.reloaded → IsServing env vc a r.1.effects

module _ (env : Env) where
  abbrev Recorded : Bytes → World → Bool × World → Type 0
  Recorded desired w r =
      Extends IsBlind w.effects r.1.effects × (r.0 ≡ true → IsRecorded env desired r.1.effects)

  accepted_of :
      (conflict : Bool) (a : Answer (Unit {0}))
      → update_answer conflict a ≡ some true
      → succeeds a ≡ true
  unfolding update_answer succeeds
  accepted_of conflict (Answer.found x) e = refl
  accepted_of conflict Answer.not_found e = cc
  accepted_of true Answer.failed e = cc
  accepted_of false Answer.failed e = cc

  resumed :
      (desired : Bytes) (w now : World) (o : Option Bool) (next : M Bool)
      → Extends IsBlind w.effects now.effects
      → (o ≡ some true → IsRecorded env desired now.effects)
      → ((later : World) → Recorded desired later (next later))
      → Recorded desired w (or_retry o next now)
  unfolding or_retry
  resumed desired w now none next x h again = let (y, k) = again now in (Extends-trans x y, k)
  resumed desired w now (some ok) next x h again = unfold pure in (x, λ e. h (ap some e))

  written :
      (desired : Bytes) (w now : World) (a : Answer ValkeyCluster) (next : M Bool)
      → Extends IsBlind w.effects now.effects
      → ((later : World) → Recorded desired later (next later))
      → Recorded desired w ((write_fingerprint env desired a >>= λ o. or_retry o next) now)
  unfolding write_fingerprint ◌>>=◌ ask pure
  written desired w now Answer.not_found next x again =
      resumed desired w now (some false) next x (λ e. cc) again
  written desired w now Answer.failed next x again =
      resumed desired w now (some false) next x (λ e. cc) again
  written desired w now (Answer.found latest) next x again =
      resumed desired w _ _ next (Extends-trans x (more tt same))
        (λ e. (
          record latest.status { last_tls_cert_fingerprint = desired },
          refl,
          (now.effects, same, accepted_of _ _ e),
        ))
        again

  records :
      (n : ℕ) (desired : Bytes) (w : World)
      → Recorded desired w (record_fingerprint env n desired w)
  unfolding record_fingerprint
  records zero desired w = unfold pure in (same, λ e. cc)
  records (suc n) desired w = recorded (records n desired)
    where
      recorded :
          ((later : World) → Recorded desired later (record_fingerprint env n desired later))
          → Recorded desired w (
              (object >>= λ vc. ask (get Kind.valkey_cluster vc.name) env.cluster >>= λ latest.
              write_fingerprint env desired latest >>= λ o.
              or_retry o (record_fingerprint env n desired))
                w)
      recorded again =
          unfold ◌>>=◌ object ask in
          written desired w (record w { effects = get Kind.valkey_cluster w.vc.name ∷ w.effects })
            (env.cluster (get Kind.valkey_cluster w.vc.name ∷ w.effects))
            (record_fingerprint env n desired) (more tt same) again

  module _ (vc : ValkeyCluster) (a : History) where
    after-Serves :
        (desired : Bytes) (start : History) (o : Option Bool) (now : World)
        → Extends IsBlind a start
        → (o ≡ some true → Loads env (tls_settings vc) desired (data_hosts vc) start now.effects)
        → Serves env vc a (after_reload env desired o now)
    unfolding after_reload ◌>>=◌ pure
    after-Serves desired start none now x h = λ e. cc
    after-Serves desired start (some false) now x h = λ e. cc
    after-Serves desired start (some true) now x h =
        by_record (record_fingerprint env 5 desired now) (records 5 desired now)
      where
        by_record :
            (r : Bool × World)
            → Recorded desired now r
            → Serves env vc a
                ((if r.0 then ReloadResult.reloaded else ReloadResult.reload_failed), r.1)
        by_record (true, later) (y, k) e = (desired, start, now.effects, x, h refl, y, k refl)
        by_record (false, later) (y, k) e = cc

    with-Serves :
        (desired : Bytes) (o : Option Bytes) (now : World)
        → Extends IsBlind a now.effects
        → Serves env vc a (reload_with env vc desired o now)
    unfolding reload_with ◌>>=◌
    with-Serves desired none now x = unfold pure in λ e. cc
    with-Serves desired (some password) now x =
        after-Serves desired now.effects _ _ x
          (pods_load env (tls_settings vc) desired password (data_hosts vc) now)

    unless-Serves :
        (desired : Bytes) (o : Answer ValkeyCluster) (now : World)
        → Extends IsBlind a now.effects
        → Serves env vc a (reload_unless env vc desired o now)
    unfolding reload_unless ◌>>=◌ pure
    unless-Serves desired Answer.not_found now x = λ e. cc
    unless-Serves desired Answer.failed now x = λ e. cc
    unless-Serves desired (Answer.found latest) now x =
        elim (Bool-cases (eqb desired latest.status.last_tls_cert_fingerprint)) [
          | inl known ↦ rw known (λ e. cc)
          | inr new ↦ rw new (
              with-Serves desired _ _
                (Extends-trans x (Extends-map question-IsBlind ((ensure-IsQuestion env).at now))))
        ]

    to-Serves :
        (o : Option Bytes) (now : World)
        → Extends IsBlind a now.effects
        → Serves env vc a (reload_to env vc o now)
    unfolding reload_to ◌>>=◌ ask pure
    to-Serves none now x = λ e. cc
    to-Serves (some desired) now x =
        elim (Bool-cases (eqb desired vc.status.last_tls_cert_fingerprint)) [
          | inl known ↦ rw known (λ e. cc)
          | inr new ↦ rw new (unless-Serves desired _ _ (Extends-trans x (more tt same)))
        ]

    from-Serves :
        (o : Answer Bytes) (now : World)
        → Extends IsBlind a now.effects
        → Serves env vc a (reload_from env vc o now)
    unfolding reload_from pure
    from-Serves Answer.not_found now x = λ e. cc
    from-Serves Answer.failed now x = λ e. cc
    from-Serves (Answer.found pem) now x = elim (Bool-cases (is_empty pem)) [
      | inl blank ↦ rw blank (λ e. cc)
      | inr text ↦ rw text (to-Serves (env.fingerprint pem) now x)
    ]

-- When reconcileTLSReload reports a reload, there is one certificate with which all data pods were
-- loaded one after the other, with no look at a pod and nothing sent to one besides: the only look at
-- the pod got no answer or found the certificate, or the pod then accepted every setting, and a last
-- look found the certificate. And the API accepted its fingerprint in the status.
pub reconcile_tls_reload_loads :
    (env : Env) (w : World)
    → (reconcile_tls_reload env w).0 ≡ ReloadResult.reloaded
    → IsServing env w.vc w.effects (reconcile_tls_reload env w).1.effects
reconcile_tls_reload_loads env w = whole
  where
    whole : Serves env w.vc w.effects (reconcile_tls_reload env w)
    whole =
        unfold reconcile_tls_reload ◌>>=◌ object in
        elim (Bool-cases (tls_enabled w.vc)) [
          | inr off ↦ rw off (unfold pure in λ e. cc)
          | inl on ↦ rw on (unfold ask in from-Serves env w.vc w.effects _ _ (more tt same))
        ]
