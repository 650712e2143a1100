-- ===== src/Acl/Run.antt =====
-- What ValkeyACLReconciler.Reconcile records (internal/controller/valkeyacl_controller.go).
use wellcake.Common.{
  ℕ, Bytes, codes, ◌≡◌, refl, ◌⊎◌, inl, inr, Bool, true, false, Bool-cases, List, [], ◌∷◌, In,
  if◌then◌else◌, ◌==◌, sort_by, ltb_bytes, Option, none, some,
}
use wellcake.Api.{ValkeyCluster, SecretKeyReference}
use wellcake.Api.Acl.{AclUser, AclStatus, ValkeyAcl}
use wellcake.Api.Defaults.{auth_enabled}
use wellcake.Info.{data_port}
use wellcake.Acl.{
  acl_targets, user_names, is_nil, is_not_ready, read_password, resolve_user_passwords,
  apply_acl_fanout, lookup_cluster_password, patch_acl, mark_unavailable, record_applied,
  apply_with, apply_to, reconcile_found, reconcile_acl,
}
use wellcake.Acl.Fanout.{Writes, apply_acl_fanout-Writes}
use wellcake.Acl.Reach.{IsServed, apply_acl_fanout_serves}
use wellcake.Runtime.{
  ReconcileResult, Env, World, History, Effect, Answer, Kind, get, patch_acl_status, pure, ◌>>=◌,
  ask,
}
use wellcake.Runtime.Emits.{Extends, same, more, Extends-trans, Extends-map}

abbrev pub PatchesNothing : Effect → Type 0
PatchesNothing (patch_acl_status s) = ⊥
PatchesNothing _ = Unit

-- The users of the spec are applied: the API had the cluster, which is ready, and a target of it has
-- been sent them all, with the passwords that were read for them.
abbrev pub IsApplied : Env → ValkeyAcl → Answer ValkeyCluster → AclStatus → History → Type 0
IsApplied env acl o s before =
    (s.available ≡ true)
    × (s.applied_users ≡ sort_by ltb_bytes (user_names acl.spec.users))
    × ((vc : ValkeyCluster) × (now : World) × (host : Bytes) × Extends PatchesNothing
          (resolve_user_passwords env acl.spec.users [] now).1.effects before
        × (o ≡ Answer.found vc)
        × (is_not_ready vc ≡ false)
        × In host (acl_targets vc)
        × IsServed acl (user_names acl.spec.users)
            (resolve_user_passwords env acl.spec.users [] now).0 before host)

-- How a pass ends: with an error or a wait that records nothing, or with one patch as its last
-- effect, which marks the object unavailable and keeps its users, or records them as applied.
abbrev pub Ends :
    Env → ValkeyAcl → Answer ValkeyCluster → History → ReconcileResult × World → Type 0
Ends env acl o a r =
    (Extends PatchesNothing a r.1.effects × (r.0.failed ≡ true))
    ⊎ ((s : AclStatus) × (before : History) × Extends PatchesNothing a before
        × (r.1.effects ≡ patch_acl_status s ∷ before)
        × (((s.available ≡ false) × (s.applied_users ≡ acl.status.applied_users))
            ⊎ IsApplied env acl o s before))

Writes-PatchesNothing :
    (acl : ValkeyAcl) (names : List Bytes) (passwords : List (Bytes × Bytes)) (targets : List Bytes)
    (e : Effect)
    → Writes acl names passwords targets e
    → PatchesNothing e
Writes-PatchesNothing acl names passwords targets (patch_acl_status s) q = q
Writes-PatchesNothing acl names passwords targets e q = tt

module _ (env : Env) (acl : ValkeyAcl) (a : History) where
  marks :
      (o : Answer ValkeyCluster) (reason : Bytes) (seconds : ℕ) (now : World)
      → Extends PatchesNothing a now.effects
      → Ends env acl o a (mark_unavailable env acl reason seconds now)
  unfolding mark_unavailable patch_acl ◌>>=◌ ask pure
  marks o reason seconds now x = inr (_, now.effects, x, refl, inl (refl, refl))

  reads :
      (users : List AclUser) (m : List (Bytes × Bytes)) (now : World)
      → Extends PatchesNothing now.effects (resolve_user_passwords env users m now).1.effects
  unfolding resolve_user_passwords ◌>>=◌ pure
  reads [] m now = same
  reads (u ∷ users) m now = Extends-trans (one u.password_secret) (
      reads users (read_password env u.name u.password_secret m now).0
        (read_password env u.name u.password_secret m now).1)
    where
      one :
          (o : Option SecretKeyReference)
          → Extends PatchesNothing now.effects (read_password env u.name o m now).1.effects
      one none = unfold read_password pure in same
      one (some r) = unfold read_password ◌>>=◌ ask pure in more tt same

  module _ (vc : ValkeyCluster) (ready : is_not_ready vc ≡ false) where
    names : List Bytes
    names = user_names acl.spec.users

    applies :
        (password : Bytes) (now : World)
        → Extends PatchesNothing a now.effects
        → Ends env acl (Answer.found vc) a (apply_with env acl vc (some password) now)
    unfolding apply_with ◌>>=◌ names
    applies password now x = elim (Bool-cases (is_nil (acl_targets vc))) [
      | inl none_there ↦ rw none_there (marks (Answer.found vc) (codes "NoTargets") 15 now x)
      | inr targets ↦ rw targets (ends (reached == 0) refl)
    ]
      where
        resolved : List (Bytes × Bytes) × World
        resolved = resolve_user_passwords env acl.spec.users [] now

        fanned : ℕ × World
        fanned =
            apply_acl_fanout env acl (data_port vc) password names resolved.0 (acl_targets vc)
              resolved.1

        reached : ℕ
        reached = fanned.0

        fanned_out : Extends PatchesNothing resolved.1.effects fanned.1.effects
        fanned_out = Extends-map (Writes-PatchesNothing acl names resolved.0 (acl_targets vc)) (
            apply_acl_fanout-Writes env acl (data_port vc) password names resolved.0
              (acl_targets vc) resolved.1)

        sent : Extends PatchesNothing a fanned.1.effects
        sent = Extends-trans x (Extends-trans (reads acl.spec.users [] now) fanned_out)

        ends :
            (b : Bool)
            → (reached == 0) ≡ b
            → Ends env acl (Answer.found vc) a (
                (if b
                    then mark_unavailable env acl (codes "PrimaryUnreachable") 15
                    else record_applied env acl names)
                  fanned.1)
        ends true e = marks (Answer.found vc) (codes "PrimaryUnreachable") 15 fanned.1 sent
        ends false e =
            unfold record_applied patch_acl ask pure in
            elim (apply_acl_fanout_serves env acl (data_port vc) password names resolved.0
              (acl_targets vc) resolved.1).0 [
                | inl (z, all) ↦ cc (z, e)
                | inr (positive, (host, i, served)) ↦ inr (
                  _,
                  fanned.1.effects,
                  sent,
                  refl,
                  inr (refl, refl, (vc, now, host, fanned_out, refl, ready, i, served)),
                )
              ]

  with-cluster :
      (o : Answer ValkeyCluster) (now : World)
      → Extends PatchesNothing a now.effects
      → Ends env acl o a (apply_to env acl o now)
  unfolding apply_to pure
  with-cluster Answer.not_found now x = marks Answer.not_found (codes "ClusterMissing") 0 now x
  with-cluster Answer.failed now x = inl (x, refl)
  with-cluster (Answer.found vc) now x = elim (Bool-cases (is_not_ready vc)) [
    | inl waiting ↦ rw waiting (marks (Answer.found vc) (codes "ClusterNotReady") 15 now x)
    | inr ready ↦ rw ready (looked ready)
  ]
    where
      found : Option Bytes × World
      found = lookup_cluster_password env vc now

      asks : Extends PatchesNothing now.effects found.1.effects
      asks =
          unfold lookup_cluster_password ◌>>=◌ ask pure in
          elim (Bool-cases (auth_enabled vc.spec)) [
            | inl on ↦ rw on (more tt same)
            | inr off ↦ rw off same
          ]

      looked :
          is_not_ready vc ≡ false
          → Ends env acl
              (Answer.found vc)
              a
              ((lookup_cluster_password env vc >>= apply_with env acl vc) now)
      looked ready = unfold ◌>>=◌ in with_password ready found.0 refl
        where
          with_password :
              is_not_ready vc ≡ false
              → (o : Option Bytes) → found.0 ≡ o
              → Ends env acl (Answer.found vc) a (apply_with env acl vc o found.1)
          with_password ready none e = unfold apply_with pure in inl (Extends-trans x asks, refl)
          with_password ready (some password) e =
              applies vc ready password found.1 (Extends-trans x asks)

-- Where the object is there, Reconcile ends with an error and records nothing, or its last effect is
-- its one patch of the status: that keeps the applied users and marks the object unavailable, or it
-- records the users of the spec, sorted, and then the API gave the cluster that the spec refers to,
-- that cluster was ready, and a target of it had been sent all of the users, with the passwords that
-- were read for them before, every user to drop, and ACL SAVE.
pub reconcile_acl-Ends :
    (env : Env) (name : Bytes) (acl : ValkeyAcl) (w : World)
    → env.acl (get Kind.valkey_acl name ∷ w.effects) ≡ Answer.found acl
    → Ends env acl
        (env.cluster
          (get Kind.valkey_cluster acl.spec.cluster_ref ∷ get Kind.valkey_acl name ∷ w.effects))
        w.effects
        (reconcile_acl env name w)
unfolding reconcile_acl reconcile_found ◌>>=◌ ask
reconcile_acl-Ends env name acl w h =
    rw h (with-cluster env acl w.effects _ _ (more tt (more tt same)))
