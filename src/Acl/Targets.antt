-- ===== src/Acl/Targets.antt =====
-- The targets of a ValkeyACL in the per-shard layout (internal/controller/valkeyacl_controller.go).
use wellcake.Common.{
  ℕ, Bytes, codes, ◌≡◌, ◌≢◌, sym, ap, ◌∙◌, ◌⊎◌, inl, inr, true, List, [], ◌∷◌, ◌++◌, append_assoc,
  map, In, here, there, &&-left, itoa, itoa_ℤ, StartsWithDigit, itoa-StartsWithDigit, if◌then◌else◌,
  arith, is_empty, int32, ◌+◌,
}
use wellcake.Api.{ValkeyCluster, is_cluster}
use wellcake.Sizing.{
  replicas_per_shard_of, shard_count_of, per_shard_enabled, range_int32, total_replicas,
}
use wellcake.Naming.{
  single_pod, PodRef, cluster_data_pods, shard_pods, shard_pod, fqdn, ordinal_name,
  stateful_set_name, headless_service_name, shard_sts_name, shard_headless_name,
}
use wellcake.Acl.{acl_target, acl_targets}
use mathlib.Core.Path.{subst}

append_injective : (s t u : Bytes) → s ++ t ≡ s ++ u → t ≡ u
append_injective [] t u h = h
append_injective (c ∷ s) t u h = append_injective s t u (cc)

In-map-inv :
    {A B : Type 0} (f : A → B) (b : B) (xs : List A) → In b (map f xs) → (a : A) × (f a ≡ b)
In-map-inv f b [] i = elim i [ ]
In-map-inv f b (x ∷ xs) (here e) = (x, e)
In-map-inv f b (x ∷ xs) (there i) = In-map-inv f b xs i

-- A digit is no "s".
digit-head : (s t u : Bytes) → StartsWithDigit s → s ++ t ≢ b's' ∷ u
digit-head [] t u d h = elim d [ ]
digit-head (c ∷ s) t u d h = ground arith

In-append-inv : {A : Type 0} (a : A) (xs ys : List A) → In a (xs ++ ys) → In a xs ⊎ In a ys
In-append-inv a [] ys i = inr i
In-append-inv a (x ∷ xs) ys (here e) = inl (here e)
In-append-inv a (x ∷ xs) ys (there i) = elim (In-append-inv a xs ys i) [
  | inl j ↦ inl (there j)
  | inr j ↦ inr j
]

shard_pods-inv :
    (vc : ValkeyCluster) (per : ℕ) (shards : List ℕ) (p : PodRef)
    → In p (shard_pods vc per shards)
    → (s : ℕ) × (o : ℕ) × (shard_pod vc s o ≡ p)
unfolding shard_pods
shard_pods-inv vc per [] p i = elim i [ ]
shard_pods-inv vc per (s ∷ shards) p i =
    elim (In-append-inv p (map (shard_pod vc s) (range_int32 per)) (shard_pods vc per shards) i) [
      | inl j ↦ let (o, e) = In-map-inv (shard_pod vc s) p (range_int32 per) j in (s, o, e)
      | inr j ↦ shard_pods-inv vc per shards p j
    ]

-- The tails of a target and of a host of the per-shard layout after the name and a dash.
target-tail :
    (vc : ValkeyCluster) (i : ℕ)
    → (t : Bytes) × (acl_target vc i ≡ vc.name ++ (b'-' ∷ (itoa i ++ t)))
unfolding acl_target fqdn ordinal_name stateful_set_name itoa_ℤ
target-tail vc i = (
  b'.' ∷ (headless_service_name vc ++ (b'.' ∷ (vc.namespace ++ codes ".svc.cluster.local"))),
  simp append_assoc,
)

shard-tail :
    (vc : ValkeyCluster) (s o : ℕ)
    → (t : Bytes) × ((shard_pod vc s o).host ≡ vc.name ++ (b'-' ∷ (b's' ∷ t)))
unfolding shard_pod fqdn ordinal_name shard_sts_name itoa_ℤ
shard-tail vc s o = (
  b'h'
      ∷ (itoa s
          ++ (b'-'
              ∷ (itoa o
                  ++ (b'.'
                      ∷ (shard_headless_name vc s
                          ++ (b'.' ∷ (vc.namespace ++ codes ".svc.cluster.local"))))))),
  simp append_assoc,
)

differ : (vc : ValkeyCluster) (i s o : ℕ) → acl_target vc i ≢ (shard_pod vc s o).host
differ vc i s o e =
    let (t, h) = target-tail vc i in
    let (u, k) = shard-tail vc s o in
    let same : b'-' ∷ (itoa i ++ t) ≡ b'-' ∷ (b's' ∷ u) =
      append_injective vc.name _ _ (sym h ∙ (e ∙ k)) in
    digit-head (itoa i) t u (itoa-StartsWithDigit i) (cc)

cluster-targets :
    (vc : ValkeyCluster) (host : Bytes)
    → per_shard_enabled vc ≡ true
    → In host (acl_targets vc)
    → In host (map (acl_target vc) (range_int32 (total_replicas vc)))
unfolding acl_targets per_shard_enabled
cluster-targets vc host layout i =
    subst
      (λ b. In host (
        if b
        then map (acl_target vc) (range_int32 (total_replicas vc))
        else if is_empty vc.status.primary
        then []
        else fqdn vc.status.primary (headless_service_name vc) vc.namespace ∷ []))
      (&&-left (is_cluster vc.spec.topology) _ layout) i

layout-pods :
    (vc : ValkeyCluster) (p : PodRef)
    → per_shard_enabled vc ≡ true
    → In p (cluster_data_pods vc)
    → In p (shard_pods vc (int32 (1 + replicas_per_shard_of vc)) (range_int32 (shard_count_of vc)))
unfolding cluster_data_pods
layout-pods vc p layout j =
    subst
      (λ b. In p (
        if b
        then shard_pods vc (int32 (1 + replicas_per_shard_of vc)) (range_int32 (shard_count_of vc))
        else map (single_pod vc) (range_int32 (total_replicas vc))))
      layout j

-- In the per-shard layout no target of a ValkeyACL is the host of a data pod.
pub acl_targets-miss :
    (vc : ValkeyCluster)
    → per_shard_enabled vc ≡ true
    → (host : Bytes) → In host (acl_targets vc)
    → (p : PodRef) → In p (cluster_data_pods vc)
    → host ≢ p.host
acl_targets-miss vc layout host i p j e =
    let (n, a) =
      In-map-inv (acl_target vc) host (range_int32 (total_replicas vc))
        (cluster-targets vc host layout i) in
    let (s, o, b) =
      shard_pods-inv vc (int32 (1 + replicas_per_shard_of vc)) (range_int32 (shard_count_of vc)) p
        (layout-pods vc p layout j) in
    differ vc n s o (a ∙ (e ∙ sym (ap (λ (q : PodRef). q.host) b)))
