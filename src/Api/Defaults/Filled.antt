-- ===== src/Api/Defaults/Filled.antt =====
-- What Default does to an object (api/v1beta1/defaults.go).
use wellcake.Common.{
  ℕ, Bytes, codes, Option, none, some, true, false, if◌then◌else◌, is_empty, ◌==◌, ==→eq, [], ◌≡◌,
  ◌≢◌, ◌⊎◌, refl, inl, inr, Bool-cases, arith,
}
use wellcake.Api.{Topology, Profile, StorageSpec, ValkeyCluster, is_standalone}
use wellcake.Api.Defaults.{
  default_image, default_pvc_size, pull_if_not_present, default_topology, default_profile,
  default_text, default_replicas, default_storage, default,
}

default_topology_twice : (t : Topology) → default_topology (default_topology t) ≡ default_topology t
unfolding default_topology
default_topology_twice Topology.unset = refl
default_topology_twice Topology.standalone = refl
default_topology_twice Topology.replication = refl
default_topology_twice Topology.sentinel = refl
default_topology_twice Topology.cluster = refl

default_profile_twice : (p : Profile) → default_profile (default_profile p) ≡ default_profile p
unfolding default_profile
default_profile_twice Profile.unset = refl
default_profile_twice Profile.cache = refl
default_profile_twice Profile.durable = refl

default_text_twice : (s d : Bytes) → default_text (default_text s d) d ≡ default_text s d
unfolding default_text
default_text_twice s d = elim (Bool-cases (is_empty s)) [
  | inl blank ↦ rw blank (elim (Bool-cases (is_empty d)) [ inl b ↦ rw b refl | inr b ↦ rw b refl ])
  | inr text ↦ rw (text, text) refl
]

default_replicas_twice :
    (t : Topology) (n : ℕ) → default_replicas t (default_replicas t n) ≡ default_replicas t n
unfolding default_replicas
default_replicas_twice t n = elim (Bool-cases (is_standalone t)) [
  | inl alone ↦ rw alone (ground arith)
  | inr many ↦ rw many (ground arith)
]

default_storage_twice :
    (p : Profile) (s : Option StorageSpec)
    → default_storage p (default_storage p s) ≡ default_storage p s
unfolding default_storage
default_storage_twice Profile.durable none = refl
default_storage_twice Profile.durable (some s) = refl
default_storage_twice Profile.unset s = refl
default_storage_twice Profile.cache s = refl

named : (t : Topology) → default_topology t ≢ Topology.unset
unfolding default_topology
named Topology.unset h = cc
named Topology.standalone h = cc
named Topology.replication h = cc
named Topology.sentinel h = cc
named Topology.cluster h = cc

chosen : (p : Profile) → default_profile p ≢ Profile.unset
unfolding default_profile
chosen Profile.unset h = cc
chosen Profile.cache h = cc
chosen Profile.durable h = cc

filled : (s d : Bytes) → is_empty d ≡ false → is_empty (default_text s d) ≡ false
unfolding default_text
filled s d h = elim (Bool-cases (is_empty s)) [ inl blank ↦ rw blank h | inr text ↦ rw text text ]

some_replicas : (t : Topology) (n : ℕ) → default_replicas t n ≢ 0
unfolding default_replicas
some_replicas t n h = elim (Bool-cases (is_standalone t)) [
  | inl alone ↦ ground arith
  | inr many ↦ ground arith
]

stored :
    (p : Profile) (s : Option StorageSpec)
    → (default_profile p ≡ Profile.cache) ⊎ (default_storage (default_profile p) s ≢ none)
unfolding default_storage default_profile
stored Profile.unset s = inl refl
stored Profile.cache s = inl refl
stored Profile.durable none = inr (λ h. cc)
stored Profile.durable (some s) = inr (λ h. cc)

-- What an object has once its defaults are set.
abbrev pub IsComplete : ValkeyCluster → Type 0
IsComplete vc =
    (vc.spec.topology ≢ Topology.unset)
    × (vc.spec.profile ≢ Profile.unset)
    × (is_empty vc.spec.image ≡ false)
    × (is_empty vc.spec.image_pull_policy ≡ false)
    × (vc.spec.replicas ≢ 0)
    × ((vc.spec.profile ≡ Profile.cache) ⊎ (vc.spec.storage ≢ none))

-- What an optional field becomes: the default where it is unset, else what it was.
abbrev pub Fills {ℓ} : {A : Type ℓ} → Type 0 → A → A → A → Type ℓ
Fills Unset a d b = (Unset × (b ≡ d)) ⊎ (b ≡ a)

-- The second object is the first one with its defaults set.
abbrev pub IsDefaulted : ValkeyCluster → ValkeyCluster → Type 0
IsDefaulted vc d =
    Fills (vc.spec.topology ≡ Topology.unset) vc.spec.topology Topology.replication d.spec.topology
    × Fills (vc.spec.profile ≡ Profile.unset) vc.spec.profile Profile.cache d.spec.profile
    × Fills (is_empty vc.spec.image ≡ true) vc.spec.image default_image d.spec.image
    × Fills (is_empty vc.spec.image_pull_policy ≡ true) vc.spec.image_pull_policy
        pull_if_not_present d.spec.image_pull_policy
    × Fills (vc.spec.replicas ≡ 0) vc.spec.replicas (if is_standalone d.spec.topology then 1 else 3)
        d.spec.replicas
    × Fills ((vc.spec.storage ≡ none) × (d.spec.profile ≡ Profile.durable)) vc.spec.storage
        (some (record { size = default_pvc_size; mode = codes "both"; medium = [] })) d.spec.storage
    × (d ≡ record vc {
      spec = record vc.spec {
        topology = d.spec.topology;
        profile = d.spec.profile;
        image = d.spec.image;
        image_pull_policy = d.spec.image_pull_policy;
        replicas = d.spec.replicas;
        storage = d.spec.storage;
      };
    })

topology_filled :
    (t : Topology) → Fills (t ≡ Topology.unset) t Topology.replication (default_topology t)
unfolding default_topology
topology_filled Topology.unset = inl (refl, refl)
topology_filled Topology.standalone = inr refl
topology_filled Topology.replication = inr refl
topology_filled Topology.sentinel = inr refl
topology_filled Topology.cluster = inr refl

profile_filled : (p : Profile) → Fills (p ≡ Profile.unset) p Profile.cache (default_profile p)
unfolding default_profile
profile_filled Profile.unset = inl (refl, refl)
profile_filled Profile.cache = inr refl
profile_filled Profile.durable = inr refl

text_filled : (s d : Bytes) → Fills (is_empty s ≡ true) s d (default_text s d)
unfolding default_text
text_filled s d = elim (Bool-cases (is_empty s)) [
  | inl blank ↦ rw blank (inl (refl, refl))
  | inr text ↦ rw text (inr refl)
]

replicas_filled :
    (t : Topology) (n : ℕ)
    → Fills (n ≡ 0) n (if is_standalone t then 1 else 3) (default_replicas t n)
unfolding default_replicas
replicas_filled t n = elim (Bool-cases (n == 0)) [
  | inl zero_there ↦ rw zero_there (inl (==→eq n 0 zero_there, refl))
  | inr given ↦ rw given (inr refl)
]

storage_filled :
    (p : Profile) (s : Option StorageSpec)
    → Fills
        ((s ≡ none) × (p ≡ Profile.durable))
        s
        (some (record { size = default_pvc_size; mode = codes "both"; medium = [] }))
        (default_storage p s)
unfolding default_storage
storage_filled Profile.durable none = inl ((refl, refl), refl)
storage_filled Profile.durable (some s) = inr refl
storage_filled Profile.unset s = inr refl
storage_filled Profile.cache s = inr refl

default-IsDefaulted : (vc : ValkeyCluster) → IsDefaulted vc (default vc)
unfolding default
default-IsDefaulted vc = (
  topology_filled vc.spec.topology,
  profile_filled vc.spec.profile,
  text_filled vc.spec.image default_image,
  text_filled vc.spec.image_pull_policy pull_if_not_present,
  replicas_filled (default_topology vc.spec.topology) vc.spec.replicas,
  storage_filled (default_profile vc.spec.profile) vc.spec.storage,
  refl,
)

default-IsComplete : (vc : ValkeyCluster) → IsComplete (default vc)
unfolding default
default-IsComplete vc = (
  named vc.spec.topology,
  chosen vc.spec.profile,
  filled vc.spec.image default_image (unfold is_empty in refl),
  filled vc.spec.image_pull_policy pull_if_not_present (unfold is_empty in refl),
  some_replicas (default_topology vc.spec.topology) vc.spec.replicas,
  stored vc.spec.profile vc.spec.storage,
)

default_again : (vc : ValkeyCluster) → default (default vc) ≡ default vc
unfolding default
default_again vc = λ i. record vc {
  spec = record vc.spec {
    topology = default_topology_twice vc.spec.topology i;
    profile = default_profile_twice vc.spec.profile i;
    image = default_text_twice vc.spec.image default_image i;
    image_pull_policy = default_text_twice vc.spec.image_pull_policy pull_if_not_present i;
    replicas = replicas i;
    storage = storage i;
  };
}
  where
    replicas :
        default_replicas
          (default_topology (default_topology vc.spec.topology))
          (default_replicas (default_topology vc.spec.topology) vc.spec.replicas)
        ≡ default_replicas (default_topology vc.spec.topology) vc.spec.replicas
    replicas =
        rw (default_topology_twice vc.spec.topology)
          (default_replicas_twice (default_topology vc.spec.topology) vc.spec.replicas)

    storage :
        default_storage
          (default_profile (default_profile vc.spec.profile))
          (default_storage (default_profile vc.spec.profile) vc.spec.storage)
        ≡ default_storage (default_profile vc.spec.profile) vc.spec.storage
    storage =
        rw (default_profile_twice vc.spec.profile)
          (default_storage_twice (default_profile vc.spec.profile) vc.spec.storage)

-- Default keeps what is set and fills in what is not: the topology Replication, the profile Cache,
-- the default image, the pull policy IfNotPresent, 1 replica for Standalone and 3 else, and for
-- Durable storage of 10Gi in the mode both; every other field is kept. After it none of these fields
-- is unset, but for the storage under Cache; and it is idempotent.
pub default_twice :
    (vc : ValkeyCluster)
    → IsDefaulted vc (default vc) × IsComplete (default vc) × (default (default vc) ≡ default vc)
default_twice vc = (default-IsDefaulted vc, default-IsComplete vc, default_again vc)
