-- ===== src/Failover/Replicas.antt =====
-- Which replica the survey of a replication set offers for promotion.
use wellcake.Common.{
  ◌≡◌, ◌⊎◌, inl, inr, List, [], ◌∷◌, ◌++◌, true, false, Bool, arith, ◌&&◌, keep, append-nil,
  append_assoc, refl, In, here, there, ◌≤ℤ◌, ◌<ℤ◌, ltb_ℤ, eqb_ℤ, Bool-cases, if◌then◌else◌, sym,
  Option, none, some, eqb, eqb→eq, Bytes, ltb_ℤ→ge, eqb_ℤ→eq, eqb_ℤ-false,
}
use mathlib.Core.Path.{subst}
use wellcake.Info.{role_master, role_slave}
use wellcake.Failover.{PodRole, Scan, better_replica, scan_pod, scan_pods, scan}

-- b holds at least the data of s, and with as much data has no lower offset.
abbrev pub IsAhead : PodRole → PodRole → Type 0
IsAhead b s = (s.keys <ℤ b.keys) ⊎ ((s.keys ≡ b.keys) × (s.offset ≤ℤ b.offset))

abbrev pub IsReplica : PodRole → Type 0
IsReplica s = (s.reachable ≡ true) × (s.role ≡ role_slave)

-- What the scan knows of a best replica: at least what it knew of a pod that it saw.
abbrev Covers : Option PodRole → PodRole → Type 0
Covers none s = ⊥
Covers (some b) s = IsAhead b s

better_replica_trans :
    (s : PodRole) (o : Option PodRole) (r : PodRole)
    → better_replica s o ≡ true
    → Covers o r
    → IsAhead s r
unfolding better_replica ltb_ℤ eqb_ℤ
better_replica_trans s none r h c = absurd c
better_replica_trans s (some b) r h c = ground arith

-- Looking at one more pod keeps what was covered.
scan_pod_keeps :
    (s : PodRole) (acc : Scan) (r : PodRole)
    → Covers acc.best_replica r
    → Covers (scan_pod s acc).best_replica r
unfolding scan_pod
scan_pod_keeps s acc r c = elim (Bool-cases (better_replica s acc.best_replica)) [
  | inl better ↦ ground (arith, better_replica_trans s acc.best_replica r)
  | inr worse ↦ ground arith
]

role_slave_tests :
    (r : Bytes) → r ≡ role_slave → (eqb r role_master ≡ false) × (eqb r role_slave ≡ true)
unfolding eqb
role_slave_tests r e = rw e (refl, refl)

not_better-Covers : (s : PodRole) (o : Option PodRole) → better_replica s o ≡ false → Covers o s
unfolding better_replica
not_better-Covers s none h = cc
not_better-Covers s (some b) h = ground (
  arith,
  ltb_ℤ→ge b.keys s.keys,
  eqb_ℤ→eq s.keys b.keys,
  eqb_ℤ-false s.keys b.keys,
  ltb_ℤ→ge b.offset s.offset,
)

-- A reachable replica is covered once it was looked at.
scan_pod-Covers : (s : PodRole) (acc : Scan) → IsReplica s → Covers (scan_pod s acc).best_replica s
unfolding scan_pod
scan_pod-Covers s acc h = elim (Bool-cases (better_replica s acc.best_replica)) [
  | inl better ↦ ground (arith, role_slave_tests s.role)
  | inr worse ↦ ground (arith, role_slave_tests s.role, not_better-Covers s acc.best_replica)
]

scan_pods_keep :
    (survey : List PodRole) (acc : Scan) (r : PodRole)
    → Covers acc.best_replica r
    → Covers (scan_pods survey acc).best_replica r
unfolding scan_pods
scan_pods_keep [] acc r c = c
scan_pods_keep (s ∷ survey) acc r c =
    scan_pods_keep survey (scan_pod s acc) r (scan_pod_keeps s acc r c)

scan_pods_cover :
    (r : PodRole) (survey : List PodRole) (acc : Scan)
    → In r survey
    → IsReplica r
    → Covers (scan_pods survey acc).best_replica r
unfolding scan_pods
scan_pods_cover r [] acc i h = elim i [ ]
scan_pods_cover r (s ∷ survey) acc (here e) h =
    scan_pods_keep survey (scan_pod s acc) r
      (subst (λ x. Covers (scan_pod x acc).best_replica r) (sym e) (scan_pod-Covers r acc h))
scan_pods_cover r (s ∷ survey) acc (there i) h = scan_pods_cover r survey (scan_pod s acc) i h

-- One more pod is the new best replica only if it is a reachable replica.
scan_pod_choice :
    (s : PodRole) (acc : Scan)
    → ((scan_pod s acc).best_replica ≡ acc.best_replica)
      ⊎ (((scan_pod s acc).best_replica ≡ some s) × (s.reachable ≡ true) × (s.role ≡ role_slave))
unfolding scan_pod
scan_pod_choice s acc = elim (Bool-cases (better_replica s acc.best_replica)) [
  | inl better ↦ ground (arith, eqb→eq s.role role_slave)
  | inr worse ↦ inl (ground arith)
]

-- P holds of the best replica, if there is one.
abbrev pub Holds : (PodRole → Type 0) → Option PodRole → Type 0
Holds P none = Unit
Holds P (some b) = P b

scan_pods_sound :
    (P : PodRole → Type 0) (survey : List PodRole) (acc : Scan)
    → ((s : PodRole) → In s survey → IsReplica s → P s)
    → Holds P acc.best_replica
    → Holds P (scan_pods survey acc).best_replica
unfolding scan_pods
scan_pods_sound P [] acc new old = old
scan_pods_sound P (s ∷ survey) acc new old =
    scan_pods_sound P survey (scan_pod s acc) (λ r i h. new r (there i) h)
      (elim (scan_pod_choice s acc) [
        | inl kept ↦ subst (Holds P) (sym kept) old
        | inr (chosen, up, slave) ↦ subst (Holds P) (sym chosen) (new s (here refl) (up, slave))
      ])

-- A predicate of every reachable replica of the survey holds of the best one.
pub scan-Holds :
    (P : PodRole → Type 0) (survey : List PodRole)
    → ((s : PodRole) → In s survey → IsReplica s → P s)
    → Holds P (scan survey).best_replica
unfolding scan
scan-Holds P survey new = scan_pods_sound P survey _ new tt

covered_best :
    (P : PodRole → Type 0) (o : Option PodRole) (s : PodRole)
    → Covers o s
    → Holds P o
    → (b : PodRole) × (o ≡ some b) × P b × IsAhead b s
covered_best P none s c h = absurd c
covered_best P (some b) s c h = (b, refl, h, c)

-- As soon as one replica answered, the scan offers a replica that answered itself, and that is
-- ahead of every other: more data, or as much data and no lower offset.
pub scan_best_replica :
    (survey : List PodRole) (s : PodRole)
    → In s survey
    → IsReplica s
    → (b : PodRole) × ((scan survey).best_replica ≡ some b)
      × (In b survey × IsReplica b)
      × IsAhead b s
unfolding scan
scan_best_replica survey s i h =
    covered_best (λ b. In b survey × IsReplica b) (scan survey).best_replica s
      (scan_pods_cover s survey _ i h) (scan-Holds _ survey (λ r j k. (j, k)))

-- The masters are the reachable pods that report role:master, in the survey's order.
abbrev pub is_reachable_master : PodRole → Bool
is_reachable_master s = s.reachable && eqb s.role role_master

scan_pod_masters :
    (s : PodRole) (acc : Scan)
    → (scan_pod s acc).masters
      ≡ (if is_reachable_master s then acc.masters ++ s ∷ [] else acc.masters)
unfolding scan_pod
scan_pod_masters s acc = ground arith

scan_pods_masters :
    (survey : List PodRole) (acc : Scan)
    → (scan_pods survey acc).masters ≡ acc.masters ++ keep is_reachable_master survey
unfolding scan_pods keep
scan_pods_masters [] acc = sym (append-nil acc.masters)
scan_pods_masters (s ∷ survey) acc = elim (Bool-cases (is_reachable_master s)) [
  | inl up ↦
      rw (scan_pods_masters survey (scan_pod s acc), scan_pod_masters s acc, up)
        (append_assoc acc.masters (s ∷ []) (keep is_reachable_master survey))
  | inr down ↦ rw (scan_pods_masters survey (scan_pod s acc), scan_pod_masters s acc, down)
]

pub masters-scan : (survey : List PodRole) → (scan survey).masters ≡ keep is_reachable_master survey
unfolding scan
masters-scan survey = scan_pods_masters survey _
