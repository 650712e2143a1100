-- ===== src/Failover/Masters.antt =====
-- Which of several reachable masters is kept.
use wellcake.Common.{
  ◌≡◌, ◌⊎◌, inl, inr, List, [], ◌∷◌, true, false, arith, refl, In, In-inv, here, there, ◌≤ℤ◌, ltb_ℤ,
  eqb_ℤ, eqb_ℤ→eq, eqb→eq, eqb-false, ltb_ℤ→ge, eqb_ℤ-false, ◌<ℤ◌, ◌≢◌, Bool-cases, if◌then◌else◌,
}
use wellcake.Api.{ValkeyCluster}
use wellcake.Naming.{pod_name}
use wellcake.Failover.{PodRole, better_master, pick_authoritative_master}

module _ (vc : ValkeyCluster) where
  -- The preference is a strict order whose complement is transitive.
  better_master_trans :
      (a b c : PodRole)
      → better_master vc a b ≡ false
      → better_master vc b c ≡ false
      → better_master vc a c ≡ false
  unfolding better_master ltb_ℤ eqb_ℤ
  better_master_trans a b c h k = ground arith

  better_master_asym : (a b : PodRole) → better_master vc a b ≡ true → better_master vc b a ≡ false
  unfolding better_master ltb_ℤ eqb_ℤ
  better_master_asym a b h = ground arith

  better_master_irrefl : (a : PodRole) → better_master vc a a ≡ false
  unfolding better_master ltb_ℤ eqb_ℤ
  better_master_irrefl a = ground arith

  -- The running best never loses to what it replaced.
  pick_keeps :
      (best : PodRole) (masters : List PodRole)
      → better_master vc best (pick_authoritative_master vc best masters) ≡ false
  unfolding pick_authoritative_master
  pick_keeps best [] = better_master_irrefl best
  pick_keeps best (m ∷ masters) = elim (Bool-cases (better_master vc m best)) [
    | inl better ↦
        rw (better, pick_authoritative_master)
          (better_master_trans best m (pick_authoritative_master vc m masters)
            (better_master_asym m best better) (pick_keeps m masters))
    | inr worse ↦ rw (worse, pick_authoritative_master) (pick_keeps best masters)
  ]

  pick_unbeaten :
      (m best : PodRole) (masters : List PodRole)
      → (best ≡ m) ⊎ In m masters
      → better_master vc m (pick_authoritative_master vc best masters) ≡ false
  unfolding pick_authoritative_master
  pick_unbeaten m best masters (inl e) = rw (← e) (pick_keeps best masters)
  pick_unbeaten m best [] (inr i) = elim i [ ]
  pick_unbeaten m best (x ∷ masters) (inr (here e)) = elim (Bool-cases (better_master vc x best)) [
    | inl better ↦ rw (better, ← e) (pick_keeps x masters)
    | inr worse ↦
        rw (worse, ← e)
          (better_master_trans x best (pick_authoritative_master vc best masters) worse
            (pick_keeps best masters))
  ]
  pick_unbeaten m best (x ∷ masters) (inr (there i)) =
      pick_unbeaten m (if better_master vc x best then x else best) masters (inr i)

  In-skip : (a b c : PodRole) (xs : List PodRole) → In a (c ∷ xs) → In a (c ∷ b ∷ xs)
  In-skip a b c xs (here e) = here e
  In-skip a b c xs (there i) = there (there i)

  pub pick-In :
      (best : PodRole) (masters : List PodRole)
      → In (pick_authoritative_master vc best masters) (best ∷ masters)
  unfolding pick_authoritative_master
  pick-In best [] = here refl
  pick-In best (m ∷ masters) = elim (Bool-cases (better_master vc m best)) [
    | inl better ↦ rw better (there (pick-In m masters))
    | inr worse ↦ rw worse (In-skip _ m best masters (pick-In best masters))
  ]

  -- s goes before m: it holds more data; or as much, and it is the pod that status names, or m is
  -- not and has no lower ordinal.
  abbrev pub GoesBefore : PodRole → PodRole → Type 0
  GoesBefore s m =
      (m.keys <ℤ s.keys)
      ⊎ ((m.keys ≡ s.keys)
          × ((pod_name vc s.ordinal ≡ vc.status.primary)
              ⊎ ((pod_name vc m.ordinal ≢ vc.status.primary) × (s.ordinal ≤ℤ m.ordinal))))

  unbeaten-GoesBefore : (m s : PodRole) → better_master vc m s ≡ false → GoesBefore s m
  unfolding better_master
  unbeaten-GoesBefore m s h = ground (
    arith,
    eqb_ℤ→eq m.keys s.keys,
    eqb-false (pod_name vc m.ordinal) vc.status.primary,
    eqb→eq (pod_name vc s.ordinal) vc.status.primary,
    ltb_ℤ→ge s.keys m.keys,
    ltb_ℤ→ge m.ordinal s.ordinal,
    eqb_ℤ-false m.keys s.keys,
  )

  -- The master that is kept is one of the reachable masters, and goes before every other one: by
  -- data first, then as the primary of the status, then by the lower ordinal.
  pub pick_authoritative_master_first :
      (best : PodRole) (masters : List PodRole) (m : PodRole)
      → In m (best ∷ masters)
      → In (pick_authoritative_master vc best masters) (best ∷ masters)
        × GoesBefore (pick_authoritative_master vc best masters) m
  pick_authoritative_master_first best masters m i =
      (pick-In best masters, unbeaten-GoesBefore m _ (pick_unbeaten m best masters (In-inv i)))
