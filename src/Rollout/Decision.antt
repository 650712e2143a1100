-- ===== src/Rollout/Decision.antt =====
-- What nextRolloutStep decides (internal/controller/rollout.go).
use wellcake.Common.{
  Bytes, ◌≡◌, ◌⊎◌, inl, inr, refl, List, [], ◌∷◌, true, false, Bool-cases, arith, eqb, keep, exists,
  sort_by, sort_by-In, sort_by-In-inv, every, In, here, there, In-keep, In-keep-inv, ◌≤ℤ◌, is_empty,
}
use mathlib.Core.Path.{subst}
use wellcake.Rollout.Sorting.{IsSorted, sort-IsSorted}
use wellcake.Rollout.{
  lower_ordinal, RolloutPod, RolloutAction, is_stale, sort_by_ordinal, first_replica,
  next_rollout_step,
}

-- The action of a list of stale pods: its first replica, or the primary where it has no replica.
abbrev IsFirst : List RolloutPod → Bytes → RolloutAction → Type 0
IsFirst xs primary (RolloutAction.rollout_roll_replica n) =
    (p : RolloutPod) × In p xs
    × (p.name ≡ n)
    × (eqb p.name primary ≡ false)
    × ((q : RolloutPod) → In q xs → eqb q.name primary ≡ false → p.ordinal ≤ℤ q.ordinal)
IsFirst xs primary (RolloutAction.rollout_promote n) =
    (n ≡ primary) × ((q : RolloutPod) → In q xs → eqb q.name primary ≡ true)
IsFirst xs primary _ = ⊥

first_replica-IsFirst :
    (xs : List RolloutPod) (primary : Bytes)
    → IsSorted xs
    → IsFirst xs primary (first_replica primary xs)
unfolding first_replica
first_replica-IsFirst [] primary s = (refl, λ q i. elim i [ ])
first_replica-IsFirst (p ∷ rest) primary (least, s) = elim (Bool-cases (eqb p.name primary)) [
  | inl same ↦
      rw same (skip same (first_replica primary rest) (first_replica-IsFirst rest primary s))
  | inr other ↦ rw other (p, here refl, refl, other, λ q i h. first q i)
]
  where
    first : (q : RolloutPod) → In q (p ∷ rest) → p.ordinal ≤ℤ q.ordinal
    first q (here e) = subst (λ y. p.ordinal ≤ℤ y.ordinal) e (omega arith)
    first q (there i) = least q i

    skip :
        eqb p.name primary ≡ true
        → (a : RolloutAction) → IsFirst rest primary a
        → IsFirst (p ∷ rest) primary a
    skip same (RolloutAction.rollout_roll_replica n) (r, i, e, h, low) =
        (r, there i, e, h, λ q j k. lower q j k)
      where
        lower :
            (q : RolloutPod) → In q (p ∷ rest) → eqb q.name primary ≡ false → r.ordinal ≤ℤ q.ordinal
        lower q (here f) k = cc (f, k, same)
        lower q (there j) k = low q j k
    skip same (RolloutAction.rollout_promote n) (e, all) = (e, λ q j. every_one q j)
      where
        every_one : (q : RolloutPod) → In q (p ∷ rest) → eqb q.name primary ≡ true
        every_one q (here f) = cc (f, same)
        every_one q (there j) = all q j
    skip same RolloutAction.rollout_none x = absurd x
    skip same RolloutAction.rollout_wait x = absurd x

-- What an action says of the pods: nothing is stale, a pod is not Ready, the replica with the
-- lowest ordinal of the stale ones, or the primary as the only stale pod. A pod is rolled only
-- while every pod is Ready.
abbrev pub IsJustified : List RolloutPod → Bytes → Bytes → RolloutAction → Type 0
IsJustified pods revision primary RolloutAction.rollout_none =
    (is_empty revision ≡ true) ⊎ (exists (is_stale revision) pods ≡ false)
IsJustified pods revision primary RolloutAction.rollout_wait =
    (exists (is_stale revision) pods ≡ true) × (every (λ x. x.ready) pods ≡ false)
IsJustified pods revision primary (RolloutAction.rollout_roll_replica n) =
    (every (λ x. x.ready) pods ≡ true)
    × (p : RolloutPod) × In p pods
    × (p.name ≡ n)
    × (eqb p.name primary ≡ false)
    × (is_stale revision p ≡ true)
    × ((q : RolloutPod)
        → In q pods
        → is_stale revision q ≡ true
        → eqb q.name primary ≡ false
        → p.ordinal ≤ℤ q.ordinal)
IsJustified pods revision primary (RolloutAction.rollout_promote n) =
    (every (λ x. x.ready) pods ≡ true)
    × (exists (is_stale revision) pods ≡ true)
    × (n ≡ primary)
    × ((q : RolloutPod) → In q pods → is_stale revision q ≡ true → eqb q.name primary ≡ true)

first-IsJustified :
    (pods : List RolloutPod) (revision primary : Bytes)
    → every (λ x. x.ready) pods ≡ true
    → exists (is_stale revision) pods ≡ true
    → (a : RolloutAction)
    → IsFirst (sort_by lower_ordinal (keep (is_stale revision) pods)) primary a
    → IsJustified pods revision primary a
first-IsJustified pods revision primary ready stale (RolloutAction.rollout_roll_replica n) f =
    let (p, i, e, h, low) = f in
    let (j, s) = In-keep-inv (is_stale revision) p pods (sort_by-In-inv lower_ordinal p _ i) in
    (
      ready,
      p,
      j,
      e,
      h,
      s,
      λ q k t. low q (sort_by-In lower_ordinal q _ (In-keep (is_stale revision) q pods k t)),
    )
first-IsJustified pods revision primary ready stale (RolloutAction.rollout_promote n) (e, all) = (
  ready,
  stale,
  e,
  λ q k t. all q (sort_by-In lower_ordinal q _ (In-keep (is_stale revision) q pods k t)),
)
first-IsJustified pods revision primary ready stale RolloutAction.rollout_none f = absurd f
first-IsJustified pods revision primary ready stale RolloutAction.rollout_wait f = absurd f

-- Whatever nextRolloutStep decides is justified by the pods.
pub next_rollout_step-IsJustified :
    (pods : List RolloutPod) (revision primary : Bytes)
    → IsJustified pods revision primary (next_rollout_step pods revision primary)
unfolding next_rollout_step sort_by_ordinal
next_rollout_step-IsJustified [] revision primary = inr (unfold exists in refl)
next_rollout_step-IsJustified (p ∷ rest) revision primary = elim (Bool-cases (is_empty revision)) [
  | inl none ↦ rw none (inl none)
  | inr some ↦ elim (Bool-cases (exists (is_stale revision) (p ∷ rest))) [
    | inr fresh ↦ rw (some, fresh) (inr fresh)
    | inl stale ↦ elim (Bool-cases (every (λ x. x.ready) (p ∷ rest))) [
      | inr unready ↦ rw (some, stale, unready) (stale, unready)
      | inl ready ↦
          rw (some, stale, ready)
            (first-IsJustified (p ∷ rest) revision primary ready stale _
              (first_replica-IsFirst _ primary (sort-IsSorted _)))
    ]
  ]
]
