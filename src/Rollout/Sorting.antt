-- ===== src/Rollout/Sorting.antt =====
-- The order that nextRolloutStep puts the stale pods in (internal/controller/rollout.go).
use wellcake.Common.{
  ◌≡◌, ◌⊎◌, inl, inr, List, [], ◌∷◌, true, false, Bool-cases, insert_by, sort_by, insert_by-In-inv,
  arith, In, here, there, ltb_ℤ, ◌≤ℤ◌, ltb_ℤ→ge, ltb_ℤ→lt,
}
use mathlib.Core.Path.{subst}
use wellcake.Rollout.{lower_ordinal, RolloutPod}

-- In the order of the ordinals.
abbrev pub IsSorted : List RolloutPod → Type 0
IsSorted [] = Unit
IsSorted (p ∷ rest) = ((q : RolloutPod) → In q rest → p.ordinal ≤ℤ q.ordinal) × IsSorted rest

insert-IsSorted :
    (p : RolloutPod) (xs : List RolloutPod) → IsSorted xs → IsSorted (insert_by lower_ordinal p xs)
unfolding insert_by
insert-IsSorted p [] s = (λ q i. elim i [ ], tt)
insert-IsSorted p (x ∷ xs) (least, s) = elim (Bool-cases (ltb_ℤ x.ordinal p.ordinal)) [
  | inl less ↦
      rw less
        (λ q i. after less q (insert_by-In-inv lower_ordinal p q xs i), insert-IsSorted p xs s)
  | inr more ↦ rw more (λ q i. before more q i, (least, s))
]
  where
    after :
        ltb_ℤ x.ordinal p.ordinal ≡ true
        → (q : RolloutPod) → (p ≡ q) ⊎ In q xs
        → x.ordinal ≤ℤ q.ordinal
    after less q (inl e) =
        subst (λ y. x.ordinal ≤ℤ y.ordinal) e (omega (arith, ltb_ℤ→lt x.ordinal p.ordinal less))
    after less q (inr i) = least q i

    before :
        ltb_ℤ x.ordinal p.ordinal ≡ false
        → (q : RolloutPod) → In q (x ∷ xs)
        → p.ordinal ≤ℤ q.ordinal
    before more q (here e) =
        subst (λ y. p.ordinal ≤ℤ y.ordinal) e (ltb_ℤ→ge x.ordinal p.ordinal more)
    before more q (there i) = omega (arith, ltb_ℤ→ge x.ordinal p.ordinal more, least q i)

pub sort-IsSorted : (xs : List RolloutPod) → IsSorted (sort_by lower_ordinal xs)
unfolding sort_by
sort-IsSorted [] = tt
sort-IsSorted (p ∷ rest) = insert-IsSorted p (sort_by lower_ordinal rest) (sort-IsSorted rest)
