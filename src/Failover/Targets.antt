-- ===== src/Failover/Targets.antt =====
-- The loop of pickFailoverTarget (internal/controller/failover.go) and of bestRolloutTarget
-- (rollout.go): of the replicas that answer, those on an ordinal that passes a test, the one with
-- the highest offset.
use wellcake.Common.{
  ◌≡◌, ◌⊎◌, inl, inr, refl, List, [], ◌∷◌, true, Bool, Bool-cases, arith, Option, none, some, eqb,
  In, here, there, ltb_ℤ, ◌≤ℤ◌, ltb_ℤ→ge, ltb_ℤ→lt, ℤ, ◌&&◌, &&-left, if◌then◌else◌, sym, ◌∙◌,
}
use mathlib.Core.Path.{subst}
use mathlib.Core.Option.{some-injective}
use wellcake.Info.{role_slave}
use wellcake.Failover.{PodRole}

unfoldable pub is_candidate : (ℤ → Bool) → PodRole → Bool
is_candidate allowed s = s.reachable && eqb s.role role_slave && allowed s.ordinal

unfoldable pub higher_offset : PodRole → Option PodRole → Bool
higher_offset s none = true
higher_offset s (some b) = ltb_ℤ b.offset s.offset

unfoldable pub take_better : (ℤ → Bool) → PodRole → Option PodRole → Option PodRole
take_better allowed s best = if is_candidate allowed s && higher_offset s best then some s else best

unfoldable pub best_target : (ℤ → Bool) → List PodRole → Option PodRole → Option PodRole
best_target allowed [] best = best
best_target allowed (s ∷ survey) best = best_target allowed survey (take_better allowed s best)

-- The best target so far is no lower than r.
abbrev Reaches : PodRole → Option PodRole → Type 0
Reaches r none = ⊥
Reaches r (some b) = r.offset ≤ℤ b.offset

take_better-Reaches :
    (allowed : ℤ → Bool) (s r : PodRole) (o : Option PodRole)
    → Reaches r o
    → Reaches r (take_better allowed s o)
unfolding take_better higher_offset
take_better-Reaches allowed s r none h = absurd h
take_better-Reaches allowed s r (some b) h = elim (Bool-cases (ltb_ℤ b.offset s.offset)) [
  | inl higher ↦ ground (arith, ltb_ℤ→lt b.offset s.offset)
  | inr lower ↦ ground arith
]

take_better_self :
    (allowed : ℤ → Bool) (s : PodRole) (o : Option PodRole)
    → is_candidate allowed s ≡ true
    → Reaches s (take_better allowed s o)
unfolding take_better higher_offset
take_better_self allowed s none h = rw h (omega arith)
take_better_self allowed s (some b) h = elim (Bool-cases (ltb_ℤ b.offset s.offset)) [
  | inl higher ↦ rw (h, higher) (omega arith)
  | inr lower ↦ rw (h, lower) (ltb_ℤ→ge b.offset s.offset lower)
]

best_target-Reaches :
    (allowed : ℤ → Bool) (survey : List PodRole) (o : Option PodRole) (r : PodRole)
    → Reaches r o ⊎ (In r survey × (is_candidate allowed r ≡ true))
    → Reaches r (best_target allowed survey o)
unfolding best_target
best_target-Reaches allowed [] o r (inl h) = h
best_target-Reaches allowed [] o r (inr (i, h)) = elim i [ ]
best_target-Reaches allowed (s ∷ survey) o r (inl h) =
    best_target-Reaches allowed survey _ r (inl (take_better-Reaches allowed s r o h))
best_target-Reaches allowed (s ∷ survey) o r (inr (here e, h)) =
    best_target-Reaches allowed survey _ r (
      inl (
        subst (λ x. Reaches x (take_better allowed s o)) e
          (take_better_self allowed s o (subst (λ x. is_candidate allowed x ≡ true) (sym e) h))))
best_target-Reaches allowed (s ∷ survey) o r (inr (there i, h)) =
    best_target-Reaches allowed survey _ r (inr (i, h))

take_better_cases :
    (allowed : ℤ → Bool) (s : PodRole) (o : Option PodRole)
    → (take_better allowed s o ≡ o)
      ⊎ ((take_better allowed s o ≡ some s) × (is_candidate allowed s ≡ true))
unfolding take_better
take_better_cases allowed s o = elim (Bool-cases (is_candidate allowed s && higher_offset s o)) [
  | inl taken ↦ inr (rw taken refl, &&-left (is_candidate allowed s) (higher_offset s o) taken)
  | inr kept ↦ inl (rw kept refl)
]

best_target_comes :
    (allowed : ℤ → Bool) (survey : List PodRole) (o : Option PodRole) (b : PodRole)
    → best_target allowed survey o ≡ some b
    → (o ≡ some b) ⊎ (In b survey × (is_candidate allowed b ≡ true))
unfolding best_target
best_target_comes allowed [] o b e = inl e
best_target_comes allowed (s ∷ survey) o b e =
    elim (best_target_comes allowed survey (take_better allowed s o) b e) [
      | inr (i, h) ↦ inr (there i, h)
      | inl f ↦ elim (take_better_cases allowed s o) [
        | inl same ↦ inl (sym same ∙ f)
        | inr (taken, h) ↦
            let g = some-injective s b (sym taken ∙ f) in
            inr (here g, subst (λ x. is_candidate allowed x ≡ true) g h)
      ]
    ]

-- The target is a candidate of the survey, with the highest offset of all candidates; one is found
-- where there is a candidate.
pub best_target_highest :
    (allowed : ℤ → Bool) (survey : List PodRole) (r : PodRole)
    → In r survey
    → is_candidate allowed r ≡ true
    → (b : PodRole) × (best_target allowed survey none ≡ some b)
      × (In b survey × (is_candidate allowed b ≡ true))
      × (r.offset ≤ℤ b.offset)
best_target_highest allowed survey r i h =
    by_result (best_target allowed survey none) refl
      (best_target-Reaches allowed survey none r (inr (i, h)))
  where
    by_result :
        (o : Option PodRole)
        → best_target allowed survey none ≡ o
        → Reaches r o
        → (b : PodRole) × (best_target allowed survey none ≡ some b)
          × (In b survey × (is_candidate allowed b ≡ true))
          × (r.offset ≤ℤ b.offset)
    by_result none e k = absurd k
    by_result (some b) e k = elim (best_target_comes allowed survey none b e) [
      | inl f ↦ cc
      | inr c ↦ (b, e, c, k)
    ]

pub best_target-Comes :
    (allowed : ℤ → Bool) (survey : List PodRole) (b : PodRole)
    → best_target allowed survey none ≡ some b
    → In b survey × (is_candidate allowed b ≡ true)
best_target-Comes allowed survey b e = elim (best_target_comes allowed survey none b e) [
  | inl f ↦ cc
  | inr c ↦ c
]
