-- ===== src/Reconcile/Growth.antt =====
-- Which volumes ensurePVCSize grows (internal/controller/valkeycluster_controller.go).
use wellcake.Common.{
  or-implied, ℕ, ◌<◌, ◌≤◌, Bytes, ◌≡◌, ◌⊎◌, inl, inr, refl, some, Bool, true, false, List, [], ◌∷◌,
  In, here, there, Bool-cases, ◌==◌, has_prefix, arith,
}
use mathlib.Core.Path.{subst}
use wellcake.Api.{ValkeyCluster}
use wellcake.Rollout.{instance_label}
use wellcake.Reconcile.Claims.{
  uses_memory_storage, data_size, sentinel_claim_prefix, is_left, grow_one, grow_claims,
  grow_listed, ensure_pvc_size,
}
use wellcake.Runtime.{
  Env, World, Effect, History, Claim, list_claims, grow_claim, pure, ◌>>=◌, ask, succeeds,
}
use wellcake.Runtime.Emits.{
  Written, Written-Extends, Extends, same, more, Extends-trans, Extends-map,
}

-- A claim of a data pod is grown to the size, from a smaller one.
abbrev pub Grows : Bytes → ℕ → List Claim → Effect → Type 0
Grows prefix desired claims e =
    (c : Claim) × In c claims
    × (e ≡ grow_claim c.name desired)
    × (has_prefix c.name prefix ≡ false)
    × (c.size < desired)

-- A claim that needs nothing: it is a Sentinel's, is large enough, or the API accepted its growth.
abbrev pub IsSized : Env → Bytes → ℕ → History → Claim → Type 0
IsSized env prefix desired h c =
    (has_prefix c.name prefix ≡ true)
    ⊎ ((desired ≤ c.size) ⊎ Written env (grow_claim c.name desired) h)

left-IsSized :
    (env : Env) (prefix : Bytes) (desired : ℕ) (h : History) (c : Claim)
    → is_left prefix desired c ≡ true
    → IsSized env prefix desired h c
unfolding is_left
left-IsSized env prefix desired h c e = elim (Bool-cases (has_prefix c.name prefix)) [
  | inl p ↦ inl p
  | inr q ↦ inr (inl (ground arith))
]

taken :
    (prefix : Bytes) (desired : ℕ) (c : Claim)
    → is_left prefix desired c ≡ false
    → (has_prefix c.name prefix ≡ false) × (c.size < desired)
unfolding is_left
taken prefix desired c e = elim (Bool-cases (has_prefix c.name prefix)) [
  | inl p ↦ ground arith
  | inr q ↦ (q, ground arith)
]

module _ (env : Env) (prefix : Bytes) (desired : ℕ) where
  abbrev GrownWhen : List Claim → World → Bool × World → Type 0
  GrownWhen claims w r =
      Extends (Grows prefix desired claims) w.effects r.1.effects
      × (r.0 ≡ true → (c : Claim) → In c claims → IsSized env prefix desired r.1.effects c)

  abbrev pub Grown : List Claim → World → Bool × World → Type 0
  Grown claims w r =
      Extends (Grows prefix desired claims) w.effects r.1.effects
      × ((r.0 ≡ false) ⊎ ((c : Claim) → In c claims → IsSized env prefix desired r.1.effects c))

  widen :
      (c : Claim) (claims : List Claim) (e : Effect)
      → Grows prefix desired claims e
      → Grows prefix desired (c ∷ claims) e
  widen c claims e (d, i, q, p, r) = (d, there i, q, p, r)

  kept :
      {P : Effect → Type 0} {a b : History} (c : Claim)
      → Extends P a b
      → Written env (grow_claim c.name desired) a
      → IsSized env prefix desired b c
  kept c x k = inr (inr (Written-Extends env (grow_claim c.name desired) x k))

  grown :
      (claims : List Claim) (w : World)
      → GrownWhen claims w (grow_claims env prefix desired claims w)
  unfolding grow_claims grow_one ◌>>=◌ ask pure
  grown [] w = (same, λ ok c i. elim i [ ])
  grown (c ∷ claims) w = elim (Bool-cases (is_left prefix desired c)) [
    | inl left ↦
        let (x, l) = grown claims w in
        rw left (
          Extends-map (widen c claims) x,
          λ ok d i. elim i [
            | here e ↦
                subst (IsSized env prefix desired _) e (left-IsSized env prefix desired _ c left)
            | there j ↦ l ok d j
          ],
        )
    | inr small ↦
        let (p, q) = taken prefix desired c small in
        let grows : Grows prefix desired (c ∷ claims) (grow_claim c.name desired) =
          (c, here refl, refl, p, q) in
        elim (Bool-cases (succeeds (env.accepts asked (grow_claim c.name desired)))) [
          | inr refused ↦ rw (small, refused) (more grows same, λ ok. cc)
          | inl accepted ↦
              let (x, l) = grown claims (record w { effects = asked }) in
              rw (small, accepted)
                (
                  Extends-trans (more grows same) (Extends-map (widen c claims) x),
                  λ ok d i. elim i [
                    | here e ↦
                        subst (IsSized env prefix desired _) e
                          (kept c x (w.effects, same, accepted))
                    | there j ↦ l ok d j
                  ],
                )
        ]
  ]
    where
      asked : History
      asked = grow_claim c.name desired ∷ w.effects

-- Where the data is on volumes, the wanted size is not zero and the claims can be listed,
-- ensurePVCSize patches listed claims alone, none of a Sentinel and none that is large enough, each
-- to the wanted size; and when it returns no error, every listed claim is a Sentinel's, is large
-- enough, or had its growth accepted by the API.
pub ensure_pvc_size-Grown :
    (env : Env) (vc : ValkeyCluster) (w : World) (claims : List Claim)
    → uses_memory_storage vc ≡ false
    → (data_size env vc == 0) ≡ false
    → env.claims (list_claims ((instance_label, vc.name) ∷ []) ∷ w.effects) ≡ some claims
    → Grown env
        (sentinel_claim_prefix vc)
        (data_size env vc)
        claims
        (record w { effects = list_claims ((instance_label, vc.name) ∷ []) ∷ w.effects })
        (ensure_pvc_size env vc w)
unfolding ensure_pvc_size grow_listed ◌>>=◌ ask
ensure_pvc_size-Grown env vc w claims disk sized listed =
    let (x, k) =
      grown env (sentinel_claim_prefix vc) (data_size env vc) claims
        (record w { effects = list_claims ((instance_label, vc.name) ∷ []) ∷ w.effects }) in
    rw (disk, sized, listed) (x, or-implied _ k)
