-- ===== src/Sentinel/Reset.antt =====
-- Which Sentinel is reset (internal/controller/sentinel.go, pickSentinelToReset and
-- resetStaleSentinels).
use wellcake.Common.{
  not-true, ℕ, Bytes, ◌≡◌, ◌⊎◌, inl, inr, refl, sym, ap, ◌∙◌, List, [], ◌∷◌, Bool, true, false, not,
  Bool-cases, ◌==◌, ==→eq, ==_refl, eqb_refl, ge→ltb_ℤ, eqb, eqb→eq, &&-left, &&-right, exists,
  every, every-In, In, here, there, length, int32, ℤ, pos, negsuc, ◌≤ℤ◌, ltb_ℤ, ltb_ℤ→ge,
}
use wellcake.Info.{role_master}
use wellcake.Naming.{sentinel_pod_fqdn}
use wellcake.Handover.Run.{sentinel_replicas}
use wellcake.Sentinel.{
  SentinelView, peers, agrees, is_settled, has_dead, first_dead, pick_sentinel_to_reset,
  reset_stale_sentinels,
}
use wellcake.Api.{ValkeyCluster}
use wellcake.Rotation.{sentinel_listen_port}
use wellcake.Runtime.{
  History, Env, World, Effect, Command, dial, send, pure, ◌>>=◌, object, ask, dial_repl_client,
  command,
}
use wellcake.Runtime.Emits.{Extends, same, more}

-- Every Sentinel was seen, none knows too few of the others, and all see the same healthy master.
abbrev pub IsUnanimous : List SentinelView → ℕ → Type 0
IsUnanimous views replicas =
    (int32 (length views) ≡ replicas)
    × ((master : Bytes) × ((v : SentinelView)
          → In v views
          → (v.master ≡ master) × (v.flags ≡ role_master) × (peers replicas ≤ℤ v.other_sentinels)))

-- A Sentinel with dead entries, among unanimous ones.
abbrev pub IsResettable : List SentinelView → ℕ → SentinelView → Type 0
IsResettable views replicas v =
    In v views × (has_dead replicas v ≡ true) × IsUnanimous views replicas

pub agrees-eq :
    (master : Bytes) (v : SentinelView)
    → agrees master v ≡ true
    → (v.master ≡ master) × (v.flags ≡ role_master)
unfolding agrees
agrees-eq master v h = (
  eqb→eq v.master master (&&-left (eqb v.master master) (eqb v.flags role_master) h),
  eqb→eq v.flags role_master (&&-right (eqb v.master master) (eqb v.flags role_master) h),
)

settled-eq :
    (master : Bytes) (replicas : ℕ) (v : SentinelView)
    → is_settled master replicas v ≡ true
    → (v.master ≡ master) × (v.flags ≡ role_master) × (peers replicas ≤ℤ v.other_sentinels)
unfolding is_settled
settled-eq master replicas v h =
    let few = ltb_ℤ v.other_sentinels (peers replicas) in
    let (m, f) = agrees-eq master v (&&-left (agrees master v) (not few) h) in
    (
      m,
      f,
      ltb_ℤ→ge v.other_sentinels (peers replicas)
          (not-true few (&&-right (agrees master v) (not few) h)),
    )

true-false : true ≡ false → ⊥
true-false h = cc

eq→== : (a b : ℕ) → a ≡ b → (a == b) ≡ true
eq→== a b e = rw e (==_refl b)

first_dead-In :
    (replicas : ℕ) (views : List SentinelView)
    → ((v : SentinelView) × In v views
        × (has_dead replicas v ≡ true)
        × (first_dead replicas views ≡ v.ordinal))
      ⊎ ((first_dead replicas views ≡ negsuc 0) × (exists (has_dead replicas) views ≡ false))
unfolding first_dead exists
first_dead-In replicas [] = inr (refl, refl)
first_dead-In replicas (v ∷ views) = elim (Bool-cases (has_dead replicas v)) [
  | inl dead ↦ rw dead (inl (v, here refl, dead, refl))
  | inr alive ↦ rw alive (elim (first_dead-In replicas views) [
    | inl (u, i, d, e) ↦ inl (u, there i, d, e)
    | inr r ↦ inr r
  ])
]

settled-of_eq :
    (master : Bytes) (replicas : ℕ) (v : SentinelView)
    → v.master ≡ master
    → v.flags ≡ role_master
    → peers replicas ≤ℤ v.other_sentinels
    → is_settled master replicas v ≡ true
unfolding is_settled agrees
settled-of_eq master replicas v m f few =
    rw
      (m, f, eqb_refl master, eqb_refl role_master, ge→ltb_ℤ v.other_sentinels (peers replicas) few)
      refl

every-of_In :
    (p : SentinelView → Bool) (views : List SentinelView)
    → ((v : SentinelView) → In v views → p v ≡ true)
    → every p views ≡ true
unfolding every
every-of_In p [] h = refl
every-of_In p (v ∷ views) h = rw (h v (here refl), every-of_In p views (λ x i. h x (there i))) refl

unanimous-settled :
    (v : SentinelView) (rest : List SentinelView) (replicas : ℕ)
    → IsUnanimous (v ∷ rest) replicas
    → every (is_settled v.master replicas) (v ∷ rest) ≡ true
unanimous-settled v rest replicas (n, (master, h)) =
    every-of_In (is_settled v.master replicas) (v ∷ rest) (λ x i.
      let (m, f, k) = h x i in settled-of_eq v.master replicas x (m ∙ sym (h v (here refl)).0) f k)

-- What pickSentinelToReset returns for at least one view is the ordinal of a Sentinel with dead
-- entries, while every Sentinel was seen, knows all of the others and sees the same healthy master;
-- or it is -1, and then that is not so of the Sentinels, or none of them has dead entries.
pub pick_sentinel_to_reset_chooses :
    (v : SentinelView) (rest : List SentinelView) (replicas : ℕ)
    → ((u : SentinelView) × IsResettable (v ∷ rest) replicas u
        × (pick_sentinel_to_reset (v ∷ rest) replicas ≡ u.ordinal))
      ⊎ ((pick_sentinel_to_reset (v ∷ rest) replicas ≡ negsuc 0)
          × ((¬ IsUnanimous (v ∷ rest) replicas) ⊎ (exists (has_dead replicas) (v ∷ rest) ≡ false)))
unfolding pick_sentinel_to_reset
pick_sentinel_to_reset_chooses v rest replicas =
    elim (Bool-cases (int32 (length (v ∷ rest)) == replicas)) [
      | inr missing ↦ rw missing (inr (refl, inl (λ u. true-false (sym (eq→== _ _ u.0) ∙ missing))))
      | inl all ↦ elim (Bool-cases (every (is_settled v.master replicas) (v ∷ rest))) [
        | inr unsettled ↦
            rw (all, unsettled)
              (inr (
                refl,
                inl (λ u. true-false (sym (unanimous-settled v rest replicas u) ∙ unsettled)),
              ))
        | inl settled ↦
            rw (all, settled)
              (elim (first_dead-In replicas (v ∷ rest)) [
                | inl (u, i, d, e) ↦ inl (
                  u,
                  (
                    i,
                    d,
                    (
                      ==→eq _ _ all,
                      (
                        v.master,
                        λ x j. settled-eq v.master replicas x (every-In _ x (v ∷ rest) settled j),
                      ),
                    ),
                  ),
                  e,
                )
                | inr (e, none_dead) ↦ inr (e, inr none_dead)
              ])
      ]
    ]

picks :
    (views : List SentinelView) (replicas : ℕ)
    → ((u : SentinelView) × IsResettable views replicas u
        × (pick_sentinel_to_reset views replicas ≡ u.ordinal))
      ⊎ (pick_sentinel_to_reset views replicas ≡ negsuc 0)
picks [] replicas = unfold pick_sentinel_to_reset in inr refl
picks (v ∷ rest) replicas = elim (pick_sentinel_to_reset_chooses v rest replicas) [
  | inl chosen ↦ inl chosen
  | inr (e, why) ↦ inr e
]

-- A connection, or a SENTINEL RESET of a Sentinel with dead entries.
abbrev pub ResetsDead : ValkeyCluster → List SentinelView → Effect → Type 0
ResetsDead vc views (dial host port password) = Unit
ResetsDead vc views (send host (Command.sentinel_reset name)) =
    (v : SentinelView) × IsResettable views (sentinel_replicas vc.spec.sentinel) v
    × (host ≡ sentinel_pod_fqdn vc v.ordinal)
ResetsDead vc views _ = ⊥

-- resetStaleSentinels sends nothing but SENTINEL RESET, and that to a Sentinel with dead entries
-- while every Sentinel was seen, knows all of the others and sees the same healthy master; and it
-- asks for another pass as long as a Sentinel has dead entries.
pub reset_stale_sentinels_resets :
    (env : Env) (password : Bytes) (views : List SentinelView) (w : World)
    → Extends
        (ResetsDead w.vc views)
        w.effects
        (reset_stale_sentinels env password views w).1.effects
      × (((reset_stale_sentinels env password views w).0 ≡ true)
          ⊎ (exists (has_dead (sentinel_replicas w.vc.spec.sentinel)) views ≡ false))
unfolding reset_stale_sentinels ◌>>=◌ object pure dial_repl_client command ask
reset_stale_sentinels_resets env password views w = elim (Bool-cases (ltb_ℤ ord (pos 0))) [
  | inl none_picked ↦ rw none_picked (same, Bool-cases (exists (has_dead replicas) views))
  | inr picked ↦ elim (picks views replicas) [
    | inr e ↦ absurd (true-false (sym (ap (λ o. ltb_ℤ o (pos 0)) e ∙ below) ∙ picked))
    | inl (v, r, e) ↦
        elim (Bool-cases (env.reachable dialled host (sentinel_listen_port w.vc) password)) [
          | inr down ↦ rw (picked, down) (more tt same, inl refl)
          | inl up ↦
              rw (picked, up) (more (v, r, ap (sentinel_pod_fqdn w.vc) e) (more tt same), inl refl)
        ]
  ]
]
  where
    replicas : ℕ
    replicas = sentinel_replicas w.vc.spec.sentinel

    ord : ℤ
    ord = pick_sentinel_to_reset views replicas

    host : Bytes
    host = sentinel_pod_fqdn w.vc ord

    dialled : History
    dialled = dial host (sentinel_listen_port w.vc) password ∷ w.effects

    below : ltb_ℤ (negsuc 0) (pos 0) ≡ true
    below = unfold ltb_ℤ in refl
