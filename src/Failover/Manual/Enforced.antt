-- ===== src/Failover/Manual/Enforced.antt =====
-- How enforceReplication points the pods at the primary (internal/controller/failover.go).
use wellcake.Common.{
  ℕ, Bytes, codes, ◌≡◌, ◌⊎◌, inl, inr, refl, List, [], ◌∷◌, Bool, true, false, not, Bool-cases, In,
  here, there, eqb, eqb→eq, eqb_ℤ, eqb_ℤ→eq, ◌&&◌, &&-left, &&-right, ◌||◌, not-true,
}
use mathlib.Core.Path.{subst}
use wellcake.Info.{role_slave}
use wellcake.Failover.{PodRole}
use wellcake.Failover.Run.{enforce_replication, retarget, in_place}
use wellcake.Runtime.{
  Env, World, Effect, History, Command, dial, send, pure, ◌>>=◌, dial_repl_client, command, ask,
}
use wellcake.Runtime.Emits.{Extends, same, more, Extends-trans, Extends-map, In-Extends}

-- A pod that is left alone: it did not answer the survey, it is the primary, or it is a replica of
-- the primary whose link is up.
abbrev pub IsPlaced : PodRole → PodRole → Type 0
IsPlaced primary s =
    (s.reachable ≡ false)
    ⊎ ((s.ordinal ≡ primary.ordinal)
        ⊎ ((s.role ≡ role_slave) × (s.master_host ≡ primary.host) × (s.master_link ≡ codes "up")))

||-cases : (a b : Bool) → (a || b) ≡ true → (a ≡ true) ⊎ (b ≡ true)
||-cases true b h = inl refl
||-cases false b h = inr h

in_place-IsPlaced : (primary s : PodRole) → in_place primary s ≡ true → IsPlaced primary s
unfolding in_place
in_place-IsPlaced primary s h =
    elim (||-cases (not s.reachable || eqb_ℤ s.ordinal primary.ordinal) _ h) [
      | inl early ↦ elim (||-cases (not s.reachable) _ early) [
        | inl down ↦ inl (not-true s.reachable down)
        | inr first ↦ inr (inl (eqb_ℤ→eq s.ordinal primary.ordinal first))
      ]
      | inr all ↦
          let both = &&-left (eqb s.role role_slave && eqb s.master_host primary.host) _ all in
          inr (
            inr (
              eqb→eq s.role role_slave (&&-left (eqb s.role role_slave) _ both),
              eqb→eq s.master_host primary.host (&&-right (eqb s.role role_slave) _ both),
              eqb→eq s.master_link (codes "up")
                  (&&-right (eqb s.role role_slave && eqb s.master_host primary.host) _ all),
            ))
    ]

module _ (env : Env) (password : Bytes) (port : ℕ) (primary : PodRole) where
  -- The host gave no connection.
  abbrev pub IsDown : Bytes → History → Type 0
  IsDown host h =
      (before : History) × Extends (λ e. Unit {0}) (dial host port password ∷ before) h
      × (env.reachable (dial host port password ∷ before) host port password ≡ false)

  -- The pod is in place, gave no connection, or was sent REPLICAOF the primary.
  abbrev pub IsPointed : PodRole → History → Type 0
  IsPointed s h =
      IsPlaced primary s
      ⊎ (IsDown s.host h ⊎ In (send s.host (Command.replica_of primary.host port)) h)

  -- A connection to a pod that is not in place, or REPLICAOF the primary sent to it.
  abbrev pub Repoints : List PodRole → Effect → Type 0
  Repoints survey e =
      (s : PodRole) × In s survey
      × (in_place primary s ≡ false)
      × ((e ≡ dial s.host port password) ⊎ (e ≡ send s.host (Command.replica_of primary.host port)))

  each :
      (s : PodRole) (survey : List PodRole) (h : History)
      → IsPointed s h
      → ((r : PodRole) → In r survey → IsPointed r h)
      → (r : PodRole) → In r (s ∷ survey)
      → IsPointed r h
  each s survey h l k r (here e) = subst (λ q. IsPointed q h) e l
  each s survey h l k r (there j) = k r j

  kept :
      {P : Effect → Type 0} {a b : History} (s : PodRole)
      → Extends P a b
      → IsPointed s a
      → IsPointed s b
  kept s x (inl placed) = inl placed
  kept s x (inr (inl (before, y, down))) =
      inr (inl (before, Extends-trans y (Extends-map (λ e p. tt) x), down))
  kept s x (inr (inr i)) = inr (inr (In-Extends x i))

  abbrev Points : List PodRole → World → History → Type 0
  Points survey w h =
      Extends (Repoints survey) w.effects h × ((s : PodRole) → In s survey → IsPointed s h)

  retargets :
      (s : PodRole) (survey : List PodRole) (w : World)
      → in_place primary s ≡ false
      → Extends (Repoints (s ∷ survey)) w.effects (retarget env password port primary s w).1.effects
        × IsPointed s (retarget env password port primary s w).1.effects
  unfolding retarget ◌>>=◌ dial_repl_client ask pure command
  retargets s survey w moved = elim (Bool-cases (env.reachable dialled s.host port password)) [
    | inr down ↦ rw down (more looked same, inr (inl (w.effects, same, down)))
    | inl up ↦
        rw up (more (s, here refl, moved, inr refl) (more looked same), inr (inr (here refl)))
  ]
    where
      dialled : History
      dialled = dial s.host port password ∷ w.effects

      looked : Repoints (s ∷ survey) (dial s.host port password)
      looked = (s, here refl, moved, inl refl)

  pub points :
      (survey : List PodRole) (w : World)
      → Points survey w (enforce_replication env password port primary survey w).1.effects
  unfolding enforce_replication ◌>>=◌ pure
  points [] w = (same, λ s i. elim i [ ])
  points (s ∷ survey) w = elim (Bool-cases (in_place primary s)) [
    | inl placed ↦
        let (x, k) = points survey w in
        rw placed
          (Extends-map widen x, each s survey _ (inl (in_place-IsPlaced primary s placed)) k)
    | inr moved ↦
        let (y, l) = retargets s survey w moved in
        let (x, k) = points survey (retarget env password port primary s w).1 in
        rw moved (Extends-trans y (Extends-map widen x), each s survey _ (kept s x l) k)
  ]
    where
      widen : (e : Effect) → Repoints survey e → Repoints (s ∷ survey) e
      widen e (r, i, m, q) = (r, there i, m, q)
