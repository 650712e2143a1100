-- ===== src/Acl/Reach.antt =====
-- What applyACLFanout has done on the targets that answer (internal/controller/
-- valkeyacl_controller.go).
use wellcake.Common.{
  ℕ, Bytes, ◌≡◌, refl, ◌⊎◌, inl, inr, false, Bool-cases, List, [], ◌∷◌, In, here, there, ◌<◌, arith,
}
use mathlib.Core.Path.{subst}
use wellcake.Api.{map_get}
use wellcake.Api.Acl.{AclUser, ValkeyAcl}
use wellcake.Acl.{
  acl_user_arguments, is_dropped, set_acl_users, drop_acl_users, apply_on_target, apply_acl_fanout,
}
use wellcake.Rotation.Accepted.{Grows}
use wellcake.Runtime.{
  Env, World, History, Command, dial, send, pure, ◌>>=◌, dial_repl_client, command, ask,
}
use wellcake.Runtime.Emits.{In-Extends, same, more, Extends-trans}

-- The host gave no connection.
abbrev pub IsMissed : Env → ℕ → Bytes → History → Bytes → Type 0
IsMissed env port password h host =
    (before : History) × Grows (dial host port password ∷ before) h
    × (env.reachable (dial host port password ∷ before) host port password ≡ false)

-- The user was written to the host, and the user is wanted or was dropped from it.
abbrev pub HasUser : List (Bytes × Bytes) → Bytes → History → AclUser → Type 0
HasUser passwords host h u =
    In (send host (Command.acl_set_user u.name (acl_user_arguments u (map_get passwords u.name)))) h

abbrev pub IsSettled : List Bytes → Bytes → History → Bytes → Type 0
IsSettled names host h n = (is_dropped names n ≡ false) ⊎ In (send host (Command.acl_del_user n)) h

-- The host was sent every user of the spec, every user to drop, and ACL SAVE.
abbrev pub IsServed : ValkeyAcl → List Bytes → List (Bytes × Bytes) → History → Bytes → Type 0
IsServed acl names passwords h host =
    ((u : AclUser) → In u acl.spec.users → HasUser passwords host h u)
    × ((n : Bytes) → In n acl.status.applied_users → IsSettled names host h n)
    × In (send host Command.acl_save) h

IsServed-Grows :
    (acl : ValkeyAcl) (names : List Bytes) (passwords : List (Bytes × Bytes)) (host : Bytes)
    {a b : History}
    → Grows a b
    → IsServed acl names passwords a host
    → IsServed acl names passwords b host
IsServed-Grows acl names passwords host x (l, m, s) = (
  λ u i. In-Extends x (l u i),
  λ n i. elim (m n i) [ inl k ↦ inl k | inr j ↦ inr (In-Extends x j) ],
  In-Extends x s,
)

module _ (env : Env) (passwords : List (Bytes × Bytes)) (host : Bytes) where
  sets :
      (users : List AclUser) (w : World)
      → let h = (set_acl_users env host passwords users w).1.effects in
        Grows w.effects h × ((u : AclUser) → In u users → HasUser passwords host h u)
  unfolding set_acl_users ◌>>=◌ command ask pure
  sets [] w = (same, λ u i. elim i [ ])
  sets (v ∷ users) w =
      let (x, l) = sets users sent in
      (
        Extends-trans (more tt same) x,
        λ u i. elim i [
          | here e ↦ subst (HasUser passwords host after) e (In-Extends x (here refl))
          | there j ↦ l u j
        ],
      )
    where
      sent : World
      sent = record w {
        effects =
            send host
              (Command.acl_set_user v.name (acl_user_arguments v (map_get passwords v.name)))
            ∷ w.effects;
      }

      after : History
      after = (set_acl_users env host passwords users sent).1.effects

module _ (env : Env) (names : List Bytes) (host : Bytes) where
  drops :
      (applied : List Bytes) (w : World)
      → let h = (drop_acl_users env host names applied w).1.effects in
        Grows w.effects h × ((n : Bytes) → In n applied → IsSettled names host h n)
  unfolding drop_acl_users ◌>>=◌ command ask pure
  drops [] w = (same, λ n i. elim i [ ])
  drops (m ∷ applied) w = elim (Bool-cases (is_dropped names m)) [
    | inr stays ↦
        let (x, l) = drops applied w in
        rw stays (
          x,
          λ n i. elim i [
            | here e ↦ subst (IsSettled names host (history w)) e (inl stays)
            | there j ↦ l n j
          ],
        )
    | inl goes ↦
        let (x, l) = drops applied sent in
        rw goes (
          Extends-trans (more tt same) x,
          λ n i. elim i [
            | here e ↦
                subst (IsSettled names host (history sent)) e (inr (In-Extends x (here refl)))
            | there j ↦ l n j
          ],
        )
  ]
    where
      sent : World
      sent = record w { effects = send host (Command.acl_del_user m) ∷ w.effects }

      history : World → History
      history v = (drop_acl_users env host names applied v).1.effects

module _ (env : Env) (acl : ValkeyAcl) (port : ℕ) (password : Bytes) (names : List Bytes)
    (passwords : List (Bytes × Bytes)) where
  serves :
      (host : Bytes) (w : World)
      → let h = (apply_on_target env acl names passwords host w).1.effects in
        Grows w.effects h × IsServed acl names passwords h host
  unfolding apply_on_target ◌>>=◌ command ask pure
  serves host w =
      let (x, l) = sets env passwords host acl.spec.users w in
      let (y, m) =
        drops env names host acl.status.applied_users
          (set_acl_users env host passwords acl.spec.users w).1 in
      (
        more tt (Extends-trans x y),
        (
          (λ u i. there (In-Extends y (l u i))),
          (λ n i. elim (m n i) [ inl k ↦ inl k | inr j ↦ inr (there j) ]),
          here refl,
        ),
      )

  -- How the fanout ends for a list of targets.
  abbrev Ends : List Bytes → History → History → ℕ → Type 0
  Ends l a h reached =
      Grows a h
      × (((reached ≡ 0) × ((host : Bytes) → In host l → IsMissed env port password h host))
          ⊎ ((0 < reached) × ((host : Bytes) × In host l × IsServed acl names passwords h host)))
      × ((host : Bytes)
          → In host l
          → IsMissed env port password h host ⊎ IsServed acl names passwords h host)

  IsMissed-Grows :
      {a b : History} (host : Bytes)
      → Grows a b
      → IsMissed env port password a host
      → IsMissed env port password b host
  IsMissed-Grows host x (before, y, e) = (before, Extends-trans y x, e)

  ends :
      (l : List Bytes) (w : World)
      → let r = apply_acl_fanout env acl port password names passwords l w in
        Ends l w.effects r.1.effects r.0
  unfolding apply_acl_fanout ◌>>=◌ dial_repl_client ask pure
  ends [] w = (same, inl (refl, λ host i. elim i [ ]), λ host i. elim i [ ])
  ends (host ∷ l) w = elim (Bool-cases (env.reachable dialled host port password)) [
    | inr down ↦
        let (x, c, d) = ends l tried in
        let missed = missed_at (history tried) x down in
        rw down (
          Extends-trans (more tt same) x,
          (elim c [
            | inl (z, all) ↦ inl (
              z,
              λ k i. elim i [
                | here e ↦ subst (IsMissed env port password (history tried)) e missed
                | there j ↦ all k j
              ],
            )
            | inr (some_one, (k, i, s)) ↦ inr (some_one, (k, there i, s))
          ]),
          λ k i. elim i [
            | here e ↦ inl (subst (IsMissed env port password (history tried)) e missed)
            | there j ↦ d k j
          ],
        )
    | inl up ↦
        let (y, s) = serves host tried in
        let (x, c, d) = ends l (served) in
        let s' = IsServed-Grows acl names passwords host x s in
        rw up (
          Extends-trans (more tt same) (Extends-trans y x),
          inr (omega arith, (host, here refl, s')),
          λ k i. elim i [
            | here e ↦ inr (subst (IsServed acl names passwords (history served)) e s')
            | there j ↦ d k j
          ],
        )
  ]
    where
      dialled : History
      dialled = dial host port password ∷ w.effects

      tried : World
      tried = record w { effects = dialled }

      served : World
      served = (apply_on_target env acl names passwords host tried).1

      history : World → History
      history v = (apply_acl_fanout env acl port password names passwords l v).1.effects

      missed_at :
          (h : History)
          → Grows dialled h
          → env.reachable dialled host port password ≡ false
          → IsMissed env port password h host
      missed_at h x e = (w.effects, x, e)

-- For each target, applyACLFanout got no connection, or has sent it every user of the spec, DELUSER
-- for every applied user that is to be dropped, and ACL SAVE. It returns 0 where it got no
-- connection to any target, and more where it has served one.
pub apply_acl_fanout_serves :
    (env : Env) (acl : ValkeyAcl) (port : ℕ) (password : Bytes) (names : List Bytes)
    (passwords : List (Bytes × Bytes)) (targets : List Bytes) (w : World)
    → let r = apply_acl_fanout env acl port password names passwords targets w in
      (((r.0 ≡ 0)
          × ((host : Bytes) → In host targets → IsMissed env port password r.1.effects host))
        ⊎ ((0 < r.0)
            × ((host : Bytes) × In host targets × IsServed acl names passwords r.1.effects host)))
      × ((host : Bytes)
          → In host targets
          → IsMissed env port password r.1.effects host
            ⊎ IsServed acl names passwords r.1.effects host)
apply_acl_fanout_serves env acl port password names passwords targets w =
    let (x, c, d) = ends env acl port password names passwords targets w in (c, d)
