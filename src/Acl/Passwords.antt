-- ===== src/Acl/Passwords.antt =====
-- Users whose password cannot be read (internal/controller/valkeyacl_controller.go).
use wellcake.Common.{
  ℕ, Bytes, codes, ◌≡◌, refl, ◌⊎◌, inl, inr, List, [], ◌∷◌, ◌++◌, In, Option, none, some, fields,
  is_empty, ap, ◌∙◌,
}
use mathlib.Core.Path.{subst}
use wellcake.Api.{SecretKeyReference, map_get}
use wellcake.Api.Acl.{AclUser, ValkeyAcl}
use wellcake.Acl.{
  acl_user_arguments, key_or_password, with_password, read_password, resolve_user_passwords,
  apply_acl_fanout,
}
use wellcake.Acl.Reach.{IsMissed, apply_acl_fanout_serves}
use wellcake.Runtime.{Env, World, History, Command, Answer, send, pure, ◌>>=◌, ask}

read-nothing :
    (env : Env)
    → ((h : History) (name key : Bytes) → env.secret_data h name key ≡ Answer.not_found)
    → (name : Bytes) (ref : Option SecretKeyReference) (w : World)
    → (read_password env name ref [] w).0 ≡ []
unfolding read_password ◌>>=◌ ask pure
read-nothing env gone name none w = refl
read-nothing env gone name (some ref) w =
    ap (λ a. with_password name a []) (gone _ ref.name (key_or_password ref.key))
    ∙ (unfold with_password in refl)

resolve-nothing :
    (env : Env)
    → ((h : History) (name key : Bytes) → env.secret_data h name key ≡ Answer.not_found)
    → (users : List AclUser) (w : World) → (resolve_user_passwords env users [] w).0 ≡ []
unfolding resolve_user_passwords ◌>>=◌ pure
resolve-nothing env gone [] w = refl
resolve-nothing env gone (u ∷ users) w =
    let after = (read_password env u.name u.password_secret [] w).1 in
    ap (λ m. (resolve_user_passwords env users m after).0)
      (read-nothing env gone u.name u.password_secret w)
    ∙ resolve-nothing env gone users after

-- Where no password Secret can be found, applyACLFanout sets every user of the spec up with the
-- rules of the spec and with "nopass" on every target that answers, also the users that refer to a
-- Secret.
pub apply_acl_fanout-nopass :
    (env : Env) (acl : ValkeyAcl) (port : ℕ) (password : Bytes) (names targets : List Bytes)
    (w : World)
    → ((h : History) (name key : Bytes) → env.secret_data h name key ≡ Answer.not_found)
    → let read = resolve_user_passwords env acl.spec.users [] w in
      let r = apply_acl_fanout env acl port password names read.0 targets read.1 in
      (host : Bytes)
      → In host targets
      → IsMissed env port password r.1.effects host
        ⊎ ((u : AclUser)
            → In u acl.spec.users
            → In
                (send host (
                  Command.acl_set_user u.name
                    (codes "reset" ∷ (fields u.rules ++ codes "nopass" ∷ []))))
                r.1.effects)
apply_acl_fanout-nopass env acl port password names targets w gone host i =
    elim ((apply_acl_fanout_serves env acl port password names read.0 targets read.1).1 host i) [
      | inl missed ↦ inl missed
      | inr (l, m, s) ↦ inr (λ u j.
          subst (λ args. In (send host (Command.acl_set_user u.name args)) after) (arguments u)
            (l u j))
    ]
  where
    read : List (Bytes × Bytes) × World
    read = resolve_user_passwords env acl.spec.users [] w

    after : History
    after = (apply_acl_fanout env acl port password names read.0 targets read.1).1.effects

    arguments :
        (u : AclUser)
        → acl_user_arguments u (map_get read.0 u.name)
          ≡ codes "reset" ∷ (fields u.rules ++ codes "nopass" ∷ [])
    arguments u =
        rw (resolve-nothing env gone acl.spec.users w)
          (unfold acl_user_arguments map_get is_empty in refl)
