-- ===== src/Webhook/Users.antt =====
-- The users of an admitted ValkeyACL (internal/webhook/v1beta1/valkeyacl_webhook.go), and what the
-- ACL controller then does to the operator's own users.
use wellcake.Common.{
  ℕ, Bytes, ◌≡◌, ◌≢◌, refl, sym, ap, ◌∙◌, Bool, true, false, ◌||◌, List, [], ◌∷◌, In, here, there,
  Option, none, some, if◌then◌else◌, eqb, eqb_refl, exists-In,
}
use mathlib.Core.Path.{subst}
use wellcake.Api.{ValkeyCluster}
use wellcake.Api.Acl.{AclUser, ValkeyAcl}
use wellcake.Acl.{has_name, is_reserved_acl_user, apply_acl_fanout}
use wellcake.Acl.Fanout.{Writes, apply_acl_fanout-Writes}
use wellcake.Webhook.{
  Rejection, Warning, is_reserved_name, name_error, check_users, validate_acl_with, validate_acl,
}
use wellcake.Runtime.{Env, World, Effect, Answer, Kind, Command, get, send, pure, ◌>>=◌, ask}
use wellcake.Runtime.Emits.{Extends, Extends-map}

-- No name occurs twice.
abbrev pub IsDistinct : List AclUser → Type 0
IsDistinct [] = Unit
IsDistinct (u ∷ users) = ((v : AclUser) → In v users → u.name ≢ v.name) × IsDistinct users

reserved-eq : (name : Bytes) → is_reserved_acl_user name ≡ is_reserved_name name
unfolding is_reserved_acl_user is_reserved_name
reserved-eq name = refl

or-false : (a b : Bool) → (a || b) ≡ false → (a ≡ false) × (b ≡ false)
or-false true b h = cc
or-false false b h = (refl, h)

name_error-parts :
    (u : AclUser) (users : List AclUser) (seen : List Bytes)
    → name_error (u ∷ users) seen ≡ none
    → (has_name u.name seen ≡ false)
      × (is_reserved_name u.name ≡ false)
      × (name_error users (u.name ∷ seen) ≡ none)
unfolding name_error
name_error-parts u users seen h =
    parts (has_name u.name seen) (is_reserved_name u.name) (name_error users (u.name ∷ seen)) h
  where
    parts :
        (a b : Bool) (r : Option Rejection)
        → (if a
            then some (Rejection.duplicate_user u.name)
            else if b
            then some (Rejection.reserved_user u.name)
            else r)
          ≡ none
        → (a ≡ false) × (b ≡ false) × (r ≡ none)
    parts true b r h = cc
    parts false true r h = cc
    parts false false r h = (refl, refl, h)

-- A later user has no name that was seen.
names-kept :
    (users : List AclUser) (seen : List Bytes)
    → name_error users seen ≡ none
    → (v : AclUser) → In v users
    → (n : Bytes) → In n seen
    → v.name ≢ n
names-kept [] seen h v i n j e = elim i [ ]
names-kept (u ∷ users) seen h v (here q) n j e =
    let (a, b, c) = name_error-parts u users seen h in
    let equal : eqb u.name n ≡ true =
      subst (λ y. eqb u.name y ≡ true) (ap (λ (x : AclUser). x.name) q ∙ e) (eqb_refl u.name) in
    let there_is : has_name u.name seen ≡ true =
      unfold has_name in exists-In (eqb u.name) n seen j equal in
    cc (a, there_is)
names-kept (u ∷ users) seen h v (there i) n j e =
    let (a, b, c) = name_error-parts u users seen h in
    names-kept users (u.name ∷ seen) c v i n (there j) e

pub distinct :
    (users : List AclUser) (seen : List Bytes) → name_error users seen ≡ none → IsDistinct users
distinct [] seen h = tt
distinct (u ∷ users) seen h =
    let (a, b, c) = name_error-parts u users seen h in
    (
      λ v i e. names-kept users (u.name ∷ seen) c v i u.name (here refl) (sym e),
      distinct users (u.name ∷ seen) c,
    )

unreserved :
    (users : List AclUser) (seen : List Bytes)
    → name_error users seen ≡ none
    → (u : AclUser) → In u users
    → is_reserved_acl_user u.name ≡ false
unreserved [] seen h u i = elim i [ ]
unreserved (v ∷ users) seen h u (here e) =
    let (a, b, c) = name_error-parts v users seen h in
    subst (λ (x : AclUser). is_reserved_acl_user x.name ≡ false) e (reserved-eq v.name ∙ b)
unreserved (v ∷ users) seen h u (there i) =
    let (a, b, c) = name_error-parts v users seen h in unreserved users (v.name ∷ seen) c u i

some-none : (e : Rejection) → some e ≡ none → ⊥
some-none e h = cc

-- An admission comes after the check of the names.
admitted-names :
    (env : Env) (acl : ValkeyAcl) (w : World)
    → (validate_acl env acl w).0.error ≡ none
    → name_error acl.spec.users [] ≡ none
unfolding validate_acl ◌>>=◌ ask
admitted-names env acl w h =
    by_cluster (env.cluster (get Kind.valkey_cluster acl.spec.cluster_ref ∷ w.effects))
      (record w { effects = get Kind.valkey_cluster acl.spec.cluster_ref ∷ w.effects }) h
  where
    by_names :
        (o : Option Rejection) (warnings : List Warning) (now : World)
        → (check_users env acl warnings o now).0.error ≡ none
        → o ≡ none
    by_names none warnings now h = refl
    by_names (some e) warnings now h = absurd (some-none e (unfold check_users pure in h))

    by_cluster :
        (a : Answer ValkeyCluster) (now : World)
        → (validate_acl_with env acl a now).0.error ≡ none
        → name_error acl.spec.users [] ≡ none
    by_cluster Answer.failed now h =
        absurd (some-none Rejection.cluster_unreadable (unfold validate_acl_with pure in h))
    by_cluster Answer.not_found now h =
        by_names (name_error acl.spec.users []) (Warning.cluster_not_found ∷ []) now
          (unfold validate_acl_with in h)
    by_cluster (Answer.found vc) now h =
        by_names (name_error acl.spec.users []) [] now (unfold validate_acl_with in h)

-- A write that leaves the operator's own users alone, and is made for one user of the spec at most.
abbrev pub SparesReserved : Effect → Type 0
SparesReserved (send host (Command.acl_set_user n args)) = is_reserved_acl_user n ≡ false
SparesReserved (send host (Command.acl_del_user n)) = is_reserved_acl_user n ≡ false
SparesReserved _ = Unit

-- Of an admitted ValkeyACL the users have different names, and whatever the fanout does for it, with
-- any passwords and on any targets, it sets up and deletes none of the users that are reserved for
-- the operator.
pub validate_acl-SparesReserved :
    (env : Env) (acl : ValkeyAcl) (w : World)
    → (validate_acl env acl w).0.error ≡ none
    → (port : ℕ) (password : Bytes) (names : List Bytes) (passwords : List (Bytes × Bytes))
      (targets : List Bytes) (later : World)
    → IsDistinct acl.spec.users
      × Extends SparesReserved later.effects
          (apply_acl_fanout env acl port password names passwords targets later).1.effects
validate_acl-SparesReserved env acl w h port password names passwords targets later =
    let checked = admitted-names env acl w h in
    (
      distinct acl.spec.users [] checked,
      Extends-map (spares checked)
          (apply_acl_fanout-Writes env acl port password names passwords targets later),
    )
  where
    spares :
        name_error acl.spec.users [] ≡ none
        → (e : Effect) → Writes acl names passwords targets e
        → SparesReserved e
    spares checked (send host (Command.acl_set_user n args)) (t, (u, i, q, r)) =
        subst (λ y. is_reserved_acl_user y ≡ false) (sym q)
          (unreserved acl.spec.users [] checked u i)
    spares checked (send host (Command.acl_del_user n)) (t, (i, k, r)) = r
    spares checked e q = tt
