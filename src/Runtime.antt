-- ===== src/Runtime.antt =====
-- What the reconciler talks to: the Kubernetes API and the Valkey pods. Neither is under the
-- repository, so their answers are a parameter, `Env`. An answer is a function of everything that
-- was done before, newest first, so it may change from one call to the next in any way.
-- A method of ValkeyClusterReconciler is an action: it takes the object in memory and the effects
-- so far, and returns its result with both as they are afterwards. Log lines and metrics are left
-- out.
pub mod Emits
pub mod Keeps
pub mod Follows
use wellcake.Common.{
  ℕ, Bytes, codes, Option, none, some, Bool, true, false, List, [], ◌∷◌, ◌++◌, ltb, ◌≡◌, refl,
  if◌then◌else◌, eqb, trim_space, split_on, has_prefix, cut, is_empty, ◌||◌, ℤ, pos,
}
use wellcake.Api.{ValkeyCluster, Status}
use wellcake.Api.Acl.{ValkeyAcl, AclStatus}

-- A command on an open connection (internal/controller/failover.go, replClient).
pub data Command : Type 0 where
  info_replication : Command
  dbsize : Command
  cluster_info : Command
  cluster_nodes : Command
  replica_of_no_one : Command
  replica_of : Bytes → ℕ → Command
  cluster_failover : Command
  cluster_failover_takeover : Command
  acl_add_default_password : Bytes → Command
  acl_set_default_password : Bytes → Command
  acl_set_managed_user : Bytes → Bytes → Bytes → Bool → Command
  acl_save : Command
  acl_set_user : Bytes → List Bytes → Command
  acl_del_user : Bytes → Command
  config_set : Bytes → Bytes → Command
  config_rewrite : Command
  client_pause_write : ℕ → Command
  client_unpause : Command
  sentinel_failover : Bytes → Command
  sentinel_reset : Bytes → Command
  sentinel_set : Bytes → Bytes → Bytes → Command
  sentinel_config_set : Bytes → Bytes → Command

-- Kinds of Kubernetes objects that are read, created or deleted by name.
pub data Kind : Type 0 where
  pod node stateful_set service job secret valkey_cluster valkey_acl : Kind
  config_map pod_disruption_budget network_policy service_monitor cron_job : Kind

pub data Effect : Type 0 where
  dial : Bytes → ℕ → Bytes → Effect  -- host, port, password
  handshake : Bytes → ℕ → Effect  -- a TLS connection that only looks at the certificate
  send : Bytes → Command → Effect  -- to the pod at a host
  get : Kind → Bytes → Effect
  list_pods : List (Bytes × Bytes) → Effect  -- the labels that select
  create : Kind → Bytes → Effect
  update : Kind → Bytes → Effect  -- to what the operator wants
  delete : Kind → Bytes → Effect
  scale : Bytes → ℕ → Effect  -- a StatefulSet, to a number of pods
  list_claims : List (Bytes × Bytes) → Effect
  grow_claim : Bytes → ℕ → Effect  -- name, size
  set_finalizers : List Bytes → Effect
  update_secret : Bytes → Bytes → Effect  -- name, new password
  label_pod : Bytes → Bytes → Effect  -- name, role
  patch_status : Status → Effect
  update_status : Status → Effect  -- of the object that was read last
  patch_acl_status : AclStatus → Effect
  generate_password : Effect
  read_clock : Effect

-- The result of a Get or a Delete: there, not there, or any other error.
pub data Answer {ℓ} (A : Type ℓ) : Type ℓ where
  found : A → Answer A
  not_found : Answer A
  failed : Answer A

pub record Condition : Type 0 where
  pub kind : Bytes
  pub status : Bytes

pub record Pod : Type 0 where
  pub name : Bytes
  pub phase : Bytes
  pub node_name : Bytes
  pub conditions : List Condition
  pub labels : List (Bytes × Bytes)
  pub deleting : Bool
  pub ip : Bytes

pub record StatefulSet : Type 0 where
  pub update_revision : Bytes
  pub ready_replicas : ℕ
  pub replicas : Option ℕ  -- of its spec

-- A PersistentVolumeClaim with its storage request.
pub record Claim : Type 0 where
  pub name : Bytes
  pub size : ℕ

pub record Job : Type 0 where
  pub succeeded : ℕ
  pub failures : ℕ
  pub backoff_limit : ℕ

abbrev pub History : Type 0
History = List Effect

-- `reply` is none on an error. `secret` is the password in a Secret, `secret_data` the value of a key
-- in it, `cluster` and `acl` an object as the API has it, `conflicts` whether a failed update was a conflict, and
-- `refusal` the text of the error that a command got.
-- `any` is an object of which only its presence matters, `settled` whether an object is as the
-- operator wants it, `no_match` whether its kind is unknown to the API, `fingerprint` that of the first
-- certificate in a PEM text, `served` that of the certificate that a host shows, and `quantity` the value of a
-- resource quantity.
pub record Env : Type 0 where
  pub reachable : History → Bytes → ℕ → Bytes → Bool
  pub reply : History → Bytes → Command → Option Bytes
  pub pod : History → Bytes → Answer Pod
  pub node : History → Bytes → Answer (List Condition)
  pub stateful_set : History → Bytes → Answer StatefulSet
  pub job : History → Bytes → Answer Job
  pub secret : History → Bytes → Answer Bytes
  pub secret_data : History → Bytes → Bytes → Answer Bytes
  pub cluster : History → Answer ValkeyCluster
  pub acl : History → Answer ValkeyAcl
  pub conflicts : History → Bool
  pub refusal : History → Bytes
  pub pods : History → Option (List Pod)
  pub any : History → Kind → Bytes → Answer (Unit {0})
  pub settled : History → Kind → Bytes → Bool
  pub no_match : History → Bool
  pub claims : History → Option (List Claim)
  pub quantity : Bytes → ℕ
  pub fingerprint : Bytes → Option Bytes
  pub served : History → Bytes → Option Bytes
  pub accepts : History → Effect → Answer (Unit {0})
  pub password : History → Option Bytes
  pub now : History → ℕ

pub record World : Type 0 where
  pub vc : ValkeyCluster
  pub effects : History

-- Whether an error is nil.
unfoldable pub succeeds : Answer (Unit {0}) → Bool
succeeds (Answer.found x) = true
succeeds Answer.not_found = false
succeeds Answer.failed = false

-- ctrl.Result, in seconds, and whether there is an error.
pub record ReconcileResult : Type 0 where
  pub requeue_after : ℕ
  pub failed : Bool

abbrev pub reconcile_result : ℕ → Bool → ReconcileResult
reconcile_result seconds error = record { requeue_after = seconds; failed = error }

abbrev pub M : Type 0 → Type 0
M A = World → A × World

module _ {A : Type 0} where
  unfoldable pub pure : A → M A
  pure a w = (a, w)

module _ {A B : Type 0} where
  infixl 5 ◌>>=◌ ◌>>◌
  unfoldable pub ◌>>=◌ : M A → (A → M B) → M B
  ◌>>=◌ m f w = let (a, w') = m w in f a w'

  abbrev pub ◌>>◌ : M A → M B → M B
  m >> k = m >>= λ _. k

-- The object in memory.
unfoldable pub object : M ValkeyCluster
object w = (w.vc, w)

unfoldable pub perform : Effect → M (Unit {0})
perform e w = (tt, record w { effects = e ∷ w.effects })

-- An effect and its answer.
unfoldable pub ask : {A : Type 0} → Effect → (History → A) → M A
ask e answer w = (answer (e ∷ w.effects), record w { effects = e ∷ w.effects })

unfoldable pub set_status : Status → M (Unit {0})
set_status s w = (tt, record w { vc = record w.vc { status = s } })

unfoldable pub is_some : Option Bytes → Bool
is_some none = false
is_some (some t) = true

module _ (env : Env) where
  -- dialReplClient: whether the pod answers PING within the timeout.
  unfoldable pub dial_repl_client : Bytes → ℕ → Bytes → M Bool
  unfolding ask
  dial_repl_client host port password =
      ask (dial host port password) (λ h. env.reachable h host port password)

  -- A command whose reply is read, and one of which only the error is read.
  unfoldable pub query : Bytes → Command → M (Option Bytes)
  unfolding ask
  query host c = ask (send host c) (λ h. env.reply h host c)

  unfoldable pub command : Bytes → Command → M Bool
  unfolding ask is_some
  command host c = ask (send host c) (λ h. is_some (env.reply h host c))

  unfoldable pub clock : M ℕ
  unfolding ask
  clock = ask read_clock env.now
