-- ===== src/Lib.antt =====
-- The Valkey operator wellcake, a Kubernetes controller: the decisions by which it promotes,
-- deletes, restarts and recovers the pods of a Valkey cluster.
--
-- The operator keeps a ValkeyCluster object (api/v1beta1) and compares it with what the Kubernetes
-- API and the Valkey pods answer. Its methods (internal/controller) read the object, dial pods,
-- send commands, create or delete objects and patch the status. Api has the object, with the
-- defaults of defaults.go in Api/Defaults. Sizing has the numbers of pods and Naming their names
-- (resources.go, cluster_pershard.go, cluster.go, rollout.go, rollout_sentinel.go). Info reads the
-- replies of INFO and CLUSTER INFO (failover.go).
--
-- Runtime is the rest of the world. The API and the pods are not part of the repository, so their
-- answers are a parameter, the record Env: each answer is a function of all effects so far, so that
-- it may change at any time. A method is an action on the object in memory and the list of effects,
-- newest first. Runtime/Emits says which effects an action may have, Runtime/Follows what must have
-- come before an effect, Runtime/Keeps that the object stays as it is; each comes with one rule for
-- each way to build an action.
--
-- Failover models failover.go: surveyReplication and the choice of a pod in Failover,
-- reconcileFailover with its debounce and promotion in Failover/Run, the best target of a promotion
-- in Failover/Targets, manualFailover in Failover/Manual. Rollout models rollout.go: the decision
-- in Rollout, driveReplicationRollout in Rollout/Run, which promotes with Failover/Run, and
-- driveClusterRollout in Rollout/Shards, which reads the shards with Cluster/Survey. Cluster models
-- the survey of cluster.go: CLUSTER NODES in Cluster, slotsCount in Cluster/Slots, surveyCluster,
-- fillReplicaLag and summarizeShards in Cluster/Survey, the Jobs that scale and reshard in
-- Cluster/Scaling. Recovery models cluster_recovery.go: the questions in Recovery,
-- maybeRecoverClusterQuorum in Recovery/Run; it reads the nodes of Cluster and deletes pods as
-- Rollout does. Rotation models password_rotation.go with rotateSentinelPassword of sentinel.go:
-- the passes in Rotation, reconcilePasswordRotation in Rotation/Run. Handover models
-- rollout_sentinel.go: handOverMaster in Handover, driveSentinelRollout in Handover/Run; it reads
-- the survey of Failover and decides with Rollout. Sentinel models the repairs of sentinel.go, on
-- the views that the Sentinels gave. Labels models the role labels of primary_service.go. Reconcile
-- models the passes that call these parts: the objects that are kept in Reconcile, the volumes in
-- Reconcile/Claims, the status, hibernation and deletion in Reconcile/Status, reconcileReplication
-- in Reconcile/Replication, the first formation of a Cluster in Reconcile/Formation and
-- reconcileCluster in Reconcile/Cluster (valkeycluster_controller.go, backup.go, cluster.go,
-- cluster_pershard.go and restore_assembly.go). TlsReload models tls_reload.go. Acl models
-- valkeyacl_controller.go, whose resource is in Api/Acl, and Webhook the two validators of
-- internal/webhook/v1beta1, which look at the object before any of this. The other children of
-- these modules hold the proofs. Tests has runs and the theorems at concrete inputs.
--
-- Bounds and fuel. An int32 is its bit pattern: sums and products are taken modulo 2 ^ 32, and the
-- order is the signed one. Ordinals, offsets and numbers of keys are integers that are only parsed
-- in the range of their type and compared; the lag of a replica, a difference of two int64 offsets,
-- does not wrap. Times are nanoseconds. Every loop goes over a list, so nothing runs on fuel but
-- the printing of a number, which has more fuel than digits, and the retry on a conflict, which has
-- the five attempts of the library that the code calls. The two polls of handOverMaster have the
-- numbers of rounds that fit into their waits, 51 and 81, and no theorem depends on these numbers.
--
-- Not modelled: log lines, metrics and conditions; the TLS client certificate that a dial reads
-- first; timeouts, which only show as a missing answer; white space outside ASCII. A status patch
-- changes the object in memory in any case; its failure shows where the code returns it. sort.Slice
-- is a stable sort here. An object other than a pod is its kind and its name: what manifests and
-- the scripts of Jobs hold is data for the API, and the comparison of an object with what is wanted
-- is an answer of Env. The dispatch of Reconcile, the rest of sentinel.go, telemetry, the watches
-- and the kubectl plugin are not modelled.
pub mod Common
pub mod Api
pub mod Sizing
pub mod Naming
pub mod Runtime
pub mod Info
pub mod Failover
pub mod Rollout
pub mod Cluster
pub mod Recovery
pub mod Rotation
pub mod Handover
pub mod Sentinel
pub mod Labels
pub mod Acl
pub mod Webhook
pub mod TlsReload
pub mod Reconcile
mod Tests
