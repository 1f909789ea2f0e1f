-- ===== src/Lib.antt =====
-- cnpg-i-chronicle: a CloudNativePG plugin that keeps a history of a Cluster's configuration beside
-- its backups and carries a snapshot of it back into a Cluster that is created from a backup.
--
-- The parts, how they interact and the files that model them:
--
--   Json.antt       The generic JSON that the program works on, Go's map[string]any and []any. A map
--                   is an association list in some iteration order with one entry to a key, which
--                   `distinct` states where a theorem relies on it. A number keeps its digits, as a
--                   json.Number does.
--   PathUtil.antt   internal/pathutil/path.go: Split, Get, Set, Delete, GetSegments, SetSegments,
--                   WalkLeaves. What the Go code writes in place is returned.
--   Snapshot/       internal/snapshot: Groups.antt the capture allowlist (groups.go), Denylist.antt
--                   what is never captured nor restored (denylist.go), PathCheck.antt the check of a
--                   rule's path against ClusterSpec's fields (pathcheck.go), Types.antt the document
--                   and its digests (types.go, canonical.go), Extract.antt the capture (extract.go).
--   Api.antt        api/v1: what the plugin's logic reads of RestorePolicy and ConfigStore, and
--                   Api/Window.antt ParseRetentionWindow.
--   Cluster.antt    What is read of a CloudNativePG Cluster, which is not a type of the repository.
--   Store/          internal/store: Layout.antt the keys of objects (layout.go), Refs.antt a listing
--                   and its order, Snapshots.antt Write, Read, List and Latest (snapshots.go) over an
--                   object store (backend.go), Resolver.antt what a ConfigStore stands for
--                   (resolver.go), Barman.antt the reader of ObjectStores and its cache (barman.go),
--                   S3.antt a bucket (s3.go), Retention.antt what may be deleted (retention.go).
--   Restore/        internal/restore: Skip.antt (skip.go) and Transform.antt (transform.go) compile a
--                   policy's rules, Plan.antt (plan.go) turns a snapshot and the rules into changes
--                   and applies them, Select.antt (select.go) chooses the snapshot, and
--                   RecoveryTarget.antt (recoverytarget.go, backuplookup.go) finds the moment that a
--                   recovery aims at.
--   Operator/       internal/cnpgi/operator: Config.antt what a Cluster's plugin declaration asks for
--                   (config/config.go), Settled.antt the cache of confirmed states (settled.go),
--                   Hooks.antt the hooks Pre and Post (reconciler.go), Hooks/Published.antt
--                   SetStatusInCluster (status.go).
--   Webhook/        internal/webhook/cluster_mutate.go: Types.antt its records and answers,
--                   Parameters.antt what it reads of the Cluster, Webhook.antt Handle and the
--                   restore behind it.
--   Controller/     internal/controller: Stores.antt and Policies.antt the two Reconcile methods,
--                   Retention.antt the sweep of a store, Status.antt what they write and compare.
--   Common.antt     Byte texts, lists, results, insertion sort, and the lemmas that all share.
--   Tests.antt      Runs at concrete inputs.
--
-- Extract captures a Cluster into a snapshot, Write stores it under a key and under the latest
-- pointer, PlanRetention names the keys to delete, Select reads one snapshot back, BuildPlan decides
-- for each of its values whether it is denied, skipped, transformed or restored, and Apply writes the
-- changes into the new Cluster. Post composes the first of these with the cache and with the
-- watermark that SetStatusInCluster publishes, Handle the rest into one admission response, and the
-- controller of ConfigStores deletes what PlanRetention names.
--
-- Conventions. A Go string is the list of its bytes. An instant is the number of its nanoseconds since
-- year 1, which is Go's zero time, so that "before" is the order of the natural numbers; generations
-- are natural numbers, as Kubernetes only counts them up. A pair of a value and an error is a Result;
-- an error keeps what the message names, not its wording. Loops are structural recursion on the list
-- or the tree that they walk. The one number with a bound on steps is the width of a generation in a
-- key: at most 20 digits are counted, and an int64 has 19. A sort is an insertion sort; where Go's
-- sort is not stable the keys that it compares are distinct, or the order of equal ones is not read.
--
-- Code outside of the repository is an argument: encoding/json and SHA-256 (Encoding, SnapshotCodec),
-- the AWS client (Client; Backend is the interface that S3.antt fills), CEL (Expressions), Go's time
-- format (TimeFormat), CloudNativePG's fixed parameters and managed extensions (Postgres), the
-- reflected type of ClusterSpec (GoType), the parser of a target time and the reads and the patches
-- of Kubernetes. The generic form of a Cluster comes with it, since encoding it is not modelled; the
-- clock's reading is an argument.
--
-- A hook, the webhook and a controller are functions of the object store's state, of the cache where
-- they use it, and of what they read of Kubernetes; they return the states and the answer. A call is one
-- step: two calls at one time over one store are not modelled. Deadlines and logging are left out.
--
-- Not modelled: the CEL environment (internal/restore/celenv), the lists of capabilities, start-up,
-- registration, generated and test code: calls into Kubernetes, gRPC and
-- cel-go for the most part. The wording of messages, the range in SelectByGeneration's message and the
-- prose in the group table are left out as well.
pub mod Common
pub mod Json
pub mod PathUtil
pub mod Snapshot
pub mod Api
pub mod Cluster
pub mod Store
pub mod Restore
pub mod Operator
pub mod Webhook
pub mod Controller
pub mod Tests
