-- ===== src/Lib.antt =====
-- A verification library of the ClickHouse operator. The operator is a Kubernetes controller: it
-- reads ClickHouseInstallation resources (CHI), normalises them (pkg/model/normalizer.go), compares
-- the result with the state that it reconciled last (pkg/model/action_plan.go), creates and updates
-- the objects of the cluster, which it records in registries (pkg/model/registry.go), waits for
-- them (pkg/controller/chi/poller.go), and deletes what is no longer wanted. The library models the
-- decisions of these parts as functions; the theorems are about those functions.
--
-- The files and the code:
--   Base: lists, Go maps (Base/Dict), signed integers (Base/Int) and Boolean tests. A Go map is an
--     association list in the order of a `range`, which Go leaves open.
--   Util: pkg/util/map.go (Util/Maps), array.go (Util/Arrays) and string.go (Util/Text).
--   Registry: pkg/model/registry.go; Registry/Count sees a registry as a multiset of objects.
--   Settings: pkg/apis/clickhouse.radondb.com/v1/type_settings.go. Settings/Path has the texts
--     behind a setting's name, the other children merging, filtering and path normalisation.
--   Ports: the ports of hosts in pkg/model/normalizer.go, and the host-network template.
--   TemplateNames: type_template_names.go and the inheritance of names in type_cluster.go,
--     type_shard.go, type_replica.go and type_host.go.
--   Templates: type_templates.go, and the pod distributions of pkg/model/normalizer.go.
--   Layout: createHostsField and the layout counts in pkg/model/normalizer.go, with
--     type_hosts_field.go and the walks of type_cluster.go. Hosts are pointers there, so the model
--     has a store of allocated hosts.
--   Zookeeper: type_zookeeper.go and normalizeConfigurationZookeeper.
--   ActionPlan: pkg/model/action_plan.go over the differences that the messagediff library reports,
--     which are a parameter.
--   Cleanup: the cleanup and waiting policies of pkg/apis/clickhouse.radondb.com/v1/types.go and
--     their normalisation in pkg/model/normalizer.go.
--   Status: type_status.go. Walk: the walks of type_chi.go over clusters, shards and hosts, the
--     addresses of hosts, and (Walk/Till) the walk that a reconcile is.
--   Worker: pkg/controller/chi/worker.go. Worker/Purge is the cleanup after a reconcile, over the
--     registries and the policies; Worker/Attributes marks hosts and decides about them;
--     Worker/Objects reconciles ConfigMaps, Services and disruption budgets; Worker/Resources has
--     the requests of volume claims; Worker/Update is updateCHI, from the finalizer to the status.
--   Queue: pkg/controller/chi/type_cmd_queue.go, the items of the work queues and their
--     handles; Queue/Enqueue chooses the queue of an item, as pkg/controller/chi/controller.go does.
--   Poller: the polling loops of pkg/controller/chi/poller.go, and pkg/util/retry/retry.go.
--
-- Conventions. A function is named after the Go function. A pointer that may be nil is an `Option`;
-- a panic is `none` where the result says so. A method that writes returns the new value. Go's
-- `int` is ℤ where it may be negative and ℕ where it counts; an `int32` wraps explicitly. Loops run
-- over lists, so no fuel is needed; a polling loop runs over the rounds that it is given and says
-- that it still waits when they end. Durations are non-negative and do not overflow.
--
-- The Kubernetes API and the context of a reconcile are functions of the time, which the model
-- counts in calls and checks; every call is logged.
--
-- Not modelled: the Kubernetes API and its generated client, the SQL connection to ClickHouse,
-- logging, the metrics server and the command-line entry points, which are input and output; the
-- rendering of objects and configuration files; reading the operator's own configuration files.
pub mod Base
pub mod Cleanup
pub mod Util
pub mod Queue
pub mod Registry
pub mod Settings
pub mod Ports
pub mod Poller
pub mod TemplateNames
pub mod ActionPlan
pub mod Layout
pub mod Zookeeper
pub mod Worker
pub mod Status
pub mod Walk
pub mod Templates
