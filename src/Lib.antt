-- ===== src/Lib.antt =====
-- The core of aether_supervisor, an agent that updates Docker containers: what the labels of a
-- container say, in which order containers are updated, how they are stopped and restarted, and what
-- a run reports.
--
-- A run lists the containers, selects those of its filter (pkg/filters), sorts them by their
-- dependencies (pkg/sorter), records what it finds and does for each one in a progress map
-- (pkg/session), and makes a report of that map. The filter, the sorter and the report read a
-- container through its labels and names (pkg/container, pkg/compose). The counts of the report go
-- into a queue of metrics (pkg/metrics). Update of internal/actions/update.go is the run: it lists and
-- filters the containers, checks which are stale, marks those that are linked to them, and stops and
-- restarts them in order, all at once or one by one, with the commands of pkg/lifecycle around it. An
-- instance that a run has started removes the old one (internal/actions/cleanup.go).
-- internal/actions/actions.go adds the notifications and the metric to a run.
--
-- Prelude: texts as lists of bytes with the functions of Go's strings package that the source
--   calls, maps as association lists, sorting by a strict order, and lemmas on lists.
-- Container.Data, Container.Labels: the state of pkg/container/container.go's Container, its
--   flags, and the labels of pkg/container/metadata.go. Docker's inspect records are cut down to the
--   fields that the modelled functions read.
-- Container.Hooks: the labels of pkg/container/metadata.go for lifecycle commands, IDs and timeouts,
--   the chain of self-updates and the stop signal. Container.ShortId: ShortID of
--   pkg/types/container.go.
-- Container.Client: the interface Client of pkg/container/client.go as a record of functions on a
--   state of Docker and of the contexts. The theorems on runs hold for every such record.
-- Container.Identifier: ResolveContainerIdentifier. Container.Links: Container.Links and
--   ParseDependsOnLabel of pkg/compose/compose.go, with encoding/json as a parameter.
-- Container.Cycles: DetectCycles of pkg/container/cycles.go.
-- Filters, Filters.Description: pkg/filters/filters.go, with the package regexp as a parameter.
-- Session.Status, Session.Progress: pkg/session/container_status.go and progress.go. The map holds
--   pointers that only it and the reports share; a status is kept by value, and a write through
--   the pointer changes the entry of the map.
-- Session.Report: NewReport, categorizeContainer, sortCategories and allFromSlices of
--   pkg/session/report.go. Go leaves the order of a loop over a map open, so the theorems hold for
--   every order of the association list.
-- Metrics: pkg/metrics/metrics.go, with the goroutines that register metrics and the one that
--   handles them as steps of one state. A state that they can reach is a Reached.
-- Sorter.Names, Sorter.Graph, Sorter.Queue, Sorter.Cycle, Sorter.Sort:
--   pkg/sorter/dependency.go, from the links of a container to the sorted slice or the error. The
--   edges that a graph describes, and what it means to respect them, are in Sorter.Kahn.Edges.
-- Sorter.Errors: the texts of pkg/sorter/errors.go.
-- Lifecycle: pkg/lifecycle/lifecycle.go.
-- Update.Select, Update.Pinned, Update.Scan: which containers Update of internal/actions/update.go
--   finds stale, with reference.ParseDockerRef as a parameter.
-- Update.Implicit: UpdateImplicitRestart. Update.Stop, Update.Restart, Update.Batch, Update.Rolling:
--   the stop and the restart of containers. Update.Run, Update.Action: Update itself. Containers that
--   the source shares by pointers are kept by value and joined by their IDs, which Docker makes
--   unique.
-- Cleanup.Excess, Cleanup.Removal: internal/actions/cleanup.go.
-- Notify: RunUpdatesWithNotifications and what it is made of, in internal/actions/actions.go.
-- Notifier: pkg/notifications/shoutrrr.go's queue, channel, goroutine and Close as steps in any order,
--   with the template as a parameter.
-- Registry: pkg/registry/digest/digest.go. Registry.Challenge and Registry.Auth: the challenge and the
--   token of pkg/registry/auth/auth.go. Registry.Response: HandleManifestResponse. Registry.Fetch:
--   CompareDigest, with pkg/registry/manifest/manifest.go. The network, Docker's images, URLs,
--   references, JSON and base64 are parameters.
-- Api: the handlers of pkg/api/update, apply, check and download, without the encoding of answers.
-- Locking: the lock that these handlers share with the runs and the shutdown of
--   internal/scheduling/scheduling.go, with all of them as tasks that take steps in any order.
-- Scheduling: ShouldExitDueToInvalidRestart of internal/scheduling/scheduling.go.
-- Services: the labels, names, command and devices of a service in internal/actions/services.go, with
--   Marshal of encoding/json as a parameter. Services.Environment: its environment, with the scan of
--   a file as a parameter. Services.Order: orderedServiceNames.
-- Util: the slices and maps of internal/util/util.go.
--
-- Five loops have fuel: Kahn's loop (process), which has one unit for each identifier because a
-- round takes an identifier from the queue that never comes back, and the depth of the two
-- searches for cycles (dfs and search), which has one unit more than there are nodes because the
-- nodes on a path that is explored differ; the depth of the visits of services (visit), which has
-- one unit more than there are services because a visit marks one; and the rounds of
-- UpdateImplicitRestart (mark_rounds), which has one unit more than there are containers because
-- every round but the last marks another one. A function that can run out of fuel returns an
-- Option, and `none` is only that.
--
-- Not modelled: logging; the implementation of the Docker client, the HTTP client and server, and the
-- templates and senders of notifications, which are I/O around this core; the calls of Docker that
-- deploy, stop and remove services, and the parsing of their specification; the flags of the command
-- line and the preview of templates.
pub mod Api
pub mod Cleanup
pub mod Container
pub mod Filters
pub mod Lifecycle
pub mod Locking
pub mod Metrics
pub mod Notifier
pub mod Notify
pub mod Prelude
pub mod Registry
pub mod Scheduling
pub mod Services
pub mod Session
pub mod Sorter
pub mod Update
pub mod Util
