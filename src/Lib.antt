-- ===== src/Lib.antt =====
-- A model of spire-eks-workload-registrar, a Kubernetes controller that registers the pods of EKS
-- clusters as entries of a SPIRE server.
--
-- The program. A WorkloadIdentity says which pods get an entry, and by which templates; an
-- EKSClusterRegistry names a cluster. The cluster manager keeps a connection to each enabled cluster, with an
-- informer of its pods. The main reconciler, whenever the shared loop runs it, brings the connections in
-- line with the registered clusters, lists the entries of SPIRE, renders an entry for each ready pod
-- that an identity selects in each connected cluster, has the entries state compute what to create, to
-- update and to delete, sends this to SPIRE, and writes the statuses. The targeted reconciler does the
-- same for one pod, one identity or one cluster, on the events of the informers and of the resource
-- controllers. The deletion reconciler removes the entries of a deleted object before it takes the
-- finalizer off. All reach SPIRE by the Client interface of pkg/spireapi. Beside them, the webhook
-- manager keeps the certificates of the finalizer webhook.
--
-- The files, with the source that each models:
--   Prelude              Go's results and panics, stateful calls, maps, integers, sorting
--   Text                 Go strings as lists of bytes: Contains, HasPrefix, TrimPrefix, Split, SplitN
--   Api                  api/v1alpha1: WorkloadIdentity and EKSClusterRegistry, and what is read of pods
--   SpireApi             pkg/spireapi/client.go: Entry, Selector, Status and the Client interface
--   SpireApi/Convert     toAPIEntry, fromAPIEntry, entriesToAPI
--   SpireApi/Batch       runBatch, BatchCreateEntries, BatchUpdateEntries, BatchDeleteEntries
--   SpireApi/Listing     ListEntries
--   SpireApi/Single      CreateEntry, UpdateEntry, DeleteEntry
--   SpireEntry/Compare   internal/spireentry/entries.go: getOutdatedEntryFields, stringsMatch
--   SpireEntry/Key       the same file: makeEntryKey, sortSelectors
--   SpireEntry/Render    the same file: RenderEntry
--   SpireEntry/Helpers   the same file: parseSelector, renderTemplate, appendIfNotExists, dnsNamesFromEndpoints
--   SpireEntry/ByObject  internal/spireentry/byobject.go: objectCmp
--   SpireEntry/State     internal/spireentry/state.go: AddCurrent, AddDeclared, GetChanges, entriesEqual
--   Controller/Select    internal/controller/main_reconciler.go and targeted_reconciler.go: which
--                        namespaces, entries, identities and pods a round is about
--   Controller/Ownership the tests of an entry's hint, of targeted_reconciler.go and deletion_controller.go
--   Controller/Targeted  targeted_reconciler.go: reconcilePodEntry, ReconcileSinglePod,
--                        ReconcileWorkloadIdentity and the deletions
--   Controller/Rounds    main_reconciler.go: processCluster, applyEntryChanges, the statistics
--   Controller/Deletion  deletion_controller.go, pkg/finalizer/finalizer.go and the two webhooks
--   Controller/Reliable  a client whose every call takes effect, the reference for the loops
--   Controller/World     SPIRE, the cluster manager and Kubernetes together: reconcileAll and updateStatuses
--                        of main_reconciler.go, ReconcileEKSCluster and cleanupOrphanedEntriesForCluster
--                        of targeted_reconciler.go, workloadidentity_controller.go and
--                        eksclusterregistry_controller.go
--   Aws                  internal/aws/client.go and kubeconfig.go: the cache of clients, the kubeconfig
--   Cluster/Manager      internal/cluster/manager.go: the connections, their stop channels and informers
--   Reconciler           internal/reconciler/reconciler.go: New, Trigger, Run
--   Webhook              pkg/webhookmanager/finalizer_webhook_manager.go: the CA, the serving certificate,
--                        the bundle, the rotation
--   Config               api/v1alpha1/controllermanagerconfig_loader.go and controllermanagerconfig_types.go,
--                        and the start of cmd/main.go
--   Tests                concrete instances of the parameters, and the theorems at them
--
-- Parameters: go-spiffe's IDs (Spiffe), label selectors and durations (Kube), text/template
-- (Templates), the gRPC service (EntryService), the clients of SPIRE and of Kubernetes (Client,
-- Objects, KubeApi), the AWS SDK and client-go (Sdk), keys, certificates and files (Host), the reading of
-- the configuration (Files), regular expressions and SHA-256. What is assumed of them stands in
-- SpiffeLaws, KubeLaws, HostLaws, IsQuiet, Describes, Holds and Reliable, as hypotheses of the theorems that
-- need it.
--
-- Concurrency: the manager's methods hold its lock, so they are calls one after the other, in any order
-- (Cluster/Manager/Reached). The shared loop is one goroutine; triggers, ticks and the cancellation come
-- at any of its steps (Reconciler). Closing a channel twice is a panic. A round sees one time and
-- fixed answers of the clusters, and the informers' events are separate calls.
--
-- Bounds and fuel: the loop of runBatch has fuel for one round per item and one more, which is
-- enough since each round takes at least one item; the loop of ListEntries has as fuel the number of
-- pages, which the server determines. Integers that the API sends are int32, and a status code is
-- converted to uint32. A map is listed in one iteration order, which Go leaves open.
--
-- Not modelled: logging, except where an argument of a log line can panic; the informer library, of which
-- WaitForCacheSync is a Boolean answer; flags, dialling and the wiring of main and of the
-- SetupWithManager methods; the generated copies of zz_generated.deepcopy.go, the scheme, test code, and
-- two empty helper files of internal/utils; a nil reconcile function of the shared loop, which the
-- program's only caller of New does not pass. The data race on lastUsed in GetClusterClient is not seen.
pub mod Prelude
pub mod Text
pub mod SpireApi
pub mod Api
pub mod SpireEntry
pub mod Aws
pub mod Cluster
pub mod Reconciler
pub mod Controller
pub mod Webhook
pub mod Config
pub mod Tests
