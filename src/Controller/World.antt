-- ===== src/Controller/World.antt =====
-- What changes SPIRE, the cluster manager and Kubernetes together: the whole rounds of
-- internal/controller/main_reconciler.go here, and the events of objects in Events.
-- A round takes place at one time, at which the informers and the clusters' APIs give fixed answers.
pub mod Sync
pub mod Deleted
pub mod ValidPods
pub mod Orphaned
pub mod Orphans
pub mod Events
pub mod Statuses
pub mod Whole
use spire_eks_workload_regis.Prelude.{
  ℕ, Bool, true, false, not, ◌&&◌, ◌||◌, List, [], ◌∷◌, Option, none, some, Result, Error, ok, err,
  panic, if◌then◌else◌, any, ◌>>=◌ as then_result,
}
use spire_eks_workload_regis.Prelude.Exec.{
  Exec, pure, raise, lift, ignoring, unless_error, for_each, for_each_if, ◌>>=◌, ◌>>◌,
}
use spire_eks_workload_regis.Prelude.Maps.{Map, lookup, insert}
use spire_eks_workload_regis.Text.{Text, bytes, ◌==◌}
use spire_eks_workload_regis.Api.{Kube, WorkloadIdentity, EksClusterRegistry, Pod, Node, text_keys}
use spire_eks_workload_regis.SpireApi.{Spiffe, Entry, Client}
use spire_eks_workload_regis.SpireEntry.State.{EntriesState, new_entries_state_with_prefix}
use spire_eks_workload_regis.SpireEntry.Render.{Templates}
use spire_eks_workload_regis.Aws.{Sdk}
use spire_eks_workload_regis.Cluster.Manager.{
  ClusterConnection, Manager, add_or_update_cluster, remove_cluster, get_cluster_connection,
  get_all_connections, is_connected,
}
use spire_eks_workload_regis.Controller.Ownership.{entry_belongs_to_cluster}
use spire_eks_workload_regis.Controller.Select.{
  Connection, is_nil, get_matching_pods, find_identities_for_cluster,
}
use spire_eks_workload_regis.Controller.Targeted.{
  Config, is_set, add_uids, names_pod, delete_entries_for_cluster, reconcile_pods,
  reconcile_workload_identity,
}
use spire_eks_workload_regis.Controller.Rounds.{
  process_clusters, add_currents, apply_entry_changes, calculate_cluster_entries,
  calculate_identity_stats, update_conditions,
}

-- What the clusters show at the time of a round: the client's answer to WaitForCacheSync, the
-- informer's store of a connection, and the nodes.
pub record Clusters (sdk : Sdk) : Type 0 where
  pub now : ℕ
  pub synced : sdk.KubeClient → Bool
  pub objects : ClusterConnection sdk → List (Option Pod)
  pub get_node : sdk.KubeClient → Text → Result Node

-- The answer of client.Get.
pub data Found (A : Type 0) : Type 0 where
  found : A → Found A
  missing : Found A
  failed : Error → Found A

-- The Kubernetes API where the program runs, as client.Client
pub record KubeApi (k : Kube) : Type 1 where
  pub State : Type 0
  pub list_clusters : Exec State (List EksClusterRegistry)
  pub list_identities : Exec State (List (WorkloadIdentity k))
  pub update_identity_status : WorkloadIdentity k → Exec State (Unit {0})
  pub update_cluster_status : EksClusterRegistry → Exec State (Unit {0})
  pub get_cluster : Text → Exec State (Found EksClusterRegistry)
  pub get_identity : Text → Exec State (Found (WorkloadIdentity k))

-- MainReconciler's collaborators
pub record World (sp : Spiffe) (k : Kube) (cl : Client sp) (sdk : Sdk) (api : KubeApi k)
    : Type 0 where
  pub spire : cl.State
  pub manager : Manager sdk
  pub kube : api.State

module _ (sdk : Sdk) (shown : Clusters sdk) where
  -- A connection as a round reads it.
  abbrev pub seen : ClusterConnection sdk → Connection
  seen conn = record {
    cluster = conn.cluster;
    objects = shown.objects conn;
    get_node = shown.get_node conn.k8s_client;
  }

  abbrev pub seen_all : List (ClusterConnection sdk) → List Connection
  seen_all [] = []
  seen_all (conn ∷ conns) = seen conn ∷ seen_all conns

  -- existingClusters of reconcileAll
  unfoldable pub existing_clusters : List EksClusterRegistry → Map Text Bool → Map Text Bool
  existing_clusters [] existing = existing
  existing_clusters (c ∷ cs) existing =
      existing_clusters cs
        (if c.spec.enabled then insert text_keys c.meta.name true existing else existing)

  -- The loop of reconcileAll that removes connections.
  unfoldable pub remove_others :
      Map Text Bool → List (ClusterConnection sdk) → Exec (Manager sdk) (Unit {0})
  remove_others existing =
      for_each_if
        (λ (conn : ClusterConnection sdk).
          not (is_set (lookup text_keys conn.cluster.meta.name existing)))
        (λ conn. remove_cluster sdk conn.cluster.meta.name)

  unfoldable pub update_clusters : List EksClusterRegistry → Exec (Manager sdk) (Unit {0})
  update_clusters = for_each (λ c. ignoring (add_or_update_cluster sdk shown.synced shown.now c))

  -- reconcileAll, from the listing of the clusters to that of the identities
  unfoldable pub sync_clusters : List EksClusterRegistry → Exec (Manager sdk) (Unit {0})
  sync_clusters clusters = update_clusters clusters >> λ m.
      remove_others (existing_clusters clusters []) (get_all_connections sdk m) m

module _ (sp : Spiffe) (k : Kube) (t : Templates) (cl : Client sp) (digest : Text → Text)
    (config : Config) (sdk : Sdk) (api : KubeApi k) (shown : Clusters sdk) where
  abbrev pub Action : Type 0
  Action = Exec (World sp k cl sdk api) (Unit {0})

  abbrev pub on_spire : {A : Type 0} → Exec cl.State A → Exec (World sp k cl sdk api) A
  on_spire m w = ((m w.spire).0, record w { spire = (m w.spire).1 })

  abbrev pub on_manager : {A : Type 0} → Exec (Manager sdk) A → Exec (World sp k cl sdk api) A
  on_manager m w = ((m w.manager).0, record w { manager = (m w.manager).1 })

  abbrev pub on_kube : {A : Type 0} → Exec api.State A → Exec (World sp k cl sdk api) A
  on_kube m w = ((m w.kube).0, record w { kube = (m w.kube).1 })

  -- One round of the first loop of updateStatuses.
  unfoldable pub update_identity :
      List EksClusterRegistry → EntriesState sp → WorkloadIdentity k → Action
  update_identity clusters state identity w =
      (lift (
            calculate_identity_stats sp k t digest config identity clusters
              (seen_all sdk shown (get_all_connections sdk w.manager)) state)
          >>= λ stats. ignoring (
              on_kube (
                api.update_identity_status
                  (record identity { stats = stats; last_reconciliation = some shown.now }))))
        w

  -- The status that updateStatuses gives a cluster.
  unfoldable pub cluster_status : Bool → EntriesState sp → EksClusterRegistry → EksClusterRegistry
  cluster_status connected state cluster = record cluster {
    status = record cluster.status {
      last_sync = if cluster.spec.enabled then some shown.now else cluster.status.last_sync;
      entries_registered = calculate_cluster_entries sp k t digest config state;
      conditions = update_conditions connected shown.now cluster.status.conditions;
    };
  }

  unfoldable pub update_cluster : EntriesState sp → EksClusterRegistry → Action
  update_cluster state cluster w =
      ignoring
        (on_kube (
          api.update_cluster_status
            (cluster_status (is_connected sdk cluster.meta.name w.manager) state cluster)))
        w

  -- updateStatuses
  unfoldable pub update_statuses :
      List (WorkloadIdentity k) → List EksClusterRegistry → EntriesState sp → Action
  update_statuses identities clusters state =
      for_each (update_identity clusters state) identities
      >> for_each (update_cluster state) clusters

  -- reconcileAll, from the listing of SPIRE's entries on
  unfoldable pub reconcile_identities : List (WorkloadIdentity k) → List EksClusterRegistry → Action
  reconcile_identities identities clusters = unless_error (on_spire cl.list_entries) λ entries. λ w.
      (lift (
            process_clusters sp k t digest config
              (seen_all sdk shown (get_all_connections sdk w.manager)) identities
              (add_currents sp k t digest config entries
                (new_entries_state_with_prefix sp config.entry_id_prefix)))
          >>= λ state.
              on_spire (apply_entry_changes sp k t digest config cl state)
              >> update_statuses identities clusters state)
        w

  -- reconcileAll
  unfoldable pub reconcile_all : Action
  reconcile_all = unless_error (on_kube api.list_clusters) λ clusters.
      on_manager (sync_clusters sdk shown clusters)
      >> unless_error (on_kube api.list_identities)
          λ identities. reconcile_identities identities clusters
