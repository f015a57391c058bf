-- ===== src/Controller/World/Events.antt =====
-- What the events of clusters and identities do: targeted_reconciler.go for a cluster, and the two resource
-- controllers, internal/controller/eksclusterregistry_controller.go and workloadidentity_controller.go.
use spire_eks_workload_regis.Prelude.{
  Bool, true, false, not, ◌&&◌, ◌||◌, List, [], ◌∷◌, Option, none, some, Result, ok, err, panic,
  if◌then◌else◌, any, ◌>>=◌ as then_result,
}
use spire_eks_workload_regis.Prelude.Exec.{
  Exec, pure, raise, lift, ignoring, unless_error, for_each, for_each_if, ◌>>=◌, ◌>>◌,
}
use spire_eks_workload_regis.Prelude.Maps.{Map}
use spire_eks_workload_regis.Text.{Text}
use spire_eks_workload_regis.Api.{Kube, WorkloadIdentity, EksClusterRegistry}
use spire_eks_workload_regis.SpireApi.{Spiffe, Entry, Client}
use spire_eks_workload_regis.SpireEntry.Render.{Templates}
use spire_eks_workload_regis.Aws.{Sdk}
use spire_eks_workload_regis.Cluster.Manager.{
  ClusterConnection, add_or_update_cluster, remove_cluster, get_cluster_connection,
}
use spire_eks_workload_regis.Controller.Ownership.{entry_belongs_to_cluster}
use spire_eks_workload_regis.Controller.Select.{
  Connection, is_nil, get_matching_pods, find_identities_for_cluster,
}
use spire_eks_workload_regis.Controller.Targeted.{
  Config, add_uids, names_pod, delete_entries_for_cluster, reconcile_pods,
  reconcile_workload_identity,
}
use spire_eks_workload_regis.Controller.World.{
  Clusters, Found, found, missing, failed, KubeApi, World, seen, Action, on_spire, on_manager,
  on_kube,
}

-- &EKSClusterRegistry{}
abbrev pub empty_cluster : EksClusterRegistry
empty_cluster = record {
  meta = record {
    name = [];
    namespace = [];
    uid = [];
    labels = [];
    creation_timestamp = 0;
    deletion_timestamp = none;
    finalizers = [];
  };
  spec = record {
    cluster_name = [];
    region = [];
    account_id = [];
    enabled = false;
    assume_role_arn = [];
    labels = [];
  };
  status = record {
    last_sync = none;
    conditions = [];
    namespace_count = 0;
    entries_registered = 0;
  };
}

module _ (sp : Spiffe) (k : Kube) (t : Templates) (cl : Client sp) (digest : Text → Text)
    (config : Config) (sdk : Sdk) (api : KubeApi k) (shown : Clusters sdk) where
  -- r.List(...) with its error dropped
  abbrev or_none : {A : Type 0} → Result (List A) → Result (List A)
  or_none (ok l) = ok l
  or_none (err e) = ok []
  or_none panic = panic

  abbrev list_or_none : Exec (World sp k cl sdk api) (List (WorkloadIdentity k))
  list_or_none w = (
    or_none (on_kube sp k t cl digest config sdk api shown api.list_identities w).0,
    (on_kube sp k t cl digest config sdk api shown api.list_identities w).1,
  )

  -- ReconcileEKSCluster: the pods of each identity that is for the cluster
  unfoldable pub reconcile_identities_in :
      Connection
      → EksClusterRegistry
      → List (WorkloadIdentity k)
      → Action sp k t cl digest config sdk api shown
  reconcile_identities_in conn cluster = for_each λ identity.
      lift (get_matching_pods k conn identity) >>= λ pods.
      on_spire sp k t cl digest config sdk api shown
        (reconcile_pods sp k t cl digest config conn identity cluster pods)

  -- The valid pods of cleanupOrphanedEntriesForCluster.
  unfoldable pub uids_in :
      Connection → List (WorkloadIdentity k) → Map Text Bool → Result (Map Text Bool)
  uids_in conn [] uids = ok uids
  uids_in conn (identity ∷ identities) uids =
      then_result (get_matching_pods k conn identity)
        λ pods. uids_in conn identities (add_uids pods uids)

  abbrev uids_of :
      EksClusterRegistry
      → Option (ClusterConnection sdk)
      → Exec (World sp k cl sdk api) (Map Text Bool)
  uids_of cluster none = pure []
  uids_of cluster (some conn) = list_or_none >>= λ identities.
      lift (uids_in (seen sdk shown conn) (find_identities_for_cluster k cluster identities) [])

  -- The entries of a cluster that name no valid pod.
  abbrev pub orphaned : EksClusterRegistry → Map Text Bool → Entry sp → Bool
  orphaned cluster uids entry =
      entry_belongs_to_cluster sp entry cluster && not (any (names_pod uids) entry.selectors)

  -- cleanupOrphanedEntriesForCluster
  unfoldable pub cleanup_orphaned_entries_for_cluster :
      EksClusterRegistry → Action sp k t cl digest config sdk api shown
  cleanup_orphaned_entries_for_cluster cluster =
      unless_error (on_spire sp k t cl digest config sdk api shown cl.list_entries) λ entries. λ w.
        (uids_of cluster (get_cluster_connection sdk cluster.meta.name w.manager) >>= λ uids.
        on_spire sp k t cl digest config sdk api shown (
          for_each_if (orphaned cluster uids) (λ entry. ignoring (cl.delete_entry entry.id))
            entries))
          w

  abbrev reconcile_connection :
      EksClusterRegistry
      → Option (ClusterConnection sdk)
      → Action sp k t cl digest config sdk api shown
  reconcile_connection cluster none = pure tt
  reconcile_connection cluster (some conn) = list_or_none >>= λ identities.
      reconcile_identities_in (seen sdk shown conn) cluster
        (find_identities_for_cluster k cluster identities)
      >> cleanup_orphaned_entries_for_cluster cluster

  -- ReconcileEKSCluster
  unfoldable pub reconcile_eks_cluster :
      EksClusterRegistry → Bool → Action sp k t cl digest config sdk api shown
  reconcile_eks_cluster cluster deleted =
      if deleted || not cluster.spec.enabled
      then on_spire sp k t cl digest config sdk api shown
          (delete_entries_for_cluster sp k t cl digest config cluster)
        >> on_manager sp k t cl digest config sdk api shown (remove_cluster sdk cluster.meta.name)
      else unless_error
          (on_manager sp k t cl digest config sdk api shown
            (add_or_update_cluster sdk shown.synced shown.now cluster))
          λ done. λ w.
            reconcile_connection cluster (get_cluster_connection sdk cluster.meta.name w.manager) w

  -- EKSClusterRegistryReconciler.Reconcile; on an error Get leaves the object empty
  abbrev react_cluster : Found EksClusterRegistry → Action sp k t cl digest config sdk api shown
  react_cluster (found cluster) =
      if not (is_nil cluster.meta.deletion_timestamp)
      then pure tt
      else reconcile_eks_cluster cluster false
  react_cluster missing = reconcile_eks_cluster empty_cluster true
  react_cluster (failed e) = raise e

  unfoldable pub reconcile_cluster_event : Text → Action sp k t cl digest config sdk api shown
  reconcile_cluster_event name =
      on_kube sp k t cl digest config sdk api shown (api.get_cluster name) >>= react_cluster

  -- &WorkloadIdentity{}, with a zero duration
  abbrev pub empty_identity : k.Duration → WorkloadIdentity k
  empty_identity zero = record {
    meta = empty_cluster.meta;
    spec = record {
      application_name = [];
      namespace = [];
      spiffe_id_template = [];
      parent_id_template = [];
      pod_selector = none;
      ttl = zero;
      jwt_ttl = zero;
      dns_name_templates = [];
      workload_selector_templates = [];
      federates_with = [];
      admin = false;
      downstream = false;
      auto_populate_dns_names = false;
      cluster_selector = none;
      hint = [];
    };
    stats = record {
      clusters_targeted = 0;
      namespaces_found = 0;
      pods_selected = 0;
      entries_registered = 0;
      entry_failures = 0;
    };
    last_reconciliation = none;
  }

  abbrev see : Option (ClusterConnection sdk) → Option Connection
  see none = none
  see (some conn) = some (seen sdk shown conn)

  abbrev clusters_or_none : Exec (World sp k cl sdk api) (List EksClusterRegistry)
  clusters_or_none w = (
    or_none (on_kube sp k t cl digest config sdk api shown api.list_clusters w).0,
    (on_kube sp k t cl digest config sdk api shown api.list_clusters w).1,
  )

  abbrev pub reconcile_identity_with :
      WorkloadIdentity k
      → Bool
      → List EksClusterRegistry
      → Action sp k t cl digest config sdk api shown
  reconcile_identity_with identity deleted clusters w =
      on_spire sp k t cl digest config sdk api shown
        (reconcile_workload_identity sp k t cl digest config
          (λ name. see (get_cluster_connection sdk name w.manager)) clusters identity deleted)
        w

  -- WorkloadIdentityReconciler.Reconcile, with one answer for the listings of the clusters
  abbrev react_identity :
      k.Duration → Found (WorkloadIdentity k) → Action sp k t cl digest config sdk api shown
  react_identity zero (found identity) =
      if not (is_nil identity.meta.deletion_timestamp)
      then pure tt
      else clusters_or_none >>= reconcile_identity_with identity false
  react_identity zero missing = reconcile_identity_with (empty_identity zero) true []
  react_identity zero (failed e) = raise e

  unfoldable pub reconcile_identity_event :
      k.Duration → Text → Action sp k t cl digest config sdk api shown
  reconcile_identity_event zero name =
      on_kube sp k t cl digest config sdk api shown (api.get_identity name) >>= react_identity zero
