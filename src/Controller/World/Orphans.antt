-- ===== src/Controller/World/Orphans.antt =====
-- Which entries of a cluster the cleanup after its reconciliation removes.
use spire_eks_workload_regis.Prelude.{◌≡◌, ◌≢◌, In, panic, refl, List, [], some, ok}
use spire_eks_workload_regis.Text.{Text}
use spire_eks_workload_regis.Api.{Kube, WorkloadIdentity, EksClusterRegistry}
use spire_eks_workload_regis.SpireApi.{Spiffe, Client}
use spire_eks_workload_regis.SpireEntry.State.Invariant.{IsKeyed}
use spire_eks_workload_regis.SpireEntry.Render.{Templates}
use spire_eks_workload_regis.Aws.{Sdk}
use spire_eks_workload_regis.Cluster.Manager.{ClusterConnection, get_cluster_connection}
use spire_eks_workload_regis.Controller.Reliable.{Reliable, delete_loop-drop}
use spire_eks_workload_regis.Controller.Select.{find_identities_for_cluster}
use spire_eks_workload_regis.Controller.Targeted.{Config}
use spire_eks_workload_regis.Controller.World.{Clusters, KubeApi, World, seen}
use spire_eks_workload_regis.Controller.World.Events.{
  orphaned, cleanup_orphaned_entries_for_cluster,
}
use spire_eks_workload_regis.Controller.Reliable.Removal.{RemovesExactly, drop_if-RemovesExactly}
use spire_eks_workload_regis.Controller.World.ValidPods.{uids_in-Marked}
use spire_eks_workload_regis.Controller.World.Orphaned.{IsOrphaned, orphaned_iff}
use spire_eks_workload_regis.Controller.Select.Pods.{find_identities_for_cluster-In}

module _ (sp : Spiffe) (k : Kube) (t : Templates) (cl : Client sp) (digest : Text → Text)
    (config : Config) (sdk : Sdk) (api : KubeApi k) (shown : Clusters sdk)
    (r : Reliable sp cl) where
  -- Over a SPIRE in which every call takes effect, for a connected cluster, if Kubernetes lists the
  -- identities and no pod selector of theirs makes LabelSelectorAsSelector panic:
  -- cleanupOrphanedEntriesForCluster returns and leaves the connections alone. It removes exactly the
  -- entries that entryBelongsToCluster accepts and that have no selector k8s:pod-uid:<UID> of a pod in
  -- the informer's store that is running, has a node, is not being deleted, and is in the namespace and
  -- matches the labels of a listed identity whose cluster selector takes the cluster.
  pub cleanup_orphaned_entries_for_cluster-IsOrphaned :
      (w : World sp k cl sdk api) (cluster : EksClusterRegistry) (conn : ClusterConnection sdk)
      (identities : List (WorkloadIdentity k))
      → IsKeyed sp (r.store w.spire)
      → get_cluster_connection sdk cluster.meta.name w.manager ≡ some conn
      → (api.list_identities w.kube).0 ≡ ok identities
      → ((i : WorkloadIdentity k)
          → In i identities
          → k.label_selector_as_selector i.spec.pod_selector ≢ panic)
      → (w' : World sp k cl sdk api) × (cleanup_orphaned_entries_for_cluster sp k t cl digest config
            sdk api shown cluster w
          ≡ (ok tt, w'))
        × (w'.manager ≡ w.manager)
        × RemovesExactly sp
            (IsOrphaned sp k t cl digest config sdk api shown cluster
              (seen sdk shown conn)
              identities)
            (r.store w.spire)
            (r.store w'.spire)
  unfolding cleanup_orphaned_entries_for_cluster
  cleanup_orphaned_entries_for_cluster-IsOrphaned w cluster conn identities keyed there listed
        calm =
      let (uids, pods, marks) =
        uids_in-Marked sp k t cl digest config sdk api shown (seen sdk shown conn)
          (find_identities_for_cluster k cluster identities) []
          (λ i m. calm i (find_identities_for_cluster-In k cluster i identities m).0) in
      let test = orphaned sp k t cl digest config sdk api shown cluster uids in
      let (s', a, b) = delete_loop-drop sp cl r test w.spire keyed in
      (
        record w { spire = s'; kube = (api.list_identities w.kube).1 },
        rw (r.lists w.spire, there, listed, pods, a) refl,
        refl,
        drop_if-RemovesExactly sp cl r test _ (r.store w.spire) (r.store s')
            (orphaned_iff sp k t cl digest config sdk api shown cluster (seen sdk shown conn)
              identities uids marks)
            b,
      )
