-- ===== src/Tests/Worlds.antt =====
-- Whole rounds and events at a sample cluster.
use spire_eks_workload_regis.Prelude.{
  ℕ, suc, ◌≡◌, ◌≢◌, refl, true, [], ◌∷◌, Option, some, none, ok, panic, if◌then◌else◌,
}
use spire_eks_workload_regis.Prelude.Exec
use spire_eks_workload_regis.Prelude.Maps.{Map, lookup, insert}
use spire_eks_workload_regis.Text.{Text, bytes, ◌==◌}
use spire_eks_workload_regis.Api.{text_keys}
use spire_eks_workload_regis.SpireApi.{Entry}
use spire_eks_workload_regis.SpireEntry.State.{add_declared}
use spire_eks_workload_regis.Cluster.Manager
use spire_eks_workload_regis.Cluster.Manager.{
  Manager, ClusterConnection, count, new_manager, add_or_update_cluster, remove_cluster, shutdown,
  get_cluster_connection, get_all_connections, is_connected, tombstone,
}
use spire_eks_workload_regis.Cluster.Manager.Invariant.{IsWellFormed}
use spire_eks_workload_regis.Controller.World
use spire_eks_workload_regis.Controller.World.{
  Clusters, KubeApi, World, missing, reconcile_all, sync_clusters, seen_all,
}
use spire_eks_workload_regis.Controller.World.Events.{
  reconcile_eks_cluster, reconcile_cluster_event, cleanup_orphaned_entries_for_cluster,
}
use spire_eks_workload_regis.Controller.World.Sync.{sync_clusters-lookup, Describes}
use spire_eks_workload_regis.Controller.World.Deleted.{
  reconcile_eks_cluster-IsGone, reconcile_cluster_event-missing,
}
use spire_eks_workload_regis.Controller.World.Whole.{reconcile_all-reconciled, outcome}
use spire_eks_workload_regis.Controller.World.Statuses.{IsQuiet}
use spire_eks_workload_regis.Controller.World.Orphans.{
  cleanup_orphaned_entries_for_cluster-IsOrphaned,
}
use spire_eks_workload_regis.Controller.Reliable.Removal.{RemovesExactly}
use spire_eks_workload_regis.Controller.World.Orphaned.{IsOrphaned}
use spire_eks_workload_regis.Controller.Select.{is_namespace_ignored}
use spire_eks_workload_regis.Controller.Targeted.Effects.{of_pod}
use spire_eks_workload_regis.Controller.Targeted.PodEvents
use spire_eks_workload_regis.Controller.Targeted.PodEvents.{handle_pod_change-delete}
use spire_eks_workload_regis.Tests.Samples.{
  spiffe, kube, templates, digest, client, client_reliable, cluster, pod,
}
use spire_eks_workload_regis.Tests.Cycle.{
  selecting, conn, config, store, store-IsKeyed, before, processed, plain_entry,
}
use spire_eks_workload_regis.Tests.Clusters.{
  adds, connected, connected-IsWellFormed, describes, new_IsWellFormed, sdk, shown,
}

-- One cluster and one identity; a status is counted, and no object is found by its name.
abbrev api : KubeApi kube
api = record {
  State = ℕ;
  list_clusters = λ s. (ok (cluster ∷ []), s);
  list_identities = λ s. (ok (selecting ∷ []), s);
  update_identity_status = λ i s. (ok tt, suc s);
  update_cluster_status = λ c s. (ok tt, suc s);
  get_cluster = λ name s. (ok missing, s);
  get_identity = λ name s. (ok missing, s);
}

quiet : IsQuiet spiffe kube templates client digest config sdk api shown
quiet = record { selector = selects; identity = λ i s e. cc e; cluster = λ c s e. cc e }
  where
    selects : (o : Option (Text × Text)) → kube.label_selector_as_selector o ≢ panic
    selects none e = cc e
    selects (some p) e = cc e

abbrev world : Manager sdk → World spiffe kube client sdk api
world m = record { spire = store; manager = m; kube = 0 }

sync_clusters-lookup_example :
    (m' : Manager sdk) × (sync_clusters sdk shown (cluster ∷ []) connected ≡ (ok tt, m'))
    × IsWellFormed sdk m'
    × (m1 : Manager sdk) × (World.update_clusters sdk shown (cluster ∷ []) connected ≡ (ok tt, m1))
    × ((j : Text)
        → get_cluster_connection sdk j m' ≡ (
            if World.Sync.enabled_in sdk shown j (cluster ∷ [])
            then get_cluster_connection sdk j m1
            else none))
sync_clusters-lookup_example =
    sync_clusters-lookup sdk shown (cluster ∷ []) connected connected-IsWellFormed describes

reconcile_eks_cluster-IsGone_example :
    World.Deleted.After spiffe kube templates client digest config sdk api shown
      (reconcile_eks_cluster spiffe kube templates client digest config sdk api shown cluster true
        (world connected))
      (World.Deleted.IsGone spiffe kube templates client digest config sdk api shown client_reliable
        cluster
        (world connected))
reconcile_eks_cluster-IsGone_example =
    reconcile_eks_cluster-IsGone spiffe kube templates client digest config sdk api shown
      client_reliable cluster true (world connected) store-IsKeyed connected-IsWellFormed refl

reconcile_cluster_event-missing_example :
    World.Deleted.After spiffe kube templates client digest config sdk api shown
      (reconcile_cluster_event spiffe kube templates client digest config sdk api shown
        (bytes "eu")
        (world connected))
      (World.Deleted.LosesNameless spiffe kube templates client digest config sdk api shown
        client_reliable
        (world connected))
reconcile_cluster_event-missing_example =
    reconcile_cluster_event-missing spiffe kube templates client digest config sdk api shown
      client_reliable (bytes "eu") (world connected) store-IsKeyed connected-IsWellFormed refl

synced_before : sync_clusters sdk shown (cluster ∷ []) (new_manager sdk) ≡ (ok tt, connected)
unfolding World.sync_clusters World.update_clusters World.existing_clusters World.remove_others
    Exec.for_each Exec.for_each_if Manager.get_all_connections lookup insert ◌==◌
synced_before = rw adds refl

all_seen :
    seen_all sdk shown
      (get_all_connections sdk (sync_clusters sdk shown (cluster ∷ []) (new_manager sdk)).1)
    ≡ conn ∷ []
unfolding Manager.get_all_connections
all_seen = rw synced_before refl

reconcile_all-reconciled_example :
    (w' : World spiffe kube client sdk api) × (reconcile_all spiffe kube templates client digest
        config sdk api shown
        (world (new_manager sdk))
      ≡ (ok tt, w'))
    × IsWellFormed sdk w'.manager
    × ((j : Text)
        → get_cluster_connection sdk j w'.manager ≡ (
            if World.Sync.enabled_in sdk shown j (cluster ∷ [])
            then get_cluster_connection sdk j w'.manager
            else none))
    × ((id : Text)
        → lookup text_keys id w'.spire
          ≡ outcome spiffe kube templates client digest config sdk api shown client_reliable
              (add_declared spiffe digest before plain_entry)
              store
              id)
reconcile_all-reconciled_example =
    reconcile_all-reconciled spiffe kube templates client digest config sdk api shown
      client_reliable (world (new_manager sdk)) (cluster ∷ []) (selecting ∷ [])
      (add_declared spiffe digest before plain_entry) quiet store-IsKeyed new_IsWellFormed describes
      refl refl (rw all_seen processed)

handle_pod_change-delete_example :
    (s' : Map Text (Entry spiffe)) × (PodEvents.delete_event spiffe kube templates client digest
        config sdk client_reliable
        (λ name. some conn)
        (selecting ∷ [])
        connected
        (bytes "eu")
        (tombstone (some pod))
        store
      ≡ (ok tt, s'))
    × ((id : Text)
        → lookup text_keys id s'
          ≡ PodEvents.after_delete spiffe kube templates client digest config sdk client_reliable
              (λ name. some conn)
              (selecting ∷ [])
              (is_connected sdk (bytes "eu") connected)
              (is_namespace_ignored config.ignore_namespaces (bytes "shop"))
              (of_pod spiffe kube templates client digest config client_reliable store store-IsKeyed
                pod)
              (lookup text_keys id store))
handle_pod_change-delete_example =
    handle_pod_change-delete spiffe kube templates client digest config sdk client_reliable
      (λ name. some conn) (selecting ∷ []) connected (bytes "eu") (tombstone (some pod)) pod store
      store-IsKeyed refl

there :
    get_cluster_connection sdk (bytes "eu") connected
    ≡ some (record { cluster = cluster; k8s_client = bytes "eu"; stop_ch = 0; last_connected = 5 })
unfolding get_cluster_connection lookup ◌==◌
there = refl

cleanup_orphaned_entries_for_cluster-IsOrphaned_example :
    (w' : World spiffe kube client sdk api) × (cleanup_orphaned_entries_for_cluster spiffe kube
        templates client digest config sdk api shown cluster
        (world connected)
      ≡ (ok tt, w'))
    × (w'.manager ≡ connected)
    × RemovesExactly spiffe
        (IsOrphaned spiffe kube templates client digest config sdk api shown cluster conn
          (selecting ∷ []))
        store
        w'.spire
cleanup_orphaned_entries_for_cluster-IsOrphaned_example =
    cleanup_orphaned_entries_for_cluster-IsOrphaned spiffe kube templates client digest config sdk
      api shown client_reliable (world connected) cluster
      (record { cluster = cluster; k8s_client = bytes "eu"; stop_ch = 0; last_connected = 5 })
      (selecting ∷ []) store-IsKeyed there refl (λ i m. quiet.selector i.spec.pod_selector)
