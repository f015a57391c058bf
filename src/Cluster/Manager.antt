-- ===== src/Cluster/Manager.antt =====
-- internal/cluster/manager.go: the table of connections, the stop channels that were made and
-- closed, and the informers that were started. A channel is its number; closing one twice panics.
-- Each method holds the lock, so its calls come one after the other.
pub mod Channels
pub mod Invariant
pub mod Outcome
pub mod Reached
pub mod Steps
use spire_eks_workload_regis.Prelude.{
  ℕ, suc, ◌+◌, ◌≡◌, Bool, true, false, not, ◌&&◌, List, [], ◌∷◌, Option, none, some, Result, ok,
  err, panic, errorf, if◌then◌else◌, ltb, ◌==◌ as nat_eq,
}
use spire_eks_workload_regis.Prelude.Exec.{Exec, pure, raise, lift, modify, wrapping, ◌>>=◌, ◌>>◌}
use spire_eks_workload_regis.Prelude.Maps.{Map, lookup, insert, delete}
use spire_eks_workload_regis.Text.{Text, ◌==◌}
use spire_eks_workload_regis.Api.{EksClusterRegistry, Pod, text_keys}
use spire_eks_workload_regis.Aws.{Sdk, ClientCache, get_cluster_client}

-- How often a channel stands in a list.
unfoldable pub count : ℕ → List ℕ → ℕ
count x [] = 0
count x (y ∷ l) = (if nat_eq y x then 1 else 0) + count x l

module _ (sdk : Sdk) where
  -- type ClusterConnection; its informer is the one of its stop channel
  pub record ClusterConnection : Type 0 where
    pub cluster : EksClusterRegistry
    pub k8s_client : sdk.KubeClient
    pub stop_ch : ℕ
    pub last_connected : ℕ

  -- type Manager, with what its calls did to channels and informers
  pub record Manager : Type 0 where
    pub clients : ClientCache sdk
    pub clusters : Map Text ClusterConnection
    pub next_channel : ℕ
    pub closed : List ℕ
    pub started : List ℕ

  -- NewManager, after aws.NewManager
  unfoldable pub new_manager : Manager
  new_manager = record { clients = []; clusters = []; next_channel = 0; closed = []; started = [] }

  abbrev with_clients :
      Manager → Result sdk.KubeClient × ClientCache sdk → Result sdk.KubeClient × Manager
  with_clients m (r, clients) = (r, record m { clients = clients })

  -- createK8sClient
  unfoldable pub create_k8s_client : ℕ → EksClusterRegistry → Exec Manager sdk.KubeClient
  create_k8s_client now cluster m = with_clients m (get_cluster_client sdk now cluster m.clients)

  -- StopCh: make(chan struct{}), at a time
  abbrev make_connection : ℕ → EksClusterRegistry → sdk.KubeClient → Exec Manager ClusterConnection
  make_connection now cluster k8s_client m = (
    ok (record {
      cluster = cluster;
      k8s_client = k8s_client;
      stop_ch = m.next_channel;
      last_connected = now;
    }),
    record m { next_channel = suc m.next_channel },
  )

  -- createClusterConnection
  unfoldable pub create_cluster_connection : ℕ → EksClusterRegistry → Exec Manager ClusterConnection
  create_cluster_connection now cluster =
      create_k8s_client now cluster >>= make_connection now cluster

  -- stopClusterConnection
  unfoldable pub stop_cluster_connection : ClusterConnection → Exec Manager (Unit {0})
  stop_cluster_connection conn m =
      if ltb 0 (count conn.stop_ch m.closed)
      then (panic, m)
      else (ok tt, record m { closed = conn.stop_ch ∷ m.closed })

  abbrev pub put : Text → ClusterConnection → Manager → Manager
  put name conn m = record m { clusters = insert text_keys name conn m.clusters }

  abbrev pub drop_cluster : Text → Manager → Manager
  drop_cluster name m = record m { clusters = delete text_keys name m.clusters }

  abbrev pub start_informer : ClusterConnection → Manager → Manager
  start_informer conn m = record m { started = conn.stop_ch ∷ m.started }

  -- The settings of a cluster that need a new connection.
  unfoldable pub same_settings : EksClusterRegistry → EksClusterRegistry → Bool
  same_settings a b =
      a.spec.cluster_name == b.spec.cluster_name
      && (a.spec.region == b.spec.region && a.spec.assume_role_arn == b.spec.assume_role_arn)

  -- cache.WaitForCacheSync returned
  abbrev sync_result : Bool → Exec Manager (Unit {0})
  sync_result true = pure tt
  sync_result false = raise (errorf "failed to sync pod cache")

  abbrev pub open_connection :
      (sdk.KubeClient → Bool) → ℕ → EksClusterRegistry → Exec Manager (Unit {0})
  open_connection synced now cluster =
      wrapping "failed to create cluster connection" (create_cluster_connection now cluster)
      >>= λ conn.
          modify (put cluster.meta.name conn)
          >> modify (start_informer conn)
          >> sync_result (synced conn.k8s_client)

  -- The end of AddOrUpdateCluster: a new connection, if the cluster is enabled.
  unfoldable pub connect :
      (sdk.KubeClient → Bool) → ℕ → EksClusterRegistry → Exec Manager (Unit {0})
  connect synced now cluster =
      if not cluster.spec.enabled then pure tt else open_connection synced now cluster

  abbrev pub update_or_reconnect :
      Option ClusterConnection
      → (sdk.KubeClient → Bool)
      → ℕ
      → EksClusterRegistry
      → Exec Manager (Unit {0})
  update_or_reconnect none synced now cluster = connect synced now cluster
  update_or_reconnect (some existing) synced now cluster =
      if same_settings existing.cluster cluster
      then modify (put cluster.meta.name (record existing { cluster = cluster }))
      else stop_cluster_connection existing
        >> modify (drop_cluster cluster.meta.name)
        >> connect synced now cluster

  -- AddOrUpdateCluster, at a time, and with what WaitForCacheSync returns for a client
  unfoldable pub add_or_update_cluster :
      (sdk.KubeClient → Bool) → ℕ → EksClusterRegistry → Exec Manager (Unit {0})
  add_or_update_cluster synced now cluster m =
      update_or_reconnect (lookup text_keys cluster.meta.name m.clusters) synced now cluster m

  abbrev pub stop_and_drop : Option ClusterConnection → Text → Exec Manager (Unit {0})
  stop_and_drop none name = pure tt
  stop_and_drop (some conn) name = stop_cluster_connection conn >> modify (drop_cluster name)

  -- RemoveCluster
  unfoldable pub remove_cluster : Text → Exec Manager (Unit {0})
  remove_cluster name m = stop_and_drop (lookup text_keys name m.clusters) name m

  -- GetClusterConnection
  unfoldable pub get_cluster_connection : Text → Manager → Option ClusterConnection
  get_cluster_connection name m = lookup text_keys name m.clusters

  -- GetAllConnections
  abbrev pub connections_of : Map Text ClusterConnection → List ClusterConnection
  connections_of [] = []
  connections_of ((name, conn) ∷ clusters) = conn ∷ connections_of clusters

  unfoldable pub get_all_connections : Manager → List ClusterConnection
  get_all_connections m = connections_of m.clusters

  -- IsConnected
  abbrev is_there : Option ClusterConnection → Bool
  is_there none = false
  is_there (some conn) = true

  unfoldable pub is_connected : Text → Manager → Bool
  is_connected name m = is_there (lookup text_keys name m.clusters)

  -- The loop of Shutdown.
  unfoldable pub stop_all : Map Text ClusterConnection → Exec Manager (Unit {0})
  stop_all [] = pure tt
  stop_all ((name, conn) ∷ clusters) = stop_cluster_connection conn >> stop_all clusters

  -- Shutdown
  unfoldable pub shutdown : Exec Manager (Unit {0})
  shutdown m = (stop_all m.clusters >> modify (λ m'. record m' { clusters = [] })) m

-- What an informer hands to its handlers: a pod, the tombstone of an object, or something else.
pub data PodObject : Type 0 where
  a_pod : Pod → PodObject
  tombstone : Option Pod → PodObject
  unknown : PodObject

-- The pod of an object; none where handlePodChange returns early.
abbrev pub pod_of : PodObject → Option Pod
pod_of (a_pod pod) = some pod
pod_of (tombstone o) = o
pod_of unknown = none

module _ (sdk : Sdk) {S : Type 0} where
  abbrev reconcile_connected :
      Option (ClusterConnection sdk)
      → (Pod → EksClusterRegistry → Text → Exec S (Unit {0}))
      → Pod
      → Text
      → Exec S (Unit {0})
  reconcile_connected none reconcile pod action = pure tt
  reconcile_connected (some conn) reconcile pod action = reconcile pod conn.cluster action

  abbrev pod_changed :
      Option Pod
      → Option (Pod → EksClusterRegistry → Text → Exec S (Unit {0}))
      → Option (Exec S (Unit {0}))
      → Option (ClusterConnection sdk)
      → Text
      → Exec S (Unit {0})
  pod_changed none reconciler triggerer conn action = pure tt
  pod_changed (some pod) (some reconcile) triggerer conn action =
      reconcile_connected conn reconcile pod action
  pod_changed (some pod) none (some trigger) conn action = trigger
  pod_changed (some pod) none none conn action = pure tt

  -- handlePodChange, of the manager as it stands, with its podReconciler and triggerer
  unfoldable pub handle_pod_change :
      Option (Pod → EksClusterRegistry → Text → Exec S (Unit {0}))
      → Option (Exec S (Unit {0}))
      → Manager sdk
      → Text
      → PodObject
      → Text
      → Exec S (Unit {0})
  handle_pod_change reconciler triggerer m action obj cluster_name =
      pod_changed (pod_of obj) reconciler triggerer (get_cluster_connection sdk cluster_name m)
        action
