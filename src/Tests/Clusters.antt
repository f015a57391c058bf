-- ===== src/Tests/Clusters.antt =====
-- The cluster manager at a sample cluster.
use spire_eks_workload_regis.Prelude.{
  ℕ, ◌≡◌, ◌≢◌, refl, true, ◌||◌, [], ◌∷◌, Option, some, none, ok, panic, if◌then◌else◌,
}
use spire_eks_workload_regis.Prelude.Maps.{lookup, insert}
use spire_eks_workload_regis.Text.{Text, bytes, ◌==◌}
use spire_eks_workload_regis.Api.{EksClusterRegistry, text_keys}
use spire_eks_workload_regis.Aws
use spire_eks_workload_regis.Aws.{Sdk, ClientCache, get_cluster_client, cached_or_new}
use spire_eks_workload_regis.Cluster.Manager
use spire_eks_workload_regis.Cluster.Manager.{
  Manager, ClusterConnection, count, new_manager, add_or_update_cluster, remove_cluster, shutdown,
  get_cluster_connection, get_all_connections, is_connected, tombstone,
}
use spire_eks_workload_regis.Cluster.Manager.Invariant.{IsWellFormed, new_manager-IsWellFormed}
use spire_eks_workload_regis.Cluster.Manager.Reached.{
  Step, Reach, Reach-IsWellFormed, calls_never_panic, shutdown-stops_all,
}
use spire_eks_workload_regis.Cluster.Manager.Outcome.{
  add_or_update_cluster-is_connected, add_or_update_cluster-old_client,
}
use spire_eks_workload_regis.Controller.World.{Clusters}
use spire_eks_workload_regis.Controller.World.Sync.{Describes}
use spire_eks_workload_regis.Tests.Samples.{cluster, pod, node}
use spire_eks_workload_regis.Tests.Cycle.{labelled}

-- Each cluster is there, and its client is its endpoint.
abbrev pub sdk : Sdk
sdk = record {
  KubeClient = Text;
  RestConfig = Text;
  describe_cluster = λ now region name.
      ok (record { certificate_authority = some (some (bytes "ca")); endpoint = some name });
  decode_base64 = λ t. ok t;
  client_config = λ c. ok c.server;
  new_for_config = λ t. ok t;
  to_yaml = λ c. ok c.server;
}

abbrev pub shown : Clusters sdk
shown = record {
  now = 5;
  synced = λ c. true;
  objects = λ c. some pod ∷ none ∷ some labelled ∷ [];
  get_node = λ c name. ok node;
}

abbrev pub connected : Manager sdk
connected = record {
  clients = (bytes "eu", record { client = bytes "eu"; last_used = 5 }) ∷ [];
  clusters =
      (
        bytes "eu",
        record { cluster = cluster; k8s_client = bytes "eu"; stop_ch = 0; last_connected = 5 },
      )
      ∷ [];
  next_channel = 1;
  closed = [];
  started = 0 ∷ [];
}

pub adds : add_or_update_cluster sdk shown.synced 5 cluster (new_manager sdk) ≡ (ok tt, connected)
unfolding Manager.add_or_update_cluster Manager.connect Manager.create_cluster_connection
    Manager.create_k8s_client Manager.new_manager Aws.get_cluster_client Aws.create_cluster_client
    Aws.describe_config Aws.new_kube_config_for_cluster Aws.build_aws_args lookup insert ◌==◌
adds = refl

pub new_IsWellFormed : IsWellFormed sdk (new_manager sdk)
new_IsWellFormed = new_manager-IsWellFormed sdk

connected-Reach : Reach sdk connected
connected-Reach =
    let first : Step sdk (new_manager sdk)
        (add_or_update_cluster sdk shown.synced 5 cluster (new_manager sdk)).1 =
      Step.added shown.synced 5 cluster in
    rw adds at (Reach.next Reach.start first)

pub connected-IsWellFormed : IsWellFormed sdk connected
connected-IsWellFormed = Reach-IsWellFormed sdk connected connected-Reach

client_returned :
    (o : Option (Aws.ClusterClient sdk)) (m : ClientCache sdk)
    → (cached_or_new sdk o 5 cluster m).0 ≢ panic
unfolding Aws.create_cluster_client Aws.describe_config Aws.new_kube_config_for_cluster
client_returned none m e = cc e
client_returned (some c) m e = cc e

pub describes : Describes sdk shown (cluster ∷ [])
unfolding Aws.get_cluster_client
describes = (λ clients. client_returned (lookup text_keys (bytes "eu") clients) clients, tt)

Reach-IsWellFormed_example : IsWellFormed sdk connected
Reach-IsWellFormed_example = Reach-IsWellFormed sdk connected connected-Reach

calls_never_panic_example :
    ((remove_cluster sdk (bytes "eu") connected).0 ≡ ok tt)
    × (lookup text_keys (bytes "eu") (remove_cluster sdk (bytes "eu") connected).1.clusters ≡ none)
    × ((shutdown sdk connected).0 ≡ ok tt)
    × ((add_or_update_cluster sdk shown.synced 5 cluster connected).0 ≢ panic)
calls_never_panic_example =
    calls_never_panic sdk connected (bytes "eu") shown.synced 5 cluster connected-Reach
      (describes.0 connected.clients)

shutdown-stops_all_example :
    ((shutdown sdk connected).1.clusters ≡ [])
    × ((x : ℕ) → count x (shutdown sdk connected).1.closed ≡ count x connected.started)
shutdown-stops_all_example = shutdown-stops_all sdk connected connected-Reach

-- The cluster with another region.
abbrev moved : EksClusterRegistry
moved = record cluster { spec = record cluster.spec { region = bytes "eu-2" } }

add_or_update_cluster-is_connected_example :
    (is_connected sdk (bytes "eu") connected ≡ (
      true
      || Manager.Outcome.keeps sdk
          (get_cluster_connection sdk (bytes "eu") (new_manager sdk))
          cluster))
    × ((j : Text)
        → get_cluster_connection sdk j connected ≡ (
            if bytes "eu" == j
            then get_cluster_connection sdk j connected
            else get_cluster_connection sdk j (new_manager sdk)))
add_or_update_cluster-is_connected_example =
    add_or_update_cluster-is_connected sdk shown.synced 5 cluster (new_manager sdk) connected
      new_IsWellFormed adds

add_or_update_cluster-old_client_example :
    (conn' : ClusterConnection sdk) × (get_cluster_connection sdk
        (bytes "eu")
        (add_or_update_cluster sdk shown.synced 9 moved connected).1
      ≡ some conn')
    × (conn'.cluster ≡ moved)
    × (conn'.k8s_client ≡ bytes "eu")
unfolding get_cluster_connection Manager.same_settings lookup ◌==◌
add_or_update_cluster-old_client_example =
    add_or_update_cluster-old_client sdk shown.synced 9 moved connected
      (record { cluster = cluster; k8s_client = bytes "eu"; stop_ch = 0; last_connected = 5 })
      (record { client = bytes "eu"; last_used = 5 }) connected-IsWellFormed refl refl refl refl
