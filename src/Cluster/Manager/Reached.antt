-- ===== src/Cluster/Manager/Reached.antt =====
-- The calls of the manager as a step relation, and what holds in every state that they reach.
use spire_eks_workload_regis.Prelude.{
  ℕ, ◌≡◌, ◌≢◌, ap, Bool, none, [], ok, panic, if◌then◌else◌, ltb, arith,
}
use spire_eks_workload_regis.Prelude.Maps.{Map, lookup}
use spire_eks_workload_regis.Text.{Text}
use spire_eks_workload_regis.Api.{EksClusterRegistry, text_keys}
use spire_eks_workload_regis.Aws.{Sdk, get_cluster_client, cleanup_stale_clients}
use spire_eks_workload_regis.Cluster.Manager.{
  ClusterConnection, Manager, count, new_manager, add_or_update_cluster, remove_cluster, shutdown,
}
use spire_eks_workload_regis.Cluster.Manager.Channels.{channels}
use spire_eks_workload_regis.Cluster.Manager.Invariant.{IsWellFormed, new_manager-IsWellFormed}
use spire_eks_workload_regis.Cluster.Manager.Steps.{
  cached-IsWellFormed, add_or_update_cluster-IsSafe, remove_cluster-IsWellFormed,
  shutdown-IsWellFormed,
}

module _ (sdk : Sdk) where
  -- One call that changes the manager, by any goroutine, whatever it returned.
  pub data Step : Manager sdk → Manager sdk → Type 0 where
    added :
        {m : Manager sdk} (synced : sdk.KubeClient → Bool) (now : ℕ) (cluster : EksClusterRegistry)
        → Step m (add_or_update_cluster sdk synced now cluster m).1
    removed : {m : Manager sdk} (name : Text) → Step m (remove_cluster sdk name m).1
    cleaned :
        {m : Manager sdk} (now : ℕ)
        → Step m (record m { clients = cleanup_stale_clients sdk now m.clients })
    shut : {m : Manager sdk} → Step m (shutdown sdk m).1

  pub data Reach : Manager sdk → Type 0 where
    start : Reach (new_manager sdk)
    next : {m m' : Manager sdk} → Reach m → Step m m' → Reach m'

  Step-IsWellFormed : {m m' : Manager sdk} → Step m m' → IsWellFormed sdk m → IsWellFormed sdk m'
  Step-IsWellFormed {m} {m'} (added synced now cluster) w =
      (add_or_update_cluster-IsSafe sdk synced now cluster m w).well
  Step-IsWellFormed {m} {m'} (removed name) w = (remove_cluster-IsWellFormed sdk name m w).1
  Step-IsWellFormed {m} {m'} (cleaned now) w =
      cached-IsWellFormed sdk m (cleanup_stale_clients sdk now m.clients) w
  Step-IsWellFormed {m} {m'} shut w = (shutdown-IsWellFormed sdk m w).1

  -- In every state that the calls reach, a connection stands under its cluster's name, each
  -- stop channel that was made is that of one connection or was closed, and then only once, and one
  -- informer was started for each channel.
  pub Reach-IsWellFormed : (m : Manager sdk) → Reach m → IsWellFormed sdk m
  Reach-IsWellFormed _ start = new_manager-IsWellFormed sdk
  Reach-IsWellFormed m (next r s) = Step-IsWellFormed s (Reach-IsWellFormed _ r)

  -- In every state that the calls reach, RemoveCluster does not panic and leaves no connection of that
  -- name, Shutdown does not panic, and AddOrUpdateCluster does not panic if GetClusterClient does not.
  pub calls_never_panic :
      (m : Manager sdk) (name : Text) (synced : sdk.KubeClient → Bool) (now : ℕ)
      (cluster : EksClusterRegistry)
      → Reach m
      → (get_cluster_client sdk now cluster m.clients).0 ≢ panic
      → ((remove_cluster sdk name m).0 ≡ ok tt)
        × (lookup text_keys name (remove_cluster sdk name m).1.clusters ≡ none)
        × ((shutdown sdk m).0 ≡ ok tt)
        × ((add_or_update_cluster sdk synced now cluster m).0 ≢ panic)
  calls_never_panic m name synced now cluster r h =
      let w = Reach-IsWellFormed m r in
      let (a, b, c) = remove_cluster-IsWellFormed sdk name m w in
      (
        a,
        c,
        (shutdown-IsWellFormed sdk m w).0,
        λ e. h ((add_or_update_cluster-IsSafe sdk synced now cluster m w).panics e),
      )

  -- After Shutdown, in every state that the calls reach, no connection is left, and every informer that
  -- was ever started has had its stop channel closed, once; no other channel is closed.
  pub shutdown-stops_all :
      (m : Manager sdk)
      → Reach m
      → ((shutdown sdk m).1.clusters ≡ [])
        × ((x : ℕ) → count x (shutdown sdk m).1.closed ≡ count x m.started)
  unfolding count
  shutdown-stops_all m r =
      let (a, w, e, n) = shutdown-IsWellFormed sdk m (Reach-IsWellFormed m r) in
      let left =
        λ (x : ℕ). ap (λ (l : Map Text (ClusterConnection sdk)). count x (channels sdk l)) e in
      let made = λ (x : ℕ). ap {B = ℕ} (λ (bound : ℕ). if ltb x bound then 1 else 0) n in
      (e, λ x. omega (arith, w.once x, left x, made x, (Reach-IsWellFormed m r).informers x))
