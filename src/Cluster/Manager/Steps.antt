-- ===== src/Cluster/Manager/Steps.antt =====
-- What one call of the manager keeps and returns, in a well-formed state.
use spire_eks_workload_regis.Prelude.{
  ℕ, ◌+◌, ◌≡◌, ◌⊎◌, refl, ap, false, List, [], ◌∷◌, none, Result, ok, err, panic, ltb, Bool,
  Bool-cases, Option-cases, inl, inr, arith,
}
use spire_eks_workload_regis.Prelude.Maps.{Map, lookup, delete, lookup_same-delete}
use spire_eks_workload_regis.Text.{Text}
use spire_eks_workload_regis.Api.{EksClusterRegistry, text_keys}
use spire_eks_workload_regis.Aws.{Sdk, ClientCache, get_cluster_client}
use spire_eks_workload_regis.Cluster.Manager.{
  ClusterConnection, Manager, count, create_k8s_client, create_cluster_connection,
  stop_cluster_connection, same_settings, open_connection, connect, add_or_update_cluster,
  remove_cluster, stop_all, shutdown,
}
use spire_eks_workload_regis.Cluster.Manager.Channels.{channels}
use spire_eks_workload_regis.Cluster.Manager.Invariant.{
  IsWellFormed, open_channel, stopped-IsWellFormed, updated-IsWellFormed, connected-IsWellFormed,
}

module _ (sdk : Sdk) where
  -- What a call must keep: the invariant, and no panic but one of GetClusterClient.
  pub record IsSafe (clients : ClientCache sdk) (now : ℕ) (cluster : EksClusterRegistry)
      (p : Result (Unit {0}) × Manager sdk) : Type 0 where
    pub well : IsWellFormed sdk p.1
    pub panics : p.0 ≡ panic → (get_cluster_client sdk now cluster clients).0 ≡ panic

  pub cached-IsWellFormed :
      (m : Manager sdk) (clients : ClientCache sdk)
      → IsWellFormed sdk m
      → IsWellFormed sdk (record m { clients = clients })
  cached-IsWellFormed m clients w = record {
    unique = w.unique;
    named = w.named;
    once = w.once;
    informers = w.informers;
  }

  connect-when :
      (synced : sdk.KubeClient → Bool) (now : ℕ) (cluster : EksClusterRegistry) (m : Manager sdk)
      (p : Result sdk.KubeClient × ClientCache sdk)
      → IsWellFormed sdk m
      → lookup text_keys cluster.meta.name m.clusters ≡ none
      → get_cluster_client sdk now cluster m.clients ≡ p
      → IsSafe m.clients now cluster (open_connection sdk synced now cluster m)
  unfolding create_cluster_connection create_k8s_client
  connect-when synced now cluster m (ok client, clients) w absent h =
      elim (Bool-cases (synced client)) [
        | inl q ↦ record {
          well = rw (h, q) (connected-IsWellFormed sdk now cluster client clients m w absent);
          panics = λ e. cc (rw (h, q) at e);
        }
        | inr q ↦ record {
          well = rw (h, q) (connected-IsWellFormed sdk now cluster client clients m w absent);
          panics = λ e. cc (rw (h, q) at e);
        }
      ]
  connect-when synced now cluster m (err e, clients) w absent h = record {
    well = rw h (cached-IsWellFormed m clients w);
    panics = λ e. cc (rw h at e);
  }
  connect-when synced now cluster m (panic, clients) w absent h = record {
    well = rw h (cached-IsWellFormed m clients w);
    panics = λ e. ap (λ (p : Result sdk.KubeClient × ClientCache sdk). p.0) h;
  }

  connect-IsSafe :
      (synced : sdk.KubeClient → Bool) (now : ℕ) (cluster : EksClusterRegistry) (m : Manager sdk)
      → IsWellFormed sdk m
      → lookup text_keys cluster.meta.name m.clusters ≡ none
      → IsSafe m.clients now cluster (connect sdk synced now cluster m)
  unfolding connect
  connect-IsSafe synced now cluster m w absent = elim (Bool-cases cluster.spec.enabled) [
    | inl on ↦ simp on (
        connect-when synced now cluster m (get_cluster_client sdk now cluster m.clients) w absent
          refl)
    | inr off ↦ simp off (record { well = w; panics = λ e. cc e })
  ]

  pub add_or_update_cluster-IsSafe :
      (synced : sdk.KubeClient → Bool) (now : ℕ) (cluster : EksClusterRegistry) (m : Manager sdk)
      → IsWellFormed sdk m
      → IsSafe m.clients now cluster (add_or_update_cluster sdk synced now cluster m)
  unfolding add_or_update_cluster stop_cluster_connection
  add_or_update_cluster-IsSafe synced now cluster m w =
      elim (Option-cases (lookup text_keys cluster.meta.name m.clusters)) [
        | inl absent ↦ rw absent (connect-IsSafe synced now cluster m w absent)
        | inr (c, there) ↦ elim (Bool-cases (same_settings sdk c.cluster cluster)) [
          | inl same ↦
              rw (there, same)
                (record { well = updated-IsWellFormed sdk m c cluster w there; panics = λ e. cc e })
          | inr other ↦
              let gone = lookup_same-delete text_keys cluster.meta.name m.clusters in
              rw (there, other, open_channel sdk m cluster.meta.name c w there)
                (connect-IsSafe synced now cluster
                  (record m {
                    clusters = delete text_keys cluster.meta.name m.clusters;
                    closed = c.stop_ch ∷ m.closed;
                  })
                  (stopped-IsWellFormed sdk m cluster.meta.name c w there) gone)
        ]
      ]

  pub remove_cluster-IsWellFormed :
      (name : Text) (m : Manager sdk)
      → IsWellFormed sdk m
      → ((remove_cluster sdk name m).0 ≡ ok tt)
        × IsWellFormed sdk (remove_cluster sdk name m).1
        × (lookup text_keys name (remove_cluster sdk name m).1.clusters ≡ none)
  unfolding remove_cluster stop_cluster_connection
  remove_cluster-IsWellFormed name m w = elim (Option-cases (lookup text_keys name m.clusters)) [
    | inl absent ↦ rw absent (refl, w, absent)
    | inr (c, there) ↦
        rw (there, open_channel sdk m name c w there)
          (
            refl,
            stopped-IsWellFormed sdk m name c w there,
            lookup_same-delete text_keys name m.clusters,
          )
  ]

  -- A loop over connections whose channels are open and differ closes each of them once.
  stop_all-closes :
      (l : Map Text (ClusterConnection sdk)) (m : Manager sdk)
      → ((x : ℕ)
          → (count x (channels sdk l) + count x m.closed ≡ 0)
            ⊎ (count x (channels sdk l) + count x m.closed ≡ 1))
      → (closed : List ℕ) × (stop_all sdk l m ≡ (ok tt, record m { closed = closed }))
        × ((x : ℕ) → count x closed ≡ count x (channels sdk l) + count x m.closed)
  unfolding stop_all stop_cluster_connection count
  stop_all-closes [] m h = (m.closed, refl, λ x. omega arith)
  stop_all-closes ((k, c) ∷ l) m h =
      let m' : Manager sdk = record m { closed = c.stop_ch ∷ m.closed } in
      let (closed, a, b) = stop_all-closes l m' (λ x. ground (arith, h x)) in
      let open_now : ltb 0 (count c.stop_ch m.closed) ≡ false = ground (arith, h c.stop_ch) in
      (closed, rw open_now a, λ x. omega (arith, b x))

  pub shutdown-IsWellFormed :
      (m : Manager sdk)
      → IsWellFormed sdk m
      → ((shutdown sdk m).0 ≡ ok tt)
        × IsWellFormed sdk (shutdown sdk m).1
        × ((shutdown sdk m).1.clusters ≡ [])
        × ((shutdown sdk m).1.next_channel ≡ m.next_channel)
  unfolding shutdown lookup count
  shutdown-IsWellFormed m w =
      let (closed, a, b) = stop_all-closes m.clusters m (λ x. ground (arith, w.once x)) in
      rw a (
        refl,
        record {
          unique = tt;
          named = λ k c h. cc h;
          once = λ x. omega (arith, b x, w.once x);
          informers = w.informers;
        },
        refl,
        refl,
      )
