-- ===== src/Cluster/Manager/Outcome.antt =====
-- Which clusters are connected after AddOrUpdateCluster.
use spire_eks_workload_regis.Prelude.{
  ℕ, ◌≡◌, ◌∷◌, refl, ◌∙◌, true, false, ◌||◌, Option, none, some, Result, ok, err, panic, Bool,
  Bool-cases, Option-cases, inl, inr, arith, if◌then◌else◌,
}
use spire_eks_workload_regis.Prelude.Maps.{
  lookup, insert, delete, lookup_same-insert, lookup_other-insert, lookup_same-delete,
  lookup_other-delete,
}
use spire_eks_workload_regis.Text.{Text, ◌==◌}
use spire_eks_workload_regis.Api.{EksClusterRegistry, text_keys}
use spire_eks_workload_regis.Aws.{Sdk, ClusterClient, ClientCache, get_cluster_client}
use spire_eks_workload_regis.Cluster.Manager.{
  ClusterConnection, Manager, create_k8s_client, create_cluster_connection, stop_cluster_connection,
  same_settings, open_connection, connect, add_or_update_cluster, get_cluster_connection,
  is_connected,
}
use spire_eks_workload_regis.Cluster.Manager.Invariant.{IsWellFormed, open_channel}

module _ (sdk : Sdk) where
  abbrev pub keeps : Option (ClusterConnection sdk) → EksClusterRegistry → Bool
  keeps none cluster = false
  keeps (some c) cluster = same_settings sdk c.cluster cluster

  -- A call that succeeds, on a table that has the given clusters.
  Connects : EksClusterRegistry → Bool → Manager sdk → Result (Unit {0}) × Manager sdk → Type 0
  Connects cluster there m p =
      (p.0 ≡ ok tt → is_connected sdk cluster.meta.name p.1 ≡ there)
      × ((j : Text)
          → (cluster.meta.name == j) ≡ false
          → get_cluster_connection sdk j p.1 ≡ get_cluster_connection sdk j m)

  abbrev made : ℕ → EksClusterRegistry → sdk.KubeClient → Manager sdk → ClusterConnection sdk
  made now cluster client m = record {
    cluster = cluster;
    k8s_client = client;
    stop_ch = m.next_channel;
    last_connected = now;
  }

  open_connection-Connects :
      (synced : sdk.KubeClient → Bool) (now : ℕ) (cluster : EksClusterRegistry) (m : Manager sdk)
      (p : Result sdk.KubeClient × ClientCache sdk)
      → get_cluster_client sdk now cluster m.clients ≡ p
      → Connects cluster true m (open_connection sdk synced now cluster m)
  unfolding create_cluster_connection create_k8s_client Connects is_connected get_cluster_connection
  open_connection-Connects synced now cluster m (ok client, clients) h =
      elim (Bool-cases (synced client)) [
        | inl q ↦
            rw (h, q)
              (
                λ e.
                    rw
                      (lookup_same-insert text_keys cluster.meta.name (made now cluster client m)
                        m.clusters)
                      refl,
                λ j d.
                    lookup_other-insert text_keys cluster.meta.name j (made now cluster client m)
                      m.clusters d,
              )
        | inr q ↦
            rw (h, q)
              (
                λ e. cc e,
                λ j d.
                    lookup_other-insert text_keys cluster.meta.name j (made now cluster client m)
                      m.clusters d,
              )
      ]
  open_connection-Connects synced now cluster m (err e, clients) h = rw h (λ q. cc q, λ j d. refl)
  open_connection-Connects synced now cluster m (panic, clients) h = rw h (λ q. cc q, λ j d. refl)

  connect-Connects :
      (synced : sdk.KubeClient → Bool) (now : ℕ) (cluster : EksClusterRegistry) (m : Manager sdk)
      → lookup text_keys cluster.meta.name m.clusters ≡ none
      → Connects cluster cluster.spec.enabled m (connect sdk synced now cluster m)
  unfolding connect Connects is_connected
  connect-Connects synced now cluster m absent = elim (Bool-cases cluster.spec.enabled) [
    | inl on ↦ simp on (
        open_connection-Connects synced now cluster m (get_cluster_client sdk now cluster m.clients)
          refl)
    | inr off ↦ simp off (λ e. rw absent refl, λ j d. refl)
  ]

  outcome :
      (synced : sdk.KubeClient → Bool) (now : ℕ) (cluster : EksClusterRegistry) (m : Manager sdk)
      → IsWellFormed sdk m
      → let p = add_or_update_cluster sdk synced now cluster m in
        (p.0 ≡ ok tt
          → is_connected sdk cluster.meta.name p.1 ≡ (
              cluster.spec.enabled
              || keeps (get_cluster_connection sdk cluster.meta.name m) cluster))
        × ((j : Text)
            → (cluster.meta.name == j) ≡ false
            → get_cluster_connection sdk j p.1 ≡ get_cluster_connection sdk j m)
  unfolding add_or_update_cluster stop_cluster_connection Connects get_cluster_connection
      is_connected
  outcome synced now cluster m w =
      elim (Option-cases (lookup text_keys cluster.meta.name m.clusters)) [
        | inl absent ↦
            let (a, b) = connect-Connects synced now cluster m absent in
            rw absent (λ e. a e ∙ ground arith, b)
        | inr (c, there) ↦ elim (Bool-cases (same_settings sdk c.cluster cluster)) [
          | inl same ↦
              rw (there, same)
                (
                  λ e.
                      rw
                        (lookup_same-insert text_keys cluster.meta.name
                          (record c { cluster = cluster }) m.clusters)
                        (ground arith),
                  λ j d.
                      lookup_other-insert text_keys cluster.meta.name j
                        (record c { cluster = cluster }) m.clusters d,
                )
          | inr other ↦
              let gone = lookup_same-delete text_keys cluster.meta.name m.clusters in
              let m' : Manager sdk = record m {
                clusters = delete text_keys cluster.meta.name m.clusters;
                closed = c.stop_ch ∷ m.closed;
              } in
              let (a, b) = connect-Connects synced now cluster m' gone in
              rw (there, other, open_channel sdk m cluster.meta.name c w there)
                (
                  λ e. a e ∙ ground arith,
                  λ j d. b j d ∙ lookup_other-delete text_keys cluster.meta.name j m.clusters d,
                )
        ]
      ]

  -- A call of AddOrUpdateCluster that succeeds on a well-formed manager leaves the cluster connected
  -- exactly when it is enabled, or when it was connected before with the same EKS name, region and
  -- role; and it does not touch the connection of another cluster.
  pub add_or_update_cluster-is_connected :
      (synced : sdk.KubeClient → Bool) (now : ℕ) (cluster : EksClusterRegistry) (m m' : Manager sdk)
      → IsWellFormed sdk m
      → add_or_update_cluster sdk synced now cluster m ≡ (ok tt, m')
      → (is_connected sdk cluster.meta.name m' ≡ (
          cluster.spec.enabled || keeps (get_cluster_connection sdk cluster.meta.name m) cluster))
        × ((j : Text)
            → get_cluster_connection sdk j m' ≡ (
                if cluster.meta.name == j
                then get_cluster_connection sdk j m'
                else get_cluster_connection sdk j m))
  add_or_update_cluster-is_connected synced now cluster m m' w h =
      let (a, b) = rw h at (outcome synced now cluster m w) in
      (
        a refl,
        λ j. elim (Bool-cases (cluster.meta.name == j)) [
          | inl same ↦ rw same refl
          | inr other ↦ rw other (b j other)
        ],
      )

  open_connection-made :
      (synced : sdk.KubeClient → Bool) (now : ℕ) (cluster : EksClusterRegistry) (m : Manager sdk)
      (client : sdk.KubeClient) (clients : ClientCache sdk)
      → get_cluster_client sdk now cluster m.clients ≡ (ok client, clients)
      → get_cluster_connection sdk cluster.meta.name (open_connection sdk synced now cluster m).1
        ≡ some (made now cluster client m)
  unfolding create_cluster_connection create_k8s_client get_cluster_connection
  open_connection-made synced now cluster m client clients h =
      let found =
        lookup_same-insert text_keys cluster.meta.name (made now cluster client m) m.clusters in
      elim (Bool-cases (synced client)) [ inl q ↦ rw (h, q) found | inr q ↦ rw (h, q) found ]

  connect-made :
      (synced : sdk.KubeClient → Bool) (now : ℕ) (cluster : EksClusterRegistry) (m : Manager sdk)
      (client : sdk.KubeClient) (clients : ClientCache sdk)
      → cluster.spec.enabled ≡ true
      → get_cluster_client sdk now cluster m.clients ≡ (ok client, clients)
      → get_cluster_connection sdk cluster.meta.name (connect sdk synced now cluster m).1
        ≡ some (made now cluster client m)
  unfolding connect
  connect-made synced now cluster m client clients on h =
      simp on (open_connection-made synced now cluster m client clients h)

  -- AddOrUpdateCluster of a connected cluster whose EKS name, region or role has changed, and that is
  -- enabled, on a well-formed manager: while the client of that name is in the cache, the new connection
  -- has the new cluster, but the old client.
  pub add_or_update_cluster-old_client :
      (synced : sdk.KubeClient → Bool) (now : ℕ) (cluster : EksClusterRegistry) (m : Manager sdk)
      (conn : ClusterConnection sdk) (c : ClusterClient sdk)
      → IsWellFormed sdk m
      → get_cluster_connection sdk cluster.meta.name m ≡ some conn
      → same_settings sdk conn.cluster cluster ≡ false
      → cluster.spec.enabled ≡ true
      → lookup text_keys cluster.meta.name m.clients ≡ some c
      → (conn' : ClusterConnection sdk) × (get_cluster_connection sdk cluster.meta.name
            (add_or_update_cluster sdk synced now cluster m).1
          ≡ some conn')
        × (conn'.cluster ≡ cluster)
        × (conn'.k8s_client ≡ c.client)
  unfolding add_or_update_cluster stop_cluster_connection get_cluster_connection get_cluster_client
  add_or_update_cluster-old_client synced now cluster m conn c w there changed on cached =
      let m' : Manager sdk = record m {
        clusters = delete text_keys cluster.meta.name m.clusters;
        closed = conn.stop_ch ∷ m.closed;
      } in
      let used =
        insert text_keys cluster.meta.name (record { client = c.client; last_used = now })
          m.clients in
      (
        made now cluster c.client m',
        rw (there, changed, open_channel sdk m cluster.meta.name conn w there)
            (connect-made synced now cluster m' c.client used on (rw cached refl)),
        refl,
        refl,
      )
