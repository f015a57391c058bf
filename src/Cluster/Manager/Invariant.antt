-- ===== src/Cluster/Manager/Invariant.antt =====
-- What every call of the manager keeps.
use spire_eks_workload_regis.Prelude.{
  ℕ, suc, ◌+◌, ◌≡◌, refl, ap, sym, ◌∙◌, false, ◌∷◌, none, some, if◌then◌else◌, ltb, Bool-cases, inl,
  inr, arith,
}
use spire_eks_workload_regis.Prelude.Maps.{
  lookup, insert, delete, Unique, lookup-insert, lookup-delete, insert-Unique, delete-Unique,
}
use spire_eks_workload_regis.Text.{Text, ◌==◌, eq_iff}
use spire_eks_workload_regis.Api.{EksClusterRegistry, text_keys}
use spire_eks_workload_regis.Aws.{Sdk, ClientCache}
use spire_eks_workload_regis.Cluster.Manager.{ClusterConnection, Manager, count, new_manager, put}
use spire_eks_workload_regis.Cluster.Manager.Channels.{
  channels, count-insert_new, count-replace, count-delete, count-lookup,
}

module _ (sdk : Sdk) where
  -- A connection stands under its cluster's name; each channel that was made is the stop channel of
  -- one connection, or was closed once; and one informer was started for each.
  pub record IsWellFormed (m : Manager sdk) : Type 0 where
    pub unique : Unique text_keys m.clusters
    pub named :
        (k : Text) (c : ClusterConnection sdk)
        → lookup text_keys k m.clusters ≡ some c
        → c.cluster.meta.name ≡ k
    pub once :
        (x : ℕ)
        → count x (channels sdk m.clusters) + count x m.closed
          ≡ (if ltb x m.next_channel then 1 else 0)
    pub informers : (x : ℕ) → count x m.started ≡ (if ltb x m.next_channel then 1 else 0)

  pub new_manager-IsWellFormed : IsWellFormed (new_manager sdk)
  unfolding new_manager lookup count
  new_manager-IsWellFormed = record {
    unique = tt;
    named = λ k c h. cc h;
    once = λ x. ground arith;
    informers = λ x. ground arith;
  }

  -- A connection of the table is open.
  pub open_channel :
      (m : Manager sdk) (k : Text) (c : ClusterConnection sdk)
      → IsWellFormed m
      → lookup text_keys k m.clusters ≡ some c
      → ltb 0 (count c.stop_ch m.closed) ≡ false
  open_channel m k c w h =
      let (n, q) = count-lookup sdk k c m.clusters w.unique h in ground (arith, w.once c.stop_ch, q)

  pub stopped-IsWellFormed :
      (m : Manager sdk) (k : Text) (c : ClusterConnection sdk)
      → IsWellFormed m
      → lookup text_keys k m.clusters ≡ some c
      → IsWellFormed
          (record m { clusters = delete text_keys k m.clusters; closed = c.stop_ch ∷ m.closed })
  unfolding count
  stopped-IsWellFormed m k c w h = record {
    unique = delete-Unique text_keys k m.clusters w.unique;
    named = λ j d q. w.named j d (ground (arith, lookup-delete text_keys k j m.clusters, q));
    once = λ x. omega (arith, w.once x, count-delete sdk x k c m.clusters w.unique h);
    informers = w.informers;
  }

  pub updated-IsWellFormed :
      (m : Manager sdk) (c : ClusterConnection sdk) (cluster : EksClusterRegistry)
      → IsWellFormed m
      → lookup text_keys cluster.meta.name m.clusters ≡ some c
      → IsWellFormed (put sdk cluster.meta.name (record c { cluster = cluster }) m)
  updated-IsWellFormed m c cluster w h = record {
    unique =
        insert-Unique text_keys cluster.meta.name (record c { cluster = cluster }) m.clusters
          w.unique;
    named = λ j d q. elim (Bool-cases (cluster.meta.name == j)) [
      | inl e ↦
          let found : some (record c { cluster = cluster }) ≡ some d =
            sym (lookup-insert text_keys cluster.meta.name j _ m.clusters ∙ rw e refl) ∙ q in
          let same : record c { cluster = cluster } ≡ d = cc found in
          ap (λ (y : ClusterConnection sdk). y.cluster.meta.name) (sym same)
          ∙ (eq_iff cluster.meta.name j).0 e
      | inr e ↦
          w.named j d
            (sym (lookup-insert text_keys cluster.meta.name j _ m.clusters ∙ rw e refl) ∙ q)
    ];
    once = λ x. omega (
      arith,
      w.once x,
      count-replace sdk x cluster.meta.name (record c { cluster = cluster }) c m.clusters h refl,
    );
    informers = w.informers;
  }

  -- The manager after a new connection.
  abbrev pub connected :
      ℕ → EksClusterRegistry → sdk.KubeClient → ClientCache sdk → Manager sdk → Manager sdk
  connected now cluster client clients m = record {
    clients = clients;
    clusters =
        insert text_keys cluster.meta.name
          (record {
            cluster = cluster;
            k8s_client = client;
            stop_ch = m.next_channel;
            last_connected = now;
          })
          m.clusters;
    next_channel = suc m.next_channel;
    closed = m.closed;
    started = m.next_channel ∷ m.started;
  }

  pub connected-IsWellFormed :
      (now : ℕ) (cluster : EksClusterRegistry) (client : sdk.KubeClient) (clients : ClientCache sdk)
      (m : Manager sdk)
      → IsWellFormed m
      → lookup text_keys cluster.meta.name m.clusters ≡ none
      → IsWellFormed (connected now cluster client clients m)
  unfolding count
  connected-IsWellFormed now cluster client clients m w h =
      let c : ClusterConnection sdk = record {
        cluster = cluster;
        k8s_client = client;
        stop_ch = m.next_channel;
        last_connected = now;
      } in
      record {
        unique = insert-Unique text_keys cluster.meta.name c m.clusters w.unique;
        named = λ j d q. elim (Bool-cases (cluster.meta.name == j)) [
          | inl e ↦
              let found : some c ≡ some d =
                sym (lookup-insert text_keys cluster.meta.name j c m.clusters ∙ rw e refl) ∙ q in
              let same : c ≡ d = cc found in
              ap (λ (y : ClusterConnection sdk). y.cluster.meta.name) (sym same)
              ∙ (eq_iff cluster.meta.name j).0 e
          | inr e ↦
              w.named j d
                (sym (lookup-insert text_keys cluster.meta.name j c m.clusters ∙ rw e refl) ∙ q)
        ];
        once =
            λ x. ground (arith, w.once x, count-insert_new sdk x cluster.meta.name c m.clusters h);
        informers = λ x. ground (arith, w.informers x);
      }
