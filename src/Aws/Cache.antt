-- ===== src/Aws/Cache.antt =====
-- What the cache of Kubernetes clients returns, and what the cleanup leaves of it.
use spire_eks_workload_regis.Prelude.{
  ℕ, ◌-◌, ◌≡◌, refl, ◌∙◌, Option, none, some, Result, ok, err, panic, [], ◌∷◌, if◌then◌else◌, ltb,
  arith,
}
use spire_eks_workload_regis.Prelude.Maps.{lookup, insert, lookup-insert, Unique}
use spire_eks_workload_regis.Prelude.Exec.{continue}
use spire_eks_workload_regis.Text.{Text, eq_iff, eq_refl}
use spire_eks_workload_regis.Api.{EksClusterRegistry, text_keys}
use spire_eks_workload_regis.Aws.{
  Sdk, ClusterClient, ClientCache, stale_after, get_cluster_client, cached_or_new,
  create_cluster_client, cleanup_stale_clients,
}

module _ (sdk : Sdk) where
  -- What a cleanup leaves of a client.
  abbrev pub still_used : ℕ → Option (ClusterClient sdk) → Option (ClusterClient sdk)
  still_used now none = none
  still_used now (some c) = if ltb c.last_used (now - stale_after) then none else some c

  -- CleanupStaleClients removes exactly the clients that were last used more than 30 minutes ago.
  pub cleanup_stale_clients-still_used :
      (now : ℕ) (name : Text) (m : ClientCache sdk)
      → Unique text_keys m
      → lookup text_keys name (cleanup_stale_clients sdk now m)
        ≡ still_used now (lookup text_keys name m)
  unfolding cleanup_stale_clients lookup
  cleanup_stale_clients-still_used now name [] u = refl
  cleanup_stale_clients-still_used now name ((j, c) ∷ m) u =
      ground (arith, eq_iff j name, cleanup_stale_clients-still_used now name m u.1, u.0)

  kept :
      (name : Text) (client client' : sdk.KubeClient) (now : ℕ) (m m' : ClientCache sdk)
      → client ≡ client'
      → insert text_keys name (record { client = client; last_used = now }) m ≡ m'
      → lookup text_keys name m' ≡ some (record { client = client'; last_used = now })
  kept name client client' now m m' same there =
      rw (← there, ← same) (lookup-insert text_keys name name _ m ∙ rw (eq_refl name) refl)

  created :
      (now : ℕ) (name : Text) (m m' : ClientCache sdk) (r : Result sdk.KubeClient)
      (client : sdk.KubeClient)
      → continue r
          (λ c s. (ok c, insert text_keys name (record { client = c; last_used = now }) s))
          m
        ≡ (ok client, m')
      → lookup text_keys name m' ≡ some (record { client = client; last_used = now })
  created now name m m' (ok c) client h = kept name c client now m m' (cc h) (cc h)
  created now name m m' (err e) client h = cc h
  created now name m m' panic client h = cc h

  stored :
      (now : ℕ) (cluster : EksClusterRegistry) (m m' : ClientCache sdk)
      (o : Option (ClusterClient sdk)) (client : sdk.KubeClient)
      → cached_or_new sdk o now cluster m ≡ (ok client, m')
      → lookup text_keys cluster.meta.name m' ≡ some (record { client = client; last_used = now })
  stored now cluster m m' (some c) client h =
      kept cluster.meta.name c.client client now m m' (cc h) (cc h)
  stored now cluster m m' none client h =
      created now cluster.meta.name m m' (create_cluster_client sdk now cluster) client h

  -- Once GetClusterClient has returned a client for a cluster, it returns the same client for any
  -- cluster of that name while the entry is kept, whatever the region, the EKS name and the role of
  -- that cluster are.
  pub get_cluster_client-again :
      (now later : ℕ) (cluster changed : EksClusterRegistry) (m m' : ClientCache sdk)
      (client : sdk.KubeClient)
      → get_cluster_client sdk now cluster m ≡ (ok client, m')
      → changed.meta.name ≡ cluster.meta.name
      → (get_cluster_client sdk later changed m').0 ≡ ok client
  unfolding get_cluster_client
  get_cluster_client-again now later cluster changed m m' client h same =
      rw (same, stored now cluster m m' (lookup text_keys cluster.meta.name m) client h) refl
