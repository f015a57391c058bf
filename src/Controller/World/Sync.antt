-- ===== src/Controller/World/Sync.antt =====
-- Which clusters are connected after the start of a round.
use spire_eks_workload_regis.Prelude.{
  ◌≡◌, ◌≢◌, refl, ap, sym, ◌∙◌, true, false, not, List, [], ◌∷◌, none, some, Result, ok, err, panic,
  Bool, Bool-cases, Option-cases, inl, inr, arith, if◌then◌else◌,
}
use spire_eks_workload_regis.Prelude.Exec.{dropped, for_each, for_each_if}
use spire_eks_workload_regis.Prelude.Maps.{Map, lookup, insert, lookup-insert, lookup-delete}
use spire_eks_workload_regis.Text.{Text, ◌==◌, eq_iff, eq_refl}
use spire_eks_workload_regis.Api.{EksClusterRegistry, text_keys}
use spire_eks_workload_regis.Aws.{Sdk, ClientCache, get_cluster_client}
use spire_eks_workload_regis.Cluster.Manager.{
  ClusterConnection, Manager, add_or_update_cluster, remove_cluster, stop_cluster_connection,
  get_cluster_connection, get_all_connections, connections_of,
}
use spire_eks_workload_regis.Cluster.Manager.Invariant.{IsWellFormed, open_channel}
use spire_eks_workload_regis.Cluster.Manager.Steps.{
  add_or_update_cluster-IsSafe, remove_cluster-IsWellFormed,
}
use spire_eks_workload_regis.Controller.Targeted.{is_set}
use spire_eks_workload_regis.Controller.World.{
  Clusters, existing_clusters, remove_others, update_clusters, sync_clusters,
}

module _ (sdk : Sdk) (shown : Clusters sdk) where
  -- GetClusterClient does not panic: DescribeCluster reports a certificate authority.
  abbrev pub Describes : List EksClusterRegistry → Type 0
  Describes [] = Unit
  Describes (c ∷ cs) =
      ((clients : ClientCache sdk) → (get_cluster_client sdk shown.now c clients).0 ≢ panic)
      × Describes cs

  abbrev pub enabled_in : Text → List EksClusterRegistry → Bool
  enabled_in name [] = false
  enabled_in name (c ∷ cs) =
      if c.meta.name == name
      then (if c.spec.enabled then true else enabled_in name cs)
      else enabled_in name cs

  existing_iff :
      (name : Text) (cs : List EksClusterRegistry) (existing : Map Text Bool)
      → is_set (lookup text_keys name (existing_clusters sdk shown cs existing))
        ≡ (if enabled_in name cs then true else is_set (lookup text_keys name existing))
  unfolding existing_clusters
  existing_iff name [] existing = refl
  existing_iff name (c ∷ cs) existing = ground (
    arith,
    existing_iff name cs existing,
    existing_iff name cs (insert text_keys c.meta.name true existing),
    lookup-insert text_keys c.meta.name name true existing,
  )

  dropped_ok : (p : Result (Unit {0}) × Manager sdk) → p.0 ≢ panic → dropped p ≡ (ok tt, p.1)
  dropped_ok (ok a, m) n = refl
  dropped_ok (err e, m) n = refl
  dropped_ok (panic, m) n = absurd (n refl)

  update_clusters-IsWellFormed :
      (cs : List EksClusterRegistry) (m : Manager sdk)
      → IsWellFormed sdk m
      → Describes cs
      → (m' : Manager sdk) × (update_clusters sdk shown cs m ≡ (ok tt, m')) × IsWellFormed sdk m'
  unfolding update_clusters for_each
  update_clusters-IsWellFormed [] m w d = (m, refl, w)
  update_clusters-IsWellFormed (c ∷ cs) m w d =
      let p = add_or_update_cluster sdk shown.synced shown.now c m in
      let safe = add_or_update_cluster-IsSafe sdk shown.synced shown.now c m w in
      let (m', a, b) = update_clusters-IsWellFormed cs p.1 safe.well d.1 in
      (m', rw (dropped_ok p (λ e. d.0 m.clients (safe.panics e))) a, b)

  pub remove_cluster-lookup :
      (name j : Text) (m : Manager sdk)
      → IsWellFormed sdk m
      → lookup text_keys j (remove_cluster sdk name m).1.clusters
        ≡ (if name == j then none else lookup text_keys j m.clusters)
  unfolding remove_cluster stop_cluster_connection
  remove_cluster-lookup name j m w = elim (Option-cases (lookup text_keys name m.clusters)) [
    | inl absent ↦ elim (Bool-cases (name == j)) [
      | inl q ↦
          rw (absent, q)
            (ap (λ x. lookup text_keys x m.clusters) (sym ((eq_iff name j).0 q)) ∙ absent)
      | inr q ↦ rw (absent, q) refl
    ]
    | inr (c, there) ↦
        rw (there, open_channel sdk m name c w there) (lookup-delete text_keys name j m.clusters)
  ]

  -- A name that the loop removes.
  abbrev dropped_from : Map Text Bool → Text → List (ClusterConnection sdk) → Bool
  dropped_from existing name [] = false
  dropped_from existing name (c ∷ cs) =
      if not (is_set (lookup text_keys c.cluster.meta.name existing))
      then (if c.cluster.meta.name == name then true else dropped_from existing name cs)
      else dropped_from existing name cs

  dropped_at :
      (existing : Map Text Bool) (j : Text) (c : ClusterConnection sdk)
      (l : Map Text (ClusterConnection sdk))
      → lookup text_keys j l ≡ some c
      → c.cluster.meta.name ≡ j
      → is_set (lookup text_keys j existing) ≡ false
      → dropped_from existing j (connections_of sdk l) ≡ true
  unfolding lookup
  dropped_at existing j c [] h n f = cc h
  dropped_at existing j c ((i, d) ∷ l) h n f = elim (Bool-cases (i == j)) [
    | inl q ↦
        let there : some d ≡ some c = rw q at h in
        let same : d ≡ c = cc there in
        let named : d.cluster.meta.name ≡ j =
          ap (λ (x : ClusterConnection sdk). x.cluster.meta.name) same ∙ n in
        rw (named, f, eq_refl j) refl
    | inr q ↦ let rest = dropped_at existing j c l (rw q at h) n f in ground (arith, rest)
  ]

  kept_at :
      (existing : Map Text Bool) (j : Text) (cs : List (ClusterConnection sdk))
      → is_set (lookup text_keys j existing) ≡ true
      → dropped_from existing j cs ≡ false
  kept_at existing j [] h = refl
  kept_at existing j (c ∷ cs) h = elim (Bool-cases (c.cluster.meta.name == j)) [
    | inl q ↦ rw ((eq_iff c.cluster.meta.name j).0 q, h) (kept_at existing j cs h)
    | inr q ↦ rw q (ground (arith, kept_at existing j cs h))
  ]

  remove_others-lookup :
      (existing : Map Text Bool) (cs : List (ClusterConnection sdk)) (m : Manager sdk)
      → IsWellFormed sdk m
      → (m' : Manager sdk) × (remove_others sdk shown existing cs m ≡ (ok tt, m'))
        × IsWellFormed sdk m'
        × ((j : Text)
            → lookup text_keys j m'.clusters
              ≡ (if dropped_from existing j cs then none else lookup text_keys j m.clusters))
  unfolding remove_others for_each_if
  remove_others-lookup existing [] m w = (m, refl, w, λ j. refl)
  remove_others-lookup existing (c ∷ cs) m w =
      elim (Bool-cases (is_set (lookup text_keys c.cluster.meta.name existing))) [
        | inl q ↦
            let (m', a, b, f) = remove_others-lookup existing cs m w in
            (m', rw q a, b, λ j. rw q (f j))
        | inr q ↦
            let (done, well, gone) = remove_cluster-IsWellFormed sdk c.cluster.meta.name m w in
            let (m', a, b, f) =
              remove_others-lookup existing cs (remove_cluster sdk c.cluster.meta.name m).1 well in
            (
              m',
              rw (q, done) a,
              b,
              λ j. rw q (ground (arith, f j, remove_cluster-lookup c.cluster.meta.name j m w)),
            )
      ]

  rest_of :
      (existing : Map Text Bool) (m : Manager sdk) (w : IsWellFormed sdk m) (j : Text) (b : Bool)
      → is_set (lookup text_keys j existing) ≡ (if b then true else false)
      → (if dropped_from existing j (connections_of sdk m.clusters)
          then none
          else lookup text_keys j m.clusters)
        ≡ (if b then lookup text_keys j m.clusters else none)
  rest_of existing m w j true h = rw (kept_at existing j (connections_of sdk m.clusters) h) refl
  rest_of existing m w j false h = elim (Option-cases (lookup text_keys j m.clusters)) [
    | inl absent ↦ rw absent (ground arith)
    | inr (c, there) ↦
        rw (there, dropped_at existing j c m.clusters there (w.named j c there) h) refl
  ]

  -- On a well-formed manager, and if no GetClusterClient panics, the start of a round returns and leaves
  -- the manager well-formed, with a connection for no name but those of enabled listed clusters; for
  -- these it leaves what the calls of AddOrUpdateCluster did, whether they failed or not.
  pub sync_clusters-lookup :
      (clusters : List EksClusterRegistry) (m : Manager sdk)
      → IsWellFormed sdk m
      → Describes clusters
      → (m' : Manager sdk) × (sync_clusters sdk shown clusters m ≡ (ok tt, m'))
        × IsWellFormed sdk m'
        × (m1 : Manager sdk) × (update_clusters sdk shown clusters m ≡ (ok tt, m1))
        × ((j : Text)
            → get_cluster_connection sdk j m'
              ≡ (if enabled_in j clusters then get_cluster_connection sdk j m1 else none))
  unfolding sync_clusters lookup get_all_connections get_cluster_connection
  sync_clusters-lookup clusters m w d =
      let (m1, a, w1) = update_clusters-IsWellFormed clusters m w d in
      let existing = existing_clusters sdk shown clusters [] in
      let (m', b, w', f) = remove_others-lookup existing (connections_of sdk m1.clusters) m1 w1 in
      (
        m',
        rw a b,
        w',
        m1,
        a,
        λ j. f j ∙ rest_of existing m1 w1 j (enabled_in j clusters) (existing_iff j clusters []),
      )
