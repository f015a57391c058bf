-- ===== src/Controller/World/Statuses.antt =====
-- Writing the statuses touches neither SPIRE nor the connections.
use spire_eks_workload_regis.Prelude.{
  ℕ, ◌+◌, ◌>>=◌, ◌≡◌, ◌≢◌, refl, ◌∙◌, true, false, List, [], ◌∷◌, Option, Result, ok, err, panic,
  Bool, if◌then◌else◌,
}
use spire_eks_workload_regis.Prelude.Exec.{Exec, ◌>>◌, for_each, ignoring, dropped}
use spire_eks_workload_regis.Prelude.Maps.{Map}
use spire_eks_workload_regis.Text.{Text}
use spire_eks_workload_regis.Api.{Kube, Pod, WorkloadIdentity, EksClusterRegistry}
use spire_eks_workload_regis.SpireApi.{Spiffe, Client}
use spire_eks_workload_regis.SpireEntry.State.{EntriesState}
use spire_eks_workload_regis.SpireEntry.Render.{Templates}
use spire_eks_workload_regis.Aws.{Sdk}
use spire_eks_workload_regis.Cluster.Manager.{get_all_connections}
use spire_eks_workload_regis.Controller.Targeted.{Config}
use spire_eks_workload_regis.Controller.Rounds.{calculate_identity_stats, count_pods, ready_count}
use spire_eks_workload_regis.Controller.Select.{
  Connection, get_pods_from_informer, select_pods, should_process_identity,
}
use spire_eks_workload_regis.Controller.World.{
  Clusters, KubeApi, World, on_kube, seen_all, update_identity, update_cluster, update_statuses,
}

module _ (sp : Spiffe) (k : Kube) (t : Templates) (cl : Client sp) (digest : Text → Text)
    (config : Config) (sdk : Sdk) (api : KubeApi k) (shown : Clusters sdk) where
  -- What is documented of Kubernetes' libraries: they return errors and do not panic.
  pub record IsQuiet : Type 0 where
    pub selector : (o : Option k.LabelSelector) → k.label_selector_as_selector o ≢ panic
    pub identity :
        (i : WorkloadIdentity k) (s : api.State) → (api.update_identity_status i s).0 ≢ panic
    pub cluster :
        (c : EksClusterRegistry) (s : api.State) → (api.update_cluster_status c s).0 ≢ panic

  -- The call returns, and SPIRE and the manager are what they were.
  abbrev pub Spares : Exec (World sp k cl sdk api) (Unit {0}) → World sp k cl sdk api → Type 0
  Spares m w = ((m w).0 ≡ ok tt) × ((m w).1.spire ≡ w.spire) × ((m w).1.manager ≡ w.manager)

  then-Spares :
      (m n : Exec (World sp k cl sdk api) (Unit {0})) (w : World sp k cl sdk api)
      → Spares m w
      → Spares n (m w).1
      → Spares (m >> n) w
  then-Spares m n w (x, y, z) (x', y', z') = (rw x x', rw x (y' ∙ y), rw x (z' ∙ z))

  for_each-Spares :
      {A : Type 0} (f : A → Exec (World sp k cl sdk api) (Unit {0})) (l : List A)
      → ((a : A) (w : World sp k cl sdk api) → Spares (f a) w)
      → (w : World sp k cl sdk api) → Spares (for_each f l) w
  unfolding for_each
  for_each-Spares f [] h w = (refl, refl, refl)
  for_each-Spares f (a ∷ l) h w =
      then-Spares (f a) (for_each f l) w (h a w) (for_each-Spares f l h (f a w).1)

  ignoring-Spares :
      {A : Type 0} (m : Exec (World sp k cl sdk api) A) (w : World sp k cl sdk api)
      → (m w).0 ≢ panic
      → (m w).1.spire ≡ w.spire
      → (m w).1.manager ≡ w.manager
      → Spares (ignoring m) w
  ignoring-Spares {A} m w n a b = on_result (m w) n a b
    where
      on_result :
          (p : Result A × World sp k cl sdk api)
          → p.0 ≢ panic
          → p.1.spire ≡ w.spire
          → p.1.manager ≡ w.manager
          → ((dropped p).0 ≡ ok tt)
            × ((dropped p).1.spire ≡ w.spire)
            × ((dropped p).1.manager ≡ w.manager)
      on_result (ok x, s) n a b = (refl, a, b)
      on_result (err e, s) n a b = (refl, a, b)
      on_result (panic, s) n a b = absurd (n refl)

  pods_returns :
      (b : Bool) (namespace : Text) (objects : List (Option Pod))
      (r : Result (Map Text Text → Bool))
      → r ≢ panic
      → (n : ℕ) × ((if b
            then ready_count sp k t digest config
                (◌>>=◌ r (λ matches. ok (select_pods namespace matches objects)))
            else ok 0)
          ≡ ok n)
  pods_returns false namespace objects r h = (0, refl)
  pods_returns true namespace objects (ok matches) h = (_, refl)
  pods_returns true namespace objects (err e) h = (0, refl)
  pods_returns true namespace objects panic h = absurd (h refl)

  count_pods_returns :
      IsQuiet
      → (i : WorkloadIdentity k) (conns : List Connection)
      → (n : ℕ) × (count_pods sp k t digest config i conns ≡ ok n)
  unfolding count_pods get_pods_from_informer
  count_pods_returns q i [] = (0, refl)
  count_pods_returns q i (conn ∷ conns) =
      let (n, e) = count_pods_returns q i conns in
      let (j, f) =
        pods_returns (should_process_identity k i conn.cluster) i.spec.namespace conn.objects
          (k.label_selector_as_selector i.spec.pod_selector) (q.selector i.spec.pod_selector) in
      (j + n, rw (f, e) refl)

  update_identity-Spares :
      IsQuiet
      → (clusters : List EksClusterRegistry) (state : EntriesState sp) (i : WorkloadIdentity k)
        (w : World sp k cl sdk api)
      → Spares (update_identity sp k t cl digest config sdk api shown clusters state i) w
  unfolding update_identity calculate_identity_stats
  update_identity-Spares q clusters state i w =
      let (n, e) =
        count_pods_returns q i (seen_all sdk shown (get_all_connections sdk w.manager)) in
      rw e (
        ignoring-Spares
          (on_kube sp k t cl digest config sdk api shown (api.update_identity_status _)) w
          (q.identity _ w.kube) refl refl)

  update_cluster-Spares :
      IsQuiet
      → (state : EntriesState sp) (c : EksClusterRegistry) (w : World sp k cl sdk api)
      → Spares (update_cluster sp k t cl digest config sdk api shown state c) w
  unfolding update_cluster
  update_cluster-Spares q state c w =
      ignoring-Spares (on_kube sp k t cl digest config sdk api shown (api.update_cluster_status _))
        w (q.cluster _ w.kube) refl refl

  pub update_statuses-Spares :
      IsQuiet
      → (identities : List (WorkloadIdentity k)) (clusters : List EksClusterRegistry)
        (state : EntriesState sp) (w : World sp k cl sdk api)
      → Spares (update_statuses sp k t cl digest config sdk api shown identities clusters state) w
  unfolding update_statuses
  update_statuses-Spares q identities clusters state w =
      then-Spares
        (for_each (update_identity sp k t cl digest config sdk api shown clusters state) identities)
        (for_each (update_cluster sp k t cl digest config sdk api shown state) clusters) w
        (for_each-Spares (update_identity sp k t cl digest config sdk api shown clusters state)
          identities (update_identity-Spares q clusters state) w)
        (for_each-Spares (update_cluster sp k t cl digest config sdk api shown state) clusters
          (update_cluster-Spares q state) _)
