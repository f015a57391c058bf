-- ===== src/Controller/World/Deleted.antt =====
-- What is left of a cluster that was deleted or disabled.
use spire_eks_workload_regis.Prelude.{
  ◌≡◌, ◌≢◌, refl, sym, ◌∙◌, true, not, ◌||◌, [], Option, none, Result, ok, Bool, Bool-cases, inl,
  inr, if◌then◌else◌,
}
use spire_eks_workload_regis.Prelude.Maps.{lookup}
use spire_eks_workload_regis.Text.{Text, ◌==◌, eq_iff, eq_refl}
use spire_eks_workload_regis.Api.{Kube, EksClusterRegistry, text_keys}
use spire_eks_workload_regis.SpireApi.{Spiffe, Client}
use spire_eks_workload_regis.SpireEntry.State.Invariant.{IsKeyed}
use spire_eks_workload_regis.SpireEntry.Render.{Templates}
use spire_eks_workload_regis.Aws.{Sdk}
use spire_eks_workload_regis.Cluster.Manager.{remove_cluster, get_cluster_connection}
use spire_eks_workload_regis.Cluster.Manager.Invariant.{IsWellFormed}
use spire_eks_workload_regis.Cluster.Manager.Steps.{remove_cluster-IsWellFormed}
use spire_eks_workload_regis.Controller.Ownership.{entry_belongs_to_cluster}
use spire_eks_workload_regis.Controller.Reliable.{Reliable, drop_if}
use spire_eks_workload_regis.Controller.Reliable.Removal.{RemovesExactly, drop_if-RemovesExactly}
use spire_eks_workload_regis.Controller.Targeted.{Config}
use spire_eks_workload_regis.Controller.Targeted.Effects.{delete_entries_for_cluster_lem}
use spire_eks_workload_regis.Controller.World.{Clusters, KubeApi, World, missing}
use spire_eks_workload_regis.Controller.World.Events.{
  empty_cluster, reconcile_eks_cluster, reconcile_cluster_event,
}
use spire_eks_workload_regis.Controller.World.Sync.{remove_cluster-lookup}

module _ (sp : Spiffe) (k : Kube) (t : Templates) (cl : Client sp) (digest : Text → Text)
    (config : Config) (sdk : Sdk) (api : KubeApi k) (shown : Clusters sdk) where
  -- The world after a computation that returns without an error.
  abbrev pub After :
      Result (Unit {0}) × World sp k cl sdk api → (World sp k cl sdk api → Type 0) → Type 0
  After p P = (w' : World sp k cl sdk api) × (p ≡ (ok tt, w')) × P w'

  pub record IsGone (r : Reliable sp cl) (cluster : EksClusterRegistry)
      (w w' : World sp k cl sdk api) : Type 0 where
    pub well : IsWellFormed sdk w'.manager
    pub connections :
        (j : Text)
        → get_cluster_connection sdk j w'.manager
          ≡ (if cluster.meta.name == j then none else get_cluster_connection sdk j w.manager)
    pub entries :
        (id : Text)
        → lookup text_keys id (r.store w'.spire)
          ≡ drop_if sp cl r
              (λ e. entry_belongs_to_cluster sp e cluster)
              (lookup text_keys id (r.store w.spire))
    pub kube : w'.kube ≡ w.kube

  -- Over a SPIRE in which every call takes effect, and from a well-formed manager, ReconcileEKSCluster of
  -- a deleted or a disabled cluster returns. It removes exactly the entries that
  -- entryBelongsToCluster accepts, and the cluster's connection and no other.
  pub reconcile_eks_cluster-IsGone :
      (r : Reliable sp cl) (cluster : EksClusterRegistry) (deleted : Bool)
      (w : World sp k cl sdk api)
      → IsKeyed sp (r.store w.spire)
      → IsWellFormed sdk w.manager
      → (deleted || not cluster.spec.enabled) ≡ true
      → After
          (reconcile_eks_cluster sp k t cl digest config sdk api shown cluster deleted w)
          (IsGone r cluster w)
  unfolding reconcile_eks_cluster get_cluster_connection
  reconcile_eks_cluster-IsGone r cluster deleted w keyed well gone =
      let (s', a, b) =
        delete_entries_for_cluster_lem sp k t cl digest config r w.spire keyed cluster in
      let (done, well', absent) =
        remove_cluster-IsWellFormed sdk cluster.meta.name w.manager well in
      let m' = (remove_cluster sdk cluster.meta.name w.manager).1 in
      (
        record w { spire = s'; manager = m' },
        rw (gone, a, done) refl,
        record {
          well = well';
          connections = λ j. remove_cluster-lookup sdk shown cluster.meta.name j w.manager well;
          entries = b;
          kube = refl;
        },
      )

  -- What an event of a missing cluster leaves.
  pub record LosesNameless (r : Reliable sp cl) (w w' : World sp k cl sdk api) : Type 0 where
    pub well : IsWellFormed sdk w'.manager
    pub nameless : get_cluster_connection sdk [] w'.manager ≡ none
    pub named :
        (j : Text)
        → j ≢ []
        → get_cluster_connection sdk j w'.manager ≡ get_cluster_connection sdk j w.manager
    pub entries :
        RemovesExactly sp
          (λ e. entry_belongs_to_cluster sp e empty_cluster ≡ true)
          (r.store w.spire)
          (r.store w'.spire)

  -- From a well-formed manager, and over a SPIRE in which every call takes effect: an event for a
  -- cluster that Get does not find makes EKSClusterRegistryReconciler.Reconcile return. The
  -- connection of the empty name is gone, and those of all other names are as they were, so the
  -- event's own stays unless its name is empty; the entries that are gone are those that
  -- entryBelongsToCluster accepts for the empty name.
  pub reconcile_cluster_event-missing :
      (r : Reliable sp cl) (name : Text) (w : World sp k cl sdk api)
      → IsKeyed sp (r.store w.spire)
      → IsWellFormed sdk w.manager
      → (api.get_cluster name w.kube).0 ≡ ok missing
      → After
          (reconcile_cluster_event sp k t cl digest config sdk api shown name w)
          (LosesNameless r w)
  unfolding reconcile_cluster_event
  reconcile_cluster_event-missing r name w keyed well lost =
      let w1 : World sp k cl sdk api = record w { kube = (api.get_cluster name w.kube).1 } in
      let (w', a, gone) = reconcile_eks_cluster-IsGone r empty_cluster true w1 keyed well refl in
      (
        w',
        rw lost a,
        record {
          well = gone.well;
          nameless = gone.connections [] ∙ rw (eq_refl []) refl;
          named = λ j n. gone.connections j ∙ other j n (get_cluster_connection sdk j w.manager);
          entries =
              drop_if-RemovesExactly sp cl r (λ e. entry_belongs_to_cluster sp e empty_cluster) _
                (r.store w.spire) (r.store w'.spire) (λ e. ((λ h. h), (λ h. h))) gone.entries;
        },
      )
    where
      other : {A : Type 0} (x : Text) → x ≢ [] → (o : Option A) → (if [] == x then none else o) ≡ o
      other x n o = elim (Bool-cases ([] == x)) [
        | inl e ↦ absurd (n (sym ((eq_iff [] x).0 e)))
        | inr e ↦ rw e refl
      ]
