-- ===== src/Controller/Deletion/Outcome.antt =====
-- What the deletion reconciler leaves alone, and what it does not look at.
use spire_eks_workload_regis.Prelude.{
  ◌≡◌, Result, refl, false, List, some, ok, err, panic, Bool-cases, inl, inr,
}
use spire_eks_workload_regis.Text.{Text}
use spire_eks_workload_regis.Api.{EksClusterRegistry}
use spire_eks_workload_regis.SpireApi.{Spiffe, Client, Status}
use spire_eks_workload_regis.Controller.Deletion.{
  spire_cleanup_finalizer, contains_finalizer, is_zero, Objects, ids,
  reconcile_eks_cluster_registry,
}

module _ (sp : Spiffe) (cl : Client sp) where
  -- An object that is not being deleted, or that has lost the finalizer, is left alone, and so are
  -- the entries of SPIRE.
  pub reconcile_eks_cluster_registry-alone :
      (clusters : Objects EksClusterRegistry) (name : Text) (cluster : EksClusterRegistry)
      (s : cl.State) (u v : clusters.ObjectState)
      → clusters.get name u ≡ (ok (some cluster), v)
      → (is_zero cluster.meta.deletion_timestamp ≡ false
          → contains_finalizer cluster.meta.finalizers spire_cleanup_finalizer ≡ false)
      → reconcile_eks_cluster_registry sp cl clusters name (s, u) ≡ (ok tt, (s, v))
  unfolding reconcile_eks_cluster_registry
  reconcile_eks_cluster_registry-alone clusters name cluster s u v g h =
      elim (Bool-cases (is_zero cluster.meta.deletion_timestamp)) [
        | inl z ↦ rw (g, z) refl
        | inr z ↦ rw (g, z, h z) refl
      ]

  -- The service with other statuses of its deletions.
  abbrev restate :
      (List Status → List Status)
      → Result (List Status) × cl.State
      → Result (List Status) × cl.State
  restate f (ok statuses, s) = (ok (f statuses), s)
  restate f (err e, s) = (err e, s)
  restate f (panic, s) = (panic, s)

  abbrev pub restated : (List Text → List Status → List Status) → Client sp
  restated f = record cl {
    batch_delete_entries = λ ids s. restate (f ids) (cl.batch_delete_entries ids s);
  }
