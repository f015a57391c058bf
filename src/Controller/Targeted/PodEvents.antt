-- ===== src/Controller/Targeted/PodEvents.antt =====
-- The informers' events, as the targeted reconciler gets them from the cluster manager.
use spire_eks_workload_regis.Prelude.{
  ◌≡◌, refl, Bool, List, Option, none, some, ok, if◌then◌else◌, Bool-cases, Option-cases, inl, inr,
}
use spire_eks_workload_regis.Prelude.Exec.{Exec}
use spire_eks_workload_regis.Prelude.Maps.{lookup}
use spire_eks_workload_regis.Text.{Text, bytes, ◌==◌}
use spire_eks_workload_regis.Api.{Kube, WorkloadIdentity, Pod, text_keys}
use spire_eks_workload_regis.SpireApi.{Spiffe, Entry, Client}
use spire_eks_workload_regis.SpireEntry.State.Invariant.{IsKeyed}
use spire_eks_workload_regis.SpireEntry.Render.{Templates}
use spire_eks_workload_regis.Aws.{Sdk}
use spire_eks_workload_regis.Cluster.Manager.{
  Manager, PodObject, pod_of, get_cluster_connection, is_connected, handle_pod_change,
}
use spire_eks_workload_regis.Controller.Select.{Connection, is_namespace_ignored}
use spire_eks_workload_regis.Controller.Reliable.{Reliable, drop_if}
use spire_eks_workload_regis.Controller.Targeted.{Config, reconcile_single_pod}
use spire_eks_workload_regis.Controller.Targeted.Effects.{of_pod, delete_entries_for_pod_lem}

module _ (sp : Spiffe) (k : Kube) (t : Templates) (cl : Client sp) (digest : Text → Text)
    (config : Config) (sdk : Sdk) (r : Reliable sp cl) (connections : Text → Option Connection)
    (identities : List (WorkloadIdentity k)) where
  -- The entry that a deleted pod leaves: nothing, if the event is handled and the entry is the pod's.
  abbrev pub after_delete : Bool → Bool → (Entry sp → Bool) → Option (Entry sp) → Option (Entry sp)
  after_delete connected ignored own entry =
      if connected then if ignored then entry else drop_if sp cl r own entry else entry

  abbrev pub delete_event : Manager sdk → Text → PodObject → Exec cl.State (Unit {0})
  delete_event m name obj =
      handle_pod_change sdk
        (some (reconcile_single_pod sp k t cl digest config connections identities)) none m
        (bytes "delete") obj name

  -- A deletion event for a pod or its tombstone, over a SPIRE in which every call takes effect: the handler
  -- returns. If the event's cluster is connected and the pod's namespace is not ignored, it removes exactly
  -- the managed entries with a selector of the pod's UID; otherwise it changes nothing.
  pub handle_pod_change-delete :
      (m : Manager sdk) (name : Text) (obj : PodObject) (pod : Pod) (s : cl.State)
      (keyed : IsKeyed sp (r.store s))
      → pod_of obj ≡ some pod
      → (s' : cl.State) × (delete_event m name obj s ≡ (ok tt, s'))
        × ((id : Text)
            → lookup text_keys id (r.store s')
              ≡ after_delete
                  (is_connected sdk name m)
                  (is_namespace_ignored config.ignore_namespaces pod.meta.namespace)
                  (of_pod sp k t cl digest config r s keyed pod)
                  (lookup text_keys id (r.store s)))
  unfolding handle_pod_change is_connected get_cluster_connection reconcile_single_pod ◌==◌
  handle_pod_change-delete m name obj pod s keyed found =
      elim (Option-cases (lookup text_keys name m.clusters)) [
        | inl absent ↦ rw (found, absent) (s, refl, λ id. refl)
        | inr (conn, there) ↦
            elim (Bool-cases (is_namespace_ignored config.ignore_namespaces pod.meta.namespace)) [
              | inl ignored ↦ rw (found, there, ignored) (s, refl, λ id. refl)
              | inr watched ↦
                  let (s', a, b) =
                    delete_entries_for_pod_lem sp k t cl digest config r s keyed pod in
                  rw (found, there, watched) (s', a, b)
            ]
      ]
