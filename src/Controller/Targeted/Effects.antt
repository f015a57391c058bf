-- ===== src/Controller/Targeted/Effects.antt =====
-- What the deletions of the targeted reconciler leave in a store in which every call takes effect.
use spire_eks_workload_regis.Prelude.{
  ◌≡◌, refl, ◌∙◌, Bool, true, false, not, ok, some, none, any, any_of_In, if◌then◌else◌, Bool-cases,
  inl, inr, [],
}
use spire_eks_workload_regis.Prelude.Exec.{Exec}
use spire_eks_workload_regis.Prelude.Maps.{lookup}
use spire_eks_workload_regis.Text.{Text, ◌==◌, eq_refl, has_prefix-append}
use spire_eks_workload_regis.Api.{Kube, WorkloadIdentity, EksClusterRegistry, Pod, Node, text_keys}
use spire_eks_workload_regis.SpireApi.{Spiffe, Entry, Client}
use spire_eks_workload_regis.SpireEntry.State.{declared_id}
use spire_eks_workload_regis.SpireEntry.State.Invariant.{IsKeyed}
use spire_eks_workload_regis.SpireEntry.Key.{make_entry_key}
use spire_eks_workload_regis.SpireEntry.Render.{Templates, render_entry, pod_selector}
use spire_eks_workload_regis.SpireEntry.Render.Facts.{render_entry-IsRendered}
use spire_eks_workload_regis.Controller.Ownership.{
  entry_belongs_to_identity, entry_belongs_to_cluster,
}
use spire_eks_workload_regis.Controller.Select.{should_process_entry}
use spire_eks_workload_regis.Controller.Reliable.{Reliable, drop_if, delete_loop-drop}
use spire_eks_workload_regis.Controller.Targeted.{
  Config, selects_pod, delete_where, delete_entries_for_pod, delete_entries_for_identity,
  delete_entries_for_cluster,
}

module _ (sp : Spiffe) (k : Kube) (t : Templates) (cl : Client sp) (digest : Text → Text)
    (config : Config) (r : Reliable sp cl) (s : cl.State) (w : IsKeyed sp (r.store s)) where
  -- The call returns, and under each ID leaves nothing if the entry there passes the test, and what
  -- was there if not.
  abbrev pub Drops : Exec cl.State (Unit {0}) → (Entry sp → Bool) → Type 0
  Drops m p =
      (s' : cl.State) × (m s ≡ (ok tt, s'))
      × ((id : Text)
          → lookup text_keys id (r.store s') ≡ drop_if sp cl r p (lookup text_keys id (r.store s)))

  delete_where-Drops : (p : Entry sp → Bool) → Drops (delete_where sp k t cl digest config p) p
  delete_where-Drops p =
      let (s', a, b) = delete_loop-drop sp cl r p s w in (s', rw (r.lists s) a, b)

  abbrev pub of_pod : Pod → Entry sp → Bool
  of_pod pod e =
      if not (should_process_entry sp config.entry_id_prefix e)
      then false
      else any (selects_pod pod.meta.uid) e.selectors

  -- In a store keyed by the entries' IDs in which every call takes effect, deleteEntriesForPod
  -- returns, and removes exactly the entries that the ID prefix marks as this controller's and
  -- that have a selector of the pod's UID.
  pub delete_entries_for_pod_lem :
      (pod : Pod) → Drops (delete_entries_for_pod sp k t cl digest config pod) (of_pod pod)
  unfolding delete_entries_for_pod
  delete_entries_for_pod_lem pod = delete_where-Drops (of_pod pod)

  -- In a store keyed by the entries' IDs in which every call takes effect, deleteEntriesForIdentity
  -- returns, and removes exactly the entries that entryBelongsToIdentity accepts.
  pub delete_entries_for_identity_lem :
      (identity : WorkloadIdentity k)
      → Drops
          (delete_entries_for_identity sp k t cl digest config identity)
          (λ e. entry_belongs_to_identity sp k e identity)
  unfolding delete_entries_for_identity
  delete_entries_for_identity_lem identity =
      delete_where-Drops (λ e. entry_belongs_to_identity sp k e identity)

  -- In a store keyed by the entries' IDs in which every call takes effect, deleteEntriesForCluster
  -- returns, and removes exactly the entries that entryBelongsToCluster accepts.
  pub delete_entries_for_cluster_lem :
      (cluster : EksClusterRegistry)
      → Drops
          (delete_entries_for_cluster sp k t cl digest config cluster)
          (λ e. entry_belongs_to_cluster sp e cluster)
  unfolding delete_entries_for_cluster
  delete_entries_for_cluster_lem cluster =
      delete_where-Drops (λ e. entry_belongs_to_cluster sp e cluster)

  managed :
      (e : Entry sp)
      → should_process_entry sp config.entry_id_prefix
          (record e { id = declared_id sp digest config.entry_id_prefix e })
        ≡ true
  unfolding should_process_entry declared_id
  managed e = elim (Bool-cases (config.entry_id_prefix == [])) [
    | inl q ↦ rw q refl
    | inr q ↦ rw q (has_prefix-append config.entry_id_prefix (make_entry_key sp digest e))
  ]

  selects : (pod : Pod) → selects_pod pod.meta.uid (pod_selector pod.meta.uid) ≡ true
  unfolding selects_pod pod_selector ◌==◌
  selects pod = eq_refl pod.meta.uid

  -- In a store keyed by the entries' IDs in which every call takes effect, an entry that was
  -- rendered for a pod and registered under the ID that it is declared with is gone after
  -- deleteEntriesForPod of that pod.
  pub delete_entries_for_pod-render_entry :
      (identity : WorkloadIdentity k) (cluster : EksClusterRegistry) (pod : Pod) (node : Node)
      (e : Entry sp)
      → render_entry sp k t identity cluster pod node config.trust_domain ≡ ok e
      → lookup text_keys (declared_id sp digest config.entry_id_prefix e) (r.store s)
        ≡ some (record e { id = declared_id sp digest config.entry_id_prefix e })
      → (s' : cl.State) × (delete_entries_for_pod sp k t cl digest config pod s ≡ (ok tt, s'))
        × (lookup text_keys (declared_id sp digest config.entry_id_prefix e) (r.store s') ≡ none)
  delete_entries_for_pod-render_entry identity cluster pod node e rendered stored =
      let (s', a, b) = delete_entries_for_pod_lem pod in
      (s', a, b (declared_id sp digest config.entry_id_prefix e) ∙ rw (stored, managed e, own) refl)
    where
      own : any (selects_pod pod.meta.uid) e.selectors ≡ true
      own =
          any_of_In (selects_pod pod.meta.uid) (pod_selector pod.meta.uid) e.selectors
            (render_entry-IsRendered sp k t identity cluster pod node config.trust_domain e
              rendered).own_pod
            (selects pod)
