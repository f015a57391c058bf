-- ===== src/Controller/Targeted.antt =====
-- internal/controller/targeted_reconciler.go: the reconciler of single pods, identities and
-- clusters, over the SPIRE client. The digest of a key is SHA-256's; `connections` is the cluster
-- manager's table, and a list of custom resources is what the Kubernetes client left in it.
pub mod Effects
pub mod PodEvents
pub mod Registration
use spire_eks_workload_regis.Prelude.{
  Bool, true, false, not, ◌&&◌, List, [], ◌∷◌, ◌++◌, Option, none, some, Result, ok, err, panic,
  if◌then◌else◌, length, ltb, any,
}
use spire_eks_workload_regis.Prelude.Exec.{
  Exec, pure, lift, ignoring, unless_error, for_each, for_each_if, ◌>>=◌, ◌>>◌,
}
use spire_eks_workload_regis.Prelude.Maps.{Map, lookup, insert}
use spire_eks_workload_regis.Text.{Text, bytes, ◌==◌, has_prefix}
use spire_eks_workload_regis.Text.Search.{trim_prefix}
use spire_eks_workload_regis.Api.{Kube, WorkloadIdentity, EksClusterRegistry, Pod, Node, text_keys}
use spire_eks_workload_regis.SpireApi.{Spiffe, Entry, Selector, Client}
use spire_eks_workload_regis.SpireEntry.Compare.{outdated_entry_fields}
use spire_eks_workload_regis.SpireEntry.State.{declared_id}
use spire_eks_workload_regis.SpireEntry.Render.{Templates, render_entry}
use spire_eks_workload_regis.Controller.Ownership.{
  entry_belongs_to_identity, entry_belongs_to_cluster,
}
use spire_eks_workload_regis.Controller.Select.{
  Connection, is_ready, is_namespace_ignored, should_process_entry, get_matching_pods,
  find_matching_identities, find_matching_clusters,
}

-- The fields of MainReconciler that configure it.
pub record Config : Type 0 where
  pub trust_domain : Text
  pub ignore_namespaces : List (Text → Bool)
  pub entry_id_prefix : Text

-- selector.Type == "k8s" && selector.Value == "pod-uid:" + uid
unfoldable pub selects_pod : Text → Selector → Bool
selects_pod uid s = s.type == bytes "k8s" && s.value == bytes "pod-uid:" ++ uid

abbrev pub is_set : Option Bool → Bool
is_set none = false
is_set (some b) = b

-- The selector names a pod of the set.
unfoldable pub names_pod : Map Text Bool → Selector → Bool
names_pod uids s =
    if s.type == bytes "k8s" && has_prefix s.value (bytes "pod-uid:")
    then is_set (lookup text_keys (trim_prefix s.value (bytes "pod-uid:")) uids)
    else false

-- validPodUIDs[string(pod.UID)] = true, for each ready pod
unfoldable pub add_uids : List Pod → Map Text Bool → Map Text Bool
add_uids [] uids = uids
add_uids (pod ∷ pods) uids =
    add_uids pods (if is_ready pod then insert text_keys pod.meta.uid true uids else uids)

-- The first entry with an ID.
unfoldable pub find_entry : {sp : Spiffe} → Text → List (Entry sp) → Option (Entry sp)
find_entry id [] = none
find_entry id (e ∷ l) = let rest = find_entry id l in if e.id == id then some e else rest

-- entries, _ := m: nil on an error
abbrev pub or_nil : {S A : Type 0} → Result (List A) × S → Result (List A) × S
or_nil (ok l, s) = (ok l, s)
or_nil (err e, s) = (ok [], s)
or_nil (panic, s) = (panic, s)

module _ (sp : Spiffe) (k : Kube) (t : Templates) (cl : Client sp) (digest : Text → Text)
    (config : Config) where
  open cl use {State}

  -- The end of reconcilePodEntry: create, update, or neither.
  abbrev pub create_or_update : Option (Entry sp) → Entry sp → Exec State (Unit {0})
  create_or_update none entry = ignoring (cl.create_entry entry)
  create_or_update (some existing) entry =
      if ltb 0 (length (outdated_entry_fields sp entry existing))
      then ignoring (cl.update_entry (record entry { id = existing.id }))
      else pure tt

  -- reconcilePodEntry
  unfoldable pub reconcile_pod_entry :
      Pod → Node → WorkloadIdentity k → EksClusterRegistry → Exec State (Unit {0})
  reconcile_pod_entry pod node identity cluster =
      unless_error (lift (render_entry sp k t identity cluster pod node config.trust_domain))
        λ entry. (λ s. or_nil (cl.list_entries s)) >>= λ entries.
          let id = declared_id sp digest config.entry_id_prefix entry in
          create_or_update (find_entry id entries) (record entry { id = id })

  -- The loop that deletes the entries which pass a test, errors ignored.
  abbrev pub delete_where : (Entry sp → Bool) → Exec State (Unit {0})
  delete_where p =
      unless_error cl.list_entries
        λ entries. for_each_if p (λ entry. ignoring (cl.delete_entry entry.id)) entries

  -- deleteEntriesForPod
  unfoldable pub delete_entries_for_pod : Pod → Exec State (Unit {0})
  delete_entries_for_pod pod = delete_where λ entry.
      if not (should_process_entry sp config.entry_id_prefix entry)
      then false
      else any (selects_pod pod.meta.uid) entry.selectors

  -- deleteEntriesForIdentity
  unfoldable pub delete_entries_for_identity : WorkloadIdentity k → Exec State (Unit {0})
  delete_entries_for_identity identity =
      delete_where λ entry. entry_belongs_to_identity sp k entry identity

  -- deleteEntriesForCluster
  unfoldable pub delete_entries_for_cluster : EksClusterRegistry → Exec State (Unit {0})
  delete_entries_for_cluster cluster =
      delete_where λ entry. entry_belongs_to_cluster sp entry cluster

  -- The loop over the pods of an identity in one cluster.
  unfoldable pub reconcile_pods :
      Connection → WorkloadIdentity k → EksClusterRegistry → List Pod → Exec State (Unit {0})
  reconcile_pods conn identity cluster = for_each_if is_ready λ pod.
      unless_error (lift (conn.get_node pod.spec.node_name))
        λ node. reconcile_pod_entry pod node identity cluster

  -- ReconcileSinglePod, of the identities that List returned
  abbrev pub in_connection :
      Option Connection → (Connection → Exec State (Unit {0})) → Exec State (Unit {0})
  in_connection none f = pure tt
  in_connection (some conn) f = f conn

  abbrev pub unless_empty :
      List (WorkloadIdentity k) → Exec State (Unit {0}) → Exec State (Unit {0})
  unless_empty [] m = pure tt
  unless_empty (i ∷ l) m = m

  unfoldable pub reconcile_single_pod :
      (Text → Option Connection)
      → List (WorkloadIdentity k)
      → Pod
      → EksClusterRegistry
      → Text
      → Exec State (Unit {0})
  reconcile_single_pod connections all_identities pod cluster action =
      if is_namespace_ignored config.ignore_namespaces pod.meta.namespace
      then pure tt
      else if action == bytes "delete"
      then delete_entries_for_pod pod
      else lift (find_matching_identities k pod cluster all_identities) >>= λ identities.
          unless_empty identities (
            if not (is_ready pod)
            then delete_entries_for_pod pod
            else in_connection (connections cluster.meta.name) λ conn.
              unless_error (lift (conn.get_node pod.spec.node_name)) λ node.
                for_each (λ identity. reconcile_pod_entry pod node identity cluster) identities)

  -- The valid pods of an identity, over the clusters.
  unfoldable pub uids_of_identity :
      (Text → Option Connection)
      → WorkloadIdentity k
      → List EksClusterRegistry
      → Map Text Bool
      → Result (Map Text Bool)
  uids_of_identity connections identity [] uids = ok uids
  uids_of_identity connections identity (cluster ∷ clusters) uids =
      add_pods (connections cluster.meta.name) identity uids
        (λ m. uids_of_identity connections identity clusters m)
    where
      add_found :
          Result (List Pod)
          → Map Text Bool
          → (Map Text Bool → Result (Map Text Bool))
          → Result (Map Text Bool)
      add_found (ok pods) uids next = next (add_uids pods uids)
      add_found (err e) uids next = err e
      add_found panic uids next = panic

      add_pods :
          Option Connection
          → WorkloadIdentity k
          → Map Text Bool
          → (Map Text Bool → Result (Map Text Bool))
          → Result (Map Text Bool)
      add_pods none identity uids next = next uids
      add_pods (some conn) identity uids next =
          add_found (get_matching_pods k conn identity) uids next

  -- cleanupOrphanedEntriesForIdentity, of the clusters that List returned
  unfoldable pub cleanup_orphaned_entries_for_identity :
      (Text → Option Connection)
      → List EksClusterRegistry
      → WorkloadIdentity k
      → Exec State (Unit {0})
  cleanup_orphaned_entries_for_identity connections all_clusters identity =
      unless_error cl.list_entries λ entries.
        lift (
          uids_of_identity connections identity (find_matching_clusters k identity all_clusters) [])
        >>= λ uids.
            for_each_if
              (λ entry.
                entry_belongs_to_identity sp k entry identity
                && not (any (names_pod uids) entry.selectors))
              (λ entry. ignoring (cl.delete_entry entry.id)) entries

  -- ReconcileWorkloadIdentity
  unfoldable pub reconcile_workload_identity :
      (Text → Option Connection)
      → List EksClusterRegistry
      → WorkloadIdentity k
      → Bool
      → Exec State (Unit {0})
  reconcile_workload_identity connections all_clusters identity deleted =
      if deleted
      then delete_entries_for_identity identity
      else for_each
          (λ (cluster : EksClusterRegistry). in_connection (connections cluster.meta.name) λ conn.
            lift (get_matching_pods k conn identity) >>= λ pods.
            reconcile_pods conn identity cluster pods)
          (find_matching_clusters k identity all_clusters)
        >> cleanup_orphaned_entries_for_identity connections all_clusters identity
