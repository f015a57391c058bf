-- ===== src/Controller/Select.antt =====
-- Which namespaces, entries, identities and pods a round is about: the tests of
-- internal/controller/main_reconciler.go and targeted_reconciler.go. A regular expression is its
-- `MatchString`, and an object of the informer's store that is no pod is none.
pub mod Unselected
pub mod Pods
use spire_eks_workload_regis.Prelude.{
  Bool, true, false, not, ◌&&◌, List, [], ◌∷◌, Option, none, some, Result, ok, err, panic,
  if◌then◌else◌, ◌>>=◌,
}
use spire_eks_workload_regis.Prelude.Maps.{Map}
use spire_eks_workload_regis.Text.{Text, bytes, ◌==◌, has_prefix}
use spire_eks_workload_regis.Api.{Kube, WorkloadIdentity, EksClusterRegistry, Pod, Node}
use spire_eks_workload_regis.SpireApi.{Spiffe, Entry}

-- cluster.ClusterConnection, as a round reads it: the cluster, the informer's store, and the
-- answers of the cluster's API to a request for a node.
pub record Connection : Type 0 where
  pub cluster : EksClusterRegistry
  pub objects : List (Option Pod)
  pub get_node : Text → Result Node

-- x == nil, of a pointer
abbrev pub is_nil {ℓ} : {A : Type ℓ} → Option A → Bool
is_nil none = true
is_nil (some a) = false

-- pod.Status.Phase == Running && pod.DeletionTimestamp == nil && pod.Spec.NodeName != ""
unfoldable pub is_ready : Pod → Bool
is_ready pod =
    pod.phase == bytes "Running"
    && (is_nil pod.meta.deletion_timestamp && not (pod.spec.node_name == []))

-- isNamespaceIgnored
unfoldable pub is_namespace_ignored : List (Text → Bool) → Text → Bool
is_namespace_ignored [] namespace = false
is_namespace_ignored (matches ∷ regexes) namespace =
    if matches namespace then true else is_namespace_ignored regexes namespace

-- The loop over the informer's objects.
unfoldable pub select_pods : Text → (Map Text Text → Bool) → List (Option Pod) → List Pod
select_pods namespace matches [] = []
select_pods namespace matches (none ∷ objs) = select_pods namespace matches objs
select_pods namespace matches (some pod ∷ objs) =
    let rest = select_pods namespace matches objs in
    if not (pod.meta.namespace == namespace)
    then rest
    else if not (matches pod.meta.labels)
    then rest
    else pod ∷ rest

module _ (sp : Spiffe) where
  -- shouldProcessEntry
  unfoldable pub should_process_entry : Text → Entry sp → Bool
  should_process_entry prefix entry = if prefix == [] then true else has_prefix entry.id prefix

module _ (k : Kube) where
  -- selector.Matches(...), false on an error
  abbrev pub matches_or_false : Result (Map Text Text → Bool) → Map Text Text → Bool
  matches_or_false (ok matches) labels = matches labels
  matches_or_false (err e) labels = false
  matches_or_false panic labels = false

  abbrev pub matches_cluster : Option k.LabelSelector → Map Text Text → Bool
  matches_cluster none labels = true
  matches_cluster (some s) labels = matches_or_false (k.label_selector_as_selector (some s)) labels

  -- shouldProcessIdentity
  unfoldable pub should_process_identity : WorkloadIdentity k → EksClusterRegistry → Bool
  should_process_identity identity cluster =
      matches_cluster identity.spec.cluster_selector cluster.spec.labels

  -- getPodsFromInformer
  unfoldable pub get_pods_from_informer : Connection → WorkloadIdentity k → Result (List Pod)
  get_pods_from_informer conn identity = do
    matches ← k.label_selector_as_selector identity.spec.pod_selector
    ok (select_pods identity.spec.namespace matches conn.objects)

  -- getMatchingPods: no pods on an error
  abbrev selected_pods :
      Result (Map Text Text → Bool) → Text → List (Option Pod) → Result (List Pod)
  selected_pods (ok matches) namespace objs = ok (select_pods namespace matches objs)
  selected_pods (err e) namespace objs = ok []
  selected_pods panic namespace objs = panic

  unfoldable pub get_matching_pods : Connection → WorkloadIdentity k → Result (List Pod)
  get_matching_pods conn identity =
      selected_pods (k.label_selector_as_selector identity.spec.pod_selector)
        identity.spec.namespace conn.objects

  -- if selector != nil { s, _ := LabelSelectorAsSelector(selector); if !s.Matches(labels) {continue} }
  -- On an error s is a nil interface, and calling it panics.
  abbrev pub called : Result (Map Text Text → Bool) → Map Text Text → Result Bool
  called (ok matches) labels = ok (matches labels)
  called (err e) labels = panic
  called panic labels = panic

  abbrev pub matches_pod : Option k.LabelSelector → Map Text Text → Result Bool
  matches_pod none labels = ok true
  matches_pod (some s) labels = called (k.label_selector_as_selector (some s)) labels

  -- findMatchingIdentities, of the identities that List returned
  unfoldable pub find_matching_identities :
      Pod → EksClusterRegistry → List (WorkloadIdentity k) → Result (List (WorkloadIdentity k))
  find_matching_identities pod cluster [] = ok []
  find_matching_identities pod cluster (identity ∷ identities) =
      let rest = find_matching_identities pod cluster identities in
      if not (identity.spec.namespace == pod.meta.namespace)
      then rest
      else if not (should_process_identity identity cluster)
      then rest
      else matches_pod identity.spec.pod_selector pod.meta.labels >>= λ b.
          rest >>= λ matching. ok (if b then identity ∷ matching else matching)

  -- findMatchingClusters, of the clusters that List returned
  unfoldable pub find_matching_clusters :
      WorkloadIdentity k → List EksClusterRegistry → List EksClusterRegistry
  find_matching_clusters identity [] = []
  find_matching_clusters identity (cluster ∷ clusters) =
      let rest = find_matching_clusters identity clusters in
      if cluster.spec.enabled && should_process_identity identity cluster
      then cluster ∷ rest
      else rest

  -- findIdentitiesForCluster, of the identities that List returned
  unfoldable pub find_identities_for_cluster :
      EksClusterRegistry → List (WorkloadIdentity k) → List (WorkloadIdentity k)
  find_identities_for_cluster cluster [] = []
  find_identities_for_cluster cluster (identity ∷ identities) =
      let rest = find_identities_for_cluster cluster identities in
      if should_process_identity identity cluster then identity ∷ rest else rest
