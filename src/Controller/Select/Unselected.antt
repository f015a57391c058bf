-- ===== src/Controller/Select/Unselected.antt =====
-- Which pods an identity with no pod selector is about, by each of the two reconcilers.
use spire_eks_workload_regis.Prelude.{
  Bool, ◌≡◌, refl, true, false, List, [], ◌∷◌, Option, none, some, ok, ◌>>=◌, Bool-cases, inl, inr,
}
use spire_eks_workload_regis.Prelude.Maps.{Map}
use spire_eks_workload_regis.Text.{Text, ◌==◌, eq_iff}
use spire_eks_workload_regis.Api.{Kube, KubeLaws, WorkloadIdentity, EksClusterRegistry, Pod}
use spire_eks_workload_regis.Controller.Select.{
  Connection, select_pods, should_process_identity, get_pods_from_informer, get_matching_pods,
  find_matching_identities,
}

select_pods-nothing :
    (namespace : Text) (f : Map Text Text → Bool) (objs : List (Option Pod))
    → ((labels : Map Text Text) → f labels ≡ false)
    → select_pods namespace f objs ≡ []
unfolding select_pods
select_pods-nothing namespace f [] h = refl
select_pods-nothing namespace f (none ∷ objs) h = select_pods-nothing namespace f objs h
select_pods-nothing namespace f (some pod ∷ objs) h =
    elim (Bool-cases (pod.meta.namespace == namespace)) [
      | inl q ↦ rw (q, h pod.meta.labels) (select_pods-nothing namespace f objs h)
      | inr q ↦ rw q (select_pods-nothing namespace f objs h)
    ]

module _ (k : Kube) (laws : KubeLaws k) where
  -- As a nil label selector matches nothing, the rounds over a cluster find no pods for an identity
  -- with no pod selector, but a pod's event finds that identity for every pod of its namespace in
  -- the clusters that the identity is for.
  pub find_matching_identities-unselected :
      (identity : WorkloadIdentity k) (l : List (WorkloadIdentity k)) (conn : Connection)
      (pod : Pod) (cluster : EksClusterRegistry)
      → identity.spec.pod_selector ≡ none
      → identity.spec.namespace ≡ pod.meta.namespace
      → should_process_identity k identity cluster ≡ true
      → (get_pods_from_informer k conn identity ≡ ok [])
        × (get_matching_pods k conn identity ≡ ok [])
        × (find_matching_identities k pod cluster (identity ∷ l)
            ≡ (find_matching_identities k pod cluster l >>= λ matching. ok (identity ∷ matching)))
  unfolding get_pods_from_informer get_matching_pods find_matching_identities
  find_matching_identities-unselected identity l conn pod cluster unselected same_namespace here =
      let (f, nil_is) = laws.nil_is_selector in
      let nothing =
        select_pods-nothing identity.spec.namespace f conn.objects
          (laws.nil_selects_nothing f nil_is) in
      let equal = (eq_iff identity.spec.namespace pod.meta.namespace).1 same_namespace in
      (
        rw (unselected, nil_is, nothing) refl,
        rw (unselected, nil_is, nothing) refl,
        rw (equal, here, unselected) refl,
      )
