-- ===== src/Controller/Select/Pods.antt =====
-- Which pods and identities the loops of the controllers select.
use spire_eks_workload_regis.Prelude.{
  ◌≡◌, ◌≢◌, refl, ◌↔◌, inl, inr, Bool, true, not, ◌&&◌, List, [], ◌∷◌, Option, none, some, Result,
  ok, err, panic, In, Bool-cases, arith,
}
use spire_eks_workload_regis.Prelude.Maps.{Map}
use spire_eks_workload_regis.Text.{Text, bytes, ◌==◌, eq_iff, eq_refl}
use spire_eks_workload_regis.Api.{Kube, WorkloadIdentity, EksClusterRegistry, Pod}
use spire_eks_workload_regis.Controller.Select.{
  Connection, is_nil, is_ready, select_pods, should_process_identity, get_matching_pods,
  find_identities_for_cluster,
}

-- A running pod that is not being deleted and has a node.
pub record IsReady (pod : Pod) : Type 0 where
  pub running : pod.phase ≡ bytes "Running"
  pub not_deleted : pod.meta.deletion_timestamp ≡ none
  pub has_node : pod.spec.node_name ≢ []

and_three : (a b c : Bool) → (a && (b && c)) ≡ true → (a ≡ true) × (b ≡ true) × (c ≡ true)
and_three a b c h = ground arith

nil_none {ℓ} : {A : Type ℓ} (o : Option A) → is_nil o ≡ true → o ≡ none
nil_none none h = refl
nil_none (some a) h = cc h

not_empty : (s : Text) → s ≢ [] → not (s == []) ≡ true
not_empty s n = elim (Bool-cases (s == [])) [
  | inl e ↦ absurd (n ((eq_iff s []).0 e))
  | inr e ↦ rw e refl
]

pub is_ready_iff : (pod : Pod) → (is_ready pod ≡ true) ↔ IsReady pod
unfolding is_ready
is_ready_iff pod = (
  (λ h.
      let (a, b, c) = and_three _ _ _ h in
      record {
        running = (eq_iff pod.phase (bytes "Running")).0 a;
        not_deleted = nil_none pod.meta.deletion_timestamp b;
        has_node = λ e. cc (rw (e, eq_refl []) at c);
      }),
  (λ r.
      rw
        (
          (eq_iff pod.phase (bytes "Running")).1 r.running,
          r.not_deleted,
          not_empty pod.spec.node_name r.has_node,
        )
        refl),
)

-- A pod of the informer's store, of the namespace, that the selector takes.
pub record IsSelected (namespace : Text) (matches : Map Text Text → Bool) (objs : List (Option Pod))
    (pod : Pod) : Type 0 where
  pub stored : In (some pod) objs
  pub in_namespace : pod.meta.namespace ≡ namespace
  pub matching : matches pod.meta.labels ≡ true

module _ (namespace : Text) (matches : Map Text Text → Bool) (pod : Pod) where
  later :
      (o : Option Pod) (objs : List (Option Pod))
      → IsSelected namespace matches objs pod
      → IsSelected namespace matches (o ∷ objs) pod
  later o objs s = record {
    stored = inr s.stored;
    in_namespace = s.in_namespace;
    matching = s.matching;
  }

  pub select_pods-IsSelected :
      (objs : List (Option Pod))
      → In pod (select_pods namespace matches objs)
      → IsSelected namespace matches objs pod
  unfolding select_pods
  select_pods-IsSelected [] i = absurd i
  select_pods-IsSelected (none ∷ objs) i = later none objs (select_pods-IsSelected objs i)
  select_pods-IsSelected (some x ∷ objs) i = elim (Bool-cases (x.meta.namespace == namespace)) [
    | inr a ↦ later (some x) objs (select_pods-IsSelected objs (rw a at i))
    | inl a ↦ elim (Bool-cases (matches x.meta.labels)) [
      | inr b ↦ later (some x) objs (select_pods-IsSelected objs (rw (a, b) at i))
      | inl b ↦ here x objs (select_pods-IsSelected objs) ((eq_iff _ _).0 a) b (rw (a, b) at i)
    ]
  ]
    where
      here :
          (x : Pod) (objs : List (Option Pod))
          → (In pod (select_pods namespace matches objs) → IsSelected namespace matches objs pod)
          → x.meta.namespace ≡ namespace
          → matches x.meta.labels ≡ true
          → In pod (x ∷ select_pods namespace matches objs)
          → IsSelected namespace matches (some x ∷ objs) pod
      here x objs f a b (inl e) = record {
        stored = inl (rw e refl);
        in_namespace = rw (← e) a;
        matching = rw (← e) b;
      }
      here x objs f a b (inr i) = later (some x) objs (f i)

  pub IsSelected-select_pods :
      (objs : List (Option Pod))
      → In (some pod) objs
      → pod.meta.namespace ≡ namespace
      → matches pod.meta.labels ≡ true
      → In pod (select_pods namespace matches objs)
  unfolding select_pods
  IsSelected-select_pods [] i a b = absurd i
  IsSelected-select_pods (none ∷ objs) (inl e) a b = cc e
  IsSelected-select_pods (none ∷ objs) (inr i) a b = IsSelected-select_pods objs i a b
  IsSelected-select_pods (some x ∷ objs) (inl e) a b =
      let same : x ≡ pod = cc e in
      rw (same, (eq_iff pod.meta.namespace namespace).1 a, b) (inl refl)
  IsSelected-select_pods (some x ∷ objs) (inr i) a b =
      let rest = IsSelected-select_pods objs i a b in
      elim (Bool-cases (x.meta.namespace == namespace)) [
        | inr p ↦ rw p rest
        | inl p ↦ elim (Bool-cases (matches x.meta.labels)) [
          | inr q ↦ rw (p, q) rest
          | inl q ↦ rw (p, q) (inr rest)
        ]
      ]

module _ (k : Kube) where
  -- A pod of a connection that an identity selects.
  pub record IsPodOf (conn : Connection) (identity : WorkloadIdentity k) (pod : Pod) : Type 0 where
    pub matches : Map Text Text → Bool
    pub selector : k.label_selector_as_selector identity.spec.pod_selector ≡ ok matches
    pub selected : IsSelected identity.spec.namespace matches conn.objects pod

  pub get_matching_pods-IsPodOf :
      (conn : Connection) (identity : WorkloadIdentity k)
      → k.label_selector_as_selector identity.spec.pod_selector ≢ panic
      → (pods : List Pod) × (get_matching_pods k conn identity ≡ ok pods)
        × ((pod : Pod) → In pod pods ↔ IsPodOf conn identity pod)
  unfolding get_matching_pods
  get_matching_pods-IsPodOf conn identity n =
      on_selector (k.label_selector_as_selector identity.spec.pod_selector) refl
    where
      on_selector :
          (p : Result (Map Text Text → Bool))
          → k.label_selector_as_selector identity.spec.pod_selector ≡ p
          → (pods : List Pod) × (get_matching_pods k conn identity ≡ ok pods)
            × ((pod : Pod) → In pod pods ↔ IsPodOf conn identity pod)
      on_selector (ok f) h = (
        select_pods identity.spec.namespace f conn.objects,
        rw h refl,
        λ pod. (
          (λ i. record {
            matches = f;
            selector = h;
            selected = select_pods-IsSelected identity.spec.namespace f pod conn.objects i;
          }),
          (λ p.
              let same : p.matches ≡ f = cc (p.selector, h) in
              IsSelected-select_pods identity.spec.namespace f pod conn.objects p.selected.stored
                p.selected.in_namespace (rw (← same) p.selected.matching)),
        ),
      )
      on_selector (err e) h = ([], rw h refl, λ pod. ((λ i. absurd i), (λ p. cc (p.selector, h))))
      on_selector panic h = absurd (n h)

  pub find_identities_for_cluster-In :
      (cluster : EksClusterRegistry) (identity : WorkloadIdentity k) (l : List (WorkloadIdentity k))
      → In identity (find_identities_for_cluster k cluster l)
      → In identity l × (should_process_identity k identity cluster ≡ true)
  unfolding find_identities_for_cluster
  find_identities_for_cluster-In cluster identity [] i = absurd i
  find_identities_for_cluster-In cluster identity (x ∷ l) i =
      elim (Bool-cases (should_process_identity k x cluster)) [
        | inr p ↦
            let r = find_identities_for_cluster-In cluster identity l (rw p at i) in (inr r.0, r.1)
        | inl p ↦ here (find_identities_for_cluster-In cluster identity l) p (rw p at i)
      ]
    where
      here :
          (In identity (find_identities_for_cluster k cluster l)
            → In identity l × (should_process_identity k identity cluster ≡ true))
          → should_process_identity k x cluster ≡ true
          → In identity (x ∷ find_identities_for_cluster k cluster l)
          → In identity (x ∷ l) × (should_process_identity k identity cluster ≡ true)
      here f p (inl e) = (inl e, rw (← e) p)
      here f p (inr j) = let r = f j in (inr r.0, r.1)

  pub In-find_identities_for_cluster :
      (cluster : EksClusterRegistry) (identity : WorkloadIdentity k) (l : List (WorkloadIdentity k))
      → In identity l
      → should_process_identity k identity cluster ≡ true
      → In identity (find_identities_for_cluster k cluster l)
  unfolding find_identities_for_cluster
  In-find_identities_for_cluster cluster identity [] i p = absurd i
  In-find_identities_for_cluster cluster identity (x ∷ l) (inl e) p = rw (e, p) (inl refl)
  In-find_identities_for_cluster cluster identity (x ∷ l) (inr i) p =
      let rest = In-find_identities_for_cluster cluster identity l i p in
      elim (Bool-cases (should_process_identity k x cluster)) [
        | inl q ↦ rw q (inr rest)
        | inr q ↦ rw q rest
      ]
