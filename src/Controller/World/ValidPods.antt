-- ===== src/Controller/World/ValidPods.antt =====
-- The valid pods of cleanupOrphanedEntriesForCluster, and the set that its first loop makes of their UIDs.
use spire_eks_workload_regis.Prelude.{
  ◌≡◌, ◌≢◌, refl, ap, ◌∙◌, ◌↔◌, ◌⊎◌, inl, inr, Bool, true, false, List, [], ◌∷◌, ok, panic, In,
  Bool-cases,
}
use spire_eks_workload_regis.Prelude.Maps.{Map, lookup, insert, lookup-insert}
use spire_eks_workload_regis.Text.{Text, ◌==◌, eq_iff}
use spire_eks_workload_regis.Api.{Kube, WorkloadIdentity, Pod, text_keys}
use spire_eks_workload_regis.SpireApi.{Spiffe, Client}
use spire_eks_workload_regis.SpireEntry.Render.{Templates}
use spire_eks_workload_regis.Aws.{Sdk}
use spire_eks_workload_regis.Controller.Select.{Connection, is_ready}
use spire_eks_workload_regis.Controller.Select.Pods.{
  IsReady, is_ready_iff, IsPodOf, get_matching_pods-IsPodOf,
}
use spire_eks_workload_regis.Controller.Targeted.{Config, is_set, add_uids}
use spire_eks_workload_regis.Controller.World.{Clusters, KubeApi}
use spire_eks_workload_regis.Controller.World.Events.{uids_in}

-- The UID is in the set.
abbrev pub Marked : Map Text Bool → Text → Type 0
Marked uids uid = is_set (lookup text_keys uid uids) ≡ true

Marked-insert :
    (uid x : Text) (uids : Map Text Bool)
    → Marked (insert text_keys x true uids) uid ↔ ((x ≡ uid) ⊎ Marked uids uid)
Marked-insert uid x uids = elim (Bool-cases (x == uid)) [
  | inl e ↦
      rw (lookup-insert text_keys x uid true uids, e) ((λ h. inl ((eq_iff x uid).0 e)), (λ h. refl))
  | inr e ↦
      rw (lookup-insert text_keys x uid true uids, e)
        ((λ h. inr h), (λ h. elim h [ inl q ↦ absurd (differ e q) | inr m ↦ m ]))
]
  where
    differ : (x == uid) ≡ false → x ≢ uid
    differ e q = cc (e, (eq_iff x uid).1 q)

-- A ready pod of the list with that UID.
abbrev ReadyIn : List Pod → Text → Type 0
ReadyIn pods uid = (pod : Pod) × In pod pods × IsReady pod × (pod.meta.uid ≡ uid)

add_uids-Marked :
    (uid : Text) (pods : List Pod) (uids : Map Text Bool)
    → Marked (add_uids pods uids) uid ↔ (ReadyIn pods uid ⊎ Marked uids uid)
unfolding add_uids
add_uids-Marked uid [] uids =
    ((λ h. inr h), (λ h. elim h [ inl (pod, i, r, q) ↦ absurd i | inr m ↦ m ]))
add_uids-Marked uid (x ∷ pods) uids = elim (Bool-cases (is_ready x)) [
  | inl e ↦ rw e (
      added e (add_uids-Marked uid pods (insert text_keys x.meta.uid true uids))
        (Marked-insert uid x.meta.uid uids))
  | inr e ↦ rw e (passed e (add_uids-Marked uid pods uids))
]
  where
    weaker : ReadyIn pods uid → ReadyIn (x ∷ pods) uid
    weaker (pod, i, r, q) = (pod, inr i, r, q)

    added :
        {M N : Type 0}
        → is_ready x ≡ true
        → M ↔ (ReadyIn pods uid ⊎ N)
        → N ↔ ((x.meta.uid ≡ uid) ⊎ Marked uids uid)
        → M ↔ (ReadyIn (x ∷ pods) uid ⊎ Marked uids uid)
    added e f g = (
      (λ h. elim (f.0 h) [
        | inl r ↦ inl (weaker r)
        | inr n ↦ elim (g.0 n) [
          | inl q ↦ inl (x, inl refl, (is_ready_iff x).0 e, q)
          | inr m ↦ inr m
        ]
      ]),
      (λ h. elim h [
        | inl (pod, inl p, r, q) ↦ f.1 (inr (g.1 (inl (ap (λ (y : Pod). y.meta.uid) p ∙ q))))
        | inl (pod, inr i, r, q) ↦ f.1 (inl (pod, i, r, q))
        | inr m ↦ f.1 (inr (g.1 (inr m)))
      ]),
    )

    passed :
        {M : Type 0}
        → is_ready x ≡ false
        → M ↔ (ReadyIn pods uid ⊎ Marked uids uid)
        → M ↔ (ReadyIn (x ∷ pods) uid ⊎ Marked uids uid)
    passed e f = (
      (λ h. elim (f.0 h) [ inl r ↦ inl (weaker r) | inr m ↦ inr m ]),
      (λ h. elim h [
        | inl (pod, inl p, r, q) ↦ absurd (cc (e, (is_ready_iff pod).1 r, p))
        | inl (pod, inr i, r, q) ↦ f.1 (inl (pod, i, r, q))
        | inr m ↦ f.1 (inr m)
      ]),
    )

module _ (k : Kube) where
  -- The UID of a ready pod of the connection that one of the identities selects.
  pub record IsValidUid (conn : Connection) (identities : List (WorkloadIdentity k)) (uid : Text)
      : Type 0 where
    pub identity : WorkloadIdentity k
    pub pod : Pod
    pub listed : In identity identities
    pub selected : IsPodOf k conn identity pod
    pub ready : IsReady pod
    pub of_pod : pod.meta.uid ≡ uid

  module _ (conn : Connection) (x : WorkloadIdentity k) (l : List (WorkloadIdentity k))
      (uid : Text) where
    later_identity : IsValidUid conn l uid → IsValidUid conn (x ∷ l) uid
    later_identity v = record {
      identity = v.identity;
      pod = v.pod;
      listed = inr v.listed;
      selected = v.selected;
      ready = v.ready;
      of_pod = v.of_pod;
    }

    one_more :
        {M N L : Type 0} (pods : List Pod)
        → ((pod : Pod) → In pod pods ↔ IsPodOf k conn x pod)
        → M ↔ (IsValidUid conn l uid ⊎ N)
        → N ↔ (ReadyIn pods uid ⊎ L)
        → M ↔ (IsValidUid conn (x ∷ l) uid ⊎ L)
    one_more {M = M} pods of f g = (
      (λ h. elim (f.0 h) [
        | inl v ↦ inl (later_identity v)
        | inr n ↦ elim (g.0 n) [
          | inl (pod, i, r, q) ↦ inl (record {
            identity = x;
            pod = pod;
            listed = inl refl;
            selected = (of pod).0 i;
            ready = r;
            of_pod = q;
          })
          | inr m ↦ inr m
        ]
      ]),
      (λ h. elim h [ inl v ↦ back v v.listed | inr m ↦ f.1 (inr (g.1 (inr m))) ]),
    )
      where
        back : (v : IsValidUid conn (x ∷ l) uid) → In v.identity (x ∷ l) → M
        back v (inl e) =
            f.1 (inr (g.1 (inl (v.pod, (of v.pod).1 (rw e v.selected), v.ready, v.of_pod))))
        back v (inr i) = f.1 (
            inl (record {
              identity = v.identity;
              pod = v.pod;
              listed = i;
              selected = v.selected;
              ready = v.ready;
              of_pod = v.of_pod;
            }))

module _ (sp : Spiffe) (k : Kube) (t : Templates) (cl : Client sp) (digest : Text → Text)
    (config : Config) (sdk : Sdk) (api : KubeApi k) (shown : Clusters sdk) where
  pub uids_in-Marked :
      (conn : Connection) (l : List (WorkloadIdentity k)) (uids : Map Text Bool)
      → ((i : WorkloadIdentity k)
          → In i l
          → k.label_selector_as_selector i.spec.pod_selector ≢ panic)
      → (found : Map Text Bool) × (uids_in sp k t cl digest config sdk api shown conn l uids
          ≡ ok found)
        × ((uid : Text) → Marked found uid ↔ (IsValidUid k conn l uid ⊎ Marked uids uid))
  unfolding uids_in
  uids_in-Marked conn [] uids calm =
      (uids, refl, λ uid. ((λ m. inr m), (λ h. elim h [ inl v ↦ absurd v.listed | inr m ↦ m ])))
  uids_in-Marked conn (x ∷ l) uids calm =
      let (pods, a, b) = get_matching_pods-IsPodOf k conn x (calm x (inl refl)) in
      let (found, c, d) = uids_in-Marked conn l (add_uids pods uids) (λ i m. calm i (inr m)) in
      (found, rw a c, λ uid. one_more k conn x l uid pods b (d uid) (add_uids-Marked uid pods uids))
