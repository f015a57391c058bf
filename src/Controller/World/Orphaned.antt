-- ===== src/Controller/World/Orphaned.antt =====
-- The test of the second loop of cleanupOrphanedEntriesForCluster.
use spire_eks_workload_regis.Prelude.{
  ◌≡◌, ◌≢◌, refl, ◌↔◌, ◌⊎◌, inl, inr, Bool, true, false, not, ◌&&◌, List, [], ◌++◌, In, any, any-In,
  any_of_In, Bool-cases, arith,
}
use spire_eks_workload_regis.Prelude.Maps.{Map, lookup}
use spire_eks_workload_regis.Text.{
  Text, bytes, ◌==◌, eq_iff, has_prefix, has_prefix-append, has_prefix-split,
}
use spire_eks_workload_regis.Text.Search.{trim_prefix, trim_prefix-append}
use spire_eks_workload_regis.Api.{Kube, WorkloadIdentity, EksClusterRegistry, Pod}
use spire_eks_workload_regis.SpireApi.{Spiffe, Entry, Selector, Client}
use spire_eks_workload_regis.SpireEntry.Render.{Templates}
use spire_eks_workload_regis.Aws.{Sdk}
use spire_eks_workload_regis.Controller.Ownership.{entry_belongs_to_cluster}
use spire_eks_workload_regis.Controller.Select.{
  Connection, should_process_identity, find_identities_for_cluster,
}
use spire_eks_workload_regis.Controller.Select.Pods.{
  IsReady, IsPodOf, find_identities_for_cluster-In, In-find_identities_for_cluster,
}
use spire_eks_workload_regis.Controller.Targeted.{Config, names_pod}
use spire_eks_workload_regis.Controller.World.{Clusters, KubeApi}
use spire_eks_workload_regis.Controller.World.Events.{orphaned}
use spire_eks_workload_regis.Controller.World.ValidPods.{Marked, IsValidUid}

-- The selector of a pod's UID, and what the code makes of it.
names_pod_iff :
    (uids : Map Text Bool) (s : Selector)
    → (names_pod uids s ≡ true) ↔ (
        (uid : Text) × (s.type ≡ bytes "k8s")
        × (s.value ≡ bytes "pod-uid:" ++ uid)
        × Marked uids uid)
unfolding names_pod
names_pod_iff uids s = (to, from)
  where
    named :
        has_prefix s.value (bytes "pod-uid:") ≡ true
        → s.type ≡ bytes "k8s"
        → Marked uids (trim_prefix s.value (bytes "pod-uid:"))
        → (uid : Text) × (s.type ≡ bytes "k8s")
          × (s.value ≡ bytes "pod-uid:" ++ uid)
          × Marked uids uid
    named p a m =
        let (uid, e) = has_prefix-split s.value (bytes "pod-uid:") p in
        (uid, a, e, rw (e, trim_prefix-append (bytes "pod-uid:") uid) at m)

    to :
        names_pod uids s ≡ true
        → (uid : Text) × (s.type ≡ bytes "k8s")
          × (s.value ≡ bytes "pod-uid:" ++ uid)
          × Marked uids uid
    to h = elim (Bool-cases (s.type == bytes "k8s")) [
      | inr a ↦ cc (rw a at h)
      | inl a ↦ elim (Bool-cases (has_prefix s.value (bytes "pod-uid:"))) [
        | inr b ↦ cc (rw (a, b) at h)
        | inl b ↦ named b ((eq_iff s.type (bytes "k8s")).0 a) (rw (a, b) at h)
      ]
    ]

    from :
        (uid : Text) × (s.type ≡ bytes "k8s")
          × (s.value ≡ bytes "pod-uid:" ++ uid)
          × Marked uids uid
        → names_pod uids s ≡ true
    from (uid, a, e, m) =
        rw
          (
            (eq_iff s.type (bytes "k8s")).1 a,
            e,
            has_prefix-append (bytes "pod-uid:") uid,
            trim_prefix-append (bytes "pod-uid:") uid,
          )
          m

both_true : (a b : Bool) → (a && not b) ≡ true → a ≡ true
both_true a b h = ground arith

none_named : (a b : Bool) → (a && not b) ≡ true → b ≡ false
none_named a b h = ground arith

module _ (sp : Spiffe) (k : Kube) (t : Templates) (cl : Client sp) (digest : Text → Text)
    (config : Config) (sdk : Sdk) (api : KubeApi k) (shown : Clusters sdk) where
  -- An entry of the cluster without the selector of any valid pod, as the listed identities that are for
  -- the cluster select them.
  pub record IsOrphaned (cluster : EksClusterRegistry) (conn : Connection)
      (identities : List (WorkloadIdentity k)) (e : Entry sp) : Type 0 where
    pub of_cluster : entry_belongs_to_cluster sp e cluster ≡ true
    pub no_valid_pod :
        (s : Selector) (uid : Text) (identity : WorkloadIdentity k) (pod : Pod)
        → In s e.selectors
        → s.type ≡ bytes "k8s"
        → s.value ≡ bytes "pod-uid:" ++ uid
        → In identity identities
        → should_process_identity k identity cluster ≡ true
        → IsPodOf k conn identity pod
        → IsReady pod
        → pod.meta.uid ≢ uid

  pub orphaned_iff :
      (cluster : EksClusterRegistry) (conn : Connection) (identities : List (WorkloadIdentity k))
      (uids : Map Text Bool)
      → ((uid : Text)
          → Marked uids uid ↔ (
              IsValidUid k conn (find_identities_for_cluster k cluster identities) uid
              ⊎ Marked [] uid))
      → (e : Entry sp)
      → (orphaned sp k t cl digest config sdk api shown cluster uids e ≡ true)
        ↔ IsOrphaned cluster conn identities e
  unfolding lookup
  orphaned_iff cluster conn identities uids marks e = (to, from)
    where
      to :
          orphaned sp k t cl digest config sdk api shown cluster uids e ≡ true
          → IsOrphaned cluster conn identities e
      to h = record {
        of_cluster = both_true _ _ h;
        no_valid_pod = λ s uid identity pod i ty va j p o r q. cc (
          none_named _ _ h,
          any_of_In (names_pod uids) s e.selectors i (
              (names_pod_iff uids s).1 (
                uid,
                ty,
                va,
                (marks uid).1 (
                    inl (record {
                      identity = identity;
                      pod = pod;
                      listed = In-find_identities_for_cluster k cluster identity identities j p;
                      selected = o;
                      ready = r;
                      of_pod = q;
                    })),
              )),
        );
      }

      from :
          IsOrphaned cluster conn identities e
          → orphaned sp k t cl digest config sdk api shown cluster uids e ≡ true
      from o = elim (Bool-cases (any (names_pod uids) e.selectors)) [
        | inr n ↦ rw (o.of_cluster, n) refl
        | inl n ↦
            let (s, i, m) = any-In (names_pod uids) e.selectors n in
            let (uid, ty, va, c) = (names_pod_iff uids s).0 m in
            elim ((marks uid).0 c) [
              | inr x ↦ cc x
              | inl v ↦
                  let (j, p) =
                    find_identities_for_cluster-In k cluster v.identity identities v.listed in
                  absurd
                    (o.no_valid_pod s uid v.identity v.pod i ty va j p v.selected v.ready v.of_pod)
            ]
      ]
