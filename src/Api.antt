-- ===== src/Api.antt =====
-- api/v1alpha1: the custom resources, and what the program reads of Kubernetes objects.
-- Label selectors and durations are Kubernetes', and a parameter.
use spire_eks_workload_regis.Prelude.{ℕ, ◌≡◌, Bool, List, Option, none, Result, ok, false}
use spire_eks_workload_regis.Prelude.Int.{ℤ}
use spire_eks_workload_regis.Prelude.Maps.{Map, KeyEq}
use spire_eks_workload_regis.Text.{Text, ◌==◌, eq_iff}

-- k8s.io/apimachinery: metav1.LabelSelectorAsSelector, with the selector as its `Matches`, and
-- int32(d.Seconds()) of a metav1.Duration.
pub record Kube : Type 1 where
  pub LabelSelector : Type 0
  pub Duration : Type 0
  pub label_selector_as_selector : Option LabelSelector → Result (Map Text Text → Bool)
  pub seconds : Duration → ℤ

-- What Kubernetes documents of a nil label selector: it matches no object.
pub record KubeLaws (k : Kube) : Type 0 where
  pub nil_selects_nothing :
      (f : Map Text Text → Bool)
      → k.label_selector_as_selector none ≡ ok f
      → (labels : Map Text Text) → f labels ≡ false
  pub nil_is_selector : (f : Map Text Text → Bool) × (k.label_selector_as_selector none ≡ ok f)

-- WorkloadIdentitySpec
pub record WorkloadIdentitySpec (k : Kube) : Type 0 where
  pub application_name : Text
  pub namespace : Text
  pub spiffe_id_template : Text
  pub parent_id_template : Text
  pub pod_selector : Option k.LabelSelector
  pub ttl : k.Duration
  pub jwt_ttl : k.Duration
  pub dns_name_templates : List Text
  pub workload_selector_templates : List Text
  pub federates_with : List Text
  pub admin : Bool
  pub downstream : Bool
  pub auto_populate_dns_names : Bool
  pub cluster_selector : Option k.LabelSelector
  pub hint : Text

-- The part of ObjectMeta that the program reads; a time is a number.
pub record ObjectMeta : Type 0 where
  pub name : Text
  pub namespace : Text
  pub uid : Text
  pub labels : Map Text Text
  pub creation_timestamp : ℕ
  pub deletion_timestamp : Option ℕ
  pub finalizers : List Text

-- WorkloadIdentityStats
pub record WorkloadIdentityStats : Type 0 where
  pub clusters_targeted : ℕ
  pub namespaces_found : ℕ
  pub pods_selected : ℕ
  pub entries_registered : ℕ
  pub entry_failures : ℕ

-- WorkloadIdentity, with its status
pub record WorkloadIdentity (k : Kube) : Type 0 where
  pub meta : ObjectMeta
  pub spec : WorkloadIdentitySpec k
  pub stats : WorkloadIdentityStats
  pub last_reconciliation : Option ℕ

-- EKSClusterRegistrySpec
pub record EksClusterRegistrySpec : Type 0 where
  pub cluster_name : Text
  pub region : Text
  pub account_id : Text
  pub enabled : Bool
  pub assume_role_arn : Text
  pub labels : Map Text Text

-- metav1.Condition
pub record Condition : Type 0 where
  pub type : Text
  pub status : Text
  pub reason : Text
  pub message : Text
  pub last_transition_time : ℕ

-- EKSClusterRegistryStatus
pub record EksClusterRegistryStatus : Type 0 where
  pub last_sync : Option ℕ
  pub conditions : List Condition
  pub namespace_count : ℕ
  pub entries_registered : ℕ

-- EKSClusterRegistry
pub record EksClusterRegistry : Type 0 where
  pub meta : ObjectMeta
  pub spec : EksClusterRegistrySpec
  pub status : EksClusterRegistryStatus

-- corev1.PodSpec, as far as the program and its documented templates read it
pub record PodSpec : Type 0 where
  pub node_name : Text
  pub service_account_name : Text

-- corev1.Pod, as far as the program reads it
pub record Pod : Type 0 where
  pub meta : ObjectMeta
  pub spec : PodSpec
  pub phase : Text

-- corev1.NodeSpec
pub record NodeSpec : Type 0 where
  pub provider_id : Text

-- corev1.Node
pub record Node : Type 0 where
  pub meta : ObjectMeta
  pub spec : NodeSpec

-- Go's map[string]V
abbrev pub text_keys : KeyEq Text
text_keys = record { eq = ◌==◌; eq_iff = eq_iff }
