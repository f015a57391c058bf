-- ===== src/Controller/Ownership.antt =====
-- Which entries an identity or a cluster owns, as read off the hint of an entry: the tests of
-- internal/controller/targeted_reconciler.go, and those of deletion_controller.go.
pub mod Targeted
pub mod Deletion
use spire_eks_workload_regis.Prelude.{
  ◌≡◌, Bool, true, false, ◌||◌, List, [], ◌∷◌, ◌++◌, if◌then◌else◌, length, drop, ltb,
}
use spire_eks_workload_regis.Text.{Text, bytes, ◌==◌, has_prefix}
use spire_eks_workload_regis.Text.Search.{contains}
use spire_eks_workload_regis.Text.Split.{split}
use spire_eks_workload_regis.Api.{Kube, WorkloadIdentity, EksClusterRegistry}
use spire_eks_workload_regis.SpireApi.{Spiffe, Entry}

abbrev pub expected_prefix : Text
expected_prefix = bytes "workloadidentity:"

-- len(parts) >= 2 && parts[1] == name
unfoldable pub second_is : List Text → Text → Bool
second_is (p ∷ q ∷ ps) name = q == name
second_is _ name = false

-- strings.Split(s, ";")[0]
abbrev pub first_part : List Text → Text
first_part [] = []
first_part (p ∷ ps) = p

-- len(parts) >= 3, and the third part up to ';' is the name
unfoldable pub third_is : List Text → Text → Bool
third_is (p ∷ q ∷ r ∷ ps) name = first_part (split b';' r) == name
third_is _ name = false

-- The cluster test of deleteEntriesForOwner.
unfoldable pub cluster_owns : Text → Text → Bool
cluster_owns hint name =
    if contains hint (b':' ∷ name ++ (b';' ∷ [])) || contains hint (b':' ∷ name)
    then (if has_prefix hint (bytes "workloadidentity:")
        then third_is (split b':' hint) name
        else false)
    else false

-- Its test for other owners, such as "WorkloadIdentity".
unfoldable pub owner_key_in : Text → Text → Text → Bool
owner_key_in hint owner_type name = contains hint (bytes "owner:" ++ (owner_type ++ (b'/' ∷ name)))

module _ (sp : Spiffe) (k : Kube) where
  -- entryBelongsToIdentity
  unfoldable pub entry_belongs_to_identity : Entry sp → WorkloadIdentity k → Bool
  entry_belongs_to_identity entry identity =
      if identity.spec.hint == []
      then contains entry.hint (bytes "workloadidentity:" ++ (identity.meta.name ++ (b':' ∷ [])))
      else entry.hint == identity.spec.hint

module _ (sp : Spiffe) where
  -- entryBelongsToCluster, and the test of deleteEntriesForCluster
  unfoldable pub entry_belongs_to_cluster : Entry sp → EksClusterRegistry → Bool
  entry_belongs_to_cluster entry cluster =
      if ltb (length expected_prefix) (length entry.hint)
      then (let hint_parts = drop (length expected_prefix) entry.hint in
          if ltb 0 (length hint_parts)
          then second_is (split b':' hint_parts) cluster.meta.name
          else false)
      else false
