-- ===== src/Controller/Deletion.antt =====
-- pkg/finalizer/finalizer.go, and internal/controller/deletion_controller.go: the reconcilers that
-- delete the entries of a deleted object and then take the finalizer off it.
pub mod Finalizers
pub mod Outcome
pub mod Effects
pub mod Requests
use spire_eks_workload_regis.Prelude.{
  ℕ, Bool, true, not, List, [], ◌∷◌, ◌++◌, map, Option, none, some, Result, if◌then◌else◌, any,
  keep, ltb, length, ◌==◌ as nat_eq,
}
use spire_eks_workload_regis.Prelude.Exec.{Exec, pure, wrapping, ◌>>=◌, ◌>>◌}
use spire_eks_workload_regis.Text.{Text, bytes, ◌==◌}
use spire_eks_workload_regis.Api.{Kube, WorkloadIdentity, EksClusterRegistry}
use spire_eks_workload_regis.SpireApi.{Spiffe, Entry, Client}
use spire_eks_workload_regis.Controller.Ownership.{cluster_owns, owner_key_in}

abbrev pub spire_cleanup_finalizer : Text
spire_cleanup_finalizer = bytes "spire.spiffe.io/cleanup"

-- ContainsFinalizer
unfoldable pub contains_finalizer : List Text → Text → Bool
contains_finalizer finalizers finalizer = any (λ f. f == finalizer) finalizers

-- AddFinalizer
unfoldable pub add_finalizer : List Text → Text → List Text
add_finalizer finalizers finalizer =
    if not (contains_finalizer finalizers finalizer)
    then finalizers ++ (finalizer ∷ [])
    else finalizers

-- RemoveFinalizer
unfoldable pub remove_finalizer : List Text → Text → List Text
remove_finalizer finalizers finalizer = keep (λ f. not (f == finalizer)) finalizers

-- t.IsZero(), of a *metav1.Time
unfoldable pub is_zero : Option ℕ → Bool
is_zero none = true
is_zero (some t) = nat_eq t 0

-- WorkloadIdentityFinalizerWebhook.Default, of an object that is a WorkloadIdentity
unfoldable pub identity_default : {k : Kube} → WorkloadIdentity k → WorkloadIdentity k
identity_default identity =
    if is_zero identity.meta.deletion_timestamp
    then record identity {
      meta = record identity.meta {
        finalizers = add_finalizer identity.meta.finalizers spire_cleanup_finalizer;
      };
    }
    else identity

-- EKSClusterRegistryFinalizerWebhook.Default, of an object that is an EKSClusterRegistry
unfoldable pub cluster_default : EksClusterRegistry → EksClusterRegistry
cluster_default cluster =
    if is_zero cluster.meta.deletion_timestamp
    then record cluster {
      meta = record cluster.meta {
        finalizers = add_finalizer cluster.meta.finalizers spire_cleanup_finalizer;
      };
    }
    else cluster

-- controller-runtime's client for one kind of object: Get, whose NotFound error is none, and Update.
pub record Objects (A : Type 0) : Type 1 where
  pub ObjectState : Type 0
  pub get : Text → Exec ObjectState (Option A)
  pub update : A → Exec ObjectState (Unit {0})

module _ {S T A : Type 0} where
  abbrev beside : Result A × S → T → Result A × (S × T)
  beside (r, s) u = (r, (s, u))

  -- A call of the one service or of the other.
  abbrev pub on_spire : Exec S A → Exec (S × T) A
  on_spire m (s, u) = beside (m s) u

  abbrev besides : S → Result A × T → Result A × (S × T)
  besides s (r, u) = (r, (s, u))

  abbrev pub on_objects : Exec T A → Exec (S × T) A
  on_objects m (s, u) = besides s (m u)

module _ (sp : Spiffe) (cl : Client sp) where
  open cl use {State}

  -- The test of the two loops of deleteEntriesForOwner.
  unfoldable pub owned_by : Text → Text → Entry sp → Bool
  owned_by owner_type name entry =
      if owner_type == bytes "EKSClusterRegistry"
      then cluster_owns entry.hint name
      else owner_key_in entry.hint owner_type name

  -- toDelete = append(toDelete, entry.ID)
  abbrev pub ids : List (Entry sp) → List Text
  ids = map (λ (e : Entry sp). e.id)

  -- deleteEntriesForOwner; the statuses are only logged
  unfoldable pub delete_entries_for_owner : Text → Text → Exec State (Unit {0})
  delete_entries_for_owner owner_type name = do
    entries ← wrapping "failed to list SPIRE entries" cl.list_entries
    let to_delete : List Text = ids (keep (owned_by owner_type name) entries)
    if ltb 0 (length to_delete)
        then (wrapping "failed to delete entries" (cl.batch_delete_entries to_delete) >>= λ _.
            pure tt)
        else pure tt

  -- ReconcileWorkloadIdentity
  module _ (k : Kube) (identities : Objects (WorkloadIdentity k)) where
    abbrev identity_found :
        Option (WorkloadIdentity k) → Exec (State × identities.ObjectState) (Unit {0})
    identity_found none = pure tt
    identity_found (some identity) =
        if not (is_zero identity.meta.deletion_timestamp)
        then (if contains_finalizer identity.meta.finalizers spire_cleanup_finalizer
            then on_spire (delete_entries_for_owner (bytes "WorkloadIdentity") identity.meta.name)
              >> on_objects (
                  identities.update (record identity {
                    meta = record identity.meta {
                      finalizers =
                          remove_finalizer identity.meta.finalizers spire_cleanup_finalizer;
                    };
                  }))
            else pure tt)
        else pure tt

    unfoldable pub reconcile_workload_identity :
        Text → Exec (State × identities.ObjectState) (Unit {0})
    reconcile_workload_identity name = on_objects (identities.get name) >>= identity_found

  -- ReconcileEKSClusterRegistry
  module _ (clusters : Objects EksClusterRegistry) where
    abbrev cluster_found :
        Option EksClusterRegistry → Exec (State × clusters.ObjectState) (Unit {0})
    cluster_found none = pure tt
    cluster_found (some cluster) =
        if not (is_zero cluster.meta.deletion_timestamp)
        then (if contains_finalizer cluster.meta.finalizers spire_cleanup_finalizer
            then on_spire (delete_entries_for_owner (bytes "EKSClusterRegistry") cluster.meta.name)
              >> on_objects (
                  clusters.update (record cluster {
                    meta = record cluster.meta {
                      finalizers = remove_finalizer cluster.meta.finalizers spire_cleanup_finalizer;
                    };
                  }))
            else pure tt)
        else pure tt

    unfoldable pub reconcile_eks_cluster_registry :
        Text → Exec (State × clusters.ObjectState) (Unit {0})
    reconcile_eks_cluster_registry name = on_objects (clusters.get name) >>= cluster_found
