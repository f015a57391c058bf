-- ===== src/Tests/Deletions.antt =====
-- The theorems about the deletion reconciler and finalizers at sample services.
use spire_eks_workload_regis.Prelude.{◌≡◌, refl, [], ◌∷◌, some, ok, arith}
use spire_eks_workload_regis.Prelude.Maps.{Map, insert}
use spire_eks_workload_regis.Text.{Text, bytes, has_prefix, ◌==◌}
use spire_eks_workload_regis.SpireApi.{Entry}
use spire_eks_workload_regis.SpireEntry.State.{new_entries_state_with_prefix, add_current}
use spire_eks_workload_regis.Tests.Samples.{
  spiffe, kube, digest, client, client_reliable, entry_with,
}
use spire_eks_workload_regis.Prelude.{List, any, keep}
use spire_eks_workload_regis.Text.Search.{contains}
use spire_eks_workload_regis.Api.{WorkloadIdentity, EksClusterRegistry}
use spire_eks_workload_regis.SpireApi.{Client}
use spire_eks_workload_regis.Controller.Ownership.{owner_key_in}
use spire_eks_workload_regis.Controller.Deletion.{
  Objects, spire_cleanup_finalizer, contains_finalizer, remove_finalizer, is_zero, owned_by,
  delete_entries_for_owner, reconcile_workload_identity,
}
use spire_eks_workload_regis.Controller.Deletion.Effects.{reconcile_workload_identity-releases}
use spire_eks_workload_regis.SpireEntry.State.Invariant.{IsKeyed, Built, Built-IsWellFormed}
use spire_eks_workload_regis.Controller.Reliable.Removal.{RemovesExactly}
use spire_eks_workload_regis.Controller.Deletion.Finalizers.{IsReleased, IsDeletedAt}
use spire_eks_workload_regis.Text.Search.{Infix}
use spire_eks_workload_regis.Prelude.{In, inl, ◌++◌, ◌≢◌}
use spire_eks_workload_regis.Controller.Deletion.Requests.{Asked, reconcile_workload_identity-Asked}
use spire_eks_workload_regis.Tests.Samples.{identity_with, cluster, meta_of}

abbrev sample : Entry spiffe
sample = record (entry_with (bytes "blue")) { id = bytes "e1" }

abbrev other : Entry spiffe
other = record (entry_with (bytes "blue")) { id = bytes "e2"; spiffe_id = bytes "a.org/api" }

-- The deletion of an identity, over a service that lists nothing, one that lists and deletes, and
-- one object that is being deleted.
abbrev doomed : WorkloadIdentity kube
doomed = record (identity_with (bytes "foo") []) {
  meta = record (meta_of (bytes "foo") (bytes "1")) {
    deletion_timestamp = some 7;
    finalizers = spire_cleanup_finalizer ∷ [];
  };
}

abbrev identities : Objects (WorkloadIdentity kube)
identities = record {
  ObjectState = List (WorkloadIdentity kube);
  get = λ name s. (ok (some doomed), s);
  update = λ i s. (ok tt, i ∷ s);
}

abbrev clusters : Objects EksClusterRegistry
clusters = record {
  ObjectState = List EksClusterRegistry;
  get = λ name s. (ok (some cluster), s);
  update = λ i s. (ok tt, i ∷ s);
}

-- An entry that the service refuses to delete.
abbrev refusing : Client spiffe
refusing = record client {
  batch_delete_entries = λ ids s. (ok (record { code = 7; message = [] } ∷ []), s);
}

abbrev owned : Entry spiffe
owned = record sample { hint = bytes "owner:WorkloadIdentity/foo" }

-- A store with an entry of the identity and one of another.
abbrev two : Map Text (Entry spiffe)
two = (bytes "e1", owned) ∷ (bytes "e2", other) ∷ []

two-IsKeyed : IsKeyed spiffe two
unfolding new_entries_state_with_prefix add_current insert ◌==◌
two-IsKeyed =
    (Built-IsWellFormed spiffe {digest = digest}
      (Built.current other (Built.current owned (Built.new [])))).current

abbrev written : WorkloadIdentity kube
written = record doomed {
  meta = record doomed.meta {
    finalizers = remove_finalizer doomed.meta.finalizers spire_cleanup_finalizer;
  };
}

reconcile_workload_identity-releases_example :
    (s' : Map Text (Entry spiffe)) × (released : WorkloadIdentity kube)
    × (reconcile_workload_identity spiffe client kube identities (bytes "foo") (two, [])
        ≡ (ok tt, (s', released ∷ [])))
    × IsReleased doomed released
    × RemovesExactly spiffe
        (λ e. Infix (bytes "owner:WorkloadIdentity/" ++ bytes "foo") e.hint)
        two
        s'
reconcile_workload_identity-releases_example =
    reconcile_workload_identity-releases spiffe client client_reliable kube identities (bytes "foo")
      doomed two [] [] (λ i. i ∷ []) two-IsKeyed refl (λ i. refl) (7, refl, omega arith) (inl refl)

refused :
    reconcile_workload_identity spiffe refusing kube identities (bytes "foo") (two, [])
    ≡ (ok tt, (two, written ∷ []))
unfolding reconcile_workload_identity delete_entries_for_owner keep owned_by owner_key_in contains
    has_prefix is_zero contains_finalizer any ◌==◌
refused = refl

some_written : ◌≢◌ {A = List (WorkloadIdentity kube)} (written ∷ []) []
some_written e = cc e

reconcile_workload_identity-Asked_example :
    IsDeletedAt (some 7)
    × In spire_cleanup_finalizer (spire_cleanup_finalizer ∷ [])
    × Asked spiffe refusing (bytes "foo") two two
reconcile_workload_identity-Asked_example =
    reconcile_workload_identity-Asked spiffe refusing kube identities (bytes "foo") doomed two two
      [] [] (written ∷ []) (ok tt) refl refused some_written
