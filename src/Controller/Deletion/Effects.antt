-- ===== src/Controller/Deletion/Effects.antt =====
-- What the deletion of an owner's entries leaves in a store in which every call takes effect.
use spire_eks_workload_regis.Prelude.{
  ◌≡◌, ◌↔◌, In, ◌++◌, refl, sym, ap, ◌∙◌, Bool, true, false, List, [], ◌∷◌, ok, some, keep, length,
  ltb, Bool-cases, inl, inr, arith,
}
use spire_eks_workload_regis.Prelude.Maps.{Map, lookup, delete}
use spire_eks_workload_regis.Text.{Text, bytes, ◌==◌}
use spire_eks_workload_regis.Api.{Kube, WorkloadIdentity, text_keys}
use spire_eks_workload_regis.SpireApi.{Spiffe, Entry, Client}
use spire_eks_workload_regis.SpireEntry.State.Invariant.{IsKeyed}
use spire_eks_workload_regis.Controller.Reliable.{
  Reliable, Leaves, entries_of, delete_ids, delete_if, drop_if, delete_if-drop,
}
use spire_eks_workload_regis.Controller.Deletion.{
  owned_by, ids, delete_entries_for_owner, Objects, spire_cleanup_finalizer,
  reconcile_workload_identity,
}
use spire_eks_workload_regis.Controller.Ownership.{owner_key_in}
use spire_eks_workload_regis.Controller.Deletion.Finalizers.{
  IsDeletedAt, is_zero-IsDeletedAt, contains_finalizer_iff, IsReleased, remove_finalizer-IsReleased,
}
use spire_eks_workload_regis.Controller.Reliable.Removal.{RemovesExactly, drop_if-RemovesExactly}
use spire_eks_workload_regis.Text.Search.{Infix, contains_iff}

-- The test for an identity: the hint has the owner mark somewhere.
pub owned_by_iff :
    (sp : Spiffe) (cl : Client sp) (name : Text) (e : Entry sp)
    → (owned_by sp cl (bytes "WorkloadIdentity") name e ≡ true)
      ↔ Infix (bytes "owner:WorkloadIdentity/" ++ name) e.hint
unfolding owned_by owner_key_in ◌==◌
owned_by_iff sp cl name e = contains_iff e.hint (bytes "owner:WorkloadIdentity/" ++ name)

module _ (sp : Spiffe) (cl : Client sp) (r : Reliable sp cl) where
  delete_ids-keep :
      (p : Entry sp → Bool) (l : List (Entry sp)) (m : Map Text (Entry sp))
      → delete_ids (ids sp cl (keep p l)) m ≡ delete_if sp cl r p l m
  unfolding keep delete_if
  delete_ids-keep p [] m = refl
  delete_ids-keep p (e ∷ l) m = elim (Bool-cases (p e)) [
    | inl h ↦ rw h (delete_ids-keep p l (delete text_keys e.id m))
    | inr h ↦ rw h (delete_ids-keep p l m)
  ]

  none_to_delete :
      (l : List Text) (m : Map Text (Entry sp)) → ltb 0 (length l) ≡ false → delete_ids l m ≡ m
  none_to_delete [] m h = refl
  none_to_delete (id ∷ l) m h = absurd (ground arith)

  deleted :
      (owner_type name : Text) (s : cl.State)
      → Leaves sp cl r (delete_entries_for_owner sp cl owner_type name) s (
          delete_ids
            (ids sp cl (keep (owned_by sp cl owner_type name) (entries_of (r.store s))))
            (r.store s))
  unfolding delete_entries_for_owner
  deleted owner_type name s =
      let l = ids sp cl (keep (owned_by sp cl owner_type name) (entries_of (r.store s))) in
      elim (Bool-cases (ltb 0 (length l))) [
        | inl h ↦
            let (statuses, s', a, b) = r.batch_deletes l s in (s', rw (r.lists s, h, a) refl, b)
        | inr h ↦ (s, rw (r.lists s, h) refl, sym (none_to_delete l (r.store s) h))
      ]

  -- In a store keyed by the entries' IDs in which every call takes effect, deleteEntriesForOwner
  -- returns without an error, and removes exactly the entries that its test for the owner selects.
  pub delete_entries_for_owner_lem :
      (owner_type name : Text) (s : cl.State)
      → IsKeyed sp (r.store s)
      → (s' : cl.State) × (delete_entries_for_owner sp cl owner_type name s ≡ (ok tt, s'))
        × ((id : Text)
            → lookup text_keys id (r.store s')
              ≡ drop_if sp cl r (owned_by sp cl owner_type name) (lookup text_keys id (r.store s)))
  delete_entries_for_owner_lem owner_type name s w =
      let p = owned_by sp cl owner_type name in
      let (s', a, b) = deleted owner_type name s in
      (
        s',
        a,
        λ id.
            ap (lookup text_keys id) (b ∙ delete_ids-keep p (entries_of (r.store s)) (r.store s))
            ∙ delete_if-drop sp cl r p id (r.store s) w,
      )

  -- Over a SPIRE in which every call takes effect, with a store keyed by the entries' IDs, and if every
  -- update of the object succeeds: of a deleted identity that has the cleanup finalizer, the
  -- reconciler returns without an error. It has removed exactly the entries with
  -- "owner:WorkloadIdentity/" and the identity's name somewhere in their hint, and has written the
  -- identity with the cleanup finalizer, and nothing else, taken off.
  pub reconcile_workload_identity-releases :
      (k : Kube) (identities : Objects (WorkloadIdentity k)) (name : Text)
      (identity : WorkloadIdentity k) (s : cl.State) (u v : identities.ObjectState)
      (put : WorkloadIdentity k → identities.ObjectState)
      → IsKeyed sp (r.store s)
      → identities.get name u ≡ (ok (some identity), v)
      → ((i : WorkloadIdentity k) → identities.update i v ≡ (ok tt, put i))
      → IsDeletedAt identity.meta.deletion_timestamp
      → In spire_cleanup_finalizer identity.meta.finalizers
      → (s' : cl.State) × (released : WorkloadIdentity k) × (reconcile_workload_identity sp cl k
            identities name
            (s, u)
          ≡ (ok tt, (s', put released)))
        × IsReleased identity released
        × RemovesExactly sp
            (λ e. Infix (bytes "owner:WorkloadIdentity/" ++ identity.meta.name) e.hint)
            (r.store s)
            (r.store s')
  unfolding reconcile_workload_identity
  reconcile_workload_identity-releases k identities name identity s u v put keyed g written z f =
      let (s', a, b) =
        delete_entries_for_owner_lem (bytes "WorkloadIdentity") identity.meta.name s keyed in
      let deleted_at = (is_zero-IsDeletedAt identity.meta.deletion_timestamp).1 z in
      let has = (contains_finalizer_iff identity.meta.finalizers spire_cleanup_finalizer).1 f in
      (
        s',
        _,
        rw (g, deleted_at, has, a, written _) refl,
        remove_finalizer-IsReleased identity,
        drop_if-RemovesExactly sp cl r
            (owned_by sp cl (bytes "WorkloadIdentity") identity.meta.name) _ (r.store s)
            (r.store s') (owned_by_iff sp cl identity.meta.name) b,
      )
