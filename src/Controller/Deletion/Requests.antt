-- ===== src/Controller/Deletion/Requests.antt =====
-- What has been asked of SPIRE when the finalizer of a deleted identity goes.
use spire_eks_workload_regis.Prelude.{
  ◌≡◌, ◌≢◌, ◌⊎◌, ◌↔◌, In, In-keep, keep-In, ◌++◌, [], ◌∷◌, ◌∙◌, ap, sym, Result, if◌then◌else◌,
  refl, false, List, some, ok, err, panic, keep, length, arith, ltb, Bool-cases, inl, inr,
}
use spire_eks_workload_regis.Prelude.Exec.{pure, wrapping, Exec, bind_ok, wrapping_ok, ◌>>=◌, ◌>>◌}
use spire_eks_workload_regis.Text.{Text, bytes}
use spire_eks_workload_regis.Text.Search.{Infix}
use spire_eks_workload_regis.Api.{Kube, WorkloadIdentity}
use spire_eks_workload_regis.SpireApi.{Spiffe, Entry, Client, Status}
use spire_eks_workload_regis.Controller.Deletion.{
  on_spire, on_objects, spire_cleanup_finalizer, contains_finalizer, is_zero, Objects, owned_by,
  ids, delete_entries_for_owner, reconcile_workload_identity,
}
use spire_eks_workload_regis.Controller.Deletion.Finalizers.{
  IsDeletedAt, is_zero-IsDeletedAt, contains_finalizer_iff,
}
use spire_eks_workload_regis.Controller.Deletion.Effects.{owned_by_iff}

ids-In :
    (sp : Spiffe) (cl : Client sp) (id : Text) (l : List (Entry sp))
    → In id (ids sp cl l)
    → (e : Entry sp) × In e l × (e.id ≡ id)
ids-In sp cl id [] i = absurd i
ids-In sp cl id (x ∷ l) (inl q) = (x, inl refl, q)
ids-In sp cl id (x ∷ l) (inr i) = let (e, j, q) = ids-In sp cl id l i in (e, inr j, q)

In-ids :
    (sp : Spiffe) (cl : Client sp) (id : Text) (l : List (Entry sp)) (e : Entry sp)
    → In e l
    → e.id ≡ id
    → In id (ids sp cl l)
In-ids sp cl id [] e i q = absurd i
In-ids sp cl id (x ∷ l) e (inl p) q = inl (ap (λ (y : Entry sp). y.id) p ∙ q)
In-ids sp cl id (x ∷ l) e (inr i) q = inr (In-ids sp cl id l e i q)

none_left : {A : Type 0} (l : List A) → ltb 0 (length l) ≡ false → l ≡ []
none_left [] h = refl
none_left (x ∷ l) h = absurd (ground arith)

module _ (sp : Spiffe) (cl : Client sp) where
  -- The outcome of a deletion of owned entries that went without an error.
  abbrev Submits : Text → Text → cl.State → cl.State → Type 0
  Submits owner_type name s s' =
      (entries : List (Entry sp)) × (t : cl.State) × (cl.list_entries s ≡ (ok entries, t))
      × (((ltb 0 (length (ids sp cl (keep (owned_by sp cl owner_type name) entries))) ≡ false)
            × (s' ≡ t))
          ⊎ ((statuses : List Status) × (cl.batch_delete_entries
                  (ids sp cl (keep (owned_by sp cl owner_type name) entries)) t
                ≡ (ok statuses, s'))))

  delete_entries_for_owner-Submits :
      (owner_type name : Text) (s s' : cl.State)
      → delete_entries_for_owner sp cl owner_type name s ≡ (ok tt, s')
      → Submits owner_type name s s'
  unfolding delete_entries_for_owner
  delete_entries_for_owner-Submits owner_type name s s' h =
      let (entries, t, a, b) =
        bind_ok (wrapping "failed to list SPIRE entries" cl.list_entries) _ s h in
      (
        entries,
        t,
        wrapping_ok "failed to list SPIRE entries" cl.list_entries s a,
        on_ids (ids sp cl (keep (owned_by sp cl owner_type name) entries)) t b,
      )
    where
      on_ids :
          (l : List Text) (t : cl.State)
          → (if ltb 0 (length l)
                then (wrapping "failed to delete entries" (cl.batch_delete_entries l) >>= λ _.
                    pure tt)
                else pure tt)
              t
            ≡ (ok tt, s')
          → ((ltb 0 (length l) ≡ false) × (s' ≡ t))
            ⊎ ((statuses : List Status) × (cl.batch_delete_entries l t ≡ (ok statuses, s')))
      on_ids l t g = elim (Bool-cases (ltb 0 (length l))) [
        | inl q ↦
            let (statuses, t', c, d) =
              bind_ok (wrapping "failed to delete entries" (cl.batch_delete_entries l)) _ t
                (rw q at g) in
            inr (
              statuses,
              wrapping_ok "failed to delete entries" (cl.batch_delete_entries l) t c
                  ∙ ap (λ x. (ok statuses, x)) (ap (λ (y : Result Unit × cl.State). y.1) d),
            )
        | inr q ↦ inl (q, sym (ap (λ (y : Result Unit × cl.State). y.1) (rw q at g)))
      ]

  -- A listing of SPIRE, and one batch deletion of just those listed entries that have the owner
  -- mark of an identity in their hint; it is left out if there are none.
  pub record Asked (name : Text) (s s' : cl.State) : Type 0 where
    pub entries : List (Entry sp)
    pub listing : cl.State
    pub to_delete : List Text
    pub listed : cl.list_entries s ≡ (ok entries, listing)
    pub marked :
        (id : Text)
        → In id to_delete ↔ (
            (e : Entry sp) × In e entries
            × Infix (bytes "owner:WorkloadIdentity/" ++ name) e.hint
            × (e.id ≡ id))
    pub submitted :
        ((to_delete ≡ []) × (s' ≡ listing))
        ⊎ ((statuses : List Status) × (cl.batch_delete_entries to_delete listing
              ≡ (ok statuses, s')))

  Submits-Asked :
      (name : Text) (s s' : cl.State)
      → Submits (bytes "WorkloadIdentity") name s s'
      → Asked name s s'
  Submits-Asked name s s' (entries, t, a, b) = record {
    entries = entries;
    listing = t;
    to_delete = ids sp cl (keep (owned_by sp cl (bytes "WorkloadIdentity") name) entries);
    listed = a;
    marked = λ id. (
      (λ i.
          let (e, j, q) = ids-In sp cl id _ i in
          let (m, o) = In-keep (owned_by sp cl (bytes "WorkloadIdentity") name) e entries j in
          (e, m, (owned_by_iff sp cl name e).0 o, q)),
      (λ (e, m, o, q).
          In-ids sp cl id _ e
            (keep-In (owned_by sp cl (bytes "WorkloadIdentity") name) e entries m
              ((owned_by_iff sp cl name e).1 o))
            q),
    );
    submitted = elim b [ inl (q, e) ↦ inl (none_left _ q, e) | inr x ↦ inr x ];
  }

  module _ {B : Type 0} (n : Exec B (Unit {0})) (r : Result (Unit {0})) (v w : B) where
    done : cl.State → Result (Unit {0}) × cl.State
    done x = (ok tt, x)

    written_after :
        (p : Result (Unit {0}) × cl.State) (s s' : cl.State)
        → (on_spire (λ (q : cl.State). p) >> on_objects n) (s, v) ≡ (r, (s', w))
        → w ≢ v
        → p ≡ (ok tt, s')
    unfolding done
    written_after (ok tt, t) s s' h c = ap (λ (q : Result Unit × (cl.State × B)). done q.1.0) h
    written_after (err e, t) s s' h c =
        absurd (c (sym (ap (λ (q : Result Unit × (cl.State × B)). q.1.1) h)))
    written_after (panic, t) s s' h c =
        absurd (c (sym (ap (λ (q : Result Unit × (cl.State × B)). q.1.1) h)))

  -- Over any SPIRE and whatever fails: if reconciling an identity that Get finds leaves the object
  -- store otherwise than Get did, the identity is being deleted and has the cleanup finalizer,
  -- SPIRE has been listed, and the batch deletion of exactly the listed entries with the identity's
  -- owner mark in their hint has returned without an error, or there are none. So while that
  -- fails, the finalizer stays.
  pub reconcile_workload_identity-Asked :
      (k : Kube) (identities : Objects (WorkloadIdentity k)) (name : Text)
      (identity : WorkloadIdentity k) (s s' : cl.State) (u v w : identities.ObjectState)
      (r : Result (Unit {0}))
      → identities.get name u ≡ (ok (some identity), v)
      → reconcile_workload_identity sp cl k identities name (s, u) ≡ (r, (s', w))
      → w ≢ v
      → IsDeletedAt identity.meta.deletion_timestamp
        × In spire_cleanup_finalizer identity.meta.finalizers
        × Asked identity.meta.name s s'
  unfolding reconcile_workload_identity
  reconcile_workload_identity-Asked k identities name identity s s' u v w r g h written =
      elim (Bool-cases (is_zero identity.meta.deletion_timestamp)) [
        | inl z ↦ untouched (rw (g, z) at h)
        | inr z ↦
            elim (Bool-cases
              (contains_finalizer identity.meta.finalizers spire_cleanup_finalizer)) [
                | inr f ↦ untouched (rw (g, z, f) at h)
                | inl f ↦ (
                  (is_zero-IsDeletedAt identity.meta.deletion_timestamp).0 z,
                  (contains_finalizer_iff identity.meta.finalizers spire_cleanup_finalizer).0 f,
                  Submits-Asked identity.meta.name s s' (
                      delete_entries_for_owner-Submits (bytes "WorkloadIdentity") identity.meta.name
                        s s'
                        (written_after _ r v w
                          (delete_entries_for_owner sp cl (bytes "WorkloadIdentity")
                            identity.meta.name s)
                          s s' (rw (g, z, f) at h) written)),
                )
              ]
      ]
    where
      untouched :
          {A : Type 0}
          → ◌≡◌ {A = Result Unit × (cl.State × identities.ObjectState)} (ok tt, (s, v)) (r, (s', w))
          → A
      untouched e =
          absurd (
            written (sym (ap (λ (q : Result Unit × (cl.State × identities.ObjectState)). q.1.1) e)))
