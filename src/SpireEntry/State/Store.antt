-- ===== src/SpireEntry/State/Store.antt =====
-- A store of entries in which every deletion and every write takes effect, the reference for a
-- round of changes.
use spire_eks_workload_regis.Prelude.{
  ◌≡◌, refl, ap, ◌∙◌, ◌⊎◌, inl, inr, true, List, [], ◌∷◌, none, some, arith, In, Bool-cases,
}
use spire_eks_workload_regis.Prelude.Maps.{
  Map, lookup, insert, delete, lookup-insert, lookup-delete, delete-Unique,
}
use spire_eks_workload_regis.Text.{Text, ◌==◌, eq_iff}
use spire_eks_workload_regis.Api.{text_keys}
use spire_eks_workload_regis.SpireApi.{Spiffe, Entry}
use spire_eks_workload_regis.SpireEntry.State.{Changes}
use spire_eks_workload_regis.SpireEntry.State.Invariant.{IsKeyed, insert-IsKeyed}

module _ (sp : Spiffe) where
  -- Entries removed from, and written to, a store under their IDs.
  unfoldable pub remove_all : List (Entry sp) → Map Text (Entry sp) → Map Text (Entry sp)
  remove_all [] m = m
  remove_all (e ∷ l) m = remove_all l (delete text_keys e.id m)

  unfoldable pub write_all : List (Entry sp) → Map Text (Entry sp) → Map Text (Entry sp)
  write_all [] m = m
  write_all (e ∷ l) m = write_all l (insert text_keys e.id e m)

  -- The order of applyEntryChanges: deletions, creations, updates.
  unfoldable pub apply_changes : Changes sp → Map Text (Entry sp) → Map Text (Entry sp)
  apply_changes c m = write_all c.to_update (write_all c.to_create (remove_all c.to_delete m))

  abbrev pub NoneWith : Text → List (Entry sp) → Type 0
  NoneWith k l = (e : Entry sp) → In e l → e.id ≡ k → ⊥

  pub remove_all-absent :
      (k : Text) (l : List (Entry sp)) (m : Map Text (Entry sp))
      → NoneWith k l
      → lookup text_keys k (remove_all l m) ≡ lookup text_keys k m
  unfolding remove_all
  remove_all-absent k [] m h = refl
  remove_all-absent k (e ∷ l) m h = elim (Bool-cases (e.id == k)) [
    | inl q ↦ absurd (h e (inl refl) ((eq_iff e.id k).0 q))
    | inr q ↦
        remove_all-absent k l (delete text_keys e.id m) (λ x i. h x (inr i))
        ∙ lookup-delete text_keys e.id k m
        ∙ rw q
  ]

  pub remove_all-none :
      (k : Text) (l : List (Entry sp)) (m : Map Text (Entry sp))
      → lookup text_keys k m ≡ none
      → lookup text_keys k (remove_all l m) ≡ none
  unfolding remove_all
  remove_all-none k [] m h = h
  remove_all-none k (e ∷ l) m h =
      remove_all-none k l (delete text_keys e.id m)
        (ground (arith, lookup-delete text_keys e.id k m))

  pub remove_all-In :
      (k : Text) (l : List (Entry sp)) (m : Map Text (Entry sp)) (e : Entry sp)
      → In e l
      → e.id ≡ k
      → lookup text_keys k (remove_all l m) ≡ none
  unfolding remove_all
  remove_all-In k [] m e i q = absurd i
  remove_all-In k (x ∷ l) m e (inl p) q =
      let same : (x.id == k) ≡ true = (eq_iff x.id k).1 (ap (λ (y : Entry sp). y.id) p ∙ q) in
      remove_all-none k l (delete text_keys x.id m) (lookup-delete text_keys x.id k m ∙ rw same)
  remove_all-In k (x ∷ l) m e (inr i) q = remove_all-In k l (delete text_keys x.id m) e i q

  pub write_all-absent :
      (k : Text) (l : List (Entry sp)) (m : Map Text (Entry sp))
      → NoneWith k l
      → lookup text_keys k (write_all l m) ≡ lookup text_keys k m
  unfolding write_all
  write_all-absent k [] m h = refl
  write_all-absent k (e ∷ l) m h = elim (Bool-cases (e.id == k)) [
    | inl q ↦ absurd (h e (inl refl) ((eq_iff e.id k).0 q))
    | inr q ↦
        write_all-absent k l (insert text_keys e.id e m) (λ x i. h x (inr i))
        ∙ lookup-insert text_keys e.id k e m
        ∙ rw q
  ]

  -- Where all entries of an ID are one entry, that entry is what stands there in the end.
  pub write_all-only :
      (k : Text) (l : List (Entry sp)) (m : Map Text (Entry sp)) (e : Entry sp)
      → ((x : Entry sp) → In x l → x.id ≡ k → x ≡ e)
      → (lookup text_keys k m ≡ some e) ⊎ In e l
      → e.id ≡ k
      → lookup text_keys k (write_all l m) ≡ some e
  unfolding write_all
  write_all-only k [] m e only (inl h) q = h
  write_all-only k [] m e only (inr i) q = absurd i
  write_all-only k (x ∷ l) m e only here q =
      write_all-only k l (insert text_keys x.id x m) e (λ y i. only y (inr i)) (next here) q
    where
      hit : x ≡ e → lookup text_keys k (insert text_keys x.id x m) ≡ some e
      hit p =
          lookup-insert text_keys x.id k x m
          ∙ rw ((eq_iff x.id k).1 (ap (λ (y : Entry sp). y.id) p ∙ q)) (ap some p)

      next :
          (lookup text_keys k m ≡ some e) ⊎ In e (x ∷ l)
          → (lookup text_keys k (insert text_keys x.id x m) ≡ some e) ⊎ In e l
      next (inl h) = elim (Bool-cases (x.id == k)) [
        | inl s ↦ inl (hit (only x (inl refl) ((eq_iff x.id k).0 s)))
        | inr s ↦ inl (lookup-insert text_keys x.id k x m ∙ rw s h)
      ]
      next (inr (inl p)) = inl (hit p)
      next (inr (inr i)) = inr i

  delete-IsKeyed :
      (k : Text) (m : Map Text (Entry sp)) → IsKeyed sp m → IsKeyed sp (delete text_keys k m)
  delete-IsKeyed k m h = record {
    unique = delete-Unique text_keys k m h.unique;
    own_id = λ j e q. h.own_id j e (ground (arith, lookup-delete text_keys k j m, q));
  }

  remove_all-IsKeyed :
      (l : List (Entry sp)) (m : Map Text (Entry sp)) → IsKeyed sp m → IsKeyed sp (remove_all l m)
  unfolding remove_all
  remove_all-IsKeyed [] m h = h
  remove_all-IsKeyed (e ∷ l) m h = remove_all-IsKeyed l _ (delete-IsKeyed e.id m h)

  write_all-IsKeyed :
      (l : List (Entry sp)) (m : Map Text (Entry sp)) → IsKeyed sp m → IsKeyed sp (write_all l m)
  unfolding write_all
  write_all-IsKeyed [] m h = h
  write_all-IsKeyed (e ∷ l) m h = write_all-IsKeyed l _ (insert-IsKeyed sp e m h)

  pub apply_changes-IsKeyed :
      (c : Changes sp) (m : Map Text (Entry sp)) → IsKeyed sp m → IsKeyed sp (apply_changes c m)
  unfolding apply_changes
  apply_changes-IsKeyed c m h =
      write_all-IsKeyed c.to_update _
        (write_all-IsKeyed c.to_create _ (remove_all-IsKeyed c.to_delete m h))
