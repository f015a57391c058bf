-- ===== src/Controller/Reliable.antt =====
-- A registration service whose every call takes effect, and what the loops of the controllers
-- make of its store.
pub mod Removal
use spire_eks_workload_regis.Prelude.{
  Option, some, true, ap, sym, ◌∙◌, subst, In, any-In, any_of_In, ◌≡◌, refl, Bool, false, List, [],
  ◌∷◌, ok, none, if◌then◌else◌, Bool-cases, inl, inr, any, arith,
}
use spire_eks_workload_regis.Prelude.Exec.{Exec, ignoring, for_each_if}
use spire_eks_workload_regis.Prelude.Maps.{
  Map, lookup, insert, delete, lookup-delete, In-lookup, lookup-In,
}
use spire_eks_workload_regis.Text.{Text, ◌==◌, eq_iff}
use spire_eks_workload_regis.Api.{text_keys}
use spire_eks_workload_regis.SpireApi.{Spiffe, Entry, Client, Status}
use spire_eks_workload_regis.SpireEntry.State.Invariant.{IsKeyed}

-- The entries of a store, in its order.
abbrev pub entries_of : {sp : Spiffe} → Map Text (Entry sp) → List (Entry sp)
entries_of [] = []
entries_of ((id, e) ∷ m) = e ∷ entries_of m

abbrev pub delete_ids : {sp : Spiffe} → List Text → Map Text (Entry sp) → Map Text (Entry sp)
delete_ids [] m = m
delete_ids (id ∷ l) m = delete_ids l (delete text_keys id m)

-- The store behind a client, which lists it whole and obeys every call.
pub record Reliable (sp : Spiffe) (cl : Client sp) : Type 0 where
  pub store : cl.State → Map Text (Entry sp)
  pub lists : (s : cl.State) → cl.list_entries s ≡ (ok (entries_of (store s)), s)
  pub creates :
      (e : Entry sp) (s : cl.State)
      → (s' : cl.State) × (cl.create_entry e s ≡ (ok tt, s'))
        × (store s' ≡ insert text_keys e.id e (store s))
  pub updates :
      (e : Entry sp) (s : cl.State)
      → (s' : cl.State) × (cl.update_entry e s ≡ (ok tt, s'))
        × (store s' ≡ insert text_keys e.id e (store s))
  pub deletes :
      (id : Text) (s : cl.State)
      → (s' : cl.State) × (cl.delete_entry id s ≡ (ok tt, s'))
        × (store s' ≡ delete text_keys id (store s))
  pub batch_deletes :
      (l : List Text) (s : cl.State)
      → (statuses : List Status) × (s' : cl.State) × (cl.batch_delete_entries l s
          ≡ (ok statuses, s'))
        × (store s' ≡ delete_ids l (store s))

module _ (sp : Spiffe) (cl : Client sp) (r : Reliable sp cl) where
  -- A computation that returns, and leaves the given store.
  abbrev pub Leaves : Exec cl.State (Unit {0}) → cl.State → Map Text (Entry sp) → Type 0
  Leaves m s after = (s' : cl.State) × (m s ≡ (ok tt, s')) × (r.store s' ≡ after)

  -- The IDs of those entries that pass a test, deleted one by one.
  unfoldable pub delete_if :
      (Entry sp → Bool) → List (Entry sp) → Map Text (Entry sp) → Map Text (Entry sp)
  delete_if p [] m = m
  delete_if p (e ∷ l) m = delete_if p l (if p e then delete text_keys e.id m else m)

  pub delete_loop :
      (p : Entry sp → Bool) (l : List (Entry sp)) (s : cl.State)
      → Leaves
          (for_each_if p (λ e. ignoring (cl.delete_entry e.id)) l)
          s
          (delete_if p l (r.store s))
  unfolding for_each_if delete_if
  delete_loop p [] s = (s, refl, refl)
  delete_loop p (e ∷ l) s = elim (Bool-cases (p e)) [
    | inl h ↦
        let (s', a, b) = r.deletes e.id s in
        let (s'', c, d) = delete_loop p l s' in (s'', rw (h, a) c, rw (h, ← b) d)
    | inr h ↦ let (s', a, b) = delete_loop p l s in (s', rw h a, rw h b)
  ]

  abbrev pub hit : (Entry sp → Bool) → Text → Entry sp → Bool
  hit p id e = if p e then e.id == id else false

  -- What is left under an ID: nothing, if an entry of that ID passed the test.
  pub lookup-delete_if :
      (p : Entry sp → Bool) (id : Text) (l : List (Entry sp)) (m : Map Text (Entry sp))
      → lookup text_keys id (delete_if p l m)
        ≡ (if any (hit p id) l then none else lookup text_keys id m)
  unfolding delete_if any
  lookup-delete_if p id [] m = refl
  lookup-delete_if p id (e ∷ l) m = ground (
    arith,
    lookup-delete_if p id l (delete text_keys e.id m),
    lookup-delete_if p id l m,
    lookup-delete text_keys e.id id m,
  )

  -- What a loop leaves of an entry: nothing, if it passes the test.
  abbrev pub drop_if : (Entry sp → Bool) → Option (Entry sp) → Option (Entry sp)
  drop_if p none = none
  drop_if p (some e) = if p e then none else some e

  In-entries_of :
      (m : Map Text (Entry sp)) (e : Entry sp) → In e (entries_of m) → (id : Text) × In (id, e) m
  In-entries_of [] e i = absurd i
  In-entries_of ((id, x) ∷ m) e (inl q) = (id, inl (ap (λ y. (id, y)) q))
  In-entries_of ((id, x) ∷ m) e (inr i) = let (id', j) = In-entries_of m e i in (id', inr j)

  entries_of-In :
      (m : Map Text (Entry sp)) (id : Text) (e : Entry sp) → In (id, e) m → In e (entries_of m)
  entries_of-In [] id e i = absurd i
  entries_of-In ((j, x) ∷ m) id e (inl q) = inl (ap (λ (y : Text × Entry sp). y.1) q)
  entries_of-In ((j, x) ∷ m) id e (inr i) = inr (entries_of-In m id e i)

  hit_split :
      (p : Entry sp → Bool) (id : Text) (e : Entry sp)
      → hit p id e ≡ true
      → (p e ≡ true) × (e.id ≡ id)
  hit_split p id e h = elim (Bool-cases (p e)) [
    | inl q ↦ (q, (eq_iff e.id id).0 (rw q at h))
    | inr q ↦ cc (h, q)
  ]

  hit_at :
      (p : Entry sp → Bool) (id : Text) (e : Entry sp) → p e ≡ true → e.id ≡ id → hit p id e ≡ true
  hit_at p id e h q = rw h ((eq_iff e.id id).1 q)

  stored_drop :
      (p : Entry sp → Bool) (id : Text) (m : Map Text (Entry sp)) (o : Option (Entry sp))
      → IsKeyed sp m
      → lookup text_keys id m ≡ o
      → (if any (hit p id) (entries_of m) then none else o) ≡ drop_if p o
  stored_drop p id m none w h = elim (Bool-cases (any (hit p id) (entries_of m))) [
    | inl q ↦ rw q refl
    | inr q ↦ rw q refl
  ]
  stored_drop p id m (some e) w h = elim (Bool-cases (p e)) [
    | inl q ↦ rw (
      q,
      any_of_In (hit p id) e (entries_of m) (entries_of-In m id e (In-lookup text_keys id e m h))
          (hit_at p id e q (w.own_id id e h)),
    )
    | inr q ↦ elim (Bool-cases (any (hit p id) (entries_of m))) [
      | inl a ↦
          let (x, i, b) = any-In (hit p id) (entries_of m) a in
          let (c, d) = hit_split p id x b in
          let (j, i') = In-entries_of m x i in
          let found = lookup-In text_keys j x m w.unique i' in
          let same : j ≡ id = sym (w.own_id j x found) ∙ d in
          let found' = subst (λ y. lookup text_keys y m ≡ some x) same found in
          let e_is : e ≡ x = cc (h, found') in cc (c, q, e_is)
      | inr a ↦ rw (a, q) refl
    ]
  ]

  pub delete_if-drop :
      (p : Entry sp → Bool) (id : Text) (m : Map Text (Entry sp))
      → IsKeyed sp m
      → lookup text_keys id (delete_if p (entries_of m) m) ≡ drop_if p (lookup text_keys id m)
  delete_if-drop p id m w = lookup-delete_if p id (entries_of m) m ∙ stored_drop p id m _ w refl

  -- The loop of deletions over a listing of a store keyed by the entries' own IDs.
  pub delete_loop-drop :
      (p : Entry sp → Bool) (s : cl.State)
      → IsKeyed sp (r.store s)
      → (s' : cl.State) × (for_each_if p
            (λ e. ignoring (cl.delete_entry e.id))
            (entries_of (r.store s))
            s
          ≡ (ok tt, s'))
        × ((id : Text)
            → lookup text_keys id (r.store s') ≡ drop_if p (lookup text_keys id (r.store s)))
  delete_loop-drop p s w =
      let (s', a, b) = delete_loop p (entries_of (r.store s)) s in
      (
        s',
        a,
        λ id. rw b (
            lookup-delete_if p id (entries_of (r.store s)) (r.store s)
            ∙ stored_drop p id (r.store s) _ w refl),
      )
