-- ===== src/SpireEntry/State/Exact.antt =====
-- What `GetChanges` returns, entry by entry.
use spire_eks_workload_regis.Prelude.{
  ◌≡◌, refl, ap, sym, ◌∙◌, subst, ◌↔◌, ◌⊎◌, inl, inr, Bool, true, false, not, List, [], ◌∷◌, Option,
  none, some, if◌then◌else◌, In, Bool-cases,
}
use spire_eks_workload_regis.Prelude.Maps.{Map, lookup, In-lookup, lookup-In}
use spire_eks_workload_regis.Text.{Text}
use spire_eks_workload_regis.Api.{text_keys}
use spire_eks_workload_regis.SpireApi.{Spiffe, Entry}
use spire_eks_workload_regis.SpireEntry.State.{
  EntriesState, entries_equal, if_missing, if_outdated, creates, updates, deletes, get_changes,
}
use spire_eks_workload_regis.SpireEntry.State.Invariant.{IsWellFormed}

module _ (sp : Spiffe) where
  In-if_missing :
      (o : Option (Entry sp)) (d e : Entry sp) (rest : List (Entry sp))
      → In e (if_missing sp o d rest)
      → ((o ≡ none) × (d ≡ e)) ⊎ In e rest
  In-if_missing none d e rest (inl p) = inl (refl, p)
  In-if_missing none d e rest (inr i) = inr i
  In-if_missing (some c) d e rest i = inr i

  if_missing-In :
      (o : Option (Entry sp)) (d e : Entry sp) (rest : List (Entry sp))
      → ((o ≡ none) × (d ≡ e)) ⊎ In e rest
      → In e (if_missing sp o d rest)
  if_missing-In none d e rest (inl p) = inl p.1
  if_missing-In none d e rest (inr i) = inr i
  if_missing-In (some c) d e rest (inl p) = cc (p.0)
  if_missing-In (some c) d e rest (inr i) = i

  creates-In :
      (other m : Map Text (Entry sp)) (e : Entry sp)
      → In e (creates sp other m)
      → (k : Text) × In (k, e) m × (lookup text_keys k other ≡ none)
  unfolding creates
  creates-In other [] e i = absurd i
  creates-In other ((k, d) ∷ m) e i =
      elim (In-if_missing (lookup text_keys k other) d e (creates sp other m) i) [
        | inl p ↦ (k, inl (ap (λ x. (k, x)) p.1), p.0)
        | inr j ↦ let (k', a, b) = creates-In other m e j in (k', inr a, b)
      ]

  In-creates :
      (other m : Map Text (Entry sp)) (k : Text) (e : Entry sp)
      → In (k, e) m
      → lookup text_keys k other ≡ none
      → In e (creates sp other m)
  unfolding creates
  In-creates other [] k e i h = absurd i
  In-creates other ((j, d) ∷ m) k e (inl p) h =
      if_missing-In (lookup text_keys j other) d e (creates sp other m)
        (inl (rw (ap (λ (x : Text × Entry sp). x.0) p) h, ap (λ (x : Text × Entry sp). x.1) p))
  In-creates other ((j, d) ∷ m) k e (inr i) h =
      if_missing-In (lookup text_keys j other) d e (creates sp other m)
        (inr (In-creates other m k e i h))

  deletes-creates : (other m : Map Text (Entry sp)) → deletes sp other m ≡ creates sp other m
  unfolding creates deletes
  deletes-creates other [] = refl
  deletes-creates other ((k, d) ∷ m) =
      ap (if_missing sp (lookup text_keys k other) d) (deletes-creates other m)

  -- An entry is to be created exactly when it is declared under some ID that SPIRE does not have.
  pub to_create_iff :
      (s : EntriesState sp)
      → IsWellFormed sp s
      → (e : Entry sp)
      → In e (get_changes sp s).to_create ↔ (
          (k : Text) × (lookup text_keys k s.declared ≡ some e)
          × (lookup text_keys k s.current ≡ none))
  unfolding get_changes
  to_create_iff s w e = (
    (λ i.
        let (k, a, b) = creates-In s.current s.declared e i in
        (k, lookup-In text_keys k e s.declared w.declared.unique a, b)),
    (λ (k, a, b). In-creates s.current s.declared k e (In-lookup text_keys k e s.declared a) b),
  )

  -- An entry is to be deleted exactly when SPIRE has it under some ID that is not declared.
  pub to_delete_iff :
      (s : EntriesState sp)
      → IsWellFormed sp s
      → (e : Entry sp)
      → In e (get_changes sp s).to_delete ↔ (
          (k : Text) × (lookup text_keys k s.current ≡ some e)
          × (lookup text_keys k s.declared ≡ none))
  unfolding get_changes
  to_delete_iff s w e = rw (deletes-creates s.declared s.current) (
    (λ i.
        let (k, a, b) = creates-In s.declared s.current e i in
        (k, lookup-In text_keys k e s.current w.current.unique a, b)),
    (λ (k, a, b). In-creates s.declared s.current k e (In-lookup text_keys k e s.current a) b),
  )

  -- `u` brings an outdated entry of `o` to what `d` declares.
  abbrev pub Updates : Option (Entry sp) → Entry sp → Entry sp → Type 0
  Updates o d u =
      (c : Entry sp) × (o ≡ some c) × (entries_equal sp c d ≡ false) × (u ≡ record d { id = c.id })

  outdated_split :
      (b : Bool) (c d u : Entry sp) (rest : List (Entry sp))
      → entries_equal sp c d ≡ b
      → In u (if not b then record d { id = c.id } ∷ rest else rest)
      → Updates (some c) d u ⊎ In u rest
  outdated_split true c d u rest e j = inr j
  outdated_split false c d u rest e (inl p) = inl (c, refl, e, sym p)
  outdated_split false c d u rest e (inr j) = inr j

  In-if_outdated :
      (o : Option (Entry sp)) (d u : Entry sp) (rest : List (Entry sp))
      → In u (if_outdated sp o d rest)
      → Updates o d u ⊎ In u rest
  In-if_outdated none d u rest i = inr i
  In-if_outdated (some c) d u rest i = outdated_split (entries_equal sp c d) c d u rest refl i

  if_outdated-In :
      (o : Option (Entry sp)) (d u : Entry sp) (rest : List (Entry sp))
      → Updates o d u ⊎ In u rest
      → In u (if_outdated sp o d rest)
  if_outdated-In none d u rest (inl p) = cc (p.1)
  if_outdated-In none d u rest (inr i) = i
  if_outdated-In (some c) d u rest (inl (c', e, f, g)) =
      let same : c' ≡ c = cc e in
      rw (subst (λ x. entries_equal sp x d ≡ false) same f, if_outdated)
        (inl (ap (λ (x : Entry sp). record d { id = x.id }) (sym same) ∙ sym g))
  if_outdated-In (some c) d u rest (inr i) = elim (Bool-cases (entries_equal sp c d)) [
    | inl e ↦ rw (e, if_outdated) i
    | inr e ↦ rw (e, if_outdated) (inr i)
  ]

  updates-In :
      (current m : Map Text (Entry sp)) (u : Entry sp)
      → In u (updates sp current m)
      → (k : Text) × (d : Entry sp) × In (k, d) m × Updates (lookup text_keys k current) d u
  unfolding updates
  updates-In current [] u i = absurd i
  updates-In current ((k, d) ∷ m) u i =
      elim (In-if_outdated (lookup text_keys k current) d u (updates sp current m) i) [
        | inl p ↦ (k, d, inl refl, p)
        | inr j ↦ let (k', d', a, b) = updates-In current m u j in (k', d', inr a, b)
      ]

  In-updates :
      (current m : Map Text (Entry sp)) (k : Text) (d u : Entry sp)
      → In (k, d) m
      → Updates (lookup text_keys k current) d u
      → In u (updates sp current m)
  unfolding updates
  In-updates current [] k d u i p = absurd i
  In-updates current ((j, d') ∷ m) k d u (inl q) p =
      if_outdated-In (lookup text_keys j current) d' u (updates sp current m)
        (inl (rw (ap (λ (x : Text × Entry sp). x.0) q, ap (λ (x : Text × Entry sp). x.1) q) p))
  In-updates current ((j, d') ∷ m) k d u (inr i) p =
      if_outdated-In (lookup text_keys j current) d' u (updates sp current m)
        (inr (In-updates current m k d u i p))

  -- An entry is to be updated exactly when some ID is declared and SPIRE has it too, entriesEqual
  -- tells the two apart, and the update is the declared entry under the ID of SPIRE's.
  pub to_update_iff :
      (s : EntriesState sp)
      → IsWellFormed sp s
      → (u : Entry sp)
      → In u (get_changes sp s).to_update ↔ (
          (k : Text) × (d : Entry sp) × (lookup text_keys k s.declared ≡ some d)
          × Updates (lookup text_keys k s.current) d u)
  unfolding get_changes
  to_update_iff s w u = (
    (λ i.
        let (k, d, a, b) = updates-In s.current s.declared u i in
        (k, d, lookup-In text_keys k d s.declared w.declared.unique a, b)),
    (λ (k, d, a, b).
        In-updates s.current s.declared k d u (In-lookup text_keys k d s.declared a) b),
  )

  -- GetChanges of a well-formed state: an entry is to be created exactly when it is declared under some
  -- ID that SPIRE does not have; it is to be deleted exactly when SPIRE has it under some ID that is not
  -- declared; and it is an update exactly when some ID is declared and SPIRE has it too, entriesEqual
  -- tells the two apart, and the update is the declared entry under the ID of SPIRE's.
  pub get_changes_iff :
      (s : EntriesState sp)
      → IsWellFormed sp s
      → (e : Entry sp)
      → (In e (get_changes sp s).to_create ↔ (
          (k : Text) × (lookup text_keys k s.declared ≡ some e)
          × (lookup text_keys k s.current ≡ none)))
        × (In e (get_changes sp s).to_delete ↔ (
            (k : Text) × (lookup text_keys k s.current ≡ some e)
            × (lookup text_keys k s.declared ≡ none)))
        × (In e (get_changes sp s).to_update ↔ (
            (k : Text) × (d : Entry sp) × (lookup text_keys k s.declared ≡ some d)
            × Updates (lookup text_keys k s.current) d e))
  get_changes_iff s w e = (to_create_iff s w e, to_delete_iff s w e, to_update_iff s w e)
