-- ===== src/SpireEntry/State/Stable.antt =====
-- Whether reconciling comes to rest.
use spire_eks_workload_regis.Prelude.{
  ◌≡◌, refl, sym, ◌∙◌, inl, inr, true, Option, none, some, In, Bool-cases,
}
use spire_eks_workload_regis.Prelude.Maps.{lookup}
use spire_eks_workload_regis.Text.{Text}
use spire_eks_workload_regis.Api.{text_keys}
use spire_eks_workload_regis.SpireApi.{Spiffe, SpiffeLaws, Entry}
use spire_eks_workload_regis.SpireEntry.State.{EntriesState, entries_equal, get_changes}
use spire_eks_workload_regis.SpireEntry.State.Equality.{OneValuePerType, entries_equal-self_iff}
use spire_eks_workload_regis.SpireEntry.State.Invariant.{IsWellFormed}
use spire_eks_workload_regis.SpireEntry.State.Exact.{to_create_iff, to_update_iff, to_delete_iff}
use spire_eks_workload_regis.SpireEntry.State.Store.{apply_changes, apply_changes-IsKeyed}
use spire_eks_workload_regis.SpireEntry.State.Rounds.{reconciled, apply_changes-reconciled}

module _ (sp : Spiffe) (laws : SpiffeLaws sp) where
  -- The state of the next round, with the same declared entries, if every change took effect.
  abbrev pub next_round : EntriesState sp → EntriesState sp
  next_round s = record s { current = apply_changes sp (get_changes sp s) s.current }

  -- The test of entriesEqual passes for whatever a round leaves under a declared ID.
  reconciled-equal :
      (d : Entry sp) (o : Option (Entry sp)) (c : Entry sp)
      → OneValuePerType d.selectors
      → reconciled sp (some d) o ≡ some c
      → entries_equal sp c d ≡ true
  reconciled-equal d none c one h =
      let same : d ≡ c = cc h in rw (← same) ((entries_equal-self_iff sp laws d).1 one)
  reconciled-equal d (some x) c one h = elim (Bool-cases (entries_equal sp x d)) [
    | inl e ↦ let same : x ≡ c = cc (h, e) in rw (← same) e
    | inr e ↦ let same : d ≡ c = cc (h, e) in rw (← same) ((entries_equal-self_iff sp laws d).1 one)
  ]

  reconciled-declared :
      (d : Option (Entry sp)) (o : Option (Entry sp)) → (reconciled sp d o ≡ none) → d ≡ none
  reconciled-declared none o h = refl
  reconciled-declared (some d) none h = cc h
  reconciled-declared (some d) (some x) h = elim (Bool-cases (entries_equal sp x d)) [
    | inl e ↦ cc (h, e)
    | inr e ↦ cc (h, e)
  ]

  module _ (s : EntriesState sp) (w : IsWellFormed sp s)
      (one : (k : Text) (d : Entry sp)
        → lookup text_keys k s.declared ≡ some d
        → OneValuePerType d.selectors) where
    abbrev well : IsWellFormed sp (next_round s)
    well = record {
      current = apply_changes-IsKeyed sp (get_changes sp s) s.current w.current;
      declared = w.declared;
    }

    -- If the state is well formed, every change of a round takes effect, and no declared entry has
    -- two selectors of one type with different values, then with the same declared entries the next
    -- round creates, updates and deletes nothing.
    pub next_round_rests :
        (e : Entry sp)
        → (In e (get_changes sp (next_round s)).to_create → ⊥)
          × (In e (get_changes sp (next_round s)).to_update → ⊥)
          × (In e (get_changes sp (next_round s)).to_delete → ⊥)
    next_round_rests e = (no_create, no_update, no_delete)
      where
        no_create : In e (get_changes sp (next_round s)).to_create → ⊥
        no_create i =
            let (k, a, b) = (to_create_iff sp (next_round s) well e).0 i in
            let r = sym (apply_changes-reconciled sp s w k) ∙ b in
            cc (
              reconciled-declared (lookup text_keys k s.declared) (lookup text_keys k s.current) r,
              a,
            )

        no_update : In e (get_changes sp (next_round s)).to_update → ⊥
        no_update i =
            let (k, d, a, found) = (to_update_iff sp (next_round s) well e).0 i in
            let (c, b, n, f) = found in
            let r = sym (apply_changes-reconciled sp s w k) ∙ b in
            cc (n, reconciled-equal d (lookup text_keys k s.current) c (one k d a) (rw a at r))

        no_delete : In e (get_changes sp (next_round s)).to_delete → ⊥
        no_delete i =
            let (k, a, b) = (to_delete_iff sp (next_round s) well e).0 i in
            let r = sym (apply_changes-reconciled sp s w k) ∙ a in cc (rw b at r)

  -- A declared entry with two selectors of one type and different values is updated again although
  -- SPIRE has that very entry under its ID already.
  pub updated_forever :
      (s : EntriesState sp) (k : Text) (d : Entry sp)
      → IsWellFormed sp s
      → lookup text_keys k s.declared ≡ some d
      → lookup text_keys k s.current ≡ some d
      → ¬ OneValuePerType d.selectors
      → In d (get_changes sp s).to_update
  updated_forever s k d w hd hc two = elim (Bool-cases (entries_equal sp d d)) [
    | inl e ↦ absurd (two ((entries_equal-self_iff sp laws d).0 e))
    | inr e ↦ (to_update_iff sp s w d).1 (k, d, hd, (d, hc, e, refl))
  ]
