-- ===== src/Tests/Entries.antt =====
-- The theorems about entries, keys and states at sample entries.
use spire_eks_workload_regis.Prelude.{
  ◌≡◌, ◌↔◌, ◌∙◌, subst, refl, sym, ap, false, inl, inr, [], ◌∷◌, some, none, In, Bool-cases,
}
use spire_eks_workload_regis.Prelude.Maps.{lookup, insert}
use spire_eks_workload_regis.Text.{Text, bytes, ◌==◌, eq_refl}
use spire_eks_workload_regis.Api.{text_keys}
use spire_eks_workload_regis.SpireApi.{Entry, Selector}
use spire_eks_workload_regis.SpireEntry.Compare.{
  outdated_entry_fields, UpToDate, outdated_entry_fields-nil,
}
use spire_eks_workload_regis.SpireEntry.Key.{make_entry_key, make_entry_key-boundary}
use spire_eks_workload_regis.SpireEntry.State.{
  EntriesState, declared_id, get_changes, new_entries_state_with_prefix, add_current, add_declared,
}
use spire_eks_workload_regis.SpireEntry.State.Equality.{OneValuePerType}
use spire_eks_workload_regis.SpireEntry.State.Invariant.{IsWellFormed, Built, Built-IsWellFormed}
use spire_eks_workload_regis.SpireEntry.State.Exact.{get_changes_iff, Updates}
use spire_eks_workload_regis.SpireEntry.State.Store.{apply_changes}
use spire_eks_workload_regis.SpireEntry.State.Rounds.{reconciled, apply_changes-reconciled}
use spire_eks_workload_regis.SpireEntry.State.Stable.{next_round, next_round_rests, updated_forever}
use spire_eks_workload_regis.Tests.Samples.{spiffe, spiffe_laws, digest, entry_with}

-- An entry with one selector, and one with two of one type.
abbrev single : Entry spiffe
single = record (entry_with []) {
  selectors = record { type = bytes "k8s"; value = bytes "pod-uid:p1" } ∷ [];
}

abbrev double : Entry spiffe
double = entry_with []

abbrev id_of : Entry spiffe → Text
id_of e = declared_id spiffe digest (bytes "r-") e

abbrev as_declared : Entry spiffe → Entry spiffe
as_declared e = record e { id = id_of e }

-- SPIRE has an old entry and the one that is declared.
abbrev state_of : Entry spiffe → EntriesState spiffe
state_of e =
    add_declared spiffe digest
      (add_current spiffe
        (add_current spiffe (new_entries_state_with_prefix spiffe (bytes "r-"))
          (record e { id = bytes "r-old" }))
        (as_declared e))
      e

state_of-Built : (e : Entry spiffe) → Built spiffe digest (state_of e)
state_of-Built e = Built.declared e (
    Built.current (as_declared e)
      (Built.current (record e { id = bytes "r-old" }) (Built.new (bytes "r-"))))

Built-IsWellFormed_example : IsWellFormed spiffe (state_of single)
Built-IsWellFormed_example = Built-IsWellFormed spiffe (state_of-Built single)

state_of-well : (e : Entry spiffe) → IsWellFormed spiffe (state_of e)
state_of-well e = Built-IsWellFormed spiffe (state_of-Built e)

one_value : OneValuePerType single.selectors
one_value s t (inl e) (inl f) q =
    ap (λ (x : Selector). x.value) (sym e) ∙ ap (λ (x : Selector). x.value) f
one_value s t (inl e) (inr f) q = absurd f
one_value s t (inr e) f q = absurd e

two_values : ¬ OneValuePerType double.selectors
two_values h = cc (h _ _ (inl refl) (inr (inl refl)) refl)

only_declared :
    (e : Entry spiffe) (k : Text) (d : Entry spiffe)
    → lookup text_keys k (state_of e).declared ≡ some d
    → d ≡ as_declared e
unfolding lookup new_entries_state_with_prefix add_current add_declared insert
only_declared e k d h = elim (Bool-cases (id_of e == k)) [
  | inl q ↦ let found : some (as_declared e) ≡ some d = rw q at h in cc found
  | inr q ↦ cc (rw q at h)
]

get_changes_iff_example :
    (In (as_declared double) (get_changes spiffe (state_of double)).to_create ↔ (
      (k : Text) × (lookup text_keys k (state_of double).declared ≡ some (as_declared double))
      × (lookup text_keys k (state_of double).current ≡ none)))
    × (In (as_declared double) (get_changes spiffe (state_of double)).to_delete ↔ (
        (k : Text) × (lookup text_keys k (state_of double).current ≡ some (as_declared double))
        × (lookup text_keys k (state_of double).declared ≡ none)))
    × (In (as_declared double) (get_changes spiffe (state_of double)).to_update ↔ (
        (k : Text) × (d : Entry spiffe) × (lookup text_keys k (state_of double).declared ≡ some d)
        × Updates spiffe (lookup text_keys k (state_of double).current) d (as_declared double)))
get_changes_iff_example =
    get_changes_iff spiffe (state_of double) (state_of-well double) (as_declared double)

apply_changes-reconciled_example :
    lookup text_keys
      (id_of double)
      (apply_changes spiffe (get_changes spiffe (state_of double)) (state_of double).current)
    ≡ reconciled spiffe
        (lookup text_keys (id_of double) (state_of double).declared)
        (lookup text_keys (id_of double) (state_of double).current)
apply_changes-reconciled_example =
    apply_changes-reconciled spiffe (state_of double) (state_of-well double) (id_of double)

next_round_rests_example :
    (In
        (as_declared single)
        (get_changes spiffe (next_round spiffe spiffe_laws (state_of single))).to_create
      → ⊥)
    × (In
          (as_declared single)
          (get_changes spiffe (next_round spiffe spiffe_laws (state_of single))).to_update
        → ⊥)
    × (In
          (as_declared single)
          (get_changes spiffe (next_round spiffe spiffe_laws (state_of single))).to_delete
        → ⊥)
next_round_rests_example =
    next_round_rests spiffe spiffe_laws (state_of single) (state_of-well single)
      (λ k d h.
        subst (λ (x : Entry spiffe). OneValuePerType x.selectors) (sym (only_declared single k d h))
          one_value)
      (as_declared single)

declared_there :
    lookup text_keys (id_of double) (state_of double).declared ≡ some (as_declared double)
unfolding lookup new_entries_state_with_prefix add_current add_declared insert
declared_there = rw (eq_refl (id_of double)) refl

old_differs : (bytes "r-old" == id_of double) ≡ false
unfolding ◌==◌ declared_id make_entry_key
old_differs = refl

current_there :
    lookup text_keys (id_of double) (state_of double).current ≡ some (as_declared double)
unfolding lookup new_entries_state_with_prefix add_current add_declared insert
current_there = rw (old_differs, old_differs, eq_refl (id_of double)) refl

updated_forever_example : In (as_declared double) (get_changes spiffe (state_of double)).to_update
updated_forever_example =
    updated_forever spiffe spiffe_laws (state_of double) (id_of double) (as_declared double)
      (state_of-well double) declared_there current_there two_values

outdated_entry_fields-nil_example :
    (outdated_entry_fields spiffe single (as_declared single) ≡ [])
    ↔ UpToDate spiffe single (as_declared single)
outdated_entry_fields-nil_example = outdated_entry_fields-nil spiffe single (as_declared single)

make_entry_key-boundary_example :
    make_entry_key spiffe digest
      (record single { selectors = record { type = bytes "unix"; value = bytes "uid" } ∷ [] })
    ≡ make_entry_key spiffe digest
        (record single { selectors = record { type = bytes "un"; value = bytes "ixuid" } ∷ [] })
make_entry_key-boundary_example =
    make_entry_key-boundary spiffe digest single (bytes "un") (bytes "ix") (bytes "uid")
