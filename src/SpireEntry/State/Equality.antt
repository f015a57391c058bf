-- ===== src/SpireEntry/State/Equality.antt =====
-- When `entriesEqual` finds an entry equal to itself.
use spire_eks_workload_regis.Prelude.{
  ◌≡◌, refl, sym, ap, ◌∙◌, ◌↔◌, ◌⊎◌, inl, inr, Bool, true, false, not, List, [], ◌∷◌, Option, none,
  some, arith, if◌then◌else◌, In, Bool-cases, length, ==_iff,
}
use spire_eks_workload_regis.Prelude.Maps.{Map, lookup, insert, lookup-insert}
use spire_eks_workload_regis.Text.{Text, ◌==◌, eq_iff, eq_refl}
use spire_eks_workload_regis.Api.{text_keys}
use spire_eks_workload_regis.SpireApi.{Spiffe, SpiffeLaws, Entry, Selector}
use spire_eks_workload_regis.SpireEntry.Compare.{outdated_entry_fields_refl}
use spire_eks_workload_regis.SpireEntry.State.{selector_map, value_is, selectors_in, entries_equal}

-- Selectors of one type have one value.
abbrev pub OneValuePerType : List Selector → Type 0
OneValuePerType l = (s t : Selector) → In s l → In t l → s.type ≡ t.type → s.value ≡ t.value

lookup-selector_map :
    (l : List Selector) (m : Map Text Text) (t v : Text)
    → lookup text_keys t (selector_map l m) ≡ some v
    → ((s : Selector) × In s l × (s.type ≡ t) × (s.value ≡ v)) ⊎ (lookup text_keys t m ≡ some v)
unfolding selector_map
lookup-selector_map [] m t v h = inr h
lookup-selector_map (s ∷ l) m t v h =
    elim (lookup-selector_map l (insert text_keys s.type s.value m) t v h) [
      | inl (u, i, e, f) ↦ inl (u, inr i, e, f)
      | inr q ↦ elim (Bool-cases (s.type == t)) [
        | inl e ↦ inl (
          s,
          inl refl,
          (eq_iff s.type t).0 e,
          ground (arith, lookup-insert text_keys s.type t s.value m),
        )
        | inr e ↦ inr (ground (arith, lookup-insert text_keys s.type t s.value m))
      ]
    ]

selector_map_mono :
    (l : List Selector) (m : Map Text Text) (t v : Text)
    → lookup text_keys t m ≡ some v
    → (w : Text) × (lookup text_keys t (selector_map l m) ≡ some w)
unfolding selector_map
selector_map_mono [] m t v h = (v, h)
selector_map_mono (s ∷ l) m t v h = elim (Bool-cases (s.type == t)) [
  | inl e ↦
      selector_map_mono l (insert text_keys s.type s.value m) t s.value
        (ground (arith, lookup-insert text_keys s.type t s.value m))
  | inr e ↦
      selector_map_mono l (insert text_keys s.type s.value m) t v
        (ground (arith, lookup-insert text_keys s.type t s.value m))
]

selector_map-In :
    (l : List Selector) (m : Map Text Text) (s : Selector)
    → In s l
    → (w : Text) × (lookup text_keys s.type (selector_map l m) ≡ some w)
unfolding selector_map
selector_map-In [] m s i = absurd i
selector_map-In (t ∷ l) m s (inl e) =
    selector_map_mono l (insert text_keys t.type t.value m) s.type t.value (
      ground (
        arith,
        lookup-insert text_keys t.type s.type t.value m,
        eq_iff t.type s.type,
        ap (λ (x : Selector). x.type) e,
      ))
selector_map-In (t ∷ l) m s (inr i) = selector_map-In l (insert text_keys t.type t.value m) s i

value_is-some : (o : Option Text) (v : Text) → value_is o v ≡ true → o ≡ some v
value_is-some none v h = cc
value_is-some (some w) v h = ap some ((eq_iff w v).0 h)

selectors_in-In :
    (m : Map Text Text) (l : List Selector) (s : Selector)
    → selectors_in m l ≡ true
    → In s l
    → lookup text_keys s.type m ≡ some s.value
unfolding selectors_in
selectors_in-In m [] s h i = absurd i
selectors_in-In m (t ∷ l) s h (inl e) =
    rw (← e) (value_is-some (lookup text_keys t.type m) t.value (ground arith))
selectors_in-In m (t ∷ l) s h (inr i) = selectors_in-In m l s (ground arith) i

selectors_in_of_all :
    (m : Map Text Text) (l : List Selector)
    → ((s : Selector) → In s l → lookup text_keys s.type m ≡ some s.value)
    → selectors_in m l ≡ true
unfolding selectors_in
selectors_in_of_all m [] h = refl
selectors_in_of_all m (t ∷ l) h =
    rw (h t (inl refl), eq_refl t.value) (selectors_in_of_all m l (λ s i. h s (inr i)))

-- The value of a type in the map is that of the selectors of that type, where they agree.
selectors_in-self_iff :
    (l : List Selector) → (selectors_in (selector_map l []) l ≡ true) ↔ OneValuePerType l
unfolding lookup
selectors_in-self_iff l = (one_value, found)
  where
    one_value : selectors_in (selector_map l []) l ≡ true → OneValuePerType l
    one_value h s t i j e =
        let p = selectors_in-In (selector_map l []) l s h i in
        let q = selectors_in-In (selector_map l []) l t h j in cc (p, q, e)

    found : OneValuePerType l → selectors_in (selector_map l []) l ≡ true
    found one = selectors_in_of_all (selector_map l []) l λ s i.
        let (w, e) = selector_map-In l [] s i in
        elim (lookup-selector_map l [] s.type w e) [
          | inl (t, j, ty, v) ↦ e ∙ ap some (sym v ∙ one t s j i ty)
          | inr none_there ↦ cc none_there
        ]

self_iff : {P : Type 0} (b : Bool) → (b ≡ true) ↔ P → ((if not b then false else true) ≡ true) ↔ P
self_iff true h = h
self_iff false h = h

module _ (sp : Spiffe) (laws : SpiffeLaws sp) where
  -- entriesEqual finds an entry equal to itself exactly when no two of its selectors have one type
  -- and different values.
  pub entries_equal-self_iff :
      (e : Entry sp) → (entries_equal sp e e ≡ true) ↔ OneValuePerType e.selectors
  unfolding entries_equal
  entries_equal-self_iff e =
      rw
        (
          (laws.id_eq_iff e.spiffe_id e.spiffe_id).1 refl,
          (laws.id_eq_iff e.parent_id e.parent_id).1 refl,
          (==_iff (length e.selectors) (length e.selectors)).1 refl,
          outdated_entry_fields_refl sp e,
        )
        (self_iff (selectors_in (selector_map e.selectors []) e.selectors)
          (selectors_in-self_iff e.selectors))
