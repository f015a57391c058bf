-- ===== src/SpireEntry/State/Rounds.antt =====
-- What a round of changes makes of a store in which every change takes effect, and what the next
-- round finds.
use spire_eks_workload_regis.Prelude.{
  ◌≡◌, refl, ap, sym, ◌∙◌, subst, ◌⊎◌, inl, inr, Bool, true, false, Option, none, some,
  if◌then◌else◌, In,
}
use spire_eks_workload_regis.Prelude.Maps.{Map, lookup}
use spire_eks_workload_regis.Text.{Text}
use spire_eks_workload_regis.Api.{text_keys}
use spire_eks_workload_regis.SpireApi.{Spiffe, Entry}
use spire_eks_workload_regis.SpireEntry.State.{EntriesState, entries_equal, get_changes}
use spire_eks_workload_regis.SpireEntry.State.Invariant.{IsWellFormed}
use spire_eks_workload_regis.SpireEntry.State.Exact.{to_create_iff, to_update_iff, to_delete_iff}
use spire_eks_workload_regis.SpireEntry.State.Store.{
  remove_all, write_all, apply_changes, remove_all-absent, remove_all-none, remove_all-In,
  write_all-absent, write_all-only, NoneWith,
}

some_inj : {A : Type 0} {a b : A} → some a ≡ some b → a ≡ b
some_inj e = cc e

module _ (sp : Spiffe) where
  -- What a round should leave under an ID: what is declared, or SPIRE's entry if it is equal.
  abbrev pub reconciled : Option (Entry sp) → Option (Entry sp) → Option (Entry sp)
  reconciled none c = none
  reconciled (some d) none = some d
  reconciled (some d) (some c) = if entries_equal sp c d then some c else some d

  module _ (s : EntriesState sp) (w : IsWellFormed sp s) (k : Text) where
    no_create :
        (lookup text_keys k s.declared ≡ none)
          ⊎ ((c : Entry sp) × (lookup text_keys k s.current ≡ some c))
        → NoneWith sp k (get_changes sp s).to_create
    no_create h e i q =
        let (j, a, b) = (to_create_iff sp s w e).0 i in
        let same : j ≡ k = sym (w.declared.own_id j e a) ∙ q in
        let a' = subst (λ x. lookup text_keys x s.declared ≡ some e) same a in
        let b' = subst (λ x. lookup text_keys x s.current ≡ none) same b in
        elim h [ inl n ↦ cc (n, a') | inr (c, n) ↦ cc (n, b') ]

    no_delete :
        (d : Entry sp)
        → lookup text_keys k s.declared ≡ some d
        → NoneWith sp k (get_changes sp s).to_delete
    no_delete d h e i q =
        let (j, a, b) = (to_delete_iff sp s w e).0 i in
        let same : j ≡ k = sym (w.current.own_id j e a) ∙ q in
        cc (h, subst (λ x. lookup text_keys x s.declared ≡ none) same b)

    -- An update of this ID is the declared entry itself, and SPIRE's entry differs.
    update_is :
        (u : Entry sp)
        → In u (get_changes sp s).to_update
        → u.id ≡ k
        → (d : Entry sp) × (c : Entry sp) × (lookup text_keys k s.declared ≡ some d)
          × (lookup text_keys k s.current ≡ some c)
          × (entries_equal sp c d ≡ false)
          × (u ≡ d)
    update_is u i q =
        let (j, d, a, found) = (to_update_iff sp s w u).0 i in
        let (c, b, n, e) = found in
        let cj : c.id ≡ j = w.current.own_id j c b in
        let same : j ≡ k = sym cj ∙ sym (ap (λ (x : Entry sp). x.id) e) ∙ q in
        let dj : d.id ≡ j = w.declared.own_id j d a in
        (
          d,
          c,
          subst (λ x. lookup text_keys x s.declared ≡ some d) same a,
          subst (λ x. lookup text_keys x s.current ≡ some c) same b,
          n,
          e ∙ ap (λ x. record d { id = x }) (cj ∙ sym dj),
        )

    no_update :
        ((d c : Entry sp)
          → lookup text_keys k s.declared ≡ some d
          → lookup text_keys k s.current ≡ some c
          → entries_equal sp c d ≡ false
          → ⊥)
        → NoneWith sp k (get_changes sp s).to_update
    no_update h u i q = let (d, c, a, b, n, e) = update_is u i q in h d c a b n

    abbrev created : Map Text (Entry sp)
    created =
        write_all sp (get_changes sp s).to_create
          (remove_all sp (get_changes sp s).to_delete s.current)

    not_created :
        (lookup text_keys k s.declared ≡ none)
          ⊎ ((c : Entry sp) × (lookup text_keys k s.current ≡ some c))
        → lookup text_keys k created
          ≡ lookup text_keys k (remove_all sp (get_changes sp s).to_delete s.current)
    not_created h = write_all-absent sp k (get_changes sp s).to_create _ (no_create h)

    not_updated :
        NoneWith sp k (get_changes sp s).to_update
        → lookup text_keys k (apply_changes sp (get_changes sp s) s.current)
          ≡ lookup text_keys k created
    unfolding apply_changes
    not_updated h = write_all-absent sp k (get_changes sp s).to_update _ h

    round_both :
        (d c : Entry sp) (b : Bool)
        → lookup text_keys k s.declared ≡ some d
        → lookup text_keys k s.current ≡ some c
        → entries_equal sp c d ≡ b
        → lookup text_keys k (apply_changes sp (get_changes sp s) s.current)
          ≡ (if b then some c else some d)
    unfolding apply_changes
    round_both d c true hd hc e =
        not_updated (
          no_update λ d' c' a b n.
            let dd : d' ≡ d = some_inj (sym a ∙ hd) in
            let cd : c' ≡ c = some_inj (sym b ∙ hc) in cc (n, e, dd, cd))
        ∙ not_created (inr (c, hc))
        ∙ remove_all-absent sp k (get_changes sp s).to_delete s.current (no_delete d hd)
        ∙ hc
    round_both d c false hd hc e =
        let ids : d.id ≡ c.id = w.declared.own_id k d hd ∙ sym (w.current.own_id k c hc) in
        write_all-only sp k (get_changes sp s).to_update created d
          (λ u i q. let (d', c', a, b, n, f) = update_is u i q in f ∙ some_inj (sym a ∙ hd))
          (inr
            ((to_update_iff sp s w d).1 (k, d, hd, (c, hc, e, ap (λ x. record d { id = x }) ids))))
          (w.declared.own_id k d hd)

    round_at :
        (d c : Option (Entry sp))
        → lookup text_keys k s.declared ≡ d
        → lookup text_keys k s.current ≡ c
        → lookup text_keys k (apply_changes sp (get_changes sp s) s.current) ≡ reconciled d c
    round_at none none hd hc =
        not_updated (no_update (λ d c a b n. cc (hd, a)))
        ∙ not_created (inl hd)
        ∙ remove_all-none sp k (get_changes sp s).to_delete s.current hc
    round_at none (some c) hd hc =
        not_updated (no_update (λ d c a b n. cc (hd, a)))
        ∙ not_created (inl hd)
        ∙ remove_all-In sp k (get_changes sp s).to_delete s.current c
            ((to_delete_iff sp s w c).1 (k, hc, hd)) (w.current.own_id k c hc)
    round_at (some d) none hd hc =
        not_updated (no_update (λ d c a b n. cc (hc, b)))
        ∙ write_all-only sp k (get_changes sp s).to_create _ d
            (λ x i q.
              let (j, a, b) = (to_create_iff sp s w x).0 i in
              let same : j ≡ k = sym (w.declared.own_id j x a) ∙ q in
              some_inj (sym (subst (λ y. lookup text_keys y s.declared ≡ some x) same a) ∙ hd))
            (inr ((to_create_iff sp s w d).1 (k, hd, hc))) (w.declared.own_id k d hd)
    round_at (some d) (some c) hd hc = round_both d c (entries_equal sp c d) hd hc refl

    -- A round over a well-formed state, in which every change takes effect, leaves under every ID
    -- nothing if the ID is not declared; else SPIRE's entry, if entriesEqual finds it equal to the
    -- declared one; and else the declared entry.
    pub apply_changes-reconciled :
        lookup text_keys k (apply_changes sp (get_changes sp s) s.current)
        ≡ reconciled (lookup text_keys k s.declared) (lookup text_keys k s.current)
    apply_changes-reconciled = round_at _ _ refl refl
