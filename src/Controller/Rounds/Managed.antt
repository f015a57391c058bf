-- ===== src/Controller/Rounds/Managed.antt =====
-- The part of the store that is this controller's, in the state that a round works on.
use spire_eks_workload_regis.Prelude.{
  ◌≡◌, refl, sym, ◌∙◌, subst, Bool, true, false, List, [], ◌∷◌, Option, none, some, if◌then◌else◌,
  Bool-cases, inl, inr, arith,
}
use spire_eks_workload_regis.Prelude.Maps.{
  Map, lookup, insert, delete, lookup-insert, lookup-delete,
}
use spire_eks_workload_regis.Text.{Text, ◌==◌, eq_iff, eq_refl, has_prefix, has_prefix-append}
use spire_eks_workload_regis.Api.{Kube, text_keys}
use spire_eks_workload_regis.SpireApi.{Spiffe, Entry}
use spire_eks_workload_regis.SpireEntry.Key.{make_entry_key}
use spire_eks_workload_regis.SpireEntry.State.{EntriesState, add_current, declared_id, add_declared}
use spire_eks_workload_regis.SpireEntry.State.Invariant.{IsKeyed, Built}
use spire_eks_workload_regis.SpireEntry.State.Store.{remove_all, write_all}
use spire_eks_workload_regis.SpireEntry.Render.{Templates}
use spire_eks_workload_regis.Controller.Select.{should_process_entry}
use spire_eks_workload_regis.Controller.Targeted.{Config}
use spire_eks_workload_regis.Controller.Reliable.{entries_of}
use spire_eks_workload_regis.Controller.Rounds.{add_currents}
use spire_eks_workload_regis.Controller.Rounds.Declared.{Declares, none_yet, one_more}

-- The IDs that this controller may touch.
abbrev pub is_managed : Text → Text → Bool
is_managed prefix id = if prefix == [] then true else has_prefix id prefix

module _ (sp : Spiffe) where
  -- Whatever is done to two stores that agree on an ID, they agree on it.
  pub remove_all-same :
      (id : Text) (l : List (Entry sp)) (m n : Map Text (Entry sp))
      → lookup text_keys id m ≡ lookup text_keys id n
      → lookup text_keys id (remove_all sp l m) ≡ lookup text_keys id (remove_all sp l n)
  unfolding remove_all
  remove_all-same id [] m n h = h
  remove_all-same id (e ∷ l) m n h =
      remove_all-same id l (delete text_keys e.id m) (delete text_keys e.id n)
        (lookup-delete text_keys e.id id m ∙ rw h (sym (lookup-delete text_keys e.id id n)))

  pub write_all-same :
      (id : Text) (l : List (Entry sp)) (m n : Map Text (Entry sp))
      → lookup text_keys id m ≡ lookup text_keys id n
      → lookup text_keys id (write_all sp l m) ≡ lookup text_keys id (write_all sp l n)
  unfolding write_all
  write_all-same id [] m n h = h
  write_all-same id (e ∷ l) m n h =
      write_all-same id l (insert text_keys e.id e m) (insert text_keys e.id e n)
        (lookup-insert text_keys e.id id e m ∙ rw h (sym (lookup-insert text_keys e.id id e n)))

  pub tail-IsKeyed :
      (j : Text) (e : Entry sp) (m : Map Text (Entry sp)) → IsKeyed sp ((j, e) ∷ m) → IsKeyed sp m
  unfolding lookup
  tail-IsKeyed j e m w = record {
    unique = w.unique.1;
    own_id = λ id x q. elim (Bool-cases (j == id)) [
      | inl same ↦ cc (w.unique.0, q, (eq_iff j id).0 same)
      | inr other ↦ w.own_id id x (rw other q)
    ];
  }

  pub head_id :
      (j : Text) (e : Entry sp) (m : Map Text (Entry sp)) → IsKeyed sp ((j, e) ∷ m) → e.id ≡ j
  unfolding lookup
  head_id j e m w = w.own_id j e (rw (eq_refl j) refl)

  -- What stands under an ID after the loop over SPIRE's entries.
  abbrev pub pick : Bool → Option (Entry sp) → Option (Entry sp) → Option (Entry sp)
  pick managed none old = old
  pick managed (some e) old = if managed then some e else old

  module _ (k : Kube) (t : Templates) (digest : Text → Text) (config : Config) where
    abbrev pub add_all : Map Text (Entry sp) → EntriesState sp → EntriesState sp
    add_all m st = add_currents sp k t digest config (entries_of m) st

    abbrev add_one : Entry sp → EntriesState sp → EntriesState sp
    add_one e st =
        if should_process_entry sp config.entry_id_prefix e then add_current sp st e else st

    add_one-Built :
        (c : Bool) (e : Entry sp) {st : EntriesState sp}
        → Built sp digest st
        → Built sp digest (if c then add_current sp st e else st)
    add_one-Built true e b = Built.current e b
    add_one-Built false e b = b

    pub add_all-Built :
        (m : Map Text (Entry sp)) {st : EntriesState sp}
        → Built sp digest st
        → Built sp digest (add_all m st)
    unfolding add_currents
    add_all-Built [] b = b
    add_all-Built ((j, e) ∷ m) b =
        add_all-Built m (add_one-Built (should_process_entry sp config.entry_id_prefix e) e b)

    add_one-rest :
        (c : Bool) (e : Entry sp) (st : EntriesState sp)
        → ((if c then add_current sp st e else st).declared ≡ st.declared)
          × ((if c then add_current sp st e else st).entry_prefix ≡ st.entry_prefix)
    unfolding add_current
    add_one-rest true e st = (refl, refl)
    add_one-rest false e st = (refl, refl)

    pub add_all-rest :
        (m : Map Text (Entry sp)) (st : EntriesState sp)
        → ((add_all m st).declared ≡ st.declared) × ((add_all m st).entry_prefix ≡ st.entry_prefix)
    unfolding add_currents
    add_all-rest [] st = (refl, refl)
    add_all-rest ((j, e) ∷ m) st =
        let (a, b) = add_all-rest m (add_one e st) in
        let (c, d) = add_one-rest (should_process_entry sp config.entry_id_prefix e) e st in
        (a ∙ c, b ∙ d)

    add_one-lookup :
        (c : Bool) (id : Text) (e : Entry sp) (st : EntriesState sp)
        → lookup text_keys id (if c then add_current sp st e else st).current ≡ (
            if c
            then (if e.id == id then some e else lookup text_keys id st.current)
            else lookup text_keys id st.current)
    unfolding add_current
    add_one-lookup true id e st = lookup-insert text_keys e.id id e st.current
    add_one-lookup false id e st = refl

    pub add_all-lookup :
        (id : Text) (m : Map Text (Entry sp)) (st : EntriesState sp)
        → IsKeyed sp m
        → lookup text_keys id (add_all m st).current
          ≡ pick
              (is_managed config.entry_id_prefix id)
              (lookup text_keys id m)
              (lookup text_keys id st.current)
    unfolding add_currents lookup should_process_entry
    add_all-lookup id [] st w = refl
    add_all-lookup id ((j, e) ∷ m) st w =
        add_all-lookup id m (add_one e st) (tail-IsKeyed j e m w)
        ∙ rw (add_one-lookup (is_managed config.entry_id_prefix e.id) id e st, head_id j e m w)
            (elim (Bool-cases (j == id)) [
              | inl q ↦
                  let same : j ≡ id = (eq_iff j id).0 q in
                  let gone : lookup text_keys id m ≡ none =
                    subst (λ x. lookup text_keys x m ≡ none) same w.unique.0 in
                  rw (q, gone, same) refl
              | inr q ↦ rw q (
                  drop_test (is_managed config.entry_id_prefix j)
                    (pick (is_managed config.entry_id_prefix id) (lookup text_keys id m))
                    (lookup text_keys id st.current))
            ])
      where
        drop_test : {A B : Type 0} (c : Bool) (f : A → B) (o : A) → f (if c then o else o) ≡ f o
        drop_test true f o = refl
        drop_test false f o = refl

    own : (prefix : Text) (e : Entry sp) → is_managed prefix (declared_id sp digest prefix e) ≡ true
    unfolding declared_id
    own prefix e = elim (Bool-cases (prefix == [])) [
      | inl q ↦ rw q refl
      | inr q ↦ rw q (has_prefix-append prefix (make_entry_key sp digest e))
    ]

    -- Every declared ID is this controller's.
    pub Declares-managed :
        {a b : EntriesState sp} (id : Text) (d : Entry sp)
        → Declares sp k t digest config a b
        → a.declared ≡ []
        → lookup text_keys id b.declared ≡ some d
        → is_managed b.entry_prefix id ≡ true
    unfolding add_declared lookup
    Declares-managed id d none_yet none_there h = cc (rw none_there at h)
    Declares-managed id d (one_more {b = b} e g) none_there h =
        elim (Bool-cases (declared_id sp digest b.entry_prefix e == id)) [
          | inl q ↦
              subst (λ x. is_managed b.entry_prefix x ≡ true) ((eq_iff _ id).0 q)
                (own b.entry_prefix e)
          | inr q ↦ Declares-managed id d g none_there (
              ground (
                arith,
                lookup-insert text_keys (declared_id sp digest b.entry_prefix e) id
                    (record e { id = declared_id sp digest b.entry_prefix e }) b.declared,
                q,
                h,
              ))
        ]
