-- ===== src/Controller/Rounds/Whole.antt =====
-- What a round makes of the store, from the listing of the entries to the last update.
use spire_eks_workload_regis.Prelude.{
  ◌≡◌, refl, sym, ap, ◌∙◌, subst, Bool, true, false, List, Option, none, some, ok, if◌then◌else◌,
  Bool-cases, inl, inr,
}
use spire_eks_workload_regis.Prelude.Maps.{Map, lookup}
use spire_eks_workload_regis.Text.{Text}
use spire_eks_workload_regis.Api.{Kube, WorkloadIdentity, text_keys}
use spire_eks_workload_regis.SpireApi.{Spiffe, Entry, Client}
use spire_eks_workload_regis.SpireEntry.State.{
  EntriesState, new_entries_state_with_prefix, get_changes,
}
use spire_eks_workload_regis.SpireEntry.State.Invariant.{
  IsKeyed, IsWellFormed, Built, Built-IsWellFormed,
}
use spire_eks_workload_regis.SpireEntry.State.Exact.{to_create_iff, to_update_iff, to_delete_iff}
use spire_eks_workload_regis.SpireEntry.State.Store.{
  apply_changes, NoneWith, remove_all-absent, write_all-absent,
}
use spire_eks_workload_regis.SpireEntry.State.Rounds.{reconciled, apply_changes-reconciled}
use spire_eks_workload_regis.SpireEntry.Render.{Templates}
use spire_eks_workload_regis.Controller.Select.{Connection}
use spire_eks_workload_regis.Controller.Targeted.{Config}
use spire_eks_workload_regis.Controller.Reliable.{Reliable}
use spire_eks_workload_regis.Controller.Rounds.{process_clusters, reconcile_entries}
use spire_eks_workload_regis.Controller.Rounds.Declared.{
  Declares, none_yet, process_clusters-Declares, Declares-Built, Declares-current, Declares-prefix,
}
use spire_eks_workload_regis.Controller.Rounds.Store.{apply_entry_changes-apply_changes}
use spire_eks_workload_regis.Controller.Rounds.Managed.{
  is_managed, pick, add_all, remove_all-same, write_all-same, add_all-Built, add_all-rest,
  add_all-lookup, Declares-managed,
}

module _ (sp : Spiffe) (k : Kube) (t : Templates) (digest : Text → Text) (config : Config) where
  abbrev pub start : EntriesState sp
  start = new_entries_state_with_prefix sp config.entry_id_prefix

  pick-none : (c : Bool) (o : Option (Entry sp)) → c ≡ true → pick sp c o none ≡ o
  pick-none c none h = refl
  pick-none c (some e) h = rw h refl

  pick_other : (c : Bool) (o : Option (Entry sp)) → c ≡ false → pick sp c o none ≡ none
  pick_other c none h = refl
  pick_other c (some e) h = rw h refl

  module _ (conns : List Connection) (identities : List (WorkloadIdentity k))
      (m : Map Text (Entry sp)) (keyed : IsKeyed sp m) (state : EntriesState sp)
      (processed : process_clusters sp k t digest config conns identities
          (add_all sp k t digest config m start)
        ≡ ok state) where
    grows : Declares sp k t digest config (add_all sp k t digest config m start) state
    grows =
        (process_clusters-Declares sp k t digest config conns identities none_yet).at state
          processed

    well : IsWellFormed sp state
    well = Built-IsWellFormed sp (
        Declares-Built sp k t digest config grows
          (add_all-Built sp k t digest config m (Built.new config.entry_id_prefix)))

    current_is :
        (id : Text)
        → lookup text_keys id state.current
          ≡ pick sp (is_managed config.entry_id_prefix id) (lookup text_keys id m) none
    unfolding new_entries_state_with_prefix lookup
    current_is id =
        ap (lookup text_keys id) (Declares-current sp k t digest config grows)
        ∙ add_all-lookup sp k t digest config id m start keyed

    declared_is :
        (id : Text) (d : Entry sp)
        → lookup text_keys id state.declared ≡ some d
        → is_managed config.entry_id_prefix id ≡ true
    unfolding new_entries_state_with_prefix
    declared_is id d h =
        subst (λ x. is_managed x id ≡ true)
          (Declares-prefix sp k t digest config grows
            ∙ (add_all-rest sp k t digest config m start).1)
          (Declares-managed sp k t digest config id d grows
            (add_all-rest sp k t digest config m start).0 h)

    module _ (id : Text) (foreign : is_managed config.entry_id_prefix id ≡ false) where
      none_declared :
          (j : Text) (d : Entry sp) → lookup text_keys j state.declared ≡ some d → j ≡ id → ⊥
      none_declared j d h e = cc (declared_is j d h, foreign, e)

      no_create : NoneWith sp id (get_changes sp state).to_create
      no_create e i q =
          let (j, a, b) = (to_create_iff sp state well e).0 i in
          none_declared j e a (sym (well.declared.own_id j e a) ∙ q)

      no_update : NoneWith sp id (get_changes sp state).to_update
      no_update u i q =
          let (j, d, a, found) = (to_update_iff sp state well u).0 i in
          let (c, b, n, f) = found in
          none_declared j d a
            (sym (well.current.own_id j c b) ∙ ap (λ (x : Entry sp). x.id) (sym f) ∙ q)

      no_delete : NoneWith sp id (get_changes sp state).to_delete
      no_delete e i q =
          let (j, a, b) = (to_delete_iff sp state well e).0 i in
          let same : j ≡ id = sym (well.current.own_id j e a) ∙ q in
          cc (
            subst (λ x. lookup text_keys x state.current ≡ some e) same a,
            current_is id,
            pick_other _ (lookup text_keys id m) foreign,
          )

      foreign_kept :
          lookup text_keys id (apply_changes sp (get_changes sp state) m) ≡ lookup text_keys id m
      unfolding apply_changes
      foreign_kept =
          write_all-absent sp id (get_changes sp state).to_update _ no_update
          ∙ write_all-absent sp id (get_changes sp state).to_create _ no_create
          ∙ remove_all-absent sp id (get_changes sp state).to_delete m no_delete

    managed_done :
        (id : Text)
        → is_managed config.entry_id_prefix id ≡ true
        → lookup text_keys id (apply_changes sp (get_changes sp state) m)
          ≡ reconciled sp (lookup text_keys id state.declared) (lookup text_keys id m)
    unfolding apply_changes
    managed_done id own_id =
        let same = current_is id ∙ pick-none _ (lookup text_keys id m) own_id in
        write_all-same sp id (get_changes sp state).to_update _ _ (
          write_all-same sp id (get_changes sp state).to_create _ _
            (remove_all-same sp id (get_changes sp state).to_delete m state.current (sym same)))
        ∙ apply_changes-reconciled sp state well id
        ∙ ap (reconciled sp (lookup text_keys id state.declared)) same

  -- Over a client whose every call takes effect and whose store is keyed by the entries' IDs, if
  -- processing the clusters returns a state, then the round returns. Under an ID with this
  -- controller's prefix it leaves nothing if the ID is not declared, SPIRE's entry if entriesEqual
  -- finds it equal to the declared one, and the declared entry otherwise; under any other ID it
  -- leaves what was there.
  pub reconcile_entries-reconciled :
      (cl : Client sp) (r : Reliable sp cl) (s : cl.State) (conns : List Connection)
      (identities : List (WorkloadIdentity k)) (state : EntriesState sp)
      → IsKeyed sp (r.store s)
      → process_clusters sp k t digest config conns identities
          (add_all sp k t digest config (r.store s) start)
        ≡ ok state
      → (s' : cl.State) × (reconcile_entries sp k t digest config cl conns identities s
          ≡ (ok tt, s'))
        × ((id : Text)
            → lookup text_keys id (r.store s') ≡ (
                if is_managed config.entry_id_prefix id
                then reconciled sp
                    (lookup text_keys id state.declared)
                    (lookup text_keys id (r.store s))
                else lookup text_keys id (r.store s)))
  unfolding reconcile_entries
  reconcile_entries-reconciled cl r s conns identities state keyed processed =
      let (s', a, b) = apply_entry_changes-apply_changes sp cl r k t digest config state s in
      (
        s',
        rw (r.lists s, processed) a,
        λ id.
            ap (lookup text_keys id) b ∙ elim (Bool-cases (is_managed config.entry_id_prefix id)) [
              | inl q ↦ rw q (managed_done conns identities (r.store s) keyed state processed id q)
              | inr q ↦ rw q (foreign_kept conns identities (r.store s) keyed state processed id q)
            ],
      )
