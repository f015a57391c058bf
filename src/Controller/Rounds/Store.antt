-- ===== src/Controller/Rounds/Store.antt =====
-- The refinement of applyEntryChanges by the reference of SpireEntry.State.Store.
use spire_eks_workload_regis.Prelude.{refl, List, [], ◌∷◌}
use spire_eks_workload_regis.Prelude.Exec.{ignoring, for_each}
use spire_eks_workload_regis.Text.{Text}
use spire_eks_workload_regis.Api.{Kube}
use spire_eks_workload_regis.SpireApi.{Spiffe, Entry, Client}
use spire_eks_workload_regis.SpireEntry.State.{EntriesState, get_changes}
use spire_eks_workload_regis.SpireEntry.State.Store.{remove_all, write_all, apply_changes}
use spire_eks_workload_regis.SpireEntry.Render.{Templates}
use spire_eks_workload_regis.Controller.Targeted.{Config}
use spire_eks_workload_regis.Controller.Reliable.{Reliable, Leaves}
use spire_eks_workload_regis.Controller.Rounds.{apply_entry_changes}

module _ (sp : Spiffe) (cl : Client sp) (r : Reliable sp cl) where
  delete_all :
      (l : List (Entry sp)) (s : cl.State)
      → Leaves sp cl r
          (for_each (λ (e : Entry sp). ignoring (cl.delete_entry e.id)) l)
          s
          (remove_all sp l (r.store s))
  unfolding for_each remove_all
  delete_all [] s = (s, refl, refl)
  delete_all (e ∷ l) s =
      let (s', a, b) = r.deletes e.id s in
      let (s'', c, d) = delete_all l s' in (s'', rw a c, rw (← b) d)

  create_all :
      (l : List (Entry sp)) (s : cl.State)
      → Leaves sp cl r
          (for_each (λ e. ignoring (cl.create_entry e)) l)
          s
          (write_all sp l (r.store s))
  unfolding for_each write_all
  create_all [] s = (s, refl, refl)
  create_all (e ∷ l) s =
      let (s', a, b) = r.creates e s in
      let (s'', c, d) = create_all l s' in (s'', rw a c, rw (← b) d)

  update_all :
      (l : List (Entry sp)) (s : cl.State)
      → Leaves sp cl r
          (for_each (λ e. ignoring (cl.update_entry e)) l)
          s
          (write_all sp l (r.store s))
  unfolding for_each write_all
  update_all [] s = (s, refl, refl)
  update_all (e ∷ l) s =
      let (s', a, b) = r.updates e s in
      let (s'', c, d) = update_all l s' in (s'', rw a c, rw (← b) d)

  -- Over a client whose every call takes effect, applyEntryChanges returns, and its store is the one
  -- that the changes of GetChanges make of the store before.
  pub apply_entry_changes-apply_changes :
      (k : Kube) (t : Templates) (digest : Text → Text) (config : Config) (state : EntriesState sp)
      (s : cl.State)
      → Leaves sp cl r
          (apply_entry_changes sp k t digest config cl state)
          s
          (apply_changes sp (get_changes sp state) (r.store s))
  unfolding apply_entry_changes apply_changes
  apply_entry_changes-apply_changes k t digest config state s =
      let (s1, a, b) = delete_all (get_changes sp state).to_delete s in
      let (s2, c, d) = create_all (get_changes sp state).to_create s1 in
      let (s3, e, f) = update_all (get_changes sp state).to_update s2 in
      (s3, rw (a, c) e, rw (← b, ← d) f)
