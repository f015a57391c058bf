-- ===== src/Controller/Targeted/Registration.antt =====
-- What reconcilePodEntry leaves in a store in which every call takes effect.
use spire_eks_workload_regis.Prelude.{
  ◌≡◌, refl, ap, ◌∙◌, false, List, [], ◌∷◌, ok, Option, some, none, Bool-cases, inl, inr, arith,
  length, ltb, String,
}
use spire_eks_workload_regis.Prelude.Exec.{Exec}
use spire_eks_workload_regis.Prelude.Maps.{Map, lookup, lookup-insert}
use spire_eks_workload_regis.Text.{Text, ◌==◌, eq_refl}
use spire_eks_workload_regis.Api.{Kube, WorkloadIdentity, EksClusterRegistry, Pod, Node, text_keys}
use spire_eks_workload_regis.SpireApi.{Spiffe, Entry, Client}
use spire_eks_workload_regis.SpireEntry.Compare.{outdated_entry_fields, outdated_entry_fields_refl}
use spire_eks_workload_regis.SpireEntry.State.{declared_id}
use spire_eks_workload_regis.SpireEntry.State.Invariant.{IsKeyed}
use spire_eks_workload_regis.SpireEntry.Render.{Templates, render_entry}
use spire_eks_workload_regis.Controller.Reliable.{Reliable, entries_of}
use spire_eks_workload_regis.Controller.Rounds.Managed.{tail-IsKeyed, head_id}
use spire_eks_workload_regis.Controller.Targeted.{
  Config, find_entry, create_or_update, reconcile_pod_entry,
}

-- In a keyed store the first entry with an ID is the entry under the ID.
find_entry-lookup :
    (sp : Spiffe) (id : Text) (m : Map Text (Entry sp))
    → IsKeyed sp m
    → find_entry id (entries_of m) ≡ lookup text_keys id m
unfolding find_entry lookup
find_entry-lookup sp id [] w = refl
find_entry-lookup sp id ((j, e) ∷ m) w =
    rw (find_entry-lookup sp id m (tail-IsKeyed sp j e m w), head_id sp j e m w) refl

not_longer : (l : List String) → ltb 0 (length l) ≡ false → l ≡ []
not_longer [] h = refl
not_longer (x ∷ l) h = absurd (ground arith)

module _ (sp : Spiffe) (k : Kube) (t : Templates) (cl : Client sp) (digest : Text → Text)
    (config : Config) (r : Reliable sp cl) (s : cl.State) (w : IsKeyed sp (r.store s)) where
  -- The call returns, leaves an entry under the ID with no outdated field, and nothing else changes.
  abbrev pub Registers : Exec cl.State (Unit {0}) → Text → Entry sp → Type 0
  Registers m id d =
      (s' : cl.State) × (m s ≡ (ok tt, s'))
      × ((x : Entry sp) × (lookup text_keys id (r.store s') ≡ some x)
          × (outdated_entry_fields sp d x ≡ []))
      × ((j : Text)
          → (id == j) ≡ false
          → lookup text_keys j (r.store s') ≡ lookup text_keys j (r.store s))

  registers :
      (id : Text) (d : Entry sp) (o : Option (Entry sp))
      → d.id ≡ id
      → lookup text_keys id (r.store s) ≡ o
      → Registers (create_or_update sp k t cl digest config o d) id d
  unfolding outdated_entry_fields
  registers id d none same h =
      let (s', a, b) = r.creates d s in
      (
        s',
        rw a refl,
        (
          d,
          ap (lookup text_keys id) b
              ∙ lookup-insert text_keys d.id id d (r.store s)
              ∙ rw (same, eq_refl id) refl,
          outdated_entry_fields_refl sp d,
        ),
        λ j q.
            ap (lookup text_keys j) b
            ∙ lookup-insert text_keys d.id j d (r.store s)
            ∙ rw (same, q) refl,
      )
  registers id d (some x) same h =
      elim (Bool-cases (ltb 0 (length (outdated_entry_fields sp d x)))) [
        | inl old ↦
            let own : x.id ≡ id = w.own_id id x h in
            let (s', a, b) = r.updates (record d { id = x.id }) s in
            (
              s',
              rw (old, a) refl,
              (
                record d { id = x.id },
                ap (lookup text_keys id) b
                    ∙ lookup-insert text_keys x.id id (record d { id = x.id }) (r.store s)
                    ∙ rw (own, eq_refl id) refl,
                outdated_entry_fields_refl sp d,
              ),
              λ j q.
                  ap (lookup text_keys j) b
                  ∙ lookup-insert text_keys x.id j (record d { id = x.id }) (r.store s)
                  ∙ rw (own, q) refl,
            )
        | inr fresh ↦
            (s, rw fresh refl, (x, h, not_longer (outdated_entry_fields sp d x) fresh), λ j q. refl)
      ]

  -- In a store keyed by the entries' IDs in which every call takes effect, if RenderEntry returns an
  -- entry, reconcilePodEntry returns, an entry with no outdated field stands under the declared ID,
  -- and nothing changes under any other ID.
  pub reconcile_pod_entry-Registers :
      (pod : Pod) (node : Node) (identity : WorkloadIdentity k) (cluster : EksClusterRegistry)
      (e : Entry sp)
      → render_entry sp k t identity cluster pod node config.trust_domain ≡ ok e
      → let id = declared_id sp digest config.entry_id_prefix e in
        Registers
          (reconcile_pod_entry sp k t cl digest config pod node identity cluster)
          id
          (record e { id = id })
  unfolding reconcile_pod_entry
  reconcile_pod_entry-Registers pod node identity cluster e rendered =
      let id = declared_id sp digest config.entry_id_prefix e in
      let (s', a, b, c) =
        registers id (record e { id = id }) (lookup text_keys id (r.store s)) refl refl in
      (s', rw (rendered, r.lists s, find_entry-lookup sp id (r.store s) w) a, b, c)
