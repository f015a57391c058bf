-- ===== src/Controller/World/Whole.antt =====
-- What a whole round makes of SPIRE and of the connections, and what it leaves alone when a listing fails.
use spire_eks_workload_regis.Prelude.{
  ◌≡◌, ◌⊎◌, inl, inr, refl, ap, ◌∙◌, true, false, List, Option, none, Result, Error, ok, err, Bool,
  if◌then◌else◌,
}
use spire_eks_workload_regis.Prelude.Maps.{Map, lookup}
use spire_eks_workload_regis.Text.{Text}
use spire_eks_workload_regis.Api.{Kube, WorkloadIdentity, EksClusterRegistry, text_keys}
use spire_eks_workload_regis.SpireApi.{Spiffe, Entry, Client}
use spire_eks_workload_regis.SpireEntry.State.{EntriesState}
use spire_eks_workload_regis.SpireEntry.State.Invariant.{IsKeyed}
use spire_eks_workload_regis.SpireEntry.State.Rounds.{reconciled}
use spire_eks_workload_regis.SpireEntry.Render.{Templates}
use spire_eks_workload_regis.Aws.{Sdk}
use spire_eks_workload_regis.Cluster.Manager.{Manager, get_cluster_connection, get_all_connections}
use spire_eks_workload_regis.Cluster.Manager.Invariant.{IsWellFormed}
use spire_eks_workload_regis.Controller.Reliable.{Reliable}
use spire_eks_workload_regis.Controller.Targeted.{Config}
use spire_eks_workload_regis.Controller.Rounds.{
  process_clusters, reconcile_entries, apply_entry_changes,
}
use spire_eks_workload_regis.Controller.Rounds.Managed.{is_managed, add_all}
use spire_eks_workload_regis.Controller.Rounds.Whole.{start, reconcile_entries-reconciled}
use spire_eks_workload_regis.Controller.World.{
  Clusters, KubeApi, World, seen_all, sync_clusters, update_statuses, reconcile_identities,
  reconcile_all,
}
use spire_eks_workload_regis.Controller.World.Sync.{Describes, enabled_in, sync_clusters-lookup}
use spire_eks_workload_regis.Controller.World.Statuses.{IsQuiet, update_statuses-Spares}

module _ (sp : Spiffe) (k : Kube) (t : Templates) (cl : Client sp) (digest : Text → Text)
    (config : Config) (sdk : Sdk) (api : KubeApi k) (shown : Clusters sdk) where
  -- From a well-formed manager, and if no GetClusterClient panics, a round in which Kubernetes does not
  -- list the clusters, or lists them but not the identities, returns and leaves SPIRE as it was.
  pub reconcile_all_unlisted :
      (w : World sp k cl sdk api) (clusters : List EksClusterRegistry) (e : Error)
      → IsWellFormed sdk w.manager
      → Describes sdk shown clusters
      → ((api.list_clusters w.kube).0 ≡ err e)
        ⊎ (((api.list_clusters w.kube).0 ≡ ok clusters)
            × ((api.list_identities (api.list_clusters w.kube).1).0 ≡ err e))
      → ((reconcile_all sp k t cl digest config sdk api shown w).0 ≡ ok tt)
        × ((reconcile_all sp k t cl digest config sdk api shown w).1.spire ≡ w.spire)
  unfolding reconcile_all
  reconcile_all_unlisted w clusters e well describes (inl h) = rw h (refl, refl)
  reconcile_all_unlisted w clusters e well describes (inr (h, i)) =
      let (m', synced, well', m1, _, connections) =
        sync_clusters-lookup sdk shown clusters w.manager well describes in
      rw (h, synced, i) (refl, refl)

  -- What a round leaves under an ID.
  abbrev pub outcome :
      Reliable sp cl → EntriesState sp → Map Text (Entry sp) → Text → Option (Entry sp)
  outcome r state m id =
      if is_managed config.entry_id_prefix id
      then reconciled sp (lookup text_keys id state.declared) (lookup text_keys id m)
      else lookup text_keys id m

  reconcile_identities-reconciled :
      (r : Reliable sp cl) (q : IsQuiet sp k t cl digest config sdk api shown)
      (w : World sp k cl sdk api) (identities : List (WorkloadIdentity k))
      (clusters : List EksClusterRegistry) (state : EntriesState sp)
      → IsKeyed sp (r.store w.spire)
      → process_clusters sp k t digest config
          (seen_all sdk shown (get_all_connections sdk w.manager))
          identities
          (add_all sp k t digest config (r.store w.spire) (start sp k t digest config))
        ≡ ok state
      → (w' : World sp k cl sdk api) × (reconcile_identities sp k t cl digest config sdk api shown
            identities clusters w
          ≡ (ok tt, w'))
        × (w'.manager ≡ w.manager)
        × ((id : Text)
            → lookup text_keys id (r.store w'.spire) ≡ outcome r state (r.store w.spire) id)
  unfolding reconcile_identities reconcile_entries
  reconcile_identities-reconciled r q w identities clusters state keyed processed =
      let conns = seen_all sdk shown (get_all_connections sdk w.manager) in
      let (s', a, b) =
        reconcile_entries-reconciled sp k t digest config cl r w.spire conns identities state keyed
          processed in
      let applied : apply_entry_changes sp k t digest config cl state w.spire ≡ (ok tt, s') =
        rw (r.lists w.spire, processed) at a in
      let done : World sp k cl sdk api = record w { spire = s' } in
      let (x, y, z) =
        update_statuses-Spares sp k t cl digest config sdk api shown q identities clusters state
          done in
      (
        (update_statuses sp k t cl digest config sdk api shown identities clusters state done).1,
        rw (r.lists w.spire, processed, applied)
            (ap
              (λ (o : Result (Unit {0})). (
                o,
                (update_statuses sp k t cl digest config sdk api shown identities clusters state
                    done).1,
              ))
              x),
        z,
        λ id. ap (λ (s : cl.State). lookup text_keys id (r.store s)) y ∙ b id,
      )

  only : {A : Type 0} (b : Bool) (x y z : A) → x ≡ (if b then y else z) → x ≡ (if b then x else z)
  only true x y z h = refl
  only false x y z h = h

  -- A whole round, over a SPIRE in which every call takes effect and libraries that do not panic, from a
  -- well-formed manager, if Kubernetes lists the clusters and identities and the clusters' processing
  -- returns a state: it returns, the manager is well-formed and connected to no cluster but enabled
  -- listed ones, and SPIRE has under each ID of this controller what the abstract reconciliation of
  -- declared and current entries says, and under any other ID what it had.
  pub reconcile_all-reconciled :
      (r : Reliable sp cl) (w : World sp k cl sdk api) (clusters : List EksClusterRegistry)
      (identities : List (WorkloadIdentity k)) (state : EntriesState sp)
      → IsQuiet sp k t cl digest config sdk api shown
      → IsKeyed sp (r.store w.spire)
      → IsWellFormed sdk w.manager
      → Describes sdk shown clusters
      → (api.list_clusters w.kube).0 ≡ ok clusters
      → (api.list_identities (api.list_clusters w.kube).1).0 ≡ ok identities
      → process_clusters sp k t digest config
          (seen_all sdk shown
            (get_all_connections sdk (sync_clusters sdk shown clusters w.manager).1))
          identities
          (add_all sp k t digest config (r.store w.spire) (start sp k t digest config))
        ≡ ok state
      → (w' : World sp k cl sdk api) × (reconcile_all sp k t cl digest config sdk api shown w
          ≡ (ok tt, w'))
        × IsWellFormed sdk w'.manager
        × ((j : Text)
            → get_cluster_connection sdk j w'.manager ≡ (
                if enabled_in sdk shown j clusters
                then get_cluster_connection sdk j w'.manager
                else none))
        × ((id : Text)
            → lookup text_keys id (r.store w'.spire) ≡ outcome r state (r.store w.spire) id)
  unfolding reconcile_all
  reconcile_all-reconciled r w clusters identities state q keyed well describes cs is processed =
      let (m', synced, well', m1, _, connections) =
        sync_clusters-lookup sdk shown clusters w.manager well describes in
      let ends : (sync_clusters sdk shown clusters w.manager).1 ≡ m' =
        ap (λ (p : Result (Unit {0}) × Manager sdk). p.1) synced in
      let w1 : World sp k cl sdk api = record w {
        manager = m';
        kube = (api.list_identities (api.list_clusters w.kube).1).1;
      } in
      let (w', a, same, left) =
        reconcile_identities-reconciled r q w1 identities clusters state keyed
          (rw ends at processed) in
      (
        w',
        rw (cs, synced, is) a,
        rw same well',
        λ j. rw same (only (enabled_in sdk shown j clusters) _ _ _ (connections j)),
        left,
      )
