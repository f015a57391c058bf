-- ===== src/Controller/Rounds.antt =====
-- internal/controller/main_reconciler.go: the part of a reconcile round that turns what SPIRE has
-- and what the connected clusters run into changes, and applies them; and the status of a cluster.
pub mod Store
pub mod Declared
pub mod Managed
pub mod Conditions
pub mod Whole
use spire_eks_workload_regis.Prelude.{
  ℕ, Bool, not, ◌&&◌, List, [], ◌∷◌, Result, ok, err, panic, if◌then◌else◌, ◌>>=◌ as then_result,
  length, keep, ◌+◌,
}
use spire_eks_workload_regis.Prelude.Exec.{
  Exec, lift, ignoring, unless_error, for_each, ◌>>=◌, ◌>>◌,
}
use spire_eks_workload_regis.Text.{Text, bytes, ◌==◌}
use spire_eks_workload_regis.Api.{
  Kube, WorkloadIdentity, WorkloadIdentityStats, EksClusterRegistry, Condition, Pod,
}
use spire_eks_workload_regis.SpireApi.{Spiffe, Entry, Client}
use spire_eks_workload_regis.SpireEntry.State.{
  EntriesState, new_entries_state_with_prefix, add_current, add_declared, get_changes,
}
use spire_eks_workload_regis.SpireEntry.Render.{Templates, render_entry}
use spire_eks_workload_regis.Controller.Select.{
  Connection, is_ready, is_namespace_ignored, should_process_entry, should_process_identity,
  get_pods_from_informer,
}
use spire_eks_workload_regis.Controller.Targeted.{Config}

module _ (sp : Spiffe) (k : Kube) (t : Templates) (digest : Text → Text) (config : Config) where
  -- On an error the caller goes on with the state that it has.
  abbrev pub or_skip :
      {A : Type 0}
      → Result A
      → EntriesState sp
      → (A → Result (EntriesState sp))
      → Result (EntriesState sp)
  or_skip (ok a) state f = f a
  or_skip (err e) state f = ok state
  or_skip panic state f = panic

  -- One round of the loop of processWorkloadIdentity.
  unfoldable pub process_pod :
      WorkloadIdentity k → Connection → EntriesState sp → Pod → Result (EntriesState sp)
  process_pod identity conn state pod =
      if not (is_ready pod)
      then ok state
      else or_skip (conn.get_node pod.spec.node_name) state λ node.
        or_skip (render_entry sp k t identity conn.cluster pod node config.trust_domain) state
          λ entry. ok (add_declared sp digest state entry)

  unfoldable pub process_pods :
      WorkloadIdentity k → Connection → List Pod → EntriesState sp → Result (EntriesState sp)
  process_pods identity conn [] state = ok state
  process_pods identity conn (pod ∷ pods) state =
      then_result (process_pod identity conn state pod)
        λ state'. process_pods identity conn pods state'

  -- processWorkloadIdentity
  unfoldable pub process_workload_identity :
      WorkloadIdentity k → Connection → EntriesState sp → Result (EntriesState sp)
  process_workload_identity identity conn state =
      if is_namespace_ignored config.ignore_namespaces identity.spec.namespace
      then ok state
      else or_skip (get_pods_from_informer k conn identity) state
          λ pods. process_pods identity conn pods state

  -- processCluster
  unfoldable pub process_cluster :
      Connection → List (WorkloadIdentity k) → EntriesState sp → Result (EntriesState sp)
  process_cluster conn [] state = ok state
  process_cluster conn (identity ∷ identities) state =
      if not (should_process_identity k identity conn.cluster)
      then process_cluster conn identities state
      else then_result (process_workload_identity identity conn state)
          λ state'. process_cluster conn identities state'

  unfoldable pub process_clusters :
      List Connection → List (WorkloadIdentity k) → EntriesState sp → Result (EntriesState sp)
  process_clusters [] identities state = ok state
  process_clusters (conn ∷ conns) identities state =
      then_result (process_cluster conn identities state)
        λ state'. process_clusters conns identities state'

  -- The loop over SPIRE's entries, which leaves those of other controllers out.
  unfoldable pub add_currents : List (Entry sp) → EntriesState sp → EntriesState sp
  add_currents [] state = state
  add_currents (e ∷ l) state =
      add_currents l
        (if should_process_entry sp config.entry_id_prefix e then add_current sp state e else state)

  module _ (cl : Client sp) where
    -- applyEntryChanges
    unfoldable pub apply_entry_changes : EntriesState sp → Exec cl.State (Unit {0})
    apply_entry_changes state =
        let changes = get_changes sp state in
        for_each (λ (e : Entry sp). ignoring (cl.delete_entry e.id)) changes.to_delete
        >> for_each (λ e. ignoring (cl.create_entry e)) changes.to_create
        >> for_each (λ e. ignoring (cl.update_entry e)) changes.to_update

    -- reconcileAll, from ListEntries to applyEntryChanges, of the connections and identities found
    unfoldable pub reconcile_entries :
        List Connection → List (WorkloadIdentity k) → Exec cl.State (Unit {0})
    reconcile_entries conns identities = unless_error cl.list_entries λ entries.
        lift (
          process_clusters conns identities
            (add_currents entries (new_entries_state_with_prefix sp config.entry_id_prefix)))
        >>= apply_entry_changes

  -- calculateClusterEntries
  unfoldable pub calculate_cluster_entries : EntriesState sp → ℕ
  calculate_cluster_entries state =
      let changes = get_changes sp state in length changes.to_create + length changes.to_update

  -- The pods of an identity that calculateIdentityStats counts in one connection.
  abbrev pub ready_count : Result (List Pod) → Result ℕ
  ready_count (ok pods) = ok (length (keep is_ready pods))
  ready_count (err e) = ok 0
  ready_count panic = panic

  unfoldable pub count_pods : WorkloadIdentity k → List Connection → Result ℕ
  count_pods identity [] = ok 0
  count_pods identity (conn ∷ conns) =
      then_result
        (if should_process_identity k identity conn.cluster
          then ready_count (get_pods_from_informer k conn identity)
          else ok 0)
        λ n. then_result (count_pods identity conns) λ m. ok (n + m)

  -- calculateIdentityStats
  unfoldable pub calculate_identity_stats :
      WorkloadIdentity k
      → List EksClusterRegistry
      → List Connection
      → EntriesState sp
      → Result WorkloadIdentityStats
  calculate_identity_stats identity clusters conns state =
      then_result (count_pods identity conns) λ pods. ok (record {
        clusters_targeted = length (
            keep
              (λ (c : EksClusterRegistry). c.spec.enabled && should_process_identity k identity c)
              clusters);
        namespaces_found = 0;
        pods_selected = pods;
        entries_registered = calculate_cluster_entries state;
        entry_failures = 0;
      })

-- The Ready condition after an update.
unfoldable pub set_condition : Bool → ℕ → Condition → Condition
set_condition connected now c =
    if connected
    then record c {
      status = bytes "True";
      reason = bytes "Connected";
      message = bytes "Successfully connected to cluster";
      last_transition_time = now;
    }
    else record c {
      status = bytes "False";
      reason = bytes "NotConnected";
      message = bytes "Unable to connect to cluster";
      last_transition_time = now;
    }

-- updateClusterConditions: the first Ready condition, or a new one at the end
unfoldable pub update_conditions : Bool → ℕ → List Condition → List Condition
update_conditions connected now [] =
    set_condition connected now (record {
      type = bytes "Ready";
      status = [];
      reason = [];
      message = [];
      last_transition_time = 0;
    })
    ∷ []
update_conditions connected now (c ∷ cs) =
    let rest = update_conditions connected now cs in
    if c.type == bytes "Ready" then set_condition connected now c ∷ cs else c ∷ rest
