-- ===== src/Controller/Rounds/Declared.antt =====
-- What a round adds to the entries state: declared entries only, under this controller's IDs.
use spire_eks_workload_regis.Prelude.{
  ◌≡◌, refl, Bool, true, false, not, List, [], ◌∷◌, Result, ok, err, panic, if◌then◌else◌, Ensures,
  Ensures-bind, Ensures-ok,
}
use spire_eks_workload_regis.Text.{Text}
use spire_eks_workload_regis.Api.{Kube, WorkloadIdentity, Pod}
use spire_eks_workload_regis.SpireApi.{Spiffe, Entry}
use spire_eks_workload_regis.SpireEntry.State.{EntriesState, add_declared}
use spire_eks_workload_regis.SpireEntry.State.Invariant.{Built}
use spire_eks_workload_regis.SpireEntry.Render.{Templates, render_entry}
use spire_eks_workload_regis.Controller.Select.{
  Connection, is_ready, is_namespace_ignored, should_process_identity, get_pods_from_informer,
}
use spire_eks_workload_regis.Controller.Targeted.{Config}
use spire_eks_workload_regis.Controller.Rounds.{
  or_skip, process_pod, process_pods, process_workload_identity, process_cluster, process_clusters,
}

module _ (sp : Spiffe) (k : Kube) (t : Templates) (digest : Text → Text) (config : Config) where
  -- The states that come of a state by AddDeclared alone.
  pub data Declares (a : EntriesState sp) : EntriesState sp → Type 0 where
    none_yet : Declares a a
    one_more :
        {b : EntriesState sp} (e : Entry sp)
        → Declares a b
        → Declares a (add_declared sp digest b e)

  or_skip-Ensures :
      {A : Type 0} {a b : EntriesState sp} (r : Result A) (f : A → Result (EntriesState sp))
      → Declares a b
      → ((x : A) → Ensures (Declares a) (f x))
      → Ensures (Declares a) (or_skip sp k t digest config r b f)
  or_skip-Ensures (ok x) f d h = h x
  or_skip-Ensures {b = b} (err e) f d h = Ensures-ok b d
  or_skip-Ensures panic f d h = record { at = λ b q. cc q }

  either_way :
      {a b : EntriesState sp} (c : Bool) (r : Result (EntriesState sp))
      → Declares a b
      → Ensures (Declares a) r
      → Ensures (Declares a) (if c then ok b else r)
  either_way {b = b} true r d h = Ensures-ok b d
  either_way false r d h = h

  process_pod-Declares :
      {a b : EntriesState sp} (identity : WorkloadIdentity k) (conn : Connection) (pod : Pod)
      → Declares a b
      → Ensures (Declares a) (process_pod sp k t digest config identity conn b pod)
  unfolding process_pod
  process_pod-Declares identity conn pod d = either_way (not (is_ready pod)) _ d (
      or_skip-Ensures (conn.get_node pod.spec.node_name) _ d λ node.
        or_skip-Ensures (render_entry sp k t identity conn.cluster pod node config.trust_domain) _ d
          λ e. Ensures-ok _ (one_more e d))

  process_pods-Declares :
      {a : EntriesState sp} (identity : WorkloadIdentity k) (conn : Connection) (pods : List Pod)
      {b : EntriesState sp}
      → Declares a b
      → Ensures (Declares a) (process_pods sp k t digest config identity conn pods b)
  unfolding process_pods
  process_pods-Declares identity conn [] {b} d = Ensures-ok b d
  process_pods-Declares identity conn (pod ∷ pods) {b} d =
      Ensures-bind (process_pod sp k t digest config identity conn b pod) _ λ b' q.
        process_pods-Declares identity conn pods
          ((process_pod-Declares identity conn pod d).at b' q)

  process_workload_identity-Declares :
      {a b : EntriesState sp} (identity : WorkloadIdentity k) (conn : Connection)
      → Declares a b
      → Ensures (Declares a) (process_workload_identity sp k t digest config identity conn b)
  unfolding process_workload_identity
  process_workload_identity-Declares identity conn d =
      either_way (is_namespace_ignored config.ignore_namespaces identity.spec.namespace) _ d (
        or_skip-Ensures (get_pods_from_informer k conn identity) _ d
          λ pods. process_pods-Declares identity conn pods d)

  skip_or :
      {a : EntriesState sp} (c : Bool) (r r' : Result (EntriesState sp))
      → Ensures (Declares a) r
      → Ensures (Declares a) r'
      → Ensures (Declares a) (if c then r else r')
  skip_or true r r' h h' = h
  skip_or false r r' h h' = h'

  process_cluster-Declares :
      {a : EntriesState sp} (conn : Connection) (identities : List (WorkloadIdentity k))
      {b : EntriesState sp}
      → Declares a b
      → Ensures (Declares a) (process_cluster sp k t digest config conn identities b)
  unfolding process_cluster
  process_cluster-Declares conn [] {b} d = Ensures-ok b d
  process_cluster-Declares conn (identity ∷ identities) {b} d =
      skip_or (not (should_process_identity k identity conn.cluster)) _ _
        (process_cluster-Declares conn identities d)
        (Ensures-bind (process_workload_identity sp k t digest config identity conn b) _ λ b' q.
          process_cluster-Declares conn identities
            ((process_workload_identity-Declares identity conn d).at b' q))

  pub process_clusters-Declares :
      {a : EntriesState sp} (conns : List Connection) (identities : List (WorkloadIdentity k))
      {b : EntriesState sp}
      → Declares a b
      → Ensures (Declares a) (process_clusters sp k t digest config conns identities b)
  unfolding process_clusters
  process_clusters-Declares [] identities {b} d = Ensures-ok b d
  process_clusters-Declares (conn ∷ conns) identities {b} d =
      Ensures-bind (process_cluster sp k t digest config conn identities b) _ λ b' q.
        process_clusters-Declares conns identities
          ((process_cluster-Declares conn identities d).at b' q)

  -- What declaring leaves as it was.
  pub Declares-Built :
      {a b : EntriesState sp} → Declares a b → Built sp digest a → Built sp digest b
  Declares-Built none_yet h = h
  Declares-Built (one_more e d) h = Built.declared e (Declares-Built d h)

  pub Declares-current : {a b : EntriesState sp} → Declares a b → b.current ≡ a.current
  unfolding add_declared
  Declares-current none_yet = refl
  Declares-current (one_more e d) = Declares-current d

  pub Declares-prefix : {a b : EntriesState sp} → Declares a b → b.entry_prefix ≡ a.entry_prefix
  unfolding add_declared
  Declares-prefix none_yet = refl
  Declares-prefix (one_more e d) = Declares-prefix d
