-- ===== src/Tests/Cycle.antt =====
-- A whole round at a sample cluster.
use spire_eks_workload_regis.Prelude.{◌≡◌, refl, [], ◌∷◌, some, none, ok, drop, traverse}
use spire_eks_workload_regis.Prelude.Maps.{Map, lookup, insert}
use spire_eks_workload_regis.Text.{Text, bytes, ◌==◌, has_prefix}
use spire_eks_workload_regis.Text.Split.{split_two}
use spire_eks_workload_regis.Api.{KubeLaws, WorkloadIdentity, Pod}
use spire_eks_workload_regis.SpireApi.{Entry}
use spire_eks_workload_regis.SpireEntry.Render
use spire_eks_workload_regis.SpireEntry.State.{
  EntriesState, new_entries_state_with_prefix, add_current, add_declared,
}
use spire_eks_workload_regis.SpireEntry.State.Invariant.{IsKeyed, Built, Built-IsWellFormed}
use spire_eks_workload_regis.Controller.Select
use spire_eks_workload_regis.Controller.Select.{
  Connection, should_process_identity, get_pods_from_informer, get_matching_pods,
  find_matching_identities,
}
use spire_eks_workload_regis.Controller.Select.Unselected.{find_matching_identities-unselected}
use spire_eks_workload_regis.Prelude.{ap, Bool, true, false, ◌>>=◌}
use spire_eks_workload_regis.Controller.Targeted.{Config}
use spire_eks_workload_regis.Controller.Rounds
use spire_eks_workload_regis.Controller.Rounds.{process_clusters, reconcile_entries}
use spire_eks_workload_regis.Controller.Rounds.Managed.{add_all}
use spire_eks_workload_regis.Controller.Rounds.Whole.{start}
use spire_eks_workload_regis.Tests.Samples.{
  spiffe, kube, templates, digest, identity_with, cluster, pod, node, entry_with,
}

-- An identity that selects the pods with a label, and two pods, one of them without it.
abbrev pub selecting : WorkloadIdentity kube
selecting = record (identity_with (bytes "foobar") []) {
  spec = record (identity_with (bytes "foobar") []).spec {
    pod_selector = some (bytes "app", bytes "web");
  };
}

abbrev pub labelled : Pod
labelled = record pod { meta = record pod.meta { labels = (bytes "app", bytes "web") ∷ [] } }

abbrev pub conn : Connection
conn = record {
  cluster = cluster;
  objects = some pod ∷ none ∷ some labelled ∷ [];
  get_node = λ name. ok node;
}

abbrev pub config : Config
config = record {
  trust_domain = bytes "a.org";
  ignore_namespaces = [];
  entry_id_prefix = bytes "r-";
}

abbrev pub plain_entry : Entry spiffe
plain_entry = entry_with (bytes "workloadidentity:foobar:eu;owner:WorkloadIdentity/foobar")

-- A store with an entry that is not declared, and one of another controller.
abbrev pub stale : Entry spiffe
stale = record plain_entry { id = bytes "r-old" }

abbrev pub foreign : Entry spiffe
foreign = record plain_entry { id = bytes "other" }

abbrev pub store : Map Text (Entry spiffe)
store = (bytes "r-old", stale) ∷ (bytes "other", foreign) ∷ []

pub store-IsKeyed : IsKeyed spiffe store
unfolding new_entries_state_with_prefix add_current insert ◌==◌
store-IsKeyed =
    (Built-IsWellFormed spiffe {digest = digest}
      (Built.current foreign (Built.current stale (Built.new (bytes "r-"))))).current

abbrev pub before : EntriesState spiffe
before =
    add_all spiffe kube templates digest config store (start spiffe kube templates digest config)

pub processed :
    process_clusters spiffe kube templates digest config (conn ∷ []) (selecting ∷ []) before
    ≡ ok (add_declared spiffe digest before plain_entry)
unfolding Rounds.process_clusters Rounds.process_cluster Rounds.process_workload_identity
    Rounds.process_pods Rounds.process_pod Select.is_ready Select.is_namespace_ignored
    Select.should_process_identity Select.get_pods_from_informer Select.select_pods lookup
    Render.render_entry Render.parent_id_template Render.default_parent_id_template
    Render.render_selectors Render.add_parts Render.render_dns_name Render.render_hint
    Render.owner_info Render.pod_selector has_prefix split_two ◌==◌ drop traverse
processed = refl

kube_laws : KubeLaws kube
kube_laws = record {
  nil_selects_nothing = λ f h labels. nothing f h labels;
  nil_is_selector = ((λ labels. false), refl);
}
  where
    nothing :
        (f : Map Text Text → Bool)
        → kube.label_selector_as_selector none ≡ ok f
        → (labels : Map Text Text) → f labels ≡ false
    nothing f h labels =
        let same : f ≡ (λ l. false) = cc h in ap (λ (g : Map Text Text → Bool). g labels) same

identity_here : should_process_identity kube (identity_with (bytes "foobar") []) cluster ≡ true
unfolding should_process_identity
identity_here = refl

find_matching_identities-unselected_example :
    (get_pods_from_informer kube conn (identity_with (bytes "foobar") []) ≡ ok [])
    × (get_matching_pods kube conn (identity_with (bytes "foobar") []) ≡ ok [])
    × (find_matching_identities kube pod cluster
          (identity_with (bytes "foobar") [] ∷ selecting ∷ [])
        ≡ (find_matching_identities kube pod cluster (selecting ∷ []) >>= λ matching.
            ok (identity_with (bytes "foobar") [] ∷ matching)))
find_matching_identities-unselected_example =
    find_matching_identities-unselected kube kube_laws (identity_with (bytes "foobar") [])
      (selecting ∷ []) conn pod cluster refl refl identity_here
