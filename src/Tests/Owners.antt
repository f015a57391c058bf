-- ===== src/Tests/Owners.antt =====
-- Rendering, ownership and the targeted deletions at sample objects.
use spire_eks_workload_regis.Prelude.{
  drop, traverse, ◌≡◌, ◌≢◌, ◌↔◌, refl, inl, true, false, [], ◌∷◌, ok, some, arith,
}
use spire_eks_workload_regis.Prelude.Maps.{Map, lookup, insert}
use spire_eks_workload_regis.Text.{Text, bytes, ◌==◌, eq_refl, has_prefix}
use spire_eks_workload_regis.Text.Split.{split_two}
use spire_eks_workload_regis.Api.{text_keys}
use spire_eks_workload_regis.SpireApi.{Entry}
use spire_eks_workload_regis.SpireApi.Convert.{to_api_entry, from_api_entry}
use spire_eks_workload_regis.SpireEntry.Render
use spire_eks_workload_regis.SpireEntry.Render.{render_entry}
use spire_eks_workload_regis.SpireEntry.Render.Facts.{
  IsRendered, render_entry-IsRendered, from_api_entry-render_entry,
}
use spire_eks_workload_regis.SpireEntry.State.{
  declared_id, new_entries_state_with_prefix, add_current,
}
use spire_eks_workload_regis.SpireEntry.State.Invariant.{IsKeyed, Built, Built-IsWellFormed}
use spire_eks_workload_regis.Controller.Ownership.{
  cluster_owns, owner_key_in, entry_belongs_to_identity, entry_belongs_to_cluster,
}
use spire_eks_workload_regis.Controller.Ownership.Targeted.{
  entry_belongs_to_identity-hinted, entry_belongs_to_cluster-own,
}
use spire_eks_workload_regis.Controller.Ownership.Deletion.{
  cluster_owns_iff, cluster_owns-hinted, owner_key_in-prefix,
}
use spire_eks_workload_regis.Controller.Targeted.{Config}
use spire_eks_workload_regis.Controller.Targeted.{reconcile_pod_entry}
use spire_eks_workload_regis.Controller.Targeted.Registration.{
  Registers, reconcile_pod_entry-Registers,
}
use spire_eks_workload_regis.Tests.Samples.{
  spiffe, spiffe_laws, kube, templates, digest, client, client_reliable, identity_with, cluster,
  pod, node, entry_with,
}

abbrev plain_entry : Entry spiffe
plain_entry = entry_with (bytes "workloadidentity:foobar:eu;owner:WorkloadIdentity/foobar")

abbrev hinted_entry : Entry spiffe
hinted_entry = entry_with (bytes "blue;owner:WorkloadIdentity/foobar")

rendered_plain :
    render_entry spiffe kube templates
      (identity_with (bytes "foobar") [])
      cluster
      pod
      node
      (bytes "a.org")
    ≡ ok plain_entry
unfolding Render.render_entry Render.parent_id_template Render.default_parent_id_template
    Render.render_selectors Render.add_parts Render.render_dns_name Render.render_hint
    Render.owner_info Render.pod_selector has_prefix split_two ◌==◌ drop traverse
rendered_plain = refl

rendered_hinted :
    render_entry spiffe kube templates
      (identity_with (bytes "foobar") (bytes "blue"))
      cluster
      pod
      node
      (bytes "a.org")
    ≡ ok hinted_entry
unfolding Render.render_entry Render.parent_id_template Render.default_parent_id_template
    Render.render_selectors Render.add_parts Render.render_dns_name Render.render_hint
    Render.owner_info Render.pod_selector has_prefix split_two ◌==◌ drop traverse
rendered_hinted = refl

blue_set : bytes "blue" ≢ []
blue_set e = cc e

render_entry-IsRendered_example :
    IsRendered spiffe kube templates (identity_with (bytes "foobar") []) cluster pod plain_entry
render_entry-IsRendered_example =
    render_entry-IsRendered spiffe kube templates (identity_with (bytes "foobar") []) cluster pod
      node (bytes "a.org") plain_entry rendered_plain

from_api_entry-render_entry_example :
    from_api_entry spiffe (to_api_entry spiffe plain_entry) ≡ ok plain_entry
from_api_entry-render_entry_example =
    from_api_entry-render_entry spiffe kube templates (identity_with (bytes "foobar") []) cluster
      pod node (bytes "a.org") spiffe_laws plain_entry rendered_plain

entry_belongs_to_identity-hinted_example :
    entry_belongs_to_identity spiffe kube hinted_entry
      (identity_with (bytes "foobar") (bytes "blue"))
    ≡ false
entry_belongs_to_identity-hinted_example =
    entry_belongs_to_identity-hinted spiffe kube templates
      (identity_with (bytes "foobar") (bytes "blue")) cluster pod node (bytes "a.org") hinted_entry
      rendered_hinted blue_set

entry_belongs_to_cluster-own_example : entry_belongs_to_cluster spiffe plain_entry cluster ≡ false
entry_belongs_to_cluster-own_example =
    entry_belongs_to_cluster-own spiffe kube templates (identity_with (bytes "foobar") []) cluster
      pod node (bytes "a.org") plain_entry rendered_plain refl (omega arith) (omega arith)

cluster_owns_iff_example :
    (cluster_owns plain_entry.hint (bytes "eu") ≡ true) ↔ (bytes "eu" ≡ bytes "eu")
cluster_owns_iff_example =
    cluster_owns_iff spiffe kube templates (identity_with (bytes "foobar") []) cluster pod node
      (bytes "a.org") plain_entry rendered_plain refl (omega arith) (omega arith) (omega arith)
      (bytes "eu")

cluster_owns-hinted_example : cluster_owns hinted_entry.hint (bytes "eu") ≡ false
cluster_owns-hinted_example =
    cluster_owns-hinted spiffe kube templates (identity_with (bytes "foobar") (bytes "blue"))
      cluster pod node (bytes "a.org") hinted_entry rendered_hinted blue_set (inl (omega arith))
      (omega arith) (omega arith) (bytes "eu") (omega arith)

owner_key_in-prefix_example :
    owner_key_in plain_entry.hint (bytes "WorkloadIdentity") (bytes "foo") ≡ true
owner_key_in-prefix_example =
    owner_key_in-prefix spiffe kube templates (identity_with (bytes "foobar") []) cluster pod node
      (bytes "a.org") plain_entry rendered_plain (bytes "foo") (bytes "bar") refl

-- A store with the declared entry.
abbrev config : Config
config = record {
  trust_domain = bytes "a.org";
  ignore_namespaces = [];
  entry_id_prefix = bytes "r-";
}

abbrev declared_entry : Entry spiffe
declared_entry = record plain_entry { id = declared_id spiffe digest (bytes "r-") plain_entry }

abbrev store : Map Text (Entry spiffe)
store = (declared_entry.id, declared_entry) ∷ []

store-IsKeyed : IsKeyed spiffe store
unfolding new_entries_state_with_prefix add_current insert
store-IsKeyed =
    (Built-IsWellFormed spiffe {digest = digest}
      (Built.current declared_entry (Built.new (bytes "r-")))).current

stored : lookup text_keys declared_entry.id store ≡ some declared_entry
unfolding lookup
stored = rw (eq_refl declared_entry.id) refl

reconcile_pod_entry-Registers_example :
    Registers spiffe kube templates client digest config client_reliable store store-IsKeyed
      (reconcile_pod_entry spiffe kube templates client digest config pod node
        (identity_with (bytes "foobar") [])
        cluster)
      declared_entry.id
      declared_entry
reconcile_pod_entry-Registers_example =
    reconcile_pod_entry-Registers spiffe kube templates client digest config client_reliable store
      store-IsKeyed pod node (identity_with (bytes "foobar") []) cluster plain_entry rendered_plain
