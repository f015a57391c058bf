-- ===== src/Tests/Services.antt =====
-- The theorems about the SPIRE client, and the round of changes, at sample services.
use spire_eks_workload_regis.Prelude.{◌≡◌, refl, [], ◌∷◌, map, some, ok, arith, traverse, drop}
use spire_eks_workload_regis.Prelude.Maps.{Map, insert}
use spire_eks_workload_regis.Text.{Text, bytes, has_prefix, ◌==◌, eq_iff}
use spire_eks_workload_regis.SpireApi.{Entry, status_from_api}
use spire_eks_workload_regis.SpireApi.Convert.{
  ApiEntry, to_api_entry, from_api_entry, entries_to_api, from_api_entry-to_api_entry,
}
use spire_eks_workload_regis.SpireApi.Batch.{batch_create_entries}
use spire_eks_workload_regis.SpireApi.Batch.Itemwise.{each, batch_create_entries-each}
use spire_eks_workload_regis.SpireApi.Listing.{list_entries, Pages, all_pages, list_entries-all}
use spire_eks_workload_regis.SpireEntry.State.{
  EntriesState, new_entries_state_with_prefix, add_current, add_declared,
}
use spire_eks_workload_regis.Controller.Targeted.{Config}
use spire_eks_workload_regis.Tests.Samples.{
  spiffe, spiffe_laws, digest, service, create_one, status_ok, entry_with,
}

abbrev sample : Entry spiffe
sample = record (entry_with (bytes "blue")) { id = bytes "e1" }

abbrev other : Entry spiffe
other = record (entry_with (bytes "blue")) { id = bytes "e2"; spiffe_id = bytes "a.org/api" }

abbrev messages : Map Text ApiEntry
messages = (bytes "e1", to_api_entry spiffe sample) ∷ []

parsed : (t : Text) → spiffe.from_string (bytes "spiffe://a.org/web") ≡ ok (bytes "a.org/web")
unfolding has_prefix drop
parsed t = refl

parsed_parent :
    spiffe.from_string (
      bytes
        "spiffe://{{ .TrustDomain }}/spire/agent/k8s_psat/{{ .ClusterName }}/{{ .NodeMeta.UID }}web")
    ≡ ok sample.parent_id
unfolding has_prefix drop
parsed_parent = refl

batch_create_entries-each_example :
    batch_create_entries spiffe service (sample ∷ other ∷ []) []
    ≡ some (
      ok tt,
      (
        map
            (λ r. status_from_api r.status)
            (each create_one (entries_to_api spiffe (sample ∷ other ∷ [])) []).0,
        (each create_one (entries_to_api spiffe (sample ∷ other ∷ [])) []).1,
      ),
    )
batch_create_entries-each_example =
    batch_create_entries-each spiffe service create_one (λ b s. refl) (sample ∷ other ∷ []) []

converted :
    traverse
      (from_api_entry spiffe)
      (all_pages spiffe service ((to_api_entry spiffe sample ∷ []) ∷ []))
    ≡ ok (sample ∷ [])
unfolding traverse
converted = rw from_api_entry-to_api_entry_copy refl
  where
    from_api_entry-to_api_entry_copy :
        from_api_entry spiffe (to_api_entry spiffe sample) ≡ ok sample
    from_api_entry-to_api_entry_copy =
        from_api_entry-to_api_entry spiffe spiffe_laws sample (bytes "spiffe://a.org/web")
          (bytes
            "spiffe://{{ .TrustDomain }}/spire/agent/k8s_psat/{{ .ClusterName }}/{{ .NodeMeta.UID }}web")
          (parsed []) parsed_parent

list_entries-all_example :
    list_entries spiffe service 1 messages ≡ some (ok (sample ∷ []), messages)
list_entries-all_example =
    list_entries-all spiffe service 1
      (Pages.last_page {page = to_api_entry spiffe sample ∷ []} refl) (omega arith) converted

answer : service.batch_create_entry (to_api_entry spiffe sample ∷ []) [] ≡ (
  ok (record { status = some status_ok; entry = some (to_api_entry spiffe sample) } ∷ []),
  insert (record { eq = ◌==◌; eq_iff = eq_iff }) (bytes "e1") (to_api_entry spiffe sample) [],
)
unfolding each to_api_entry
answer = refl

abbrev config : Config
config = record {
  trust_domain = bytes "a.org";
  ignore_namespaces = [];
  entry_id_prefix = bytes "r-";
}

abbrev state : EntriesState spiffe
state =
    add_declared spiffe digest
      (add_current spiffe (new_entries_state_with_prefix spiffe (bytes "r-"))
        (record sample { id = bytes "r-old" }))
      other
