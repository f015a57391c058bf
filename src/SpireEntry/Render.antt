-- ===== src/SpireEntry/Render.antt =====
-- internal/spireentry/entries.go: `RenderEntry`. Go's text/template is a parameter.
pub mod Facts
use spire_eks_workload_regis.Prelude.{
  ◌≡◌, Bool, not, List, [], ◌∷◌, ◌++◌, Result, ok, err, panic, wrap, traverse, if◌then◌else◌, ◌>>=◌,
}
use spire_eks_workload_regis.Text.{Text, bytes, ◌==◌}
use spire_eks_workload_regis.Text.Split.{split, split_two}
use spire_eks_workload_regis.Api.{
  Kube, WorkloadIdentity, EksClusterRegistry, ObjectMeta, PodSpec, NodeSpec, Pod, Node,
}
use spire_eks_workload_regis.SpireApi.{Spiffe, Entry, Selector}

-- type TemplateData
pub record TemplateData : Type 0 where
  pub trust_domain : Text
  pub cluster_name : Text
  pub application_name : Text
  pub account_id : Text
  pub region : Text
  pub instance_id : Text
  pub pod_meta : ObjectMeta
  pub pod_spec : PodSpec
  pub node_meta : ObjectMeta
  pub node_spec : NodeSpec

-- text/template: Parse and Execute
pub record Templates : Type 1 where
  pub Template : Type 0
  pub parse : Text → Result Template
  pub execute : Template → TemplateData → Result Text

-- template.Must
abbrev pub must {ℓ} : {A : Type ℓ} → Result A → Result A
must (ok a) = ok a
must (err e) = panic
must panic = panic

-- parts[len(parts)-1], or "" of no parts
unfoldable pub last_part : List Text → Text
last_part [] = []
last_part (p ∷ []) = p
last_part (p ∷ q ∷ ps) = last_part (q ∷ ps)

-- extractInstanceID
unfoldable pub extract_instance_id : Text → Text
extract_instance_id provider_id = last_part (split b'/' provider_id)

-- The owner mark of a hint, and the hint of a rendered entry.
unfoldable pub owner_info : Text → Text
owner_info name = bytes "owner:WorkloadIdentity/" ++ name

unfoldable pub render_hint : Text → Text → Text → Text
unfolding owner_info
render_hint hint identity cluster =
    if hint == []
    then bytes "workloadidentity:" ++ (identity ++ (b':' ∷ cluster ++ (b';' ∷ owner_info identity)))
    else hint ++ (b';' ∷ owner_info identity)

-- if len(parts) == 2 { selectors = append(selectors, ...) }
unfoldable pub add_parts : List Text → List Selector → List Selector
add_parts (type ∷ value ∷ []) rest = record { type = type; value = value } ∷ rest
add_parts _ rest = rest

-- {Type: "k8s", Value: "pod-uid:" + uid}
unfoldable pub pod_selector : Text → Selector
pod_selector uid = record { type = bytes "k8s"; value = bytes "pod-uid:" ++ uid }

module _ (sp : Spiffe) (k : Kube) (t : Templates) where
  -- defaultParentIDTemplate
  unfoldable pub default_parent_id_template : Result t.Template
  default_parent_id_template = must (
      t.parse (
        bytes
          "spiffe://{{ .TrustDomain }}/spire/agent/k8s_psat/{{ .ClusterName }}/{{ .NodeMeta.UID }}"))

  -- The loop over WorkloadSelectorTemplates.
  unfoldable pub render_selectors : TemplateData → List Text → Result (List Selector)
  render_selectors d [] = ok []
  render_selectors d (s ∷ ss) = wrap "failed to parse selector template" (t.parse s) >>= λ tmpl.
      wrap "failed to render selector" (t.execute tmpl d) >>= λ text.
      render_selectors d ss >>= λ rest. ok (add_parts (split_two b':' text) rest)

  -- One round of the loop over DNSNameTemplates.
  unfoldable pub render_dns_name : TemplateData → Text → Result Text
  render_dns_name d s = do
    tmpl ← wrap "failed to parse DNS name template" (t.parse s)
    wrap "failed to render DNS name" (t.execute tmpl d)

  -- data := &TemplateData{...}
  abbrev pub template_data :
      WorkloadIdentity k → EksClusterRegistry → Pod → Node → Text → TemplateData
  template_data identity cluster pod node trust_domain = record {
    trust_domain = trust_domain;
    cluster_name = cluster.meta.name;
    application_name = identity.spec.application_name;
    account_id = cluster.spec.account_id;
    region = cluster.spec.region;
    instance_id = extract_instance_id node.spec.provider_id;
    pod_meta = pod.meta;
    pod_spec = pod.spec;
    node_meta = node.meta;
    node_spec = node.spec;
  }

  -- parentIDTmpl: the identity's template, or the default one.
  unfoldable pub parent_id_template : WorkloadIdentity k → Result t.Template
  parent_id_template identity =
      if not (identity.spec.parent_id_template == [])
      then wrap "failed to parse parent ID template" (t.parse identity.spec.parent_id_template)
      else default_parent_id_template

  -- RenderEntry
  unfoldable pub render_entry :
      WorkloadIdentity k → EksClusterRegistry → Pod → Node → Text → Result (Entry sp)
  render_entry identity cluster pod node trust_domain = do
    spiffe_id_tmpl ←
        wrap "failed to parse SPIFFE ID template" (t.parse identity.spec.spiffe_id_template)
    parent_id_tmpl ← parent_id_template identity
    let d : TemplateData = template_data identity cluster pod node trust_domain
    spiffe_id_text ← wrap "failed to render SPIFFE ID" (t.execute spiffe_id_tmpl d)
    spiffe_id ← wrap "invalid SPIFFE ID" (sp.from_string spiffe_id_text)
    parent_id_text ← wrap "failed to render parent ID" (t.execute parent_id_tmpl d)
    parent_id ← wrap "invalid parent ID" (sp.from_string parent_id_text)
    selectors ← render_selectors d identity.spec.workload_selector_templates
    dns_names ← traverse (render_dns_name d) identity.spec.dns_name_templates
    federates_with ←
        traverse (λ td. wrap "invalid trust domain %s" (sp.td_from_string td))
          identity.spec.federates_with
    ok (record {
      id = [];
      spiffe_id = spiffe_id;
      parent_id = parent_id;
      selectors = pod_selector pod.meta.uid ∷ selectors;
      x509_svid_ttl = k.seconds identity.spec.ttl;
      jwt_svid_ttl = k.seconds identity.spec.jwt_ttl;
      federates_with = federates_with;
      admin = identity.spec.admin;
      downstream = identity.spec.downstream;
      dns_names = dns_names;
      hint = render_hint identity.spec.hint identity.meta.name cluster.meta.name;
    })
