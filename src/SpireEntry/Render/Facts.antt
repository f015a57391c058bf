-- ===== src/SpireEntry/Render/Facts.antt =====
-- What every rendered entry has.
use spire_eks_workload_regis.Prelude.{
  ◌≡◌, refl, traverse, inl, ok, In, wrap, wrap-eq-ok, Ensures, Ensures-bind, Ensures-ok,
}
use spire_eks_workload_regis.Text.{Text}
use spire_eks_workload_regis.Api.{Kube, WorkloadIdentity, EksClusterRegistry, Pod, Node}
use spire_eks_workload_regis.SpireApi.{Spiffe, SpiffeLaws, Entry}
use spire_eks_workload_regis.SpireApi.Convert.{
  to_api_entry, from_api_entry, from_api_entry-to_api_entry,
}
use spire_eks_workload_regis.SpireEntry.Render.{
  Templates, render_hint, pod_selector, template_data, parent_id_template, render_selectors,
  render_dns_name, render_entry,
}

module _ (sp : Spiffe) (k : Kube) (t : Templates) where
  -- The IDs were accepted by `FromString`; the first selector is the pod's; the hint is the
  -- identity's and the cluster's.
  pub record IsRendered (identity : WorkloadIdentity k) (cluster : EksClusterRegistry) (pod : Pod)
      (e : Entry sp) : Type 0 where
    pub spiffe_id_text : Text
    pub spiffe_id : sp.from_string spiffe_id_text ≡ ok e.spiffe_id
    pub parent_id_text : Text
    pub parent_id : sp.from_string parent_id_text ≡ ok e.parent_id
    pub own_pod : In (pod_selector pod.meta.uid) e.selectors
    pub hint : e.hint ≡ render_hint identity.spec.hint identity.meta.name cluster.meta.name

  module _ (identity : WorkloadIdentity k) (cluster : EksClusterRegistry) (pod : Pod) (node : Node)
      (trust_domain : Text) where
    rendered :
        Ensures
          (IsRendered identity cluster pod)
          (render_entry sp k t identity cluster pod node trust_domain)
    unfolding render_entry
    rendered =
        let d = template_data sp k t identity cluster pod node trust_domain in
        Ensures-bind
          (wrap "failed to parse SPIFFE ID template" (t.parse identity.spec.spiffe_id_template)) _
          λ a _. Ensures-bind (parent_id_template sp k t identity) _ λ b _.
            Ensures-bind (wrap "failed to render SPIFFE ID" (t.execute a d)) _ λ text _.
              Ensures-bind (wrap "invalid SPIFFE ID" (sp.from_string text)) _ λ i p.
                Ensures-bind (wrap "failed to render parent ID" (t.execute b d)) _ λ text' _.
                  Ensures-bind (wrap "invalid parent ID" (sp.from_string text')) _ λ i' q.
                    Ensures-bind
                      (render_selectors sp k t d identity.spec.workload_selector_templates) _
                      λ c _.
                        Ensures-bind
                          (traverse (render_dns_name sp k t d) identity.spec.dns_name_templates) _
                          λ n _.
                            Ensures-bind
                              (traverse
                                (λ td. wrap "invalid trust domain %s" (sp.td_from_string td))
                                identity.spec.federates_with)
                              _
                              λ f _. Ensures-ok _ (record {
                                spiffe_id_text = text;
                                spiffe_id = wrap-eq-ok "invalid SPIFFE ID" (sp.from_string text) p;
                                parent_id_text = text';
                                parent_id = wrap-eq-ok "invalid parent ID" (sp.from_string text') q;
                                own_pod = inl refl;
                                hint = refl;
                              })

    -- Every entry that RenderEntry returns has IDs that FromString accepted, the pod's UID among its
    -- selectors, and the hint of its identity and cluster.
    pub render_entry-IsRendered :
        (e : Entry sp)
        → render_entry sp k t identity cluster pod node trust_domain ≡ ok e
        → IsRendered identity cluster pod e
    render_entry-IsRendered = rendered.at

    -- A rendered entry is returned unchanged when it is sent to the SPIRE API and read back.
    pub from_api_entry-render_entry :
        SpiffeLaws sp
        → (e : Entry sp) → render_entry sp k t identity cluster pod node trust_domain ≡ ok e
        → from_api_entry sp (to_api_entry sp e) ≡ ok e
    from_api_entry-render_entry laws e h =
        let r = render_entry-IsRendered e h in
        from_api_entry-to_api_entry sp laws e r.spiffe_id_text r.parent_id_text r.spiffe_id
          r.parent_id
