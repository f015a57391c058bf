-- ===== src/Webhook/Bundle.antt =====
-- What the API server trusts after UpdateWebhookConfiguration.
use spire_eks_workload_regis.Prelude.{◌≡◌, refl, ap, false, List, [], ◌∷◌, ok, Bool-cases, inl, inr}
use spire_eks_workload_regis.Text.{Text, ◌==◌, eq_iff, eq_refl}
use spire_eks_workload_regis.Webhook.{
  Host, WebhookConfiguration, Running, differs, set_all, update_webhook_configuration,
}

-- A Kubernetes API that holds one configuration and obeys every call.
pub record Holds (host : Host) : Type 0 where
  pub configuration : host.State → WebhookConfiguration host.Other
  pub reads :
      (name : Text) (s : host.State) → host.get_configuration name s ≡ (ok (configuration s), s)
  pub writes :
      (c : WebhookConfiguration host.Other) (s : host.State)
      → (s' : host.State) × (host.update_configuration c s ≡ (ok tt, s')) × (configuration s' ≡ c)

module _ (host : Host) where
  differs-set_all :
      (bundle : Text) (bs : List Text) → differs host bundle (set_all host bundle bs) ≡ false
  differs-set_all bundle [] = refl
  differs-set_all bundle (b ∷ bs) = rw (eq_refl bundle) (differs-set_all bundle bs)

  set_all_same :
      (bundle : Text) (bs : List Text)
      → differs host bundle bs ≡ false
      → set_all host bundle bs ≡ bs
  set_all_same bundle [] h = refl
  set_all_same bundle (b ∷ bs) h = elim (Bool-cases (b == bundle)) [
    | inl q ↦ rw ((eq_iff b bundle).0 q) (ap (◌∷◌ bundle) (set_all_same bundle bs (rw q at h)))
    | inr q ↦ cc (rw q at h)
  ]

  -- Over a Kubernetes API that obeys every call, UpdateWebhookConfiguration returns, gives every webhook
  -- of the configuration the current CA bundle and changes nothing else of it; and a second call
  -- changes nothing.
  pub update_webhook_configuration-set_all :
      (api : Holds host) (s : Running host)
      → (s' : Running host) × (update_webhook_configuration host s ≡ (ok tt, s'))
        × (s'.manager ≡ s.manager)
        × (api.configuration s'.host_state ≡ record (api.configuration s.host_state) {
          ca_bundles =
              set_all host s.manager.current_ca_bundle (api.configuration s.host_state).ca_bundles;
        })
        × (update_webhook_configuration host s' ≡ (ok tt, s'))
  unfolding update_webhook_configuration
  update_webhook_configuration-set_all api s =
      let bundle = s.manager.current_ca_bundle in
      let c = api.configuration s.host_state in
      elim (Bool-cases (differs host bundle c.ca_bundles)) [
        | inl q ↦
            let (h, a, b) =
              api.writes (record c { ca_bundles = set_all host bundle c.ca_bundles })
                s.host_state in
            (
              record s { host_state = h },
              rw (api.reads s.manager.webhook_name s.host_state, q, a) refl,
              refl,
              b,
              rw (api.reads s.manager.webhook_name h, b, differs-set_all bundle c.ca_bundles) refl,
            )
        | inr q ↦
            let idle : update_webhook_configuration host s ≡ (ok tt, s) =
              rw (api.reads s.manager.webhook_name s.host_state, q) refl in
            (s, idle, refl, rw (set_all_same bundle c.ca_bundles q) refl, idle)
      ]
