-- ===== src/Tests/Loops.antt =====
-- The shared reconciler loop, and the webhook's certificates, at sample inputs.
use spire_eks_workload_regis.Prelude.{
  ℕ, ◌+◌, ◌*◌, ◌/◌, ◌≡◌, ◌≤◌, ◌<◌, refl, sym, true, false, [], ◌∷◌, Option, some, Result, ok, leb,
  arith,
}
use spire_eks_workload_regis.Prelude.Int.{pos}
use spire_eks_workload_regis.Text.{Text, bytes, ◌==◌}
use spire_eks_workload_regis.Reconciler.{
  Reconciler, not_running, parked, trigger, tick, started, proceeded, triggered_now, execute,
}
use spire_eks_workload_regis.Reconciler.Triggers.{execute-lost_trigger, execute-parked_trigger}
use spire_eks_workload_regis.Reconciler.Ticks.{execute-tick}
use spire_eks_workload_regis.Webhook
use spire_eks_workload_regis.Webhook.{
  Host, HostLaws, Template, WebhookConfiguration, FinalizerWebhookManager, Running, second, hour,
  mint_certificate, should_rotate, start, rotation_loop, update_webhook_configuration,
}
use spire_eks_workload_regis.Webhook.Bundle.{Holds, update_webhook_configuration-set_all}
use spire_eks_workload_regis.Webhook.Rotation.{expiry_of, should_rotate-mint_certificate}
use spire_eks_workload_regis.Webhook.Authority.{mint_certificate-outlives}

-- What SetupWithManager leaves: Run was not called yet.
abbrev idle : Reconciler
idle = record {
  gc_interval = pos 600;
  triggered = false;
  phase = not_running;
  reconcile_count = 0;
  tick_pending = false;
  cancelled = false;
  calls = 0;
}

abbrev waiting : Reconciler
waiting = record idle { phase = parked }

-- The trigger of SetupWithManager, before Run is called.
execute-lost_trigger_example :
    ((execute (started ∷ proceeded true ∷ proceeded true ∷ []) (trigger idle)).calls
      ≡ (execute (started ∷ proceeded true ∷ proceeded true ∷ []) idle).calls)
    × ((execute (started ∷ proceeded true ∷ proceeded true ∷ []) (trigger idle)).phase
        ≡ (execute (started ∷ proceeded true ∷ proceeded true ∷ []) idle).phase)
execute-lost_trigger_example =
    execute-lost_trigger (started ∷ proceeded true ∷ proceeded true ∷ []) idle (λ e. cc e)

execute-parked_trigger_example : 0 < (execute (proceeded true ∷ []) (trigger waiting)).calls
execute-parked_trigger_example =
    execute-parked_trigger (proceeded true ∷ []) waiting refl (omega arith)

execute-tick_example :
    0
    < (execute
        (proceeded true ∷ triggered_now ∷ proceeded true ∷ proceeded true ∷ [])
        (tick waiting)).calls
execute-tick_example =
    execute-tick (proceeded true ∷ triggered_now ∷ proceeded true ∷ proceeded true ∷ []) waiting
      refl refl refl (omega arith)

abbrev first_of : Text → Result ℕ
first_of [] = ok 0
first_of (n ∷ t) = ok n

-- A host whose certificates are their ends.
abbrev host : Host
host = record {
  State = WebhookConfiguration Text;
  Key = Text;
  Certificate = ℕ;
  Other = Text;
  mkdir_all = λ dir s. (ok tt, s);
  generate_key = λ s. (ok (bytes "key"), s);
  create_certificate =
      λ template parent key signer s. (ok (template.not_after / second * second ∷ []), s);
  parse_certificate = first_of;
  not_after = λ c. c;
  encode_pem = λ kind der. kind;
  marshal_key = λ key. ok key;
  join = λ dir file. file;
  create_file = λ path s. (ok tt, s);
  write_file = λ path content s. (ok tt, s);
  get_configuration = λ name s. (ok s, s);
  update_configuration = λ c s. (ok tt, c);
}

host_laws : HostLaws host
host_laws = record { parsed_not_after = made }
  where
    made :
        (template : Template) (parent : Option ℕ) (key signer : Text)
        (s : WebhookConfiguration Text) (der : Text) (cert : ℕ)
        → (host.create_certificate template parent key signer s).0 ≡ ok der
        → host.parse_certificate der ≡ ok cert
        → host.not_after cert ≡ template.not_after / second * second
    made template parent key signer s der cert h p =
        let end = template.not_after / second * second in
        let der_is : end ∷ [] ≡ der = cc h in
        let cert_is : Result.ok end ≡ ok cert = rw (← der_is) at p in
        let same : end ≡ cert = cc cert_is in sym same

abbrev configuration : WebhookConfiguration Text
configuration = record { ca_bundles = bytes "old" ∷ []; other = bytes "rules" }

abbrev fresh : Running host
fresh = record {
  manager =
      Webhook.new_finalizer_webhook_manager host (bytes "hook") (bytes "spire") (bytes "svc")
        (bytes "/tmp");
  host_state = configuration;
}

-- After Start at the time 0.
abbrev running : Running host
running = record {
  manager = record {
    webhook_name = bytes "hook";
    webhook_namespace = bytes "spire";
    webhook_service = bytes "svc";
    cert_dir = bytes "/tmp";
    current_ca_bundle = bytes "CERTIFICATE";
    certificate_expiry = some (24 * hour);
    ca_cert = some (365 * (24 * hour));
    ca_key = some (bytes "key");
  };
  host_state = record { ca_bundles = bytes "CERTIFICATE" ∷ []; other = bytes "rules" };
}

starts : start host 0 fresh ≡ (ok tt, running)
unfolding Webhook.start Webhook.generate_ca Webhook.ca_template Webhook.mint_certificate
    Webhook.template Webhook.dns_names Webhook.write_files Webhook.update_webhook_configuration
    Webhook.new_finalizer_webhook_manager ◌==◌
starts = refl

-- The first time at which the theorem says that the certificate outlives its CA.
abbrev late : ℕ
late = 364 * (24 * hour) + second

abbrev renewed : Running host
renewed = record running {
  manager = record running.manager { certificate_expiry = some (365 * (24 * hour) + second) };
}

mints : mint_certificate host late (rotation_loop host [] running).1 ≡ (ok tt, renewed)
unfolding Webhook.mint_certificate Webhook.template Webhook.write_files Webhook.dns_names
    Webhook.rotation_loop
mints = refl

should_rotate-mint_certificate_example :
    (should_rotate host (late + hour) renewed.manager
      ≡ leb (expiry_of host late) (late + hour + 12 * hour))
    × (renewed.manager.certificate_expiry ≡ some (expiry_of host late))
    × (expiry_of host late ≤ late + 24 * hour)
    × (late + 24 * hour < expiry_of host late + second)
should_rotate-mint_certificate_example =
    should_rotate-mint_certificate host host_laws late (late + hour)
      (rotation_loop host [] running).1 renewed mints

mint_certificate-outlives_example :
    (cert : ℕ) × (expiry : ℕ) × (renewed.manager.ca_cert ≡ some cert)
    × (renewed.manager.certificate_expiry ≡ some expiry)
    × (cert < expiry)
mint_certificate-outlives_example =
    mint_certificate-outlives host host_laws 0 late [] fresh running renewed starts (omega arith)
      mints

holds : Holds host
holds = record { configuration = λ s. s; reads = λ name s. refl; writes = λ c s. (c, refl, refl) }

update_webhook_configuration-set_all_example :
    (s' : Running host) × (update_webhook_configuration host fresh ≡ (ok tt, s'))
    × (s'.manager ≡ fresh.manager)
    × (holds.configuration s'.host_state ≡ record configuration {
      ca_bundles = Webhook.set_all host fresh.manager.current_ca_bundle (bytes "old" ∷ []);
    })
    × (update_webhook_configuration host s' ≡ (ok tt, s'))
unfolding holds
update_webhook_configuration-set_all_example = update_webhook_configuration-set_all host holds fresh
