-- ===== src/Webhook.antt =====
-- pkg/webhookmanager/finalizer_webhook_manager.go: the certificate authority of the finalizer webhook, its
-- serving certificate, and the webhook's configuration. Keys, certificates, files and the Kubernetes API
-- are a parameter. A time is a number of nanoseconds, and an operation takes place at one time.
pub mod Rotation
pub mod Authority
pub mod Bundle
use spire_eks_workload_regis.Prelude.{
  ℕ, ◌+◌, ◌-◌, ◌*◌, ◌/◌, ◌≡◌, ◌≤◌, ◌<◌, Bool, true, false, not, List, [], ◌∷◌, ◌++◌, Option, none,
  some, Result, ok, err, panic, deref, if◌then◌else◌, ltb, leb,
}
use spire_eks_workload_regis.Prelude.Exec.{Exec, pure, lift, modify, wrapping, ◌>>=◌, ◌>>◌}
use spire_eks_workload_regis.Text.{Text, bytes, ◌==◌}

-- x509.Certificate as a template, the fields that vary
pub record Template : Type 0 where
  pub serial_number : ℕ
  pub common_name : Text
  pub not_before : ℕ
  pub not_after : ℕ
  pub is_ca : Bool
  pub dns_names : List Text

-- admissionregistration's MutatingWebhookConfiguration: the CA bundle of each webhook, and the rest of it
pub record WebhookConfiguration (Other : Type 0) : Type 0 where
  pub ca_bundles : List Text
  pub other : Other

-- crypto, os, encoding/pem and the Kubernetes API. A certificate is signed for a key by a parent, none
-- for its own template, and the parent's key.
pub record Host : Type 1 where
  pub State : Type 0
  pub Key : Type 0
  pub Certificate : Type 0
  pub Other : Type 0
  pub mkdir_all : Text → Exec State (Unit {0})
  pub generate_key : Exec State Key
  pub create_certificate : Template → Option Certificate → Key → Key → Exec State Text
  pub parse_certificate : Text → Result Certificate
  pub not_after : Certificate → ℕ
  pub encode_pem : Text → Text → Text
  pub marshal_key : Key → Result Text
  pub join : Text → Text → Text
  pub create_file : Text → Exec State (Unit {0})
  pub write_file : Text → Text → Exec State (Unit {0})
  pub get_configuration : Text → Exec State (WebhookConfiguration Other)
  pub update_configuration : WebhookConfiguration Other → Exec State (Unit {0})

abbrev pub second : ℕ
second = 1000000000

abbrev pub hour : ℕ
hour = 3600 * second

-- What X.509 says of a certificate that was made of a template: its times are whole seconds.
pub record HostLaws (host : Host) : Type 0 where
  pub parsed_not_after :
      (template : Template) (parent : Option host.Certificate) (key signer : host.Key)
      (s : host.State) (der : Text) (cert : host.Certificate)
      → (host.create_certificate template parent key signer s).0 ≡ ok der
      → host.parse_certificate der ≡ ok cert
      → host.not_after cert ≡ template.not_after / second * second

module _ (host : Host) where
  open host use {State, Key, Certificate}

  -- type FinalizerWebhookManager; no expiry is the zero time
  pub record FinalizerWebhookManager : Type 0 where
    pub webhook_name : Text
    pub webhook_namespace : Text
    pub webhook_service : Text
    pub cert_dir : Text
    pub current_ca_bundle : Text
    pub certificate_expiry : Option ℕ
    pub ca_cert : Option Certificate
    pub ca_key : Option Key

  -- NewFinalizerWebhookManager
  unfoldable pub new_finalizer_webhook_manager : Text → Text → Text → Text → FinalizerWebhookManager
  new_finalizer_webhook_manager webhook_name webhook_namespace webhook_service cert_dir = record {
    webhook_name = webhook_name;
    webhook_namespace = webhook_namespace;
    webhook_service = webhook_service;
    cert_dir = cert_dir;
    current_ca_bundle = [];
    certificate_expiry = none;
    ca_cert = none;
    ca_key = none;
  }

  -- The manager, and what it runs on.
  pub record Running : Type 0 where
    pub manager : FinalizerWebhookManager
    pub host_state : State

  abbrev pub on_host : {A : Type 0} → Exec State A → Exec Running A
  on_host m s = ((m s.host_state).0, record s { host_state = (m s.host_state).1 })

  -- m.caCert = ..., m.caKey = ..., m.currentCABundle = ...
  abbrev pub store_ca : Text → Key → Certificate → Running → Running
  store_ca der key cert s = record s {
    manager = record s.manager {
      ca_cert = some cert;
      ca_key = some key;
      current_ca_bundle = host.encode_pem (bytes "CERTIFICATE") der;
    };
  }

  unfoldable pub ca_template : ℕ → Text → Template
  ca_template now namespace = record {
    serial_number = 1;
    common_name = bytes "webhook-ca." ++ namespace;
    not_before = now;
    not_after = now + 365 * (24 * hour);
    is_ca = true;
    dns_names = [];
  }

  abbrev pub receive_ca : Key → Text → Exec Running (Unit {0})
  receive_ca ca_key der =
      wrapping "failed to parse CA certificate" (lift (host.parse_certificate der)) >>= λ ca_cert.
      modify (store_ca der ca_key ca_cert)

  abbrev pub certify_ca : ℕ → Text → Key → Exec Running (Unit {0})
  certify_ca now namespace ca_key =
      wrapping "failed to create CA certificate"
        (on_host (host.create_certificate (ca_template now namespace) none ca_key ca_key))
      >>= receive_ca ca_key

  -- generateCA
  unfoldable pub generate_ca : ℕ → Exec Running (Unit {0})
  generate_ca now s =
      (wrapping "failed to generate CA key" (on_host host.generate_key)
          >>= certify_ca now s.manager.webhook_namespace)
        s

  -- The names of the webhook's service.
  unfoldable pub dns_names : Text → Text → List Text
  dns_names service namespace =
      service
      ∷ (service ++ (bytes "." ++ namespace))
      ∷ (service ++ (bytes "." ++ (namespace ++ bytes ".svc")))
      ∷ (service ++ (bytes "." ++ (namespace ++ bytes ".svc.cluster.local")))
      ∷ []

  unfoldable pub template : ℕ → FinalizerWebhookManager → Template
  template now m = record {
    serial_number = now / second;
    common_name = m.webhook_service ++ (bytes "." ++ (m.webhook_namespace ++ bytes ".svc"));
    not_before = now;
    not_after = now + 24 * hour;
    is_ca = false;
    dns_names = dns_names m.webhook_service m.webhook_namespace;
  }

  abbrev pub set_expiry : ℕ → Running → Running
  set_expiry expiry s = record s { manager = record s.manager { certificate_expiry = some expiry } }

  unfoldable pub write_files : Text → Text → Key → Exec State (Unit {0})
  write_files cert_dir der key =
      let cert_path = host.join cert_dir (bytes "tls.crt") in
      let key_path = host.join cert_dir (bytes "tls.key") in
      wrapping "failed to create cert file" (host.create_file cert_path)
      >> wrapping "failed to write certificate"
          (host.write_file cert_path (host.encode_pem (bytes "CERTIFICATE") der))
      >> wrapping "failed to create key file" (host.create_file key_path)
      >> (wrapping "failed to marshal private key" (lift (host.marshal_key key)) >>= λ key_bytes.
          wrapping "failed to write private key"
            (host.write_file key_path (host.encode_pem (bytes "PRIVATE KEY") key_bytes)))

  -- The end of MintCertificate: both files, then the expiry.
  abbrev pub keep_certificate : Text → Key → Certificate → Exec Running (Unit {0})
  keep_certificate der key cert s =
      (on_host (write_files s.manager.cert_dir der key)
          >> modify (set_expiry (host.not_after cert)))
        s

  abbrev pub receive : Key → Text → Exec Running (Unit {0})
  receive key der =
      wrapping "failed to parse certificate" (lift (host.parse_certificate der))
      >>= keep_certificate der key

  -- CreateCertificate with m.caCert and m.caKey, which it reads
  abbrev pub sign : Option Certificate → Option Key → Template → Key → Exec Running (Unit {0})
  sign (some ca_cert) (some ca_key) template key =
      wrapping "failed to create certificate"
        (on_host (host.create_certificate template (some ca_cert) key ca_key))
      >>= receive key
  sign none ca_key template key = lift panic
  sign (some ca_cert) none template key = lift panic

  -- MintCertificate
  unfoldable pub mint_certificate : ℕ → Exec Running (Unit {0})
  mint_certificate now s =
      (wrapping "failed to generate private key" (on_host host.generate_key)
          >>= sign s.manager.ca_cert s.manager.ca_key (template now s.manager))
        s

  -- The loop over the webhooks: whether a bundle differed.
  abbrev pub differs : Text → List Text → Bool
  differs bundle [] = false
  differs bundle (b ∷ bs) = if not (b == bundle) then true else differs bundle bs

  abbrev pub set_all : Text → List Text → List Text
  set_all bundle [] = []
  set_all bundle (b ∷ bs) = bundle ∷ set_all bundle bs

  -- The loop and the update of UpdateWebhookConfiguration.
  abbrev pub publish : Text → WebhookConfiguration host.Other → Exec Running (Unit {0})
  publish bundle webhook =
      if differs bundle webhook.ca_bundles
      then wrapping "failed to update webhook" (
          on_host (
            host.update_configuration
              (record webhook { ca_bundles = set_all bundle webhook.ca_bundles })))
      else pure tt

  -- UpdateWebhookConfiguration
  unfoldable pub update_webhook_configuration : Exec Running (Unit {0})
  update_webhook_configuration s =
      (wrapping "failed to get webhook configuration"
            (on_host (host.get_configuration s.manager.webhook_name))
          >>= publish s.manager.current_ca_bundle)
        s

  -- ShouldRotate at a time
  abbrev rotates_at : Option ℕ → ℕ → Bool
  rotates_at none now = true
  rotates_at (some expiry) now = if ltb expiry now then true else leb expiry (now + 24 * hour / 2)

  unfoldable pub should_rotate : ℕ → FinalizerWebhookManager → Bool
  should_rotate now m = rotates_at m.certificate_expiry now

  -- An error is logged, and the loop goes on.
  abbrev pub logged :
      Result (Unit {0}) × Running → (Exec Running (Unit {0})) → Result (Unit {0}) × Running
  logged (ok done, s) next = next s
  logged (err e, s) next = (ok tt, s)
  logged (panic, s) next = (panic, s)

  -- A tick of rotationLoop
  unfoldable pub rotate : ℕ → Exec Running (Unit {0})
  rotate now s =
      if should_rotate now s.manager
      then logged (mint_certificate now s)
          (λ s'. logged (update_webhook_configuration s') (pure tt))
      else (ok tt, s)

  -- Start, before its loop
  unfoldable pub start : ℕ → Exec Running (Unit {0})
  start now s =
      (wrapping "failed to create cert directory" (on_host (host.mkdir_all s.manager.cert_dir))
          >> wrapping "failed to generate CA" (generate_ca now)
          >> wrapping "initial certificate mint failed" (mint_certificate now)
          >> wrapping "initial webhook update failed" update_webhook_configuration)
        s

  -- The ticks of rotationLoop at some times.
  unfoldable pub rotation_loop : List ℕ → Exec Running (Unit {0})
  rotation_loop [] = pure tt
  rotation_loop (now ∷ times) = rotate now >> rotation_loop times
