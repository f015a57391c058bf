-- ===== src/Webhook/Authority.antt =====
-- The certificate authority over the life of the program.
use spire_eks_workload_regis.Prelude.{
  ℕ, ◌+◌, ◌*◌, ◌/◌, ◌≡◌, ◌≤◌, ◌<◌, refl, ap, sym, subst, ◌∙◌, List, [], ◌∷◌, Option, none, some,
  Result, ok, err, panic, arith, Bool-cases, inl, inr,
}
use spire_eks_workload_regis.Prelude.Exec.{
  Exec, lift, pure, modify, wrapping, ◌>>=◌, ◌>>◌, continue, bind_ok, wrapping_ok,
}
use spire_eks_workload_regis.Text.{Text}
use spire_eks_workload_regis.Webhook.{
  Host, HostLaws, Template, FinalizerWebhookManager, Running, second, hour, generate_ca, certify_ca,
  receive_ca, ca_template, store_ca, mint_certificate, write_files, keep_certificate, receive, sign,
  set_expiry, template, should_rotate, update_webhook_configuration, differs, publish, logged,
  WebhookConfiguration, rotate, rotation_loop, start, on_host,
}
use spire_eks_workload_regis.Webhook.Rotation.{rest_of, expiry_of, mint_certificate-Minted}

module _ (host : Host) where
  -- A call after which the manager has the certificate authority that it had.
  abbrev SameCa : Running host → Running host → Type 0
  SameCa s s' =
      (s'.manager.ca_cert ≡ s.manager.ca_cert)
      × (s'.manager.current_ca_bundle ≡ s.manager.current_ca_bundle)

  abbrev KeepsCa : {A : Type 0} → Exec (Running host) A → Type 0
  KeepsCa m = (s : Running host) → SameCa s (m s).1

  bind-KeepsCa :
      {A B : Type 0} (m : Exec (Running host) A) (f : A → Exec (Running host) B)
      → KeepsCa m
      → ((a : A) → KeepsCa (f a))
      → KeepsCa (m >>= f)
  bind-KeepsCa {A} {B} m f q r s = on_first (m s) (q s)
    where
      on_first :
          (p : Result A × Running host) → SameCa s p.1 → SameCa s (continue {B = B} p.0 f p.1).1
      on_first (ok a, s1) e = ((r a s1).0 ∙ e.0, (r a s1).1 ∙ e.1)
      on_first (err x, s1) e = e
      on_first (panic, s1) e = e

  keep_certificate-KeepsCa :
      (der : Text) (key : host.Key) (cert : host.Certificate)
      → KeepsCa (keep_certificate host der key cert)
  keep_certificate-KeepsCa der key cert s =
      bind-KeepsCa (on_host host (write_files host s.manager.cert_dir der key))
        (λ done. modify (set_expiry host (host.not_after cert))) (λ s1. (refl, refl))
        (λ done s1. (refl, refl)) s

  sign-KeepsCa :
      (ca_cert : Option host.Certificate) (ca_key : Option host.Key) (made : Template)
      (key : host.Key)
      → KeepsCa (sign host ca_cert ca_key made key)
  sign-KeepsCa none ca_key made key s = (refl, refl)
  sign-KeepsCa (some ca_cert) none made key s = (refl, refl)
  sign-KeepsCa (some ca_cert) (some ca_key) made key s =
      bind-KeepsCa
        (wrapping "failed to create certificate"
          (on_host host (host.create_certificate made (some ca_cert) key ca_key)))
        (receive host key) (λ s1. (refl, refl))
        (λ der.
          bind-KeepsCa (wrapping "failed to parse certificate" (lift (host.parse_certificate der)))
            (keep_certificate host der key) (λ s1. (refl, refl))
            (λ cert. keep_certificate-KeepsCa der key cert))
        s

  mint_certificate-KeepsCa : (now : ℕ) → KeepsCa (mint_certificate host now)
  unfolding mint_certificate
  mint_certificate-KeepsCa now s =
      bind-KeepsCa (wrapping "failed to generate private key" (on_host host host.generate_key))
        (sign host s.manager.ca_cert s.manager.ca_key (template host now s.manager))
        (λ s1. (refl, refl))
        (λ key. sign-KeepsCa s.manager.ca_cert s.manager.ca_key (template host now s.manager) key) s

  publish-KeepsCa :
      (bundle : Text) (webhook : WebhookConfiguration host.Other)
      → KeepsCa (publish host bundle webhook)
  publish-KeepsCa bundle webhook s = elim (Bool-cases (differs host bundle webhook.ca_bundles)) [
    | inl q ↦ rw q (refl, refl)
    | inr q ↦ rw q (refl, refl)
  ]

  logged-KeepsCa :
      (s : Running host) (p : Result (Unit {0}) × Running host)
      (next : Exec (Running host) (Unit {0}))
      → SameCa s p.1
      → KeepsCa next
      → SameCa s (logged host p next).1
  logged-KeepsCa s (ok done, s1) next e q = ((q s1).0 ∙ e.0, (q s1).1 ∙ e.1)
  logged-KeepsCa s (err x, s1) next e q = e
  logged-KeepsCa s (panic, s1) next e q = e

  update_webhook_configuration-KeepsCa : KeepsCa (update_webhook_configuration host)
  unfolding update_webhook_configuration
  update_webhook_configuration-KeepsCa s =
      bind-KeepsCa
        (wrapping "failed to get webhook configuration"
          (on_host host (host.get_configuration s.manager.webhook_name)))
        (publish host s.manager.current_ca_bundle) (λ s1. (refl, refl))
        (publish-KeepsCa s.manager.current_ca_bundle) s

  rotate-KeepsCa : (now : ℕ) → KeepsCa (rotate host now)
  unfolding rotate
  rotate-KeepsCa now s = elim (Bool-cases (should_rotate host now s.manager)) [
    | inl due ↦ rw due (
        logged-KeepsCa s (mint_certificate host now s)
          (λ s1. logged host (update_webhook_configuration host s1) (pure tt))
          (mint_certificate-KeepsCa now s)
          (λ s1.
            logged-KeepsCa s1 (update_webhook_configuration host s1) (pure tt)
              (update_webhook_configuration-KeepsCa s1) (λ s2. (refl, refl))))
    | inr early ↦ rw early (refl, refl)
  ]

  rotation_loop-KeepsCa : (times : List ℕ) → KeepsCa (rotation_loop host times)
  unfolding rotation_loop
  rotation_loop-KeepsCa [] s = (refl, refl)
  rotation_loop-KeepsCa (now ∷ times) s =
      bind-KeepsCa (rotate host now) (λ done. rotation_loop host times) (rotate-KeepsCa now)
        (λ done. rotation_loop-KeepsCa times) s

  -- The CA that a successful Start made, and the bundle that it published.
  Authority : ℕ → Running host → Type 0
  Authority now s =
      (cert : host.Certificate) × (s.manager.ca_cert ≡ some cert)
      × (host.not_after cert ≡ (now + 365 * (24 * hour)) / second * second)

  generate_ca-Authority :
      HostLaws host
      → (now : ℕ) (s s' : Running host) → generate_ca host now s ≡ (ok tt, s')
      → Authority now s'
  unfolding generate_ca ca_template Authority
  generate_ca-Authority laws now s s' h =
      let (key, s1, a, b) =
        rest_of host host.generate_key (certify_ca host now s.manager.webhook_namespace)
          "failed to generate CA key" s h in
      let s2 : Running host = record s { host_state = s1 } in
      let made = ca_template host now s.manager.webhook_namespace in
      let (der, s3, c, d) =
        rest_of host (host.create_certificate made none key key) (receive_ca host key)
          "failed to create CA certificate" s2 b in
      let s4 : Running host = record s { host_state = s3 } in
      let parse = wrapping "failed to parse CA certificate" (lift (host.parse_certificate der)) in
      let (cert, s5, e, f) =
        bind_ok parse (λ ca_cert. modify (store_ca host der key ca_cert)) s4 d in
      let parsed =
        wrapping_ok "failed to parse CA certificate" (lift (host.parse_certificate der)) s4 e in
      (
        cert,
        ap (λ (p : Result (Unit {0}) × Running host). p.1.manager.ca_cert) (sym f),
        laws.parsed_not_after made none key key s1 der cert c
            (ap (λ (p : Result host.Certificate × Running host). p.0) parsed),
      )

  SameCa-Authority :
      (now : ℕ) (s s' : Running host) → SameCa s s' → Authority now s → Authority now s'
  unfolding Authority
  SameCa-Authority now s s' same (cert, a, b) = (cert, same.0 ∙ a, b)

  after :
      (m : Exec (Running host) (Unit {0})) (s s' : Running host)
      → KeepsCa m
      → m s ≡ (ok tt, s')
      → SameCa s s'
  after m s s' keeps h = subst (λ (p : Result (Unit {0}) × Running host). SameCa s p.1) h (keeps s)

  start-Authority :
      HostLaws host
      → (now : ℕ) (s s' : Running host) → start host now s ≡ (ok tt, s')
      → Authority now s'
  unfolding start
  start-Authority laws now s s' h =
      let make =
        wrapping "failed to create cert directory"
          (on_host host (host.mkdir_all s.manager.cert_dir)) in
      let ca = wrapping "failed to generate CA" (generate_ca host now) in
      let mint = wrapping "initial certificate mint failed" (mint_certificate host now) in
      let update = wrapping "initial webhook update failed" (update_webhook_configuration host) in
      let (x, s3, a, b) = bind_ok (make >> ca >> mint) (λ done. update) s h in
      let (y, s2, c, d) = bind_ok (make >> ca) (λ done. mint) s a in
      let (z, s1, e, f) = bind_ok make (λ done. ca) s c in
      let made =
        generate_ca-Authority laws now s1 s2
          (wrapping_ok "failed to generate CA" (generate_ca host now) s1 f) in
      let minted =
        after (mint_certificate host now) s2 s3 (mint_certificate-KeepsCa now)
          (wrapping_ok "initial certificate mint failed" (mint_certificate host now) s2 d) in
      let updated =
        after (update_webhook_configuration host) s3 s' update_webhook_configuration-KeepsCa
          (wrapping_ok "initial webhook update failed" (update_webhook_configuration host) s3 b) in
      SameCa-Authority now s3 s' updated (SameCa-Authority now s2 s3 minted made)

  -- After a Start that succeeded and any ticks of the rotation loop, a mint that succeeds 364 days and a
  -- second or more after the Start leaves a serving certificate that ends after its CA's certificate: the loop never
  -- makes another CA.
  pub mint_certificate-outlives :
      (laws : HostLaws host) (now later : ℕ) (times : List ℕ) (s s1 s2 : Running host)
      → start host now s ≡ (ok tt, s1)
      → now + (364 * (24 * hour) + second) ≤ later
      → mint_certificate host later (rotation_loop host times s1).1 ≡ (ok tt, s2)
      → (cert : host.Certificate) × (expiry : ℕ) × (s2.manager.ca_cert ≡ some cert)
        × (s2.manager.certificate_expiry ≡ some expiry)
        × (host.not_after cert < expiry)
  unfolding Authority
  mint_certificate-outlives laws now later times s s1 s2 started late minted =
      let looped =
        SameCa-Authority now s1 (rotation_loop host times s1).1 (rotation_loop-KeepsCa times s1)
          (start-Authority laws now s s1 started) in
      let (cert, a, b) =
        SameCa-Authority now (rotation_loop host times s1).1 s2
          (after (mint_certificate host later) (rotation_loop host times s1).1 s2
            (mint_certificate-KeepsCa later) minted)
          looped in
      let manager =
        mint_certificate-Minted host laws later (rotation_loop host times s1).1 s2 minted in
      (
        cert,
        expiry_of host later,
        a,
        ap (λ (m : FinalizerWebhookManager host). m.certificate_expiry) manager,
        rw b (omega arith),
      )
