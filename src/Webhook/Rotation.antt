-- ===== src/Webhook/Rotation.antt =====
-- When the serving certificate is renewed, and what renewing it changes.
use spire_eks_workload_regis.Prelude.{
  ℕ, ◌+◌, ◌*◌, ◌/◌, ◌≡◌, ◌≤◌, ◌<◌, refl, ap, sym, subst, String, ◌∙◌, Option, none, some, Result,
  ok, leb, arith,
}
use spire_eks_workload_regis.Prelude.Exec.{
  Exec, lift, modify, wrapping, ◌>>=◌, bind_ok, wrapping_ok,
}
use spire_eks_workload_regis.Text.{Text}
use spire_eks_workload_regis.Webhook.{
  Host, HostLaws, Template, Running, second, hour, mint_certificate, write_files, keep_certificate,
  receive, sign, set_expiry, template, should_rotate, on_host,
}

module _ (host : Host) where
  -- The certificate's end.
  abbrev pub expiry_of : ℕ → ℕ
  expiry_of now = (now + 24 * hour) / second * second

  -- What is left of a chain's first call, which only the host sees.
  pub rest_of :
      {A : Type 0} (m : Exec host.State A) (f : A → Exec (Running host) (Unit {0})) (msg : String)
      (s : Running host) {s' : Running host}
      → (wrapping msg (on_host host m) >>= f) s ≡ (ok tt, s')
      → (a : A) × (h : host.State) × ((m s.host_state).0 ≡ ok a)
        × (f a (record s { host_state = h }) ≡ (ok tt, s'))
  rest_of {A} m f msg s {s'} done =
      let (a, s1, first, rest) = bind_ok (wrapping msg (on_host host m)) f s done in
      let call = wrapping_ok msg (on_host host m) s first in
      let after : s1 ≡ record s { host_state = (m s.host_state).1 } =
        sym (ap (λ (p : Result A × Running host). p.1) call) in
      (
        a,
        (m s.host_state).1,
        ap (λ (p : Result A × Running host). p.0) call,
        subst (λ (x : Running host). f a x ≡ (ok tt, s')) after rest,
      )

  -- The manager after a certificate was minted.
  abbrev pub Minted : Running host → ℕ → Running host → Type 0
  Minted s expiry s' = s'.manager ≡ record s.manager { certificate_expiry = some expiry }

  keep_certificate-Minted :
      (der : Text) (key : host.Key) (cert : host.Certificate) (s s' : Running host)
      → keep_certificate host der key cert s ≡ (ok tt, s')
      → Minted s (host.not_after cert) s'
  keep_certificate-Minted der key cert s s' h =
      let (done, s1, a, b) =
        bind_ok (on_host host (write_files host s.manager.cert_dir der key))
          (λ done. modify (set_expiry host (host.not_after cert))) s h in
      let same : s.manager ≡ s1.manager =
        ap (λ (p : Result (Unit {0}) × Running host). p.1.manager) a in
      ap (λ (p : Result (Unit {0}) × Running host). p.1.manager) (sym b) ∙ rw (← same) refl

  receive-Minted :
      (key : host.Key) (der : Text) (s s' : Running host)
      → receive host key der s ≡ (ok tt, s')
      → (cert : host.Certificate) × (host.parse_certificate der ≡ ok cert)
        × Minted s (host.not_after cert) s'
  receive-Minted key der s s' h =
      let (cert, s1, a, b) =
        bind_ok (wrapping "failed to parse certificate" (lift (host.parse_certificate der)))
          (keep_certificate host der key) s h in
      let call =
        wrapping_ok "failed to parse certificate" (lift (host.parse_certificate der)) s a in
      let same : s ≡ s1 = ap (λ (p : Result host.Certificate × Running host). p.1) call in
      (
        cert,
        ap (λ (p : Result host.Certificate × Running host). p.0) call,
        subst (λ (x : Running host). Minted x (host.not_after cert) s') (sym same)
            (keep_certificate-Minted der key cert s1 s' b),
      )

  sign-Minted :
      HostLaws host
      → (ca_cert : Option host.Certificate) (ca_key : Option host.Key) (made : Template)
        (key : host.Key) (s s' : Running host)
      → sign host ca_cert ca_key made key s ≡ (ok tt, s')
      → Minted s (made.not_after / second * second) s'
  sign-Minted laws none ca_key made key s s' h =
      cc (ap (λ (p : Result (Unit {0}) × Running host). p.0) h)
  sign-Minted laws (some ca_cert) none made key s s' h =
      cc (ap (λ (p : Result (Unit {0}) × Running host). p.0) h)
  sign-Minted laws (some ca_cert) (some ca_key) made key s s' h =
      let (der, host_state, a, b) =
        rest_of (host.create_certificate made (some ca_cert) key ca_key) (receive host key)
          "failed to create certificate" s h in
      let (cert, c, d) = receive-Minted key der _ s' b in
      rw (laws.parsed_not_after made (some ca_cert) key ca_key s.host_state der cert a c) at d

  -- A mint that succeeds leaves the expiry of a day later, to the second, and the CA and the rest of the
  -- manager as they were.
  pub mint_certificate-Minted :
      HostLaws host
      → (now : ℕ) (s s' : Running host) → mint_certificate host now s ≡ (ok tt, s')
      → Minted s (expiry_of now) s'
  unfolding mint_certificate template
  mint_certificate-Minted laws now s s' h =
      let (key, host_state, a, b) =
        rest_of host.generate_key
          (sign host s.manager.ca_cert s.manager.ca_key (template host now s.manager))
          "failed to generate private key" s h in
      sign-Minted laws s.manager.ca_cert s.manager.ca_key (template host now s.manager) key _ s' b

  -- After a mint that succeeded, ShouldRotate is true exactly from twelve hours before the certificate's
  -- end on, which is a day after the mint, or less than a second earlier.
  pub should_rotate-mint_certificate :
      (laws : HostLaws host) (now later : ℕ) (s s' : Running host)
      → mint_certificate host now s ≡ (ok tt, s')
      → (should_rotate host later s'.manager ≡ leb (expiry_of now) (later + 12 * hour))
        × (s'.manager.certificate_expiry ≡ some (expiry_of now))
        × (expiry_of now ≤ now + 24 * hour)
        × (now + 24 * hour < expiry_of now + second)
  unfolding should_rotate
  should_rotate-mint_certificate laws now later s s' h =
      rw (mint_certificate-Minted laws now s s' h) (ground arith, refl, omega arith, omega arith)
