-- ===== src/Bootstrap/Certificates/Windows.antt =====
-- The validity windows of the certificates that an authority of certificates.go signs.
use mathlib.Core.List.{filter_map}
use locking.Prelude.{
  not, ℕ, ◌+◌, ◌-◌, ◌*◌, ◌/◌, ◌^◌, ◌≤◌, ◌<◌, ◌≡◌, refl, sym, ◌∙◌, ap, String, List, [], ◌∷◌, Bool,
  some, none, arith, if◌then◌else◌,
}
use locking.Prelude.Result.{ok, err, text, reject_if, wrapped-eq-ok, >>=-eq-ok, ok-injective}
use locking.Bootstrap.Certificates.{
  CaCertificate, Certificate, ca_template, leaf_template, year, hour, expires_before, is_empty,
  check_window, ips_of, dns_of, first_name, first?, sign, intermediate, generate_ca,
}
use locking.Bootstrap.X509.{Crypto, Draw, X509Certificate}

-- A time to the second, as certificates carry it.
abbrev pub to_second : ℕ → ℕ
to_second t = t / 10 ^ 9 * 10 ^ 9

-- The names of a list that pass a test.
abbrev pub those : (String → Bool) → List String → List String
those passes = filter_map (λ name. if passes name then some name else none)

-- A certificate that was created parses back with the template's window, to the second.
abbrev pub KeepsWindow : Crypto → Type 0
KeepsWindow c =
    (t parent cert : X509Certificate) (k signer : c.Key) (der : List ℕ)
    → c.create_certificate t parent k signer ≡ ok der
    → c.parse_certificate der ≡ ok cert
    → (cert.not_before ≡ to_second t.not_before) × (cert.not_after ≡ to_second t.not_after)

module _ (c : Crypto) where
  ips_of-those : (names : List String) → ips_of c names ≡ those c.is_ip names
  unfolding ips_of filter_map
  ips_of-those [] = refl
  ips_of-those (name ∷ names) = ground (arith, ips_of-those names)

  dns_of-those : (names : List String) → dns_of c names ≡ those (λ name. not (c.is_ip name)) names
  unfolding dns_of filter_map
  dns_of-those [] = refl
  dns_of-those (name ∷ names) = ground (arith, dns_of-those names)

module _ {c : Crypto} where
  check_window-ok :
      (ca : CaCertificate c) (now lifetime : ℕ)
      → check_window ca now lifetime ≡ ok tt
      → (ca.cert.not_before ≤ now - ca.grace_period) × (now + lifetime ≤ ca.cert.not_after)
  unfolding check_window
  check_window-ok ca now lifetime h = ground arith

  -- A certificate that is signed was created, with the authority's key, from a template for the given
  -- names, the addresses among them apart, of which the first is its common name; its window starts
  -- the grace period before now and ends the lifetime after now, and lies in the authority's own.
  pub sign-window :
      (draw : Draw c) (now : ℕ) (ca : CaCertificate c) (names : List String) (crt : Certificate)
      → sign draw now ca names ≡ ok crt
      → (t : X509Certificate) × (priv : c.Key) × (der : List ℕ) × (c.create_certificate t ca.cert
            priv ca.pk
          ≡ ok der)
        × (crt.certificate ≡ c.pem_encode "CERTIFICATE" der)
        × (t.ip_addresses ≡ those c.is_ip names)
        × (t.dns_names ≡ those (λ name. not (c.is_ip name)) names)
        × (first? names ≡ some t.common_name)
        × (t.not_before ≡ now - ca.grace_period)
        × (t.not_after ≡ now + ca.certificate_expiration)
        × (ca.cert.not_before ≤ t.not_before)
        × (t.not_after ≤ ca.cert.not_after)
  unfolding sign leaf_template
  sign-window draw now ca names crt h =
      let (u, en, h0) =
        >>=-eq-ok (reject_if (is_empty names) "must specify at least one name") _ h in
      let (u', ew, h1) = >>=-eq-ok (check_window ca now ca.certificate_expiration) _ h0 in
      let (priv, ek, h2) = wrapped-eq-ok "generating key" draw.key _ h1 in
      let (serial, es, h3) = wrapped-eq-ok "generating serial number" draw.serial_number _ h2 in
      let t = leaf_template c ca serial now names in
      let (der, ed, h4) = wrapped-eq-ok _ (c.create_certificate t ca.cert priv ca.pk) _ h3 in
      let (kb, eb, h5) = wrapped-eq-ok _ (c.marshal_key priv) _ h4 in
      let w = check_window-ok ca now ca.certificate_expiration ew in
      (
        t,
        priv,
        der,
        ed,
        ap (λ x. x.certificate) (sym (ok-injective h5)),
        ips_of-those c names,
        dns_of-those c names,
        named names en,
        refl,
        refl,
        w.0,
        w.1,
      )
    where
      named :
          (xs : List String)
          → reject_if (is_empty xs) "must specify at least one name" ≡ ok tt
          → first? xs ≡ some (first_name xs)
      named [] e = cc
      named (x ∷ xs) e = refl

  generate_ca-fields :
      (keeps : KeepsWindow c) (draw : Draw c) (t : ℕ) (organization name : String)
      (ca : CaCertificate c)
      → generate_ca draw t organization name none ≡ ok ca
      → (ca.grace_period ≡ hour)
        × (ca.certificate_expiration ≡ year)
        × (ca.cert.not_before ≡ to_second (t - hour))
        × (ca.cert.not_after ≡ to_second (t + 10 * year))
  unfolding generate_ca ca_template
  generate_ca-fields keeps draw t organization name ca h =
      let (k, ek, h1) = wrapped-eq-ok "generating key" draw.key _ h in
      let (serial, es, h2) = wrapped-eq-ok "generating serial number" draw.serial_number _ h1 in
      let tm = ca_template serial name organization (t - hour) (t + 10 * year) 1 in
      let (der, ed, h3) = wrapped-eq-ok _ (c.create_certificate tm tm k k) _ h2 in
      let (kb, eb, h4) = wrapped-eq-ok _ (c.marshal_key k) _ h3 in
      let (cert, ec, h5) = wrapped-eq-ok _ (c.parse_certificate der) _ h4 in
      let kept = keeps tm tm cert k k der ed ec in
      let built = sym (ok-injective h5) in
      (
        ap (λ a. a.grace_period) built,
        ap (λ a. a.certificate_expiration) built,
        ap (λ a. a.cert.not_before) built ∙ kept.0,
        ap (λ a. a.cert.not_after) built ∙ kept.1,
      )

  -- Where certificates keep their windows to the second, an authority that was generated with the
  -- default lifetimes passes its own checks for a certificate at any time from its creation to a
  -- year and a second before its end.
  pub generate_ca-check_window :
      (keeps : KeepsWindow c) (draw : Draw c) (t now : ℕ) (organization name : String)
      (ca : CaCertificate c)
      → generate_ca draw t organization name none ≡ ok ca
      → t ≤ now
      → now + year + 10 ^ 9 ≤ t + 10 * year
      → check_window ca now ca.certificate_expiration ≡ ok tt
  unfolding check_window
  generate_ca-check_window keeps draw t now organization name ca h lo hi =
      let f = generate_ca-fields keeps draw t organization name ca h in ground arith

  intermediate-fields :
      (keeps : KeepsWindow c) (draw : Draw c) (t t' t'' : ℕ) (ca ica : CaCertificate c)
      (name : String)
      → intermediate draw t t' t'' ca name ≡ ok ica
      → (ica.grace_period ≡ 0)
        × (ica.certificate_expiration ≡ ca.certificate_expiration)
        × (ica.cert.not_before ≡ to_second t')
        × (ica.cert.not_after ≡ to_second (t'' + year))
  unfolding intermediate ca_template
  intermediate-fields keeps draw t t' t'' ca ica name h =
      let (u, ew, h0) = >>=-eq-ok (check_window ca t ca.intermediate_ca_expiration) _ h in
      let (k, ek, h1) = wrapped-eq-ok "generating key" draw.key _ h0 in
      let (serial, es, h2) = wrapped-eq-ok "generating serial number" draw.serial_number _ h1 in
      let tm = ca_template serial name ca.organization t' (t'' + year) 0 in
      let (der, ed, h3) = wrapped-eq-ok _ (c.create_certificate tm ca.cert k ca.pk) _ h2 in
      let (kb, eb, h4) = wrapped-eq-ok _ (c.marshal_key k) _ h3 in
      let (cert, ec, h5) = wrapped-eq-ok _ (c.parse_certificate der) _ h4 in
      let kept = keeps tm ca.cert cert k ca.pk der ed ec in
      let built = sym (ok-injective h5) in
      (
        ap (λ a. a.grace_period) built,
        ap (λ a. a.certificate_expiration) built,
        ap (λ a. a.cert.not_before) built ∙ kept.0,
        ap (λ a. a.cert.not_after) built ∙ kept.1,
      )

  -- Where certificates keep their windows to the second, an intermediate authority whose
  -- certificates are to live for a year or more signs nothing after the moment of its creation, for
  -- whatever names: its own certificate lives for one year, whatever lifetime was configured for
  -- intermediates.
  pub intermediate-sign :
      (keeps : KeepsWindow c) (draw draw' : Draw c) (t t' t'' now : ℕ) (ca ica : CaCertificate c)
      (name : String) (first : String) (names : List String)
      → intermediate draw t t' t'' ca name ≡ ok ica
      → year ≤ ca.certificate_expiration
      → t' ≤ now
      → t'' < now
      → sign draw' now ica (first ∷ names) ≡ err (text expires_before)
  unfolding sign check_window
  intermediate-sign keeps draw draw' t t' t'' now ca ica name first names h long lo hi =
      let f = intermediate-fields keeps draw t t' t'' ca ica name h in ground arith
