-- ===== src/Bootstrap/Certificates/Loading.antt =====
-- Certificate authorities through their files: `LoadCA` after `GenerateCA`.
use locking.Prelude.{ℕ, ◌≡◌, subst, ◌+◌, ◌-◌, String, List, [], ◌∷◌, Option, some}
use locking.Prelude.Result.{ok, wrapped-eq-ok, ok-injective}
use locking.Bootstrap.Certificates.{
  CaCertificate, CaConfiguration, ca_template, with_defaults, generate_ca, load_ca,
}
use locking.Bootstrap.X509.{Crypto, Draw, X509Certificate}

-- PEM and EC keys read back as they were written, and a self-signed certificate names its own subject
-- as its issuer.
pub record Codec (c : Crypto) : Type 0 where
  pub pem_decodes : (kind : String) (b : List ℕ) → c.pem_decode (c.pem_encode kind b) ≡ some b
  pub key_parses : (k : c.Key) (b : List ℕ) → c.marshal_key k ≡ ok b → c.parse_key b ≡ ok k
  pub self_issued :
      (t cert : X509Certificate) (k : c.Key) (der : List ℕ)
      → c.create_certificate t t k k ≡ ok der
      → c.parse_certificate der ≡ ok cert
      → cert.issuer_organization ≡ t.organization

-- The authority that `GenerateCA` builds at its end.
abbrev authority :
    (c : Crypto)
    → String
    → CaConfiguration
    → X509Certificate
    → c.Key
    → List ℕ
    → List ℕ
    → CaCertificate c
authority c organization g cert k der key_bytes = record {
  organization = organization;
  grace_period = g.not_before_grace_period;
  certificate_expiration = g.certificate_lifetime;
  intermediate_ca_expiration = g.intermediate_ca_lifetime;
  cert = cert;
  pk = k;
  pem = c.pem_encode "CERTIFICATE" der;
  private_key_pem = c.pem_encode "EC PRIVATE KEY" key_bytes;
}

load_ca-authority :
    {c : Crypto} (codec : Codec c) (organization : String) (given : Option CaConfiguration)
    (cert : X509Certificate) (k : c.Key) (der key_bytes : List ℕ)
    → c.parse_certificate der ≡ ok cert
    → c.parse_key key_bytes ≡ ok k
    → cert.issuer_organization ≡ organization ∷ []
    → load_ca (c.pem_encode "CERTIFICATE" der) (c.pem_encode "EC PRIVATE KEY" key_bytes) given
      ≡ ok (authority c organization (with_defaults given) cert k der key_bytes)
unfolding load_ca
load_ca-authority codec organization given cert k der key_bytes pc pk issued = rw (
  codec.pem_decodes "CERTIFICATE" der,
  pc,
  codec.pem_decodes "EC PRIVATE KEY" key_bytes,
  pk,
  issued,
)

-- With a codec that reads back what it writes, an authority that was generated comes back unchanged
-- from its two files, if it is loaded with the configuration that it was generated with.
pub load_ca-generate_ca :
    {c : Crypto} (codec : Codec c) (draw : Draw c) (now : ℕ) (organization name : String)
    (given : Option CaConfiguration) (ca : CaCertificate c)
    → generate_ca draw now organization name given ≡ ok ca
    → load_ca ca.pem ca.private_key_pem given ≡ ok ca
unfolding generate_ca load_ca
load_ca-generate_ca {c} codec draw now organization name given ca h =
    let (k, ek, h1) = wrapped-eq-ok "generating key" draw.key _ h in
    let (serial, es, h2) = wrapped-eq-ok "generating serial number" draw.serial_number _ h1 in
    let g = with_defaults given in
    let t =
      ca_template serial name organization (now - g.not_before_grace_period) (now + g.ca_lifetime)
        1 in
    let (der, ed, h3) = wrapped-eq-ok _ (c.create_certificate t t k k) _ h2 in
    let (kb, eb, h4) = wrapped-eq-ok _ (c.marshal_key k) _ h3 in
    let (cert, ec, h5) = wrapped-eq-ok _ (c.parse_certificate der) _ h4 in
    let built : authority c organization g cert k der kb ≡ ca = ok-injective h5 in
    subst (λ a. load_ca a.pem a.private_key_pem given ≡ ok a) built
      (load_ca-authority codec organization given cert k der kb ec (codec.key_parses k kb eb)
        (codec.self_issued t cert k der ed ec))
