-- ===== src/Bootstrap/Certificates.antt =====
-- multicluster/bootstrap/certificates.go: a certificate authority, its intermediates and the
-- certificates that they sign. Times and durations are in nanoseconds; every time is later than the
-- grace period, so that the subtraction of the grace period from it is exact.
pub mod Windows
pub mod Loading
use locking.Prelude.{
  ℕ, ◌+◌, ◌-◌, ◌*◌, ◌^◌, String, Bool, true, false, List, [], ◌∷◌, ◌++◌, Option, none, some, ltb,
  ◌==◌, if◌then◌else◌,
}
use locking.Bootstrap.X509.{
  KeyUsage, digital_signature, key_encipherment, cert_sign, crl_sign, ExtKeyUsage, server_auth,
  client_auth, X509Certificate, Crypto, Draw,
}
use locking.Prelude.Result.{Error, Result, ok, err, text, ◌>>=◌, ◌>>◌, reject_if, wrap_err}

pub record CaCertificate (c : Crypto) : Type 0 where
  pub organization : String
  pub grace_period : ℕ
  pub certificate_expiration : ℕ
  pub intermediate_ca_expiration : ℕ
  pub cert : X509Certificate
  pub pk : c.Key
  pub pem : List ℕ
  pub private_key_pem : List ℕ

pub record Certificate : Type 0 where
  pub private_key : List ℕ
  pub certificate : List ℕ

pub record CaConfiguration : Type 0 where
  pub not_before_grace_period : ℕ
  pub ca_lifetime : ℕ
  pub intermediate_ca_lifetime : ℕ
  pub certificate_lifetime : ℕ

abbrev pub hour : ℕ
hour = 3600 * 10 ^ 9

abbrev pub year : ℕ
year = 365 * 24 * hour

abbrev default_to : ℕ → ℕ → ℕ
default_to d x = if x == 0 then d else x

abbrev empty_configuration : CaConfiguration
empty_configuration = record {
  not_before_grace_period = 0;
  ca_lifetime = 0;
  intermediate_ca_lifetime = 0;
  certificate_lifetime = 0;
}

abbrev given_or_empty : Option CaConfiguration → CaConfiguration
given_or_empty none = empty_configuration
given_or_empty (some g) = g

-- The defaults at the head of `GenerateCA` and of `LoadCA`.
unfoldable pub with_defaults : Option CaConfiguration → CaConfiguration
with_defaults given =
    let g = given_or_empty given in
    record {
      not_before_grace_period = default_to hour g.not_before_grace_period;
      ca_lifetime = default_to (10 * year) g.ca_lifetime;
      intermediate_ca_lifetime = default_to (5 * year) g.intermediate_ca_lifetime;
      certificate_lifetime = default_to year g.certificate_lifetime;
    }

abbrev pub expires_before : String
expires_before = "CA expires before certificate expiration time, cannot issue a new certificate"

abbrev or_fail {ℓ} : {A : Type ℓ} → Option A → String → Result A
or_fail none msg = err (text msg)
or_fail (some a) msg = ok a

abbrev first? {ℓ} : {A : Type ℓ} → List A → Option A
first? [] = none
first? (x ∷ _) = some x

module _ {c : Crypto} where
  -- The two checks that `Sign` and `Intermediate` share, for a lifetime from now on.
  unfoldable pub check_window : CaCertificate c → ℕ → ℕ → Result (Unit {0})
  check_window ca now lifetime = do
    reject_if (ltb (now - ca.grace_period) ca.cert.not_before)
        "CA is not valid prior to the certificate not before time, cannot issue a new certificate"
    reject_if (ltb ca.cert.not_after (now + lifetime)) expires_before

abbrev first_name : List String → String
first_name [] = ""
first_name (name ∷ _) = name

abbrev is_empty {ℓ} : {A : Type ℓ} → List A → Bool
is_empty [] = true
is_empty (_ ∷ _) = false

ca_template : ℕ → String → String → ℕ → ℕ → ℕ → X509Certificate
ca_template serial name org not_before not_after max_path_len = record {
  serial_number = serial;
  common_name = name;
  organization = org ∷ [];
  issuer_organization = [];
  not_before = not_before;
  not_after = not_after;
  key_usage = cert_sign ∷ crl_sign ∷ [];
  ext_key_usage = [];
  is_ca = true;
  max_path_len = max_path_len;
  dns_names = [];
  ip_addresses = [];
}

module _ (c : Crypto) where
  -- The loop that tells addresses from names, in order.
  unfoldable pub ips_of : List String → List String
  ips_of [] = []
  ips_of (name ∷ names) = let rest = ips_of names in if c.is_ip name then name ∷ rest else rest

  unfoldable pub dns_of : List String → List String
  dns_of [] = []
  dns_of (name ∷ names) = let rest = dns_of names in if c.is_ip name then rest else name ∷ rest

  unfoldable pub leaf_template : CaCertificate c → ℕ → ℕ → List String → X509Certificate
  unfolding ips_of dns_of
  leaf_template ca serial now names = record {
    serial_number = serial;
    common_name = first_name names;
    organization = ca.organization ∷ [];
    issuer_organization = [];
    not_before = now - ca.grace_period;
    not_after = now + ca.certificate_expiration;
    key_usage = digital_signature ∷ key_encipherment ∷ [];
    ext_key_usage = server_auth ∷ client_auth ∷ [];
    is_ca = false;
    max_path_len = 0;
    dns_names = dns_of names;
    ip_addresses = ips_of names;
  }

module _ {c : Crypto} where
  unfoldable pub sign : Draw c → ℕ → CaCertificate c → List String → Result Certificate
  sign draw now ca names = do
    reject_if (is_empty names) "must specify at least one name"
    check_window ca now ca.certificate_expiration
    priv ← wrap_err "generating key" draw.key
    serial ← wrap_err "generating serial number" draw.serial_number
    der ←
        wrap_err "creating certificate:"
          (c.create_certificate (leaf_template c ca serial now names) ca.cert priv ca.pk)
    key_bytes ← wrap_err "marshaling certificate:" (c.marshal_key priv)
    ok (record {
      private_key = c.pem_encode "EC PRIVATE KEY" key_bytes;
      certificate = c.pem_encode "CERTIFICATE" der;
    })

  -- `Intermediate`. The checks read the clock once, and the template reads it twice more; the new
  -- authority is given no grace period.
  unfoldable pub intermediate :
      Draw c → ℕ → ℕ → ℕ → CaCertificate c → String → Result (CaCertificate c)
  unfolding ca_template
  intermediate draw now now' now'' ca name = do
    check_window ca now ca.intermediate_ca_expiration
    priv ← wrap_err "generating key" draw.key
    serial ← wrap_err "generating serial number" draw.serial_number
    der ← wrap_err "creating certificate:" (
        c.create_certificate (ca_template serial name ca.organization now' (now'' + year) 0) ca.cert
          priv ca.pk)
    key_bytes ← wrap_err "marshaling certificate:" (c.marshal_key priv)
    cert ← wrap_err "parsing certificate:" (c.parse_certificate der)
    ok (record {
      organization = ca.organization;
      grace_period = 0;
      certificate_expiration = ca.certificate_expiration;
      intermediate_ca_expiration = ca.intermediate_ca_expiration;
      cert = cert;
      pk = priv;
      pem = c.pem_encode "CERTIFICATE" der;
      private_key_pem = c.pem_encode "EC PRIVATE KEY" key_bytes;
    })

  unfoldable pub generate_ca :
      Draw c → ℕ → String → String → Option CaConfiguration → Result (CaCertificate c)
  unfolding ca_template with_defaults
  generate_ca draw now organization name given = do
    let g = with_defaults given
    ca_key ← wrap_err "generating key" draw.key
    serial ← wrap_err "generating serial number" draw.serial_number
    let template =
        ca_template serial name organization (now - g.not_before_grace_period) (now + g.ca_lifetime)
          1
    der ← wrap_err "creating certificate:" (c.create_certificate template template ca_key ca_key)
    key_bytes ← wrap_err "marshaling certificate:" (c.marshal_key ca_key)
    cert ← wrap_err "parsing certificate:" (c.parse_certificate der)
    ok (record {
      organization = organization;
      grace_period = g.not_before_grace_period;
      certificate_expiration = g.certificate_lifetime;
      intermediate_ca_expiration = g.intermediate_ca_lifetime;
      cert = cert;
      pk = ca_key;
      pem = c.pem_encode "CERTIFICATE" der;
      private_key_pem = c.pem_encode "EC PRIVATE KEY" key_bytes;
    })

  unfoldable pub load_ca : List ℕ → List ℕ → Option CaConfiguration → Result (CaCertificate c)
  unfolding with_defaults
  load_ca cert_pem key_pem given = do
    let g = with_defaults given
    cert_block ← or_fail (c.pem_decode cert_pem) "invalid cert PEM block"
    key_block ← or_fail (c.pem_decode key_pem) "invalid key PEM block"
    cert ← wrap_err "parsing certificate" (c.parse_certificate cert_block)
    pk ← wrap_err "parsing private key" (c.parse_key key_block)
    organization ← or_fail (first? cert.issuer_organization) "no organzation found in certificate"
    ok (record {
      organization = organization;
      grace_period = g.not_before_grace_period;
      certificate_expiration = g.certificate_lifetime;
      intermediate_ca_expiration = g.intermediate_ca_lifetime;
      cert = cert;
      pk = pk;
      pem = cert_pem;
      private_key_pem = key_pem;
    })
