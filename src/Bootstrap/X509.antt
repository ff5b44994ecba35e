-- ===== src/Bootstrap/X509.antt =====
-- What multicluster/bootstrap/certificates.go uses of crypto/x509, crypto/ecdsa, encoding/pem and net.
use locking.Prelude.{ℕ, String, Bool, List, Option}
use locking.Prelude.Result.{Result}

pub data KeyUsage : Type 0 where
  digital_signature key_encipherment cert_sign crl_sign : KeyUsage

pub data ExtKeyUsage : Type 0 where
  server_auth client_auth : ExtKeyUsage

-- `x509.Certificate`, as a template and as a parsed certificate, in the fields that the program uses.
pub record X509Certificate : Type 0 where
  pub serial_number : ℕ
  pub common_name : String
  pub organization : List String
  pub issuer_organization : List String
  pub not_before : ℕ
  pub not_after : ℕ
  pub key_usage : List KeyUsage
  pub ext_key_usage : List ExtKeyUsage
  pub is_ca : Bool
  pub max_path_len : ℕ
  pub dns_names : List String
  pub ip_addresses : List String

-- What the program calls. A parent signs with its key:
-- `create_certificate template parent subject_key signer_key`.
pub record Crypto : Type 1 where
  pub Key : Type 0
  pub create_certificate : X509Certificate → X509Certificate → Key → Key → Result (List ℕ)
  pub parse_certificate : List ℕ → Result X509Certificate
  pub marshal_key : Key → Result (List ℕ)
  pub parse_key : List ℕ → Result Key
  pub pem_encode : String → List ℕ → List ℕ
  pub pem_decode : List ℕ → Option (List ℕ)
  pub is_ip : String → Bool

-- What the random source gives to one call.
pub record Draw (c : Crypto) : Type 0 where
  pub key : Result c.Key
  pub serial_number : Result ℕ
