-- ===== src/Bootstrap/Examples.antt =====
-- A toy codec in which a key is a number and a certificate is its window in seconds, and an authority
-- under it that is generated, loaded, and signs.
use locking.Prelude.{
  ℕ, ◌-◌, not, ◌+◌, ◌*◌, ◌/◌, ◌^◌, ◌≤◌, ◌≡◌, refl, String, Bool, true, false, List, [], ◌∷◌, Option,
  none, some, arith, str_eq, eq_iff, sym, ap, ◌∙◌, if◌then◌else◌,
}
use locking.Prelude.Result.{text, foreign, Result, ok, err, ok-injective}
use locking.Bootstrap.Certificates.{
  CaCertificate, Certificate, year, hour, expires_before, check_window, sign, intermediate,
  generate_ca, load_ca, leaf_template,
}
use locking.Bootstrap.X509.{Crypto, Draw, X509Certificate}
use locking.Bootstrap.Certificates.Windows.{those, KeepsWindow, sign-window, intermediate-sign}
use locking.Bootstrap.Certificates.Loading.{Codec, load_ca-generate_ca}

abbrev second : ℕ
second = 10 ^ 9

abbrev toy_certificate : ℕ → ℕ → X509Certificate
toy_certificate from to = record {
  serial_number = 1;
  common_name = "root";
  organization = "operator" ∷ [];
  issuer_organization = "operator" ∷ [];
  not_before = from * second;
  not_after = to * second;
  key_usage = [];
  ext_key_usage = [];
  is_ca = true;
  max_path_len = 1;
  dns_names = [];
  ip_addresses = [];
}

abbrev is_operator : List String → Bool
is_operator (org ∷ []) = str_eq org "operator"
is_operator _ = false

abbrev toy_create : X509Certificate → X509Certificate → ℕ → ℕ → Result (List ℕ)
toy_create t parent k signer =
    if is_operator t.organization
    then ok (t.not_before / second ∷ t.not_after / second ∷ [])
    else err (foreign 3)

abbrev toy_parse : List ℕ → Result X509Certificate
toy_parse (from ∷ to ∷ []) = ok (toy_certificate from to)
toy_parse _ = err (foreign 1)

abbrev toy_parse_key : List ℕ → Result ℕ
toy_parse_key (k ∷ []) = ok k
toy_parse_key _ = err (foreign 2)

abbrev toy_decode : List ℕ → Option (List ℕ)
toy_decode (_ ∷ b) = some b
toy_decode _ = none

abbrev pub toy : Crypto
toy = record {
  Key = ℕ;
  create_certificate = toy_create;
  parse_certificate = toy_parse;
  marshal_key = λ k. ok (k ∷ []);
  parse_key = toy_parse_key;
  pem_encode = λ _ b. 45 ∷ b;
  pem_decode = toy_decode;
  is_ip = λ _. false;
}

toy-KeepsWindow : KeepsWindow toy
toy-KeepsWindow t parent cert k signer der created parsed = ground arith

is_operator-true : (org : List String) → is_operator org ≡ true → "operator" ∷ [] ≡ org
is_operator-true [] h = cc
is_operator-true (o ∷ []) h = ap (λ x. x ∷ []) (sym ((eq_iff o "operator").0 h))
is_operator-true (o ∷ o' ∷ os) h = cc

toy_parse-issuer :
    (der : List ℕ) (cert : X509Certificate)
    → toy_parse der ≡ ok cert
    → cert.issuer_organization ≡ "operator" ∷ []
toy_parse-issuer [] cert h = cc
toy_parse-issuer (a ∷ []) cert h = cc
toy_parse-issuer (a ∷ b ∷ []) cert h = ap (λ x. x.issuer_organization) (sym (ok-injective h))
toy_parse-issuer (a ∷ b ∷ d ∷ ds) cert h = cc

toy_create-operator :
    (t parent : X509Certificate) (k signer : ℕ) (der : List ℕ)
    → toy_create t parent k signer ≡ ok der
    → is_operator t.organization ≡ true
toy_create-operator t parent k signer der h = ground arith

toy-codec : Codec toy
toy-codec = record {
  pem_decodes = λ kind b. refl;
  key_parses = λ k b h. ap toy_parse_key (sym (ok-injective h));
  self_issued = λ t cert k der created parsed.
      toy_parse-issuer der cert parsed
      ∙ is_operator-true t.organization (toy_create-operator t t k k der created);
}

abbrev pub drawn : Draw toy
drawn = record { key = ok 5; serial_number = ok 9 }

-- Two hours after the epoch.
abbrev pub noon : ℕ
noon = 2 * hour

abbrev pub root : CaCertificate toy
root = record {
  organization = "operator";
  grace_period = hour;
  certificate_expiration = year;
  intermediate_ca_expiration = 5 * year;
  cert = toy_certificate 3600 315367200;
  pk = 5;
  pem = 45 ∷ 3600 ∷ 315367200 ∷ [];
  private_key_pem = 45 ∷ 5 ∷ [];
}

generate_ca-root : generate_ca drawn noon "operator" "root" none ≡ ok root
unfolding generate_ca
generate_ca-root = refl

abbrev middle : CaCertificate toy
middle = record {
  organization = "operator";
  grace_period = 0;
  certificate_expiration = year;
  intermediate_ca_expiration = 5 * year;
  cert = toy_certificate 7200 31543200;
  pk = 5;
  pem = 45 ∷ 7200 ∷ 31543200 ∷ [];
  private_key_pem = 45 ∷ 5 ∷ [];
}

intermediate-root : intermediate drawn noon noon noon root "middle" ≡ ok middle
unfolding intermediate check_window
intermediate-root = refl

abbrev pub leaf : Certificate
leaf = record { private_key = 45 ∷ 5 ∷ []; certificate = 45 ∷ 3600 ∷ 31543200 ∷ [] }

sign-root : sign drawn noon root ("node" ∷ []) ≡ ok leaf
unfolding sign check_window leaf_template
sign-root = refl

sign-window_example :
    (t : X509Certificate) × (priv : ℕ) × (der : List ℕ) × (toy_create t root.cert priv 5 ≡ ok der)
    × (leaf.certificate ≡ 45 ∷ der)
    × (t.ip_addresses ≡ those toy.is_ip ("node" ∷ []))
    × (t.dns_names ≡ those (λ name. not (toy.is_ip name)) ("node" ∷ []))
    × (some "node" ≡ some t.common_name)
    × (t.not_before ≡ noon - hour)
    × (t.not_after ≡ noon + year)
    × (root.cert.not_before ≤ t.not_before)
    × (t.not_after ≤ root.cert.not_after)
sign-window_example = sign-window drawn noon root ("node" ∷ []) leaf sign-root

intermediate-sign_example : sign drawn (3 * hour) middle ("node" ∷ []) ≡ err (text expires_before)
intermediate-sign_example =
    intermediate-sign toy-KeepsWindow drawn drawn noon noon noon (3 * hour) root middle "middle"
      "node" [] intermediate-root (omega arith) (omega arith) (omega arith)

load_ca-generate_ca_example : load_ca {c = toy} root.pem root.private_key_pem none ≡ ok root
load_ca-generate_ca_example =
    load_ca-generate_ca toy-codec drawn noon "operator" "root" none root generate_ca-root
