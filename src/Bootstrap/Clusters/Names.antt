-- ===== src/Bootstrap/Clusters/Names.antt =====
-- The names of the secrets that multicluster/bootstrap/bootstraper.go writes do not collide.
use Prim.Native.String.{◌++◌ as str_append, count}
use text.Mathlib.TextLemmas.{
  append_assoc, append_cancel_left, append_cancel_right, append_inj, length-append,
  append-ne-nil_of_right_ne-nil, append-eq-nil_iff,
}
use locking.Prelude.{String, ◌≡◌, refl, sym, ap, ◌∙◌, ◌≢◌, str_eq_ne, eq_iff, arith}
use locking.Bootstrap.Secrets.{default_to, default_service_account_name}
use locking.Bootstrap.Flags.{RemoteConfiguration, BootstrapClusterConfiguration}
use locking.Bootstrap.Clusters.{secret_name}

-- The names in full, with the default in place of an empty one.
abbrev pub kubeconfig_name : BootstrapClusterConfiguration → RemoteConfiguration → String
kubeconfig_name config of =
    str_append (default_to default_service_account_name (secret_name config of)) "-kubeconfig"

abbrev pub tls_name : BootstrapClusterConfiguration → String
tls_name config =
    str_append (default_to default_service_account_name config.service_name) "-certificates"

secret_name-ne-empty :
    (config : BootstrapClusterConfiguration) (of : RemoteConfiguration) → secret_name config of ≢ ""
secret_name-ne-empty config of =
    append-ne-nil_of_right_ne-nil config.service_name
      (λ e. cc ((eq_iff "-" "").1 ((append-eq-nil_iff {p = "-"} {q = of.context_name}).0 e).0))

default_to-full : (d s : String) → s ≢ "" → default_to d s ≡ s
default_to-full d s h = rw (str_eq_ne s "" h) refl

pub kubeconfig_name-injective :
    (config : BootstrapClusterConfiguration) (a b : RemoteConfiguration)
    → kubeconfig_name config a ≡ kubeconfig_name config b
    → a.context_name ≡ b.context_name
kubeconfig_name-injective config a b h =
    let same = append_cancel_right _ _ "-kubeconfig" h in
    let plain : secret_name config a ≡ secret_name config b =
      sym (
        default_to-full default_service_account_name (secret_name config a)
          (secret_name-ne-empty config a))
      ∙ same
      ∙ default_to-full default_service_account_name (secret_name config b)
          (secret_name-ne-empty config b) in
    append_cancel_left "-" a.context_name b.context_name
      (append_cancel_left config.service_name _ _ plain)

last-ne : (p q : String) → str_append p "g" ≢ str_append q "s"
last-ne p q h =
    let lengths = sym (length-append p "g") ∙ ap count h ∙ length-append q "s" in
    let tails = (append_inj {s₁ = p} {s₂ = q} {t₁ = "g"} {t₂ = "s"} h (omega (arith, lengths))).1 in
    cc ((eq_iff "g" "s").1 tails)

endings-ne : (p q : String) → str_append p "-kubeconfig" ≢ str_append q "-certificates"
endings-ne p q h =
    last-ne (str_append p "-kubeconfi") (str_append q "-certificate")
      (append_assoc p "-kubeconfi" "g" ∙ h ∙ sym (append_assoc q "-certificate" "s"))

pub kubeconfig_name-ne-tls_name :
    (config : BootstrapClusterConfiguration) (of : RemoteConfiguration)
    → kubeconfig_name config of ≢ tls_name config
kubeconfig_name-ne-tls_name config of = endings-ne _ _
