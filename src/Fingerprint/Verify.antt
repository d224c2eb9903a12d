-- ===== src/Fingerprint/Verify.antt =====
-- The verification of a server's certificate in crates/hydr-transport/src/tls.rs. SHA-256 and the
-- verification against the roots of webpki are parameters.
use hydr.Base.{
  ℕ, ◌≡◌, ◌↔◌, refl, List, Bool, true, false, Option, none, some, ◌&&◌, not, length, All,
  if◌then◌else◌,
}
use hydr.Base.Results.{Text, ok}
use hydr.Base.Sets.{list_beq, list_beq_iff, nat_eq}
use hydr.Varint.Bytes.{IsByte}
use hydr.Fingerprint.{hex_encode, require_fingerprint}
use hydr.Fingerprint.RoundTrip.{parse_fingerprint-hex_encode}

-- The parts of `rustls::ClientConfig` that are set: whether the public roots are trusted, and the verifier
-- that takes the place of rustls' own, with its pin.
pub record ClientTls : Type 0 where
  pub trusts_roots : Bool
  pub custom_verifier : Option (Option (List ℕ))

unfoldable pub make_client_config_with_pin : Bool → Option (List ℕ) → ClientTls
make_client_config_with_pin insecure (some pin) = record {
  trusts_roots = false;
  custom_verifier = some (some pin);
}
make_client_config_with_pin insecure none = record {
  trusts_roots = not insecure;
  custom_verifier = if insecure then some none else none;
}

module _ (sha256 : List ℕ → List ℕ) where
  unfoldable pub cert_fingerprint : List ℕ → List ℕ
  cert_fingerprint cert = sha256 cert

  unfoldable pub cert_fingerprint_hex : List ℕ → Text
  unfolding cert_fingerprint
  cert_fingerprint_hex cert = hex_encode (cert_fingerprint cert)

  -- `CustomVerifier::verify_server_cert`
  unfoldable pub verify_server_cert : Option (List ℕ) → List ℕ → Bool
  unfolding cert_fingerprint
  verify_server_cert none cert = true
  verify_server_cert (some pin) cert = list_beq (cert_fingerprint cert) pin

  -- What rustls asks of a certificate under a configuration.
  unfoldable pub accepts : (List ℕ → Bool) → ClientTls → List ℕ → Bool
  unfolding verify_server_cert
  accepts webpki cfg cert = elim cfg.custom_verifier [
    | none ↦ cfg.trusts_roots && webpki cert
    | some pin ↦ verify_server_cert pin cert
  ]

  -- A client that is given the fingerprint which a server prints accepts exactly the certificates with the hash of the
  -- server's, also where it is told to be insecure, and whatever the public roots say. The hash has 32 bytes.
  pub accepts-cert_fingerprint_hex :
      (webpki : List ℕ → Bool) (insecure : Bool) (cert other : List ℕ)
      → length (sha256 cert) ≡ 32
      → All IsByte (sha256 cert)
      → (require_fingerprint (some (cert_fingerprint_hex cert)) ≡ ok (some (sha256 cert)))
        × ((accepts webpki (make_client_config_with_pin insecure (some (sha256 cert))) other ≡ true)
            ↔ (sha256 other ≡ sha256 cert))
  unfolding require_fingerprint cert_fingerprint_hex cert_fingerprint accepts
      make_client_config_with_pin verify_server_cert
  accepts-cert_fingerprint_hex webpki insecure cert other h bytes = (
    rw (parse_fingerprint-hex_encode (sha256 cert) h bytes, require_fingerprint) refl,
    list_beq_iff (sha256 other) (sha256 cert),
  )
