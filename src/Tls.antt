-- ===== src/Tls.antt =====
-- The certificate verifiers: `NoVerifier` of src/tls.rs, and the copy `RumqttcNoVerifier` of
-- src/mqtt.rs for the version of `rustls` that `rumqttc` uses. The handshake of `rustls` is a
-- parameter.
use bambu_rs.Prelude.{ℕ, ◌≡◌, ◌≢◌, refl, Bool, true, false, if◌then◌else◌, List, [], ◌∷◌, Bytes}
use bambu_rs.Outcome.{Outcome, ok}

-- The schemes that the verifiers name; `unknown` is any other, by its number.
pub data SignatureScheme : Type 0 where
  rsa_pkcs1_sha1 : SignatureScheme
  ecdsa_sha1_legacy : SignatureScheme
  rsa_pkcs1_sha256 : SignatureScheme
  ecdsa_nistp256_sha256 : SignatureScheme
  rsa_pkcs1_sha384 : SignatureScheme
  ecdsa_nistp384_sha384 : SignatureScheme
  rsa_pkcs1_sha512 : SignatureScheme
  ecdsa_nistp521_sha512 : SignatureScheme
  rsa_pss_sha256 : SignatureScheme
  rsa_pss_sha384 : SignatureScheme
  rsa_pss_sha512 : SignatureScheme
  ed25519 : SignatureScheme
  ed448 : SignatureScheme
  unknown : ℕ → SignatureScheme

pub record DigitallySignedStruct : Type 0 where
  pub scheme : SignatureScheme
  pub signature : Bytes

-- The trait of `rustls`. A certificate is its bytes, a name its text, and a time a number.
pub record ServerCertVerifier : Type 0 where
  pub verify_server_cert : Bytes → List Bytes → Bytes → Bytes → ℕ → Outcome (Unit {0})
  pub verify_tls12_signature : Bytes → Bytes → DigitallySignedStruct → Outcome (Unit {0})
  pub verify_tls13_signature : Bytes → Bytes → DigitallySignedStruct → Outcome (Unit {0})
  pub supported_verify_schemes : List SignatureScheme

-- `NoVerifier`
abbrev pub no_verifier : ServerCertVerifier
no_verifier = record {
  verify_server_cert = λ end_entity intermediates server_name ocsp_response now. ok tt;
  verify_tls12_signature = λ message cert dss. ok tt;
  verify_tls13_signature = λ message cert dss. ok tt;
  supported_verify_schemes =
      rsa_pkcs1_sha1 ∷ ecdsa_sha1_legacy ∷ rsa_pkcs1_sha256 ∷ ecdsa_nistp256_sha256
      ∷ rsa_pkcs1_sha384 ∷ ecdsa_nistp384_sha384 ∷ rsa_pkcs1_sha512 ∷ ecdsa_nistp521_sha512
      ∷ rsa_pss_sha256 ∷ rsa_pss_sha384 ∷ rsa_pss_sha512 ∷ ed25519 ∷ ed448 ∷ [];
}

-- `RumqttcNoVerifier`
abbrev pub rumqttc_no_verifier : ServerCertVerifier
rumqttc_no_verifier = record {
  verify_server_cert = λ end_entity intermediates server_name ocsp_response now. ok tt;
  verify_tls12_signature = λ message cert dss. ok tt;
  verify_tls13_signature = λ message cert dss. ok tt;
  supported_verify_schemes =
      rsa_pkcs1_sha1 ∷ ecdsa_sha1_legacy ∷ rsa_pkcs1_sha256 ∷ ecdsa_nistp256_sha256
      ∷ rsa_pkcs1_sha384 ∷ ecdsa_nistp384_sha384 ∷ rsa_pkcs1_sha512 ∷ ecdsa_nistp521_sha512
      ∷ rsa_pss_sha256 ∷ rsa_pss_sha384 ∷ rsa_pss_sha512 ∷ ed25519 ∷ ed448 ∷ [];
}

-- A server, as it shows itself in a handshake.
pub record Server : Type 0 where
  pub certificate : Bytes
  pub intermediates : List Bytes
  pub ocsp_response : Bytes
  pub transcript : Bytes
  pub proof : DigitallySignedStruct
  pub speaks_tls13 : Bool

-- `scheme` is offered.
pub data Offers (scheme : SignatureScheme) : List SignatureScheme → Type 0 where
  first : {schemes : List SignatureScheme} → Offers scheme (scheme ∷ schemes)
  later :
      {other : SignatureScheme} {schemes : List SignatureScheme}
      → Offers scheme schemes
      → Offers scheme (other ∷ schemes)

-- The proof that a server has the key of its certificate, by the version of TLS.
abbrev pub verify_signature : ServerCertVerifier → Server → Outcome (Unit {0})
verify_signature verifier server =
    if server.speaks_tls13
    then verifier.verify_tls13_signature server.transcript server.certificate server.proof
    else verifier.verify_tls12_signature server.transcript server.certificate server.proof

-- What `rustls` documents of a handshake, which is true when it succeeds: it succeeds if the verifier
-- takes the certificate for that name, and takes the proof, whose scheme it has offered.
abbrev pub IsRustls : (ServerCertVerifier → Bytes → ℕ → Server → Bool) → Type 0
IsRustls handshake =
    (verifier : ServerCertVerifier) (name : Bytes) (now : ℕ) (server : Server)
    → verifier.verify_server_cert server.certificate server.intermediates name server.ocsp_response
        now
      ≡ ok tt
    → verify_signature verifier server ≡ ok tt
    → Offers server.proof.scheme verifier.supported_verify_schemes
    → handshake verifier name now server ≡ true

abbrev pub IsKnown : SignatureScheme → Type 0
IsKnown scheme = (n : ℕ) → scheme ≢ unknown n

Offers-no_verifier :
    (scheme : SignatureScheme) → IsKnown scheme → Offers scheme no_verifier.supported_verify_schemes
Offers-no_verifier rsa_pkcs1_sha1 k = first
Offers-no_verifier ecdsa_sha1_legacy k = search (first, later) depth 14
Offers-no_verifier rsa_pkcs1_sha256 k = search (first, later) depth 14
Offers-no_verifier ecdsa_nistp256_sha256 k = search (first, later) depth 14
Offers-no_verifier rsa_pkcs1_sha384 k = search (first, later) depth 14
Offers-no_verifier ecdsa_nistp384_sha384 k = search (first, later) depth 14
Offers-no_verifier rsa_pkcs1_sha512 k = search (first, later) depth 14
Offers-no_verifier ecdsa_nistp521_sha512 k = search (first, later) depth 14
Offers-no_verifier rsa_pss_sha256 k = search (first, later) depth 14
Offers-no_verifier rsa_pss_sha384 k = search (first, later) depth 14
Offers-no_verifier rsa_pss_sha512 k = search (first, later) depth 14
Offers-no_verifier ed25519 k = search (first, later) depth 14
Offers-no_verifier ed448 k = search (first, later) depth 14
Offers-no_verifier (unknown n) k = absurd (k n refl)

Offers-rumqttc_no_verifier :
    (scheme : SignatureScheme)
    → IsKnown scheme
    → Offers scheme rumqttc_no_verifier.supported_verify_schemes
Offers-rumqttc_no_verifier rsa_pkcs1_sha1 k = first
Offers-rumqttc_no_verifier ecdsa_sha1_legacy k = search (first, later) depth 14
Offers-rumqttc_no_verifier rsa_pkcs1_sha256 k = search (first, later) depth 14
Offers-rumqttc_no_verifier ecdsa_nistp256_sha256 k = search (first, later) depth 14
Offers-rumqttc_no_verifier rsa_pkcs1_sha384 k = search (first, later) depth 14
Offers-rumqttc_no_verifier ecdsa_nistp384_sha384 k = search (first, later) depth 14
Offers-rumqttc_no_verifier rsa_pkcs1_sha512 k = search (first, later) depth 14
Offers-rumqttc_no_verifier ecdsa_nistp521_sha512 k = search (first, later) depth 14
Offers-rumqttc_no_verifier rsa_pss_sha256 k = search (first, later) depth 14
Offers-rumqttc_no_verifier rsa_pss_sha384 k = search (first, later) depth 14
Offers-rumqttc_no_verifier rsa_pss_sha512 k = search (first, later) depth 14
Offers-rumqttc_no_verifier ed25519 k = search (first, later) depth 14
Offers-rumqttc_no_verifier ed448 k = search (first, later) depth 14
Offers-rumqttc_no_verifier (unknown n) k = absurd (k n refl)

verify_signature-either :
    (verifier : ServerCertVerifier) (server : Server) (b : Bool)
    → verifier.verify_tls13_signature server.transcript server.certificate server.proof ≡ ok tt
    → verifier.verify_tls12_signature server.transcript server.certificate server.proof ≡ ok tt
    → (if b
        then verifier.verify_tls13_signature server.transcript server.certificate server.proof
        else verifier.verify_tls12_signature server.transcript server.certificate server.proof)
      ≡ ok tt
verify_signature-either verifier server true h k = h
verify_signature-either verifier server false h k = k

-- A server gets through a handshake with either verifier whatever its certificates, the name that was
-- asked for, the time and the proof of its key are, under both versions of TLS, if the proof is of a
-- scheme that the verifiers name.
pub handshake-any :
    (handshake : ServerCertVerifier → Bytes → ℕ → Server → Bool)
    → IsRustls handshake
    → (name : Bytes) (now : ℕ) (server : Server) → IsKnown server.proof.scheme
    → (handshake no_verifier name now server ≡ true)
      × (handshake rumqttc_no_verifier name now server ≡ true)
handshake-any handshake documented name now server known = (
  documented no_verifier name now server refl
      (verify_signature-either no_verifier server server.speaks_tls13 refl refl)
      (Offers-no_verifier server.proof.scheme known),
  documented rumqttc_no_verifier name now server refl
      (verify_signature-either rumqttc_no_verifier server server.speaks_tls13 refl refl)
      (Offers-rumqttc_no_verifier server.proof.scheme known),
)
