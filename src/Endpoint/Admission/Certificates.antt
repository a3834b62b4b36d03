-- ===== src/Endpoint/Admission/Certificates.antt =====
-- What eap_validation.go reads of certificates, by encoding/pem and crypto/x509.
use soha_app.Base.{ℕ, String, Bool, Option, List}
use soha_app.Base.Errors.{Error}
use soha_app.Endpoint.Protocol.{Time}
use soha_app.Endpoint.Manager.State.{Answer}

-- encoding/pem's Block, and what follows it.
pub record PemBlock : Type 0 where
  pub kind : String
  pub headers : List String
  pub bytes : List ℕ
  pub rest : String

-- crypto/x509's CertificateRequest, with whether its signature holds and its key is of the curve P-256.
pub record CertificateRequest : Type 0 where
  pub public_key : List ℕ
  pub is_signed : Bool
  pub has_p256 : Bool

-- crypto/x509's Certificate.
pub record Certificate : Type 0 where
  pub raw : List ℕ
  pub public_key : List ℕ
  pub is_ca : Bool
  pub has_basic_constraints : Bool
  pub key_usage : ℕ
  pub common_name : String
  pub uris : List String
  pub dns_names : List String
  pub ip_addresses : List String
  pub email_addresses : List String
  pub ext_key_usage : List ℕ
  pub unknown_ext_key_usage : List String
  pub not_before : Time
  pub not_after : Time

-- encoding/pem, crypto/x509 and crypto/sha256.
pub record X509 : Type 0 where
  pub decode_pem : String → Option PemBlock
  pub parse_request : List ℕ → Answer CertificateRequest
  pub parse_certificate : List ℕ → Answer Certificate
  -- Verify of a certificate under one root, at a time, for client authentication
  pub verify : Certificate → Certificate → Time → Error
  -- The hexadecimal digest
  pub sha256 : List ℕ → String
