-- ===== src/Endpoint/Admission/Validation.antt =====
-- eap_validation.go, and eapCertificateHash of eap_cleanup.go: what certificates and profiles must be.
use Prim.Native.String
use soha_app.Base.{
  ℕ, ◌+◌, ◌/◌, ◌%◌, String, Bool, true, false, not, ◌&&◌, ◌||◌, Option, none, some, List, [], ◌∷◌,
  ltb, leb, ◌==◌, if◌then◌else◌, all, any, codes, blank, str_eq, contains, length, is_empty,
}
use soha_app.Base.Errors.{Error, fail, ok}
use soha_app.Netip.Print.{codes_eq}
use soha_app.Endpoint.Identifier.{matches_identifier}
use soha_app.Endpoint.Protocol.{AdmissionProfile, Time}
use soha_app.Endpoint.Manager.State.{Answer, got, refused}
use soha_app.Endpoint.Manager.Floor.{matches_digest}
use soha_app.Endpoint.Executor.Host.{valid_endpoint_host}
use soha_app.Endpoint.Proxy.Names.{byte_length, is_space}
use soha_app.Endpoint.Admission.Certificates.{Certificate, CertificateRequest, PemBlock, X509}
use soha_app.Endpoint.Admission.State.{EapCertificate}

-- 24*time.Hour
abbrev day : Time
day = 86400000000000

-- One block of the kind, without headers, and nothing behind it.
one_block : String → Option PemBlock → Option (List ℕ)
one_block kind none = none
one_block kind (some block) =
    if str_eq block.kind kind && is_empty block.headers && all is_space (codes block.rest)
    then some block.bytes
    else none

has_length : ℕ → String → Bool
has_length limit text = leb (byte_length (codes text)) limit

accept_request : Answer CertificateRequest → Answer CertificateRequest
accept_request (refused e) = refused "EAP CSR signature is invalid"
accept_request (got csr) =
    if not csr.is_signed
    then refused "EAP CSR signature is invalid"
    else if csr.has_p256
    then got csr
    else refused "EAP CSR requires a P-256 key"

-- x509.KeyUsageCertSign
signs_certificates : Certificate → Bool
signs_certificates c = c.key_usage / 32 % 2 == 1

is_issuer : Certificate → Bool
unfolding signs_certificates
is_issuer c = c.is_ca && c.has_basic_constraints && signs_certificates c

-- One use, that of x509.ExtKeyUsageClientAuth
is_client_auth : List ℕ → Bool
is_client_auth (usage ∷ []) = usage == 2
is_client_auth _ = false

is_only : String → List String → Bool
is_only text (t ∷ []) = str_eq t text
is_only text _ = false

-- The certificate is that of the endpoint, the subject and the key, for client authentication and a day at most.
unfoldable pub matches_endpoint :
    Certificate → CertificateRequest → EapCertificate → String → String → Time → Bool
unfolding is_client_auth is_only
matches_endpoint c csr result device_id subject now =
    codes_eq csr.public_key c.public_key
    && not c.is_ca
    && str_eq c.common_name subject
    && is_only (String.◌++◌ "spiffe://opensoha.local/network-eap/endpoint/" device_id) c.uris
    && is_empty c.dns_names
    && is_empty c.ip_addresses
    && is_empty c.email_addresses
    && is_client_auth c.ext_key_usage
    && is_empty c.unknown_ext_key_usage
    && c.key_usage == 1
    && c.not_after == result.expires_at
    && ltb now c.not_after
    && leb c.not_after (now + day)

-- strings.ToLower of the codes of a host name
lower_code : ℕ → ℕ
lower_code c = if leb b'A' c && leb c b'Z' then c + 32 else c

lower_codes : List ℕ → List ℕ
unfolding lower_code
lower_codes [] = []
lower_codes (c ∷ cs) = lower_code c ∷ lower_codes cs

was_seen : List (List ℕ) → List ℕ → Bool
was_seen [] cs = false
was_seen (ds ∷ seen) cs = codes_eq ds cs || was_seen seen cs

-- "*;\x00", and "\x00\r\n"
is_wildcard : ℕ → Bool
is_wildcard c = c == b'*' || c == b';' || c == 0

breaks_ssid : ℕ → Bool
breaks_ssid c = c == 0 || c == 13 || c == 10

valid_server_names : List (List ℕ) → List String → Bool
unfolding lower_codes was_seen is_wildcard has_length
valid_server_names seen [] = true
valid_server_names seen (name ∷ names) =
    has_length 253 name
    && valid_endpoint_host name
    && not (any is_wildcard (codes name))
    && not (was_seen seen (lower_codes (codes name)))
    && valid_server_names (lower_codes (codes name) ∷ seen) names

valid_medium : AdmissionProfile → Bool
valid_medium p =
    matches_identifier p.id
    && matches_identifier p.site_id
    && matches_identifier p.identity
    && (str_eq p.access_medium "wifi" || str_eq p.access_medium "wired")
    && (str_eq p.wifi_security "wpa2-enterprise" || str_eq p.wifi_security "wpa3-enterprise")
    && (blank p.client_certificate_fingerprint || matches_digest p.client_certificate_fingerprint)

-- A text is valid UTF-8.
valid_ssid : AdmissionProfile → Bool
unfolding breaks_ssid has_length
valid_ssid p =
    (not (str_eq p.access_medium "wifi")
      || not (blank p.ssid) && has_length 32 p.ssid && not (any breaks_ssid (codes p.ssid)))
    && (not (str_eq p.access_medium "wired") || blank p.ssid)

has_trust : AdmissionProfile → Bool
has_trust p =
    leb 1 (length p.server_names)
    && leb (length p.server_names) 16
    && leb 1 (length p.ca_certificates)
    && leb (length p.ca_certificates) 8

module _ (x : X509) where
  request_of : Option (List ℕ) → Answer CertificateRequest
  unfolding accept_request
  request_of none = refused "EAP CSR must contain one public certificate request"
  request_of (some bytes) = accept_request (x.parse_request bytes)

  -- parseEAPCSR
  unfoldable pub parse_eap_csr : String → Answer CertificateRequest
  unfolding request_of one_block has_length
  parse_eap_csr raw =
      request_of
        (if has_length 4096 raw then one_block "CERTIFICATE REQUEST" (x.decode_pem raw) else none)

  certificate_of_block : Option (List ℕ) → Answer Certificate
  certificate_of_block none = refused "EAP certificate must contain one public certificate"
  certificate_of_block (some bytes) = x.parse_certificate bytes

  -- parseEAPCertificate
  unfoldable pub parse_eap_certificate : String → Answer Certificate
  unfolding certificate_of_block one_block has_length
  parse_eap_certificate raw =
      certificate_of_block
        (if has_length 16384 raw then one_block "CERTIFICATE" (x.decode_pem raw) else none)

  digest_of : Answer Certificate → String
  digest_of (refused e) = ""
  digest_of (got c) = x.sha256 c.raw

  -- eapCertificateHash
  unfoldable pub eap_certificate_hash : String → String
  unfolding digest_of
  eap_certificate_hash encoded = digest_of (parse_eap_certificate encoded)

  check_identity :
      CertificateRequest
      → Certificate
      → Certificate
      → EapCertificate
      → String
      → String
      → Time
      → Error
  check_identity csr c ca result device_id subject now =
      if not (matches_endpoint c csr result device_id subject now)
      then fail "EAP certificate does not match the endpoint identity, key or lifetime"
      else if not (str_eq result.fingerprint (String.◌++◌ "sha256:" (x.sha256 c.raw)))
      then fail "EAP certificate fingerprint does not match"
      else x.verify c ca now

  check_issuer :
      CertificateRequest
      → Certificate
      → Answer Certificate
      → EapCertificate
      → String
      → String
      → Time
      → Error
  unfolding is_issuer check_identity
  check_issuer csr c (refused e) result device_id subject now =
      fail "EAP issuer certificate is invalid"
  check_issuer csr c (got ca) result device_id subject now =
      if is_issuer ca
      then check_identity csr c ca result device_id subject now
      else fail "EAP issuer certificate is invalid"

  check_issued :
      Answer CertificateRequest
      → Answer Certificate
      → EapCertificate
      → String
      → String
      → Time
      → Error
  unfolding check_issuer
  check_issued (refused e) certificate result device_id subject now = fail e
  check_issued (got csr) (refused e) result device_id subject now = fail e
  check_issued (got csr) (got c) result device_id subject now =
      check_issuer csr c (parse_eap_certificate result.ca_certificate_pem) result device_id subject
        now

  -- validateEAPCertificate
  unfoldable pub validate_eap_certificate : EapCertificate → String → String → String → Time → Error
  unfolding check_issued
  validate_eap_certificate result csr_pem device_id subject now =
      check_issued (parse_eap_csr csr_pem) (parse_eap_certificate result.certificate_pem) result
        device_id subject now

  valid_issuer : Answer Certificate → Time → Bool
  unfolding is_issuer
  valid_issuer (refused e) now = false
  valid_issuer (got ca) now = is_issuer ca && leb ca.not_before now && ltb now ca.not_after

  valid_issuers : Time → List String → List String → Bool
  unfolding valid_issuer
  valid_issuers now seen [] = true
  valid_issuers now seen (raw ∷ rest) =
      valid_issuer (parse_eap_certificate raw) now
      && not (contains seen raw)
      && valid_issuers now (raw ∷ seen) rest

  -- validateAdmissionProfile
  unfoldable pub validate_admission_profile : AdmissionProfile → Time → Error
  unfolding valid_medium valid_ssid has_trust valid_server_names valid_issuers
  validate_admission_profile p now =
      if not (valid_medium p)
      then fail "admission profile identity or medium is invalid"
      else if not (valid_ssid p)
      then fail "admission profile SSID is invalid"
      else if not (has_trust p)
      then fail "admission profile server trust is incomplete"
      else if not (valid_server_names [] p.server_names)
      then fail "admission profile requires exact unique server DNS names"
      else if valid_issuers now [] p.ca_certificates
      then ok
      else fail "admission profile CA is invalid, duplicate or expired"
