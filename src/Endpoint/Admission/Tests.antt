-- ===== src/Endpoint/Admission/Tests.antt =====
-- eap_manager.go: an identity from its preparation to a connection, and what fails on the way.
use soha_app.Base.{
  String, List, none, true, false, ◌≡◌, ◌⊎◌, some, [], ◌∷◌, ap, ◌==◌, if◌then◌else◌, refl, arith,
  str_eq, codes, blank, length,
}
use soha_app.Base.Errors.{fail, Error, ok}
use soha_app.Endpoint.Protocol.{AdmissionConfiguration, AdmissionProfile}
use soha_app.Endpoint.Manager.State.{got}
use soha_app.Endpoint.Admission.Certificates.{Certificate, X509}
use soha_app.Endpoint.Admission.State.{
  AdmissionManager, EapAdapter, EapCleanup, EapSelection, EapCertificate, EapHistory, EapState,
  EapSystem, certified, current_profile, state_saved, active_current, current_certificate,
  current_with, eap_profile_hash, is_unchanged, prior_eq,
}
use soha_app.Netip.Print.{codes_eq}
use soha_app.Netip.Parse.{parse_ip, parse_addr, parse_addr_codes, ipv4_from}
use soha_app.Endpoint.Identifier.{matches_identifier}
use soha_app.Endpoint.Executor.Host.{valid_endpoint_host}
use soha_app.Endpoint.Proxy.Names.{byte_length}
use soha_app.Endpoint.Admission.Validation.{
  matches_endpoint, parse_eap_certificate, parse_eap_csr, validate_admission_profile,
  validate_eap_certificate,
}
use soha_app.Endpoint.Admission.Store.{
  detach_selection, queue_artifacts, queue_cleanup, queue_identity, recover_artifacts, save,
}
use soha_app.Endpoint.Admission.Identity.{drop_stale, ensure_identity, join_saved, lasts, stage}
use soha_app.Endpoint.Admission.Changes.{conflicts, find_adapter, is_selected}
use soha_app.Endpoint.Admission.Keys.{has_key, owes}
use soha_app.Endpoint.Admission.Opening.{initial_state, opened_manager}
use soha_app.Endpoint.Admission.Observation.{observe, observe_with}
use soha_app.Endpoint.Admission.Preparation.{prepare}
use soha_app.Endpoint.Admission.Removal.Releases.{IsReleased, Removes, remove_profile-Releases}
use soha_app.Endpoint.Admission.Store.Drains.{Works}
use soha_app.Endpoint.Admission.Removal.{check_selections, remove_profile}
use soha_app.Endpoint.Admission.Checking.{check_admission}
use soha_app.Endpoint.Admission.Connection.{connect_admission}
use soha_app.Endpoint.Admission.Connection.Authorized.{
  IsConnected, IsRefused, connect_admission-Connected,
}
use soha_app.Endpoint.Admission.Observation.Outcome.{IsClosed, IsObserved, observe-Outcome}
use soha_app.Endpoint.Admission.Runs.{Run-keys, next, starts, observes, prepares}

abbrev leaf : Certificate
leaf = record {
  raw = 1 ∷ [];
  public_key = 7 ∷ [];
  is_ca = false;
  has_basic_constraints = true;
  key_usage = 1;
  common_name = "anna";
  uris = "spiffe://opensoha.local/network-eap/endpoint/device" ∷ [];
  dns_names = [];
  ip_addresses = [];
  email_addresses = [];
  ext_key_usage = 2 ∷ [];
  unknown_ext_key_usage = [];
  not_before = 0;
  not_after = 7200000001000;
}

abbrev issuer : Certificate
issuer = record leaf { raw = 2 ∷ []; is_ca = true; key_usage = 32 }

abbrev x509 : X509
x509 = record {
  decode_pem = λ raw. some (record {
    kind = if str_eq raw "csr" then "CERTIFICATE REQUEST" else "CERTIFICATE";
    headers = [];
    bytes = codes raw;
    rest = "";
  });
  parse_request = λ bytes. got (record { public_key = 7 ∷ []; is_signed = true; has_p256 = true });
  parse_certificate = λ bytes. got (if length bytes == 4 then leaf else issuer);
  verify = λ c ca now. ok;
  sha256 = λ bytes. "digest";
}

abbrev certificate : EapCertificate
certificate = record {
  credential_id = "credential";
  certificate_pem = "leaf";
  ca_certificate_pem = "issuer";
  fingerprint = "sha256:digest";
  expires_at = 7200000001000;
  status = "issued";
}

abbrev adapter : EapAdapter
adapter = record {
  id = "wlan0";
  name = "Wi-Fi";
  medium = "wifi";
  mac_address = "";
  ethernet_position = 0;
  enabled = true;
  link_up = true;
}

-- Every call succeeds, the disk as long as `works` says.
abbrev system : (EapHistory → EapState → Error) → EapSystem
system works = record {
  now = λ h. 1000;
  random_id = λ h. "request";
  adapters = λ h. got (adapter ∷ []);
  create_csr = λ h request. got "csr";
  issue = λ h request csr device subject. certified certificate;
  activate = λ h credential fingerprint. certified (record {
    credential_id = "credential";
    fingerprint = "sha256:digest";
    expires_at = 7200000001000;
    status = "active";
  });
  stage = λ h request profile c a.
      got (record { artifact = record { path = ""; sha256 = "" }; identity_sha256 = "" });
  readback = λ h request profile c a. ok;
  remove = λ h profile a identities. ok;
  connect = λ h request profile c a. ok;
  cleanup = λ h job. ok;
  recover_artifacts = λ h artifacts. ok;
  write = works;
  profile_digest = λ profile. profile.id;
  x509 = x509;
}

abbrev env : EapSystem
env = system (λ h s. ok)

abbrev profile : AdmissionProfile
profile = record {
  id = "office";
  site_id = "site";
  access_medium = "wifi";
  ssid = "Office";
  identity = "anna";
  server_names = "radius.example" ∷ [];
  ca_certificates = "issuer" ∷ [];
  wifi_security = "wpa3-enterprise";
  client_certificate_fingerprint = "";
}

abbrev configuration : AdmissionConfiguration
configuration = record { profiles = profile ∷ []; restriction_epoch = 3 }

abbrev begun : AdmissionManager
begun = opened_manager (initial_state "device") []

-- The state that Observe leaves, and the manager that it leaves.
abbrev observed_state : EapState
observed_state = record begun.state { epoch = 3 }

abbrev observed : AdmissionManager
observed = record begun {
  state = observed_state;
  saved = observed_state;
  profiles = profile ∷ [];
  valid_until = 9000;
  observed_at = 500;
  history = state_saved observed_state ok ∷ [];
}

observed_is : observe env (some configuration) 9000 500 begun ≡ (ok, observed)
unfolding observe_with save validate_admission_profile matches_identifier str_eq blank byte_length
    valid_endpoint_host parse_ip parse_addr parse_addr_codes ipv4_from parse_eap_certificate
observed_is = refl

-- A preparation of the observed profile creates the key, and gets a certificate for it.
prepared_key : has_key "request" (prepare env "office" "wlan0" observed).1.history ≡ true
unfolding prepare has_key current_profile str_eq blank ensure_identity validate_eap_certificate
    parse_eap_csr parse_eap_certificate conflicts find_adapter is_selected drop_stale join_saved
    lasts stage active_current current_certificate current_with eap_profile_hash is_unchanged
    prior_eq queue_artifacts queue_cleanup queue_identity recover_artifacts save matches_endpoint
    byte_length codes_eq
prepared_key = refl

named_request : blank "request" ≡ false
unfolding blank
named_request = refl

run_key :
    has_key "request"
      (prepare env "office" "wlan0" (observe env (some configuration) 9000 500 begun).1).1.history
    ≡ true
run_key = rw (ap (λ (r : Error × AdmissionManager). r.1) observed_is) prepared_key

Run-keys_example :
    (owes "request"
        (prepare env "office" "wlan0" (observe env (some configuration) 9000 500 begun).1).1.state
      ≡ true)
    × (owes "request"
          (prepare env "office" "wlan0" (observe env (some configuration) 9000 500 begun).1).1.saved
        ≡ true)
Run-keys_example =
    Run-keys env "device" "request" (initial_state "device")
      (prepare env "office" "wlan0" (observe env (some configuration) 9000 500 begun).1).1
      named_request
      (next (next starts (observes (some configuration) 9000 500)) (prepares "office" "wlan0"))
      run_key

observe-Outcome_example :
    IsObserved env begun
      (some configuration)
      9000
      500
      (observe env (some configuration) 9000 500 begun)
    ⊎ IsClosed env begun (observe env (some configuration) 9000 500 begun)
observe-Outcome_example = observe-Outcome env begun (some configuration) 9000 500

abbrev selection : EapSelection
selection = record {
  profile = profile;
  adapter = adapter;
  fingerprint = "sha256:digest";
  identity_sha256 = "";
  prior_identities = [];
  request_id = "request";
  artifact_path = "";
  artifact_sha256 = "";
}

-- An active identity of the office's network
abbrev active_state : EapState
active_state = record observed_state {
  selections =
      record {
        profile = profile;
        adapter = adapter;
        fingerprint = "sha256:digest";
        identity_sha256 = "";
        prior_identities = [];
        request_id = "request";
        artifact_path = "";
        artifact_sha256 = "";
      }
      ∷ [];
  active = some (record {
    request_id = "request";
    csr = "csr";
    certificate = some certificate;
    stale = false;
    activated_at = 1000;
  });
}

abbrev active : AdmissionManager
active = record observed { state = active_state; saved = active_state }

connect_admission-Connected_example :
    IsRefused env active (connect_admission env "office" active)
    ⊎ IsConnected env active "office" (connect_admission env "office" active)
connect_admission-Connected_example = connect_admission-Connected env active "office"

connected : (connect_admission env "office" active).0 ≡ ok
unfolding connect_admission current_profile str_eq blank active_current current_certificate
    current_with eap_profile_hash is_unchanged
connected = refl

works : Works env
works = (λ h job. refl, λ h s. refl)

removes : Removes env
removes = (λ h p a identities. refl, λ h artifacts. refl)

remove_profile-Releases_example :
    ((remove_profile env "office" active).0 ≡ ok)
    × IsReleased (remove_profile env "office" active).1.state
remove_profile-Releases_example =
    remove_profile-Releases env works removes selection active refl (ground arith)

-- A cleanup that is owed under each of sixteen requests
abbrev owed : List String → List EapCleanup
owed [] = []
owed (request ∷ requests) =
    record { request_id = request; certificate = none; ca_certificates = []; artifacts = [] }
    ∷ owed requests

abbrev crowded_state : EapState
crowded_state = record active_state {
  cleanup = owed (
      "a" ∷ "b" ∷ "c" ∷ "d" ∷ "e" ∷ "f" ∷ "g" ∷ "h" ∷ "i" ∷ "j" ∷ "k" ∷ "l" ∷ "m" ∷ "n" ∷ "o" ∷ "p"
      ∷ []);
}

abbrev crowded : AdmissionManager
crowded = record active { state = crowded_state; saved = crowded_state; profiles = [] }

-- Sixteen owed cleanups leave no room for that of a selection: Check fails to save before it cleans up, and
-- the state is the one before, though nothing that it asks of the system or the disk would fail.
crowded_refused : (check_admission env crowded).0 ≡ fail "EAP state exceeds the safe size"
unfolding check_admission check_selections is_unchanged current_profile detach_selection
    queue_cleanup queue_identity save str_eq blank recover_artifacts
crowded_refused = refl

crowded_kept : (check_admission env crowded).1.state ≡ crowded_state
unfolding check_admission check_selections is_unchanged current_profile detach_selection
    queue_cleanup queue_identity save str_eq blank recover_artifacts
crowded_kept = refl
