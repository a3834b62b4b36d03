-- ===== src/Endpoint/Admission/State.antt =====
-- eap_manager.go, eap_cleanup.go, eap_protocol.go: the state of `AdmissionManager`, and what it asks of the
-- control plane, of the system and of the disk.
use soha_app.Base.{
  ℕ, String, Bool, true, false, ◌&&◌, ◌||◌, Option, none, some, List, [], ◌∷◌, ltb, if◌then◌else◌,
  str_eq,
}
use soha_app.Base.Errors.{Error, fail, failed, join, ok}
use soha_app.Endpoint.Protocol.{AdmissionProfile, Time}
use soha_app.Endpoint.Manager.State.{Answer}
use soha_app.Endpoint.Admission.Certificates.{X509}

-- EAPCertificateResult
pub record EapCertificate : Type 0 where
  pub credential_id : String
  pub certificate_pem : String
  pub ca_certificate_pem : String
  pub fingerprint : String
  pub expires_at : Time
  pub status : String

-- EAPCertificateActivateResult
pub record EapActivation : Type 0 where
  pub credential_id : String
  pub fingerprint : String
  pub expires_at : Time
  pub status : String

pub record EapAdapter : Type 0 where
  pub id : String
  pub name : String
  pub medium : String
  pub mac_address : String
  pub ethernet_position : ℕ
  pub enabled : Bool
  pub link_up : Bool

pub record EapProfileIdentity : Type 0 where
  pub fingerprint : String
  pub identity_sha256 : String

pub record EapArtifact : Type 0 where
  pub path : String
  pub sha256 : String

pub record EapStagedProfile : Type 0 where
  pub artifact : EapArtifact
  pub identity_sha256 : String

pub record EapCleanup : Type 0 where
  pub request_id : String
  pub certificate : Option EapCertificate
  pub ca_certificates : List String
  pub artifacts : List EapArtifact

pub record EapSelection : Type 0 where
  pub profile : AdmissionProfile
  pub adapter : EapAdapter
  pub fingerprint : String
  pub identity_sha256 : String
  pub prior_identities : List EapProfileIdentity
  pub request_id : String
  pub artifact_path : String
  pub artifact_sha256 : String

pub record EapIdentity : Type 0 where
  pub request_id : String
  pub csr : String
  pub certificate : Option EapCertificate
  pub stale : Bool
  pub activated_at : Time

-- eapState. What the file can hold: a negative epoch is refused when the file is read.
pub record EapState : Type 0 where
  pub version : ℕ
  pub device_id : String
  pub epoch : ℕ
  pub selections : List EapSelection
  pub active : Option EapIdentity
  pub pending : Option EapIdentity
  pub cleanup : List EapCleanup

-- What the control plane answers to a request for a certificate: ErrEAPCertificateStale stands apart.
pub data Certified (A : Type 0) : Type 0 where
  certified : A → Certified A
  stale_identity : List String → Certified A
  uncertified : List String → Certified A

-- What was asked, the newest first.
pub data EapEvent : Type 0 where
  adapters_listed : EapEvent
  csr_created : String → EapEvent
  certificate_issued : String → String → String → EapEvent
  certificate_activated : String → String → EapEvent
  profile_staged : String → AdmissionProfile → EapAdapter → EapEvent
  profile_read_back : String → AdmissionProfile → EapCertificate → EapAdapter → Error → EapEvent
  profile_removed : AdmissionProfile → EapAdapter → List EapProfileIdentity → Error → EapEvent
  profile_connected : String → AdmissionProfile → EapCertificate → EapAdapter → EapEvent
  credentials_cleaned : EapCleanup → Error → EapEvent
  artifacts_recovered : List EapArtifact → EapEvent
  state_saved : EapState → Error → EapEvent

abbrev pub EapHistory : Type 0
EapHistory = List EapEvent

-- EAPControl, EAPSystem, the clock, the random identifiers, the file and the digests, which answer from the
-- history. Between two calls the clock stands still.
pub record EapSystem : Type 0 where
  pub now : EapHistory → Time
  pub random_id : EapHistory → String
  pub adapters : EapHistory → Answer (List EapAdapter)
  pub create_csr : EapHistory → String → Answer String
  pub issue : EapHistory → String → String → String → String → Certified EapCertificate
  pub activate : EapHistory → String → String → Certified EapActivation
  pub stage :
      EapHistory → String → AdmissionProfile → EapCertificate → EapAdapter → Answer EapStagedProfile
  pub readback : EapHistory → String → AdmissionProfile → EapCertificate → EapAdapter → Error
  pub remove : EapHistory → AdmissionProfile → EapAdapter → List EapProfileIdentity → Error
  pub connect : EapHistory → String → AdmissionProfile → EapCertificate → EapAdapter → Error
  pub cleanup : EapHistory → EapCleanup → Error
  pub recover_artifacts : EapHistory → List EapArtifact → Error
  -- Whether the state was marshalled, short enough, and written.
  pub write : EapHistory → EapState → Error
  -- The hexadecimal SHA-256 of a profile's JSON
  pub profile_digest : AdmissionProfile → String
  pub x509 : X509

-- AdmissionManager, with the state that the file holds and the history.
pub record AdmissionManager : Type 0 where
  pub state : EapState
  pub saved : EapState
  pub profiles : List AdmissionProfile
  pub valid_until : Time
  pub observed_at : Time
  pub diagnostic : String
  pub history : EapHistory

infixl 10 ◌then_do◌
-- `if err != nil { return err }`, and what follows
abbrev pub ◌then_do◌ :
    Error × AdmissionManager
    → (AdmissionManager → Error × AdmissionManager)
    → Error × AdmissionManager
(ok, m) then_do f = f m
(failed e, m) then_do f = (failed e, m)

-- A deferred call, whose error is joined to the result.
abbrev pub deferring :
    Error × AdmissionManager
    → (AdmissionManager → Error × AdmissionManager)
    → Error × AdmissionManager
deferring (e, m) f = (join e (f m).0, (f m).1)

abbrev pub log_event : EapEvent → AdmissionManager → AdmissionManager
log_event event m = record m { history = event ∷ m.history }

abbrev pub diagnose : String → AdmissionManager → AdmissionManager
diagnose text m = record m { diagnostic = text }

unfoldable pub artifact_eq : EapArtifact → EapArtifact → Bool
artifact_eq a b = str_eq a.path b.path && str_eq a.sha256 b.sha256

unfoldable pub prior_eq : EapProfileIdentity → EapProfileIdentity → Bool
prior_eq a b = str_eq a.fingerprint b.fingerprint && str_eq a.identity_sha256 b.identity_sha256

abbrev pub has_prior : List EapProfileIdentity → EapProfileIdentity → Bool
has_prior [] prior = false
has_prior (p ∷ ps) prior = prior_eq p prior || has_prior ps prior

module _ (env : EapSystem) where
  -- eapProfileHash
  unfoldable pub eap_profile_hash : AdmissionProfile → String
  eap_profile_hash profile =
      env.profile_digest (record profile { client_certificate_fingerprint = "" })

  find_profile : String → List AdmissionProfile → Option AdmissionProfile
  find_profile id [] = none
  find_profile id (p ∷ ps) = if str_eq p.id id then some p else find_profile id ps

  -- currentProfile
  unfoldable pub current_profile : String → AdmissionManager → Option AdmissionProfile
  unfolding find_profile
  current_profile id m =
      if ltb (env.now m.history) m.valid_until then find_profile id m.profiles else none

  -- The error of currentProfile
  unfoldable pub profile_error : AdmissionManager → Error
  profile_error m =
      if ltb (env.now m.history) m.valid_until
      then fail "EAP profile is no longer authorized"
      else fail "EAP authorization must be refreshed"

  -- The profile is still the one that was selected, but for its certificate's fingerprint.
  unfoldable pub is_unchanged : Option AdmissionProfile → EapSelection → Bool
  unfolding eap_profile_hash
  is_unchanged none selection = false
  is_unchanged (some profile) selection =
      str_eq (eap_profile_hash profile) (eap_profile_hash selection.profile)

  -- The loop of activeCurrent
  names_fingerprint : Option AdmissionProfile → String → Bool
  names_fingerprint none fingerprint = false
  names_fingerprint (some profile) fingerprint =
      str_eq profile.client_certificate_fingerprint fingerprint

  pub all_current : String → List EapSelection → AdmissionManager → Bool
  unfolding names_fingerprint current_profile
  all_current fingerprint [] m = true
  all_current fingerprint (s ∷ ss) m =
      names_fingerprint (current_profile s.profile.id m) fingerprint && all_current fingerprint ss m

  -- The certificate of an identity, while it has not expired.
  unfoldable pub current_certificate : Option EapIdentity → Time → Option EapCertificate
  current_certificate none now = none
  current_certificate (some identity) now = elim identity.certificate [
    | none ↦ none
    | some c ↦ if ltb now c.expires_at then some c else none
  ]

  pub activated_after : Option EapIdentity → Time → Bool
  activated_after none observed = false
  activated_after (some identity) observed = ltb observed identity.activated_at

  -- activeCurrent: the certificate of the active identity, if it is current.
  unfoldable pub current_with : AdmissionManager → Option EapCertificate → Option EapCertificate
  unfolding all_current activated_after
  current_with m none = none
  current_with m (some c) =
      if activated_after m.state.active m.observed_at
        || all_current c.fingerprint m.state.selections m
      then some c
      else none

  unfoldable pub active_current : AdmissionManager → Option EapCertificate
  unfolding current_certificate current_with
  active_current m = current_with m (current_certificate m.state.active (env.now m.history))

certificate_of : Option EapIdentity → Option EapCertificate
certificate_of none = none
certificate_of (some identity) = identity.certificate

-- targetCertificate
unfoldable pub target_certificate : EapState → Option EapCertificate
unfolding certificate_of
target_certificate s = elim s.pending [
  | some identity ↦ identity.certificate
  | none ↦ certificate_of s.active
]
