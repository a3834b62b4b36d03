-- ===== src/Endpoint/Admission/Connection.antt =====
-- eap_manager.go: Connect.
pub mod Keys
pub mod Authorized
use Prim.Native.String
use soha_app.Base.{
  ℕ, suc, ◌+◌, String, Bool, true, false, not, ◌&&◌, ◌||◌, Option, none, some, List, [], ◌∷◌, ◌++◌,
  ltb, leb, ◌==◌, if◌then◌else◌, str_eq, blank, contains, length, is_some, is_empty, codes, all,
}
use soha_app.Base.Errors.{Error, fail, failed, is_ok, join, ok}
use soha_app.Endpoint.Protocol.{AdmissionConfiguration, AdmissionProfile, Time}
use soha_app.Endpoint.Identifier.{matches_identifier}
use soha_app.Endpoint.Manager.State.{Answer, got, refused}
use soha_app.Endpoint.Manager.Floor.{matches_digest}
use soha_app.Endpoint.Proxy.Names.{byte_length}
use soha_app.Endpoint.Admission.State.{
  AdmissionManager, Certified, EapActivation, EapAdapter, EapCertificate, EapHistory, EapIdentity,
  EapProfileIdentity, EapSelection, EapState, EapSystem, active_current, adapters_listed,
  certificate_activated, certified, current_profile, deferring, diagnose, profile_error,
  is_unchanged, log_event, profile_connected, profile_read_back, profile_removed, stale_identity,
  target_certificate, uncertified, ◌then_do◌,
}
use soha_app.Endpoint.Admission.Validation.{validate_admission_profile}
use soha_app.Endpoint.Admission.Store.{
  artifacts_of, clean_up, detach_selection, queue_artifacts, queue_identity, recover_artifacts,
  save,
}
use soha_app.Endpoint.Admission.Identity.{ensure_identity, join_saved, lasts, prior_of, stage}
use soha_app.Endpoint.Admission.Changes.{
  identities_of, on_failure, first_identity, has_certificate, and_then_all, settled_selections,
  queue_all_artifacts, is_settled, is_receipt, mark_stale, promote, refuse_expired,
  pending_is_stale, find_adapter, conflicts, is_selected, find_selection,
}

module _ (env : EapSystem) where
  connect_read :
      AdmissionProfile
      → EapCertificate
      → EapSelection
      → Error
      → AdmissionManager
      → Error × AdmissionManager
  connect_read profile c s (failed e) m = (failed e, m)
  connect_read profile c s ok m = (
    env.connect m.history s.request_id profile c s.adapter,
    log_event (profile_connected s.request_id profile c s.adapter) m,
  )

  connect_selected :
      AdmissionProfile → EapCertificate → EapSelection → AdmissionManager → Error × AdmissionManager
  unfolding connect_read
  connect_selected profile c s m =
      let e = env.readback m.history s.request_id profile c s.adapter in
      connect_read profile c s e
        (log_event (profile_read_back s.request_id profile c s.adapter e) m)

  -- The loop of Connect
  connect_from :
      AdmissionProfile
      → EapCertificate
      → List EapSelection
      → AdmissionManager
      → Error × AdmissionManager
  unfolding connect_selected is_unchanged
  connect_from profile c [] m = (fail "EAP profile has not been installed", m)
  connect_from profile c (s ∷ ss) m =
      let rest = connect_from profile c ss in
      if str_eq s.profile.id profile.id && is_unchanged env (some profile) s
      then connect_selected profile c s m
      else rest m

  connect_profile :
      EapCertificate → Option AdmissionProfile → AdmissionManager → Error × AdmissionManager
  unfolding connect_from
  connect_profile c none m = (profile_error env m, m)
  connect_profile c (some profile) m = connect_from profile c m.state.selections m

  connect_current : String → Option EapCertificate → AdmissionManager → Error × AdmissionManager
  unfolding connect_profile
  connect_current id none m =
      (fail "EAP identity must be installed and activated before connecting", m)
  connect_current id (some c) m = connect_profile c (current_profile env id m) m

  -- Connect
  unfoldable pub connect_admission : String → AdmissionManager → Error × AdmissionManager
  unfolding connect_current active_current
  connect_admission id m =
      if is_some m.state.pending
      then (fail "EAP identity must be installed and activated before connecting", m)
      else connect_current id (active_current env m) m
